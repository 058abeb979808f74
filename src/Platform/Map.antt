-- ===== src/Platform/Map.antt =====
-- On every platform each address of a device reaches that device, whichever one was used last.
use mr_iss.Devices.Bus.{
  DeviceOps, BusDev, Bus, no_dev, covers, find_dev_for_addr, get_dev, init, attach,
}
use mr_iss.Devices.Bus.Laws.{Disjoint, none_covers, find_from-finds, get_dev-find}
use mr_iss.Devices.Ram
use mr_iss.Devices.Ram.{Ram, load_at_offset}
use mr_iss.Platform.{
  Platform, mr1, mr2, mr3, Part, ram, boot_ram, Place, places, attach_all, platform_init,
  load_image, into_main, into_boot, base_of, size_of,
}
use mr_iss.Base.{
  ℕ, zero, suc, ◌+◌, ◌^◌, ◌≤◌, ◌<◌, ◌≡◌, refl, sym, ap, Bool, true, false, ◌&&◌, ◌||◌, Option, none,
  some, List, [], ◌∷◌, arith, ltb, leb, get_or, replicate, get_or-replicate, Yields, done, fatal,
  inl, inr, Bool-cases, ◌-◌, ◌*◌,
}
use mr_iss.Devices.Bus.{attach_to}
use mr_iss.Base.{Yields-weaken, Yields-bind, Yields-done, Yields-test, length, if◌then◌else◌}

-- Whether two ranges are apart, and whether all ranges of a list are, below the end of the addresses.
abbrev apart : Place → Place → Bool
apart p q = leb (p.base + p.size) q.base || leb (q.base + q.size) p.base

abbrev apart_from : Place → List Place → Bool
apart_from p [] = true
apart_from p (q ∷ qs) = apart p q && apart_from p qs

abbrev all_apart : List Place → Bool
all_apart [] = true
all_apart (p ∷ ps) = (ltb (p.base + p.size) (2 ^ 32) && apart_from p ps) && all_apart ps

places-all_apart : (platform : Platform) → all_apart (places platform) ≡ true
unfolding places
places-all_apart mr1 = refl
places-all_apart mr2 = refl
places-all_apart mr3 = refl

both_true : (a b : Bool) → (a && b) ≡ true → (a ≡ true) × (b ≡ true)
both_true true true h = (refl, refl)
both_true true false h = absurd (cc)
both_true false b h = absurd (cc)

all_apart_cons :
    (p : Place) (ps : List Place)
    → all_apart (p ∷ ps) ≡ true
    → (ltb (p.base + p.size) (2 ^ 32) ≡ true) × (apart_from p ps ≡ true) × (all_apart ps ≡ true)
all_apart_cons p ps h =
    let (a, b) = both_true (ltb (p.base + p.size) (2 ^ 32) && apart_from p ps) (all_apart ps) h in
    let (c, d) = both_true (ltb (p.base + p.size) (2 ^ 32)) (apart_from p ps) a in (c, d, b)

abbrev place_or : Place → Option Place → Place
place_or q none = q
place_or q (some p) = p

abbrev pub get_at : List Place → ℕ → Option Place
get_at [] i = none
get_at (p ∷ ps) zero = some p
get_at (p ∷ ps) (suc i) = get_at ps i

-- The RAM that holds a load address, and that an image fits there.
abbrev holder : Platform → ℕ → Part
holder mr3 load_addr = if leb 0xfff0_0000 load_addr then boot_ram else ram
holder platform load_addr = ram

abbrev pub Fits : Platform → ℕ → List ℕ → Type 0
Fits platform load_addr file =
    (base_of platform (holder platform load_addr) ≤ load_addr)
    × (length file + load_addr
        ≤ base_of platform (holder platform load_addr)
          + size_of platform (holder platform load_addr))

load_at_offset-Loads :
    (m : Ram) (file : List ℕ) (got offset : ℕ)
    → m.mapped ≡ true
    → length file + offset ≤ m.address_span
    → length file ≤ got
    → Yields (λ _. Unit {0}) (load_at_offset m (some (file, some got)) offset)
unfolding load_at_offset
load_at_offset-Loads m file got offset h k l =
    let inside : ltb m.address_span (length file + offset) ≡ false = ground arith in
    let whole : ltb got (length file) ≡ false = ground arith in rw (h, inside, whole) tt

into_main-Loads :
    (offset : ℕ) (file : List ℕ) (got : ℕ) (main boot : Ram)
    → main.mapped ≡ true
    → length file + offset ≤ main.address_span
    → length file ≤ got
    → Yields (λ _. Unit {0}) (into_main offset (some (file, some got)) main boot)
into_main-Loads offset file got main boot h k l =
    Yields-bind (λ _. Unit {0}) (λ _. Unit {0}) (load_at_offset main (some (file, some got)) offset)
      (λ r. done (r, boot)) (load_at_offset-Loads main file got offset h k l) (λ r _. tt)

into_boot-Loads :
    (offset : ℕ) (file : List ℕ) (got : ℕ) (main boot : Ram)
    → boot.mapped ≡ true
    → length file + offset ≤ boot.address_span
    → length file ≤ got
    → Yields (λ _. Unit {0}) (into_boot offset (some (file, some got)) main boot)
into_boot-Loads offset file got main boot h k l =
    Yields-bind (λ _. Unit {0}) (λ _. Unit {0}) (load_at_offset boot (some (file, some got)) offset)
      (λ r. done (main, r)) (load_at_offset-Loads boot file got offset h k l) (λ r _. tt)

load_image-Loads :
    (platform : Platform) (load_addr : ℕ) (file : List ℕ) (got : ℕ) (main boot : Ram)
    → Fits platform load_addr file
    → length file ≤ got
    → Yields
        (λ _. Unit {0})
        (load_image platform load_addr
          (some (file, some got))
          (Ram.init main (size_of platform ram))
          (Ram.init boot (size_of platform boot_ram)))
unfolding load_image base_of size_of Ram.init
load_image-Loads mr1 load_addr file got main boot (low, high) whole =
    Yields-test (λ _. Unit {0}) (leb 0 load_addr) _ fatal
      (λ _.
        into_main-Loads (load_addr - 0) file got (Ram.init main (size_of mr1 ram))
          (Ram.init boot (size_of mr1 boot_ram)) refl (omega arith) whole)
      (λ e. absurd (ground (arith, e)))
load_image-Loads mr2 load_addr file got main boot (low, high) whole =
    Yields-test (λ _. Unit {0}) (leb 0 load_addr) _ fatal
      (λ _.
        into_main-Loads (load_addr - 0) file got (Ram.init main (size_of mr2 ram))
          (Ram.init boot (size_of mr2 boot_ram)) refl (omega arith) whole)
      (λ e. absurd (ground (arith, e)))
load_image-Loads mr3 load_addr file got main boot fits whole =
    let m = Ram.init main (size_of mr3 ram) in
    let b = Ram.init boot (size_of mr3 boot_ram) in
    elim (Bool-cases (leb 0xfff0_0000 load_addr)) [
      | inl e ↦
          let room : length file + (load_addr - 0xfff0_0000) ≤ 64 * 0x400 = ground arith in
          rw e (into_boot-Loads (load_addr - 0xfff0_0000) file got m b refl room whole)
      | inr e ↦
          let room : length file + (load_addr - 0) ≤ 32 * 0x10_0000 = ground arith in
          let low : leb 0 load_addr ≡ true = ground arith in
          rw (e, low) (into_main-Loads (load_addr - 0) file got m b refl room whole)
    ]

module _ {D : Type 0} (ops : DeviceOps D) (device_of : Part → D) where
  -- The slot that `attach` fills.
  abbrev slot : Place → BusDev D
  slot p = record {
    addr = p.base;
    size = p.size;
    dev = some (ops.set_props (device_of p.part) p.base p.size);
  }

  abbrev slots : List Place → ℕ → List (BusDev D)
  slots [] n = replicate n no_dev
  slots (p ∷ ps) n = slot p ∷ slots ps n

  init-slots :
      (platform : Platform)
      → (n : ℕ) × (attach_all ops device_of init (places platform)
          ≡ done (record { devs = slots (places platform) n; last_dev = 0 }))
  unfolding attach_all attach attach_to init places
  init-slots mr1 = (25, refl)
  init-slots mr2 = (29, refl)
  init-slots mr3 = (16, refl)

  -- The addresses of a place.
  abbrev Within : Place → ℕ → Type 0
  Within p addr = (p.base ≤ addr) × (addr < p.base + p.size)

  covers-Within :
      (p : Place) (addr : ℕ)
      → ltb (p.base + p.size) (2 ^ 32) ≡ true
      → covers (slot p) addr ≡ true
      → Within p addr
  unfolding covers
  covers-Within p addr h c = ground arith

  Within-covers :
      (p : Place) (addr : ℕ)
      → ltb (p.base + p.size) (2 ^ 32) ≡ true
      → Within p addr
      → covers (slot p) addr ≡ true
  unfolding covers
  Within-covers p addr h (lo, hi) = ground arith

  -- An address of a place is in no range that is apart from it.
  Within-alone :
      (p : Place) (ps : List Place) (n j addr : ℕ)
      → apart_from p ps ≡ true
      → all_apart ps ≡ true
      → Within p addr
      → covers (get_or (slots ps n) j no_dev) addr ≡ true
      → ⊥
  Within-alone p [] n j addr a b w c =
      absurd (ground (arith, get_or-replicate n j (no_dev {D = D}), none_covers D addr))
  Within-alone p (q ∷ qs) n zero addr a b w c =
      let (bounded, _, _) = all_apart_cons q qs b in
      let (first, _) = both_true (apart p q) (apart_from p qs) a in
      ground (arith, covers-Within q addr bounded c)
  Within-alone p (q ∷ qs) n (suc j) addr a b w c =
      let (_, _, more) = all_apart_cons q qs b in
      let (_, others) = both_true (apart p q) (apart_from p qs) a in
      Within-alone p qs n j addr others more w c

  slots-Disjoint : (ps : List Place) (n : ℕ) → all_apart ps ≡ true → Disjoint (slots ps n)
  slots-Disjoint [] n h i j addr c d =
      absurd (ground (arith, get_or-replicate n i (no_dev {D = D}), none_covers D addr))
  slots-Disjoint (p ∷ ps) n h zero zero addr c d = refl
  slots-Disjoint (p ∷ ps) n h zero (suc j) addr c d =
      let (bounded, apart, more) = all_apart_cons p ps h in
      absurd (Within-alone p ps n j addr apart more (covers-Within p addr bounded c) d)
  slots-Disjoint (p ∷ ps) n h (suc i) zero addr c d =
      let (bounded, apart, more) = all_apart_cons p ps h in
      absurd (Within-alone p ps n i addr apart more (covers-Within p addr bounded d) c)
  slots-Disjoint (p ∷ ps) n h (suc i) (suc j) addr c d =
      let (_, _, more) = all_apart_cons p ps h in ap suc (slots-Disjoint ps n more i j addr c d)

  -- A place of the list is the slot of its index.
  slot_at :
      (ps : List Place) (n i : ℕ) (p : Place)
      → get_at ps i ≡ some p
      → all_apart ps ≡ true
      → (get_or (slots ps n) i no_dev ≡ slot p) × (ltb (p.base + p.size) (2 ^ 32) ≡ true)
  slot_at [] n i p e h = absurd (cc)
  slot_at (q ∷ qs) n zero p e h =
      rw (sym {A = Place} (ap (λ (o : Option Place). place_or q o) e))
        (refl, (all_apart_cons q qs h).0)
  slot_at (q ∷ qs) n (suc i) p e h = slot_at qs n i p e (all_apart_cons q qs h).2

  reached :
      (ps : List Place) (n i last addr : ℕ) (p : Place)
      → all_apart ps ≡ true
      → get_at ps i ≡ some p
      → Within p addr
      → Yields
          (λ r. (r.0 ≡ i) × (get_or r.1.devs r.0 no_dev ≡ slot p))
          (get_dev (record { devs = slots ps n; last_dev = last }) addr)
  unfolding find_dev_for_addr
  reached ps n i last addr p h e w =
      let b : Bus D = record { devs = slots ps n; last_dev = last } in
      let (at_i, bounded) = slot_at ps n i p e h in
      let c : covers (get_or b.devs i no_dev) addr ≡ true =
        rw at_i (Within-covers p addr bounded w) in
      let (j, f, c') = find_from-finds b.devs 0 i addr c in
      let same : 0 + j ≡ i = omega (arith, slots-Disjoint ps n h j i addr c' c) in
      rw (get_dev-find b addr (slots-Disjoint ps n h), f, same) (refl, at_i)

  -- On every platform, where the image opens, is read whole and fits the RAM that holds its address, the set-up returns,
  -- with a bus on which each address in the range of a part, whichever slot was used last, reaches that part's
  -- device, which was told that range.
  pub platform_init-reaches :
      (platform : Platform) (load_addr : ℕ) (file : List ℕ) (got : ℕ) (main boot : Ram)
      (i last addr : ℕ) (p : Place)
      → Fits platform load_addr file
      → length file ≤ got
      → get_at (places platform) i ≡ some p
      → Within p addr
      → Yields
          (λ s.
            Yields
              (λ r.
                (r.0 ≡ i)
                × ((get_or r.1.devs r.0 no_dev).dev
                    ≡ some (ops.set_props (device_of p.part) p.base p.size)))
              (get_dev (record s.0 { last_dev = last }) addr))
          (platform_init ops device_of platform load_addr (some (file, some got)) main boot)
  unfolding platform_init
  platform_init-reaches platform load_addr file got main boot i last addr p fits whole e w =
      let (n, q) = init-slots platform in
      let (rams, _, loaded) =
        Yields-done
          (load_image platform load_addr (some (file, some got))
            (Ram.init main (size_of platform ram)) (Ram.init boot (size_of platform boot_ram)))
          (load_image-Loads platform load_addr file got main boot fits whole) in
      rw (loaded, q)
        (Yields-weaken _ _
          (get_dev (record { devs = slots (places platform) n; last_dev = last }) addr)
          (λ r h. (h.0, ap (λ (x : BusDev D). x.dev) h.1))
          (reached (places platform) n i last addr p (places-all_apart platform) e w))
