-- ===== src/Devices/Bus.antt =====
-- The physical bus, Bus.h, over devices of a type `D`: address decode, the device that was used last,
-- and dispatch.
pub mod Laws
use mr_iss.Base.{
  ℕ, suc, ◌+◌, Bool, ◌&&◌, Option, none, some, List, [], ◌∷◌, ltb, leb, if◌then◌else◌, get_or, set,
  replicate, u32, ◌>>=◌, Outcome, done, fatal,
}

-- `Device` (Device.h): what the bus calls of a device. A direct map is a host address.
pub record DeviceOps (D : Type 0) : Type 0 where
  pub read32 : D → ℕ → Outcome (ℕ × D)
  pub read16 : D → ℕ → Outcome (ℕ × D)
  pub read8 : D → ℕ → Outcome (ℕ × D)
  pub write32 : D → ℕ → ℕ → Outcome D
  pub write16 : D → ℕ → ℕ → Outcome D
  pub write8 : D → ℕ → ℕ → Outcome D
  pub set_props : D → ℕ → ℕ → D
  pub direct_map : D → ℕ → Option ℕ

pub record BusDev (D : Type 0) : Type 0 where
  pub addr : ℕ
  pub size : ℕ
  pub dev : Option D

pub record Bus (D : Type 0) : Type 0 where
  pub devs : List (BusDev D)
  pub last_dev : ℕ

abbrev bus_entries : ℕ
bus_entries = 32

module _ {D : Type 0} where
  abbrev pub no_dev : BusDev D
  no_dev = record { addr = 0; size = 0; dev = none }

  -- The constructor.
  unfoldable pub init : Bus D
  init = record { devs = replicate bus_entries no_dev; last_dev = 0 }

  -- The end of a range is computed in 32 bits.
  unfoldable pub covers : BusDev D → ℕ → Bool
  covers e addr = leb e.addr addr && ltb addr (u32 (e.addr + e.size))

  pub dev_matches_addr : Bus D → ℕ → ℕ → Bool
  unfolding covers
  dev_matches_addr b dev addr = covers (get_or b.devs dev no_dev) addr

  pub find_from : List (BusDev D) → ℕ → ℕ → Option ℕ
  unfolding covers
  find_from [] i addr = none
  find_from (e ∷ es) i addr =
      let rest = find_from es (suc i) addr in if covers e addr then some i else rest

  unfoldable pub find_dev_for_addr : Bus D → ℕ → Option ℕ
  unfolding find_from
  find_dev_for_addr b addr = find_from b.devs 0 addr

  abbrev pub found : Bus D → Option ℕ → Outcome (ℕ × Bus D)
  found b none = fatal
  found b (some i) = done (i, record b { last_dev = i })

  pub get_dev : Bus D → ℕ → Outcome (ℕ × Bus D)
  unfolding dev_matches_addr find_dev_for_addr
  get_dev b addr =
      if dev_matches_addr b b.last_dev addr
      then done (b.last_dev, b)
      else found b (find_dev_for_addr b addr)

module _ {D : Type 0} (ops : DeviceOps D) where
  -- The first slot without a device takes it.
  unfoldable pub attach_to : List (BusDev D) → D → ℕ → ℕ → Option (List (BusDev D))
  attach_to [] d base size = none
  attach_to (e ∷ es) d base size =
      let rest = attach_to es d base size in
      elim e.dev [
        | none ↦
            some (record { addr = base; size = size; dev = some (ops.set_props d base size) } ∷ es)
        | some _ ↦ elim rest [ none ↦ none | some after ↦ some (e ∷ after) ]
      ]

  unfoldable pub attach : Bus D → D → ℕ → ℕ → Outcome (Bus D)
  unfolding attach_to
  attach b d base size = elim (attach_to b.devs d base size) [
    | none ↦ fatal
    | some devs ↦ done (record b { devs = devs })
  ]

  -- The device of a slot; a matching slot has one.
  abbrev device : Bus D → ℕ → Outcome D
  device b i = elim (get_or b.devs i no_dev).dev [ none ↦ fatal | some d ↦ done d ]

  abbrev put : Bus D → ℕ → D → Bus D
  put b i d = record b { devs = set b.devs i (record (get_or b.devs i no_dev) { dev = some d }) }

  abbrev load : (D → ℕ → Outcome (ℕ × D)) → Bus D → ℕ → Outcome (ℕ × Bus D)
  load read b addr = get_dev b addr >>= λ r.
      device r.1 r.0 >>= λ d. read d addr >>= λ x. done (x.0, put r.1 r.0 x.1)

  abbrev store : (D → ℕ → ℕ → Outcome D) → Bus D → ℕ → ℕ → Outcome (Bus D)
  store write b addr value = get_dev b addr >>= λ r.
      device r.1 r.0 >>= λ d. write d addr value >>= λ d'. done (put r.1 r.0 d')

  unfoldable pub read32 : Bus D → ℕ → Outcome (ℕ × Bus D)
  unfolding get_dev
  read32 = load ops.read32

  unfoldable read16 : Bus D → ℕ → Outcome (ℕ × Bus D)
  unfolding get_dev
  read16 = load ops.read16

  unfoldable read8 : Bus D → ℕ → Outcome (ℕ × Bus D)
  unfolding get_dev
  read8 = load ops.read8

  unfoldable pub write32 : Bus D → ℕ → ℕ → Outcome (Bus D)
  unfolding get_dev
  write32 = store ops.write32

  unfoldable write16 : Bus D → ℕ → ℕ → Outcome (Bus D)
  unfolding get_dev
  write16 = store ops.write16

  unfoldable write8 : Bus D → ℕ → ℕ → Outcome (Bus D)
  unfolding get_dev
  write8 = store ops.write8

  unfoldable get_direct_map : Bus D → ℕ → Outcome (Option ℕ × Bus D)
  unfolding get_dev
  get_direct_map b addr =
      get_dev b addr >>= λ r. device r.1 r.0 >>= λ d. done (ops.direct_map d addr, r.1)
