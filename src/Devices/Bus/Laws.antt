-- ===== src/Devices/Bus/Laws.antt =====
-- The device used last is only a cache: where no two devices overlap, it never changes which device
-- an address reaches.
use mr_iss.Base.{
  ℕ, zero, suc, ◌+◌, ◌≡◌, refl, ap, ◌∙◌, inl, inr, true, false, some, List, [], ◌∷◌, arith,
  Bool-cases, get_or, done,
}
use mr_iss.Devices.Bus.{
  BusDev, Bus, no_dev, covers, dev_matches_addr, find_from, find_dev_for_addr, found, get_dev,
}

pub none_covers : (D : Type 0) (addr : ℕ) → covers (no_dev {D = D}) addr ≡ false
unfolding covers
none_covers D addr = ground arith

module _ {D : Type 0} where
  -- No address is in the ranges of two slots.
  abbrev pub Disjoint : List (BusDev D) → Type 0
  Disjoint devs =
      (i j addr : ℕ)
      → covers (get_or devs i no_dev) addr ≡ true
      → covers (get_or devs j no_dev) addr ≡ true
      → i ≡ j

  -- What the search finds from slot `k` on is a slot that covers the address, and it finds one where
  -- there is one.
  pub find_from-finds :
      (devs : List (BusDev D)) (k i addr : ℕ)
      → covers (get_or devs i no_dev) addr ≡ true
      → (j : ℕ) × (find_from devs k addr ≡ some (k + j))
        × (covers (get_or devs j no_dev) addr ≡ true)
  unfolding find_from
  find_from-finds [] k i addr h = ground (arith, none_covers D addr)
  find_from-finds (e ∷ es) k zero addr h = (0, rw h (ap some (omega arith)), h)
  find_from-finds (e ∷ es) k (suc i) addr h = elim (Bool-cases (covers e addr)) [
    | inl c ↦ (0, rw c (ap some (omega arith)), c)
    | inr c ↦
        let (j, f, c') = find_from-finds es (suc k) i addr h in
        (suc j, rw c (f ∙ ap some (omega arith)), c')
  ]

  -- On a bus whose devices do not overlap, a lookup finds the device that a search of all slots finds,
  -- whichever one was used last, and is fatal exactly where that search finds none.
  pub get_dev-find :
      (b : Bus D) (addr : ℕ) → Disjoint b.devs → get_dev b addr ≡ found b (find_dev_for_addr b addr)
  unfolding get_dev dev_matches_addr find_dev_for_addr
  get_dev-find b addr h = elim (Bool-cases (dev_matches_addr b b.last_dev addr)) [
    | inl c ↦
        let (j, f, c') = find_from-finds b.devs 0 b.last_dev addr c in
        rw (c, f)
          (ap (λ i. done (i, record b { last_dev = i })) (h b.last_dev j addr c c' ∙ omega arith))
    | inr c ↦ rw c refl
  ]
