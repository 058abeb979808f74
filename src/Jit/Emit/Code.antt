-- ===== src/Jit/Emit/Code.antt =====
-- Code in memory: runs of bytes that are written one after the other, and the runs of the machine over them.
use mr_iss.Jit.Emit.{write}
use mr_iss.Jit.Emit.X86.{Insn, ret, encode, Holds, Fits}
use mr_iss.Jit.Emit.Machine.{Call, Machine, effect, Runs, here, next, step-encode}
use mr_iss.Base.{
  ℕ, zero, suc, ◌+◌, ◌-◌, ◌≤◌, ◌<◌, ◌≡◌, refl, sym, ap, ◌∙◌, inl, inr, List, [], ◌∷◌, ◌++◌, arith,
  ltb, ◌==◌, if◌then◌else◌, ==_self, Bool-cases, length, get_or,
}

abbrev pub assemble : List Insn → List ℕ
assemble [] = []
assemble (i ∷ is) = encode i ++ assemble is

pub length-append : (xs ys : List ℕ) → length (xs ++ ys) ≡ length xs + length ys
length-append [] ys = omega arith
length-append (x ∷ xs) ys = omega (arith, length-append xs ys)

get_or-front : (xs ys : List ℕ) (i : ℕ) → i < length xs → get_or (xs ++ ys) i 0 ≡ get_or xs i 0
get_or-front [] ys i h = absurd (omega arith)
get_or-front (x ∷ xs) ys zero h = refl
get_or-front (x ∷ xs) ys (suc i) h = get_or-front xs ys i (omega arith)

get_or-back : (xs ys : List ℕ) (i : ℕ) → get_or (xs ++ ys) (length xs + i) 0 ≡ get_or ys i 0
get_or-back [] ys i = ap (λ k. get_or ys k 0) (omega arith)
get_or-back (x ∷ xs) ys i =
    let e : suc (length xs) + i ≡ suc (length xs + i) = omega arith in rw e (get_or-back xs ys i)

module _ (f : ℕ → ℕ) (a : ℕ) (xs ys : List ℕ) where
  pub Holds-front : Holds f a (xs ++ ys) → Holds f a xs
  Holds-front h i k = h i (omega (arith, length-append xs ys)) ∙ get_or-front xs ys i k

  pub Holds-back : Holds f a (xs ++ ys) → Holds f (a + length xs) ys
  Holds-back h i k =
      let e : a + length xs + i ≡ a + (length xs + i) = omega arith in
      rw e (h (length xs + i) (omega (arith, length-append xs ys)) ∙ get_or-back xs ys i)

  pub Holds-append : Holds f a xs → Holds f (a + length xs) ys → Holds f a (xs ++ ys)
  Holds-append h k i l = elim (Bool-cases (ltb i (length xs))) [
    | inl e ↦ h i (ground arith) ∙ sym (get_or-front xs ys i (ground arith))
    | inr e ↦
        let j : ℕ = i - length xs in
        let at : length xs + j ≡ i = ground arith in
        let under : j < length ys = omega (arith, length-append xs ys) in
        ap f (omega arith)
        ∙ k j under
        ∙ sym (get_or-back xs ys j)
        ∙ ap (λ n. get_or (xs ++ ys) n 0) at
  ]

pub write-below : (f : ℕ → ℕ) (a : ℕ) (bs : List ℕ) (x : ℕ) → x < a → write f a bs x ≡ f x
unfolding write
write-below f a [] x h = refl
write-below f a (b ∷ bs) x h =
    ground (arith, write-below (λ y. if y == a then b else f y) (a + 1) bs x)

pub write-above :
    (f : ℕ → ℕ) (a : ℕ) (bs : List ℕ) (x : ℕ) → a + length bs ≤ x → write f a bs x ≡ f x
unfolding write
write-above f a [] x h = refl
write-above f a (b ∷ bs) x h =
    ground (arith, write-above (λ y. if y == a then b else f y) (a + 1) bs x)

pub Holds-write : (f : ℕ → ℕ) (a : ℕ) (bs : List ℕ) → Holds (write f a bs) a bs
unfolding write
Holds-write f a [] i h = absurd (omega arith)
Holds-write f a (b ∷ bs) zero h =
    let e : a + 0 ≡ a = omega arith in
    write-below (λ y. if y == a then b else f y) (a + 1) bs (a + 0) (omega arith)
    ∙ rw (e, ==_self a)
Holds-write f a (b ∷ bs) (suc i) h =
    let e : a + suc i ≡ a + 1 + i = omega arith in
    rw e (Holds-write (λ y. if y == a then b else f y) (a + 1) bs i (omega arith))

abbrev IsStraight : Insn → Type 0
IsStraight ret = ⊥
IsStraight i = Unit

-- Instructions that go on to the next one, with constants that fit.
abbrev pub AllStraight : List Insn → Type 0
AllStraight [] = Unit
AllStraight (i ∷ is) = Fits i × IsStraight i × AllStraight is

module _ (junk : List Call → ℕ → ℕ) where
  abbrev pub effects : List Insn → Machine → Machine
  effects [] m = m
  effects (i ∷ is) m = effects is (effect junk i m)

  rip-effect :
      (i : Insn) (m : Machine) → IsStraight i → (effect junk i m).rip ≡ m.rip + length (encode i)
  rip-effect ret m h = absurd h
  rip-effect i m h = refl

  -- Straight code that stands at the instruction pointer runs to the end of its bytes.
  pub Runs-assemble :
      (code : ℕ → ℕ) (is : List Insn) (m : Machine)
      → AllStraight is
      → Holds code m.rip (assemble is)
      → Runs junk code m (effects is m)
  Runs-assemble code [] m k h = here
  Runs-assemble code (i ∷ is) m (fits, straight, more) h =
      let back = Holds-back code m.rip (encode i) (assemble is) h in
      next (step-encode junk code m i fits (Holds-front code m.rip (encode i) (assemble is) h))
        (Runs-assemble code is (effect junk i m) more (rw (rip-effect i m straight) back))
