-- ===== src/Platform/Saved/Ram.antt =====
-- The memory of a bank comes back from its chunks.
use mathlib.Core.List.{append-nil}
use mr_iss.Bits.Digits.{digit, digit-bit_or, digit_ext, digit_high}
use mr_iss.Bits.Fields.{bit_or-zero}
use mr_iss.Platform.Saved.{
  Item, header, block, Bank, chunk_sz, joined, put_chunk, bank_chunks, chunk_count, saved_banks,
}
use mr_iss.Base.{
  ℕ, zero, suc, ◌+◌, ◌-◌, ◌*◌, ◌/◌, ◌^◌, ◌≤◌, ◌<◌, bit_or, ◌≡◌, ◌≢◌, refl, sym, ap, subst, ◌∙◌, ◌⊎◌,
  inl, inr, true, false, not, ◌&&◌, List, [], ◌∷◌, arith, ltb, leb, ◌==◌, if◌then◌else◌, truthy,
  Bool-cases, u32,
}

-- The words of a block that stands first.
abbrev front : List Item → ℕ → ℕ
front [] j = 0
front (header n len data' ∷ is) j = 0
front (block w ∷ is) j = w j

-- Chunks of memory put back, by words of 64 bits: what no chunk holds is 0. A chunk of 8 bytes has no block.
abbrev pub load : List Item → ℕ → ℕ
load [] a = 0
load (block w ∷ is) a = load is a
load (header n len base ∷ is) a =
    let rest = load is a in
    if not (len == 8) && (leb (base / 8) a && ltb a (base / 8 + chunk_sz / 8))
    then front is (a - base / 8)
    else rest

zero_digit : (i : ℕ) → digit 0 i ≡ 0
zero_digit i = digit_high 0 0 i (omega arith) (omega arith)

bit_or_zero : (a b : ℕ) → bit_or a b ≡ 0 → (a ≡ 0) × (b ≡ 0)
bit_or_zero a b h = (
  digit_ext a 0 (λ i. omega (arith, digit-bit_or a b i, zero_digit i, ap (λ t. digit t i) h)),
  digit_ext b 0 (λ i. omega (arith, digit-bit_or a b i, zero_digit i, ap (λ t. digit t i) h)),
)

joined_zero : (n : ℕ) (w : ℕ → ℕ) (j : ℕ) → joined n w ≡ 0 → j < n → w j ≡ 0
unfolding joined
joined_zero zero w j h k = absurd (omega arith)
joined_zero (suc n) w j h k =
    let (before, last) = bit_or_zero (joined n w) (w n) h in
    elim (Bool-cases (j == n)) [
      | inl e ↦ ap w (ground arith) ∙ last
      | inr e ↦ joined_zero n w j before (ground arith)
    ]

-- The words of a chunk, in units of 64 bits.
abbrev cw : ℕ
cw = 0x4_0000

abbrev range : ℕ → ℕ → (ℕ → ℕ) → ℕ → ℕ
range k n words a = if leb k a && ltb a (k + n) then words a else 0

-- In a chunk, and not in it.
in_chunk :
    (k n a : ℕ)
    → (leb k a && ltb a (k + cw)) ≡ true
    → ((leb k a && ltb a (k + (cw + n))) ≡ true)
      × ((leb (k + cw) a && ltb a (k + cw + n)) ≡ false)
      × (k ≤ a)
      × (a - k < cw)
in_chunk k n a c = (ground arith, ground arith, ground arith, ground arith)

out_of_chunk :
    (k n a : ℕ)
    → (leb k a && ltb a (k + cw)) ≡ false
    → (leb (k + cw) a && ltb a (k + cw + n)) ≡ (leb k a && ltb a (k + (cw + n)))
out_of_chunk k n a c = ground arith

moved :
    (k q a : ℕ) → (leb (q + k) (q + a) && ltb (q + a) (q + k + cw)) ≡ (leb k a && ltb a (k + cw))
moved k q a = ground arith

-- One chunk before the rest of them.
range_step :
    (k n a q : ℕ) (words w : ℕ → ℕ) (more : ℕ)
    → ((j : ℕ) → w j ≡ words (k + j))
    → more ≡ range (k + cw) n words a
    → (if leb (q + k) (q + a) && ltb (q + a) (q + k + cw) then w (q + a - (q + k)) else more)
      ≡ range k (cw + n) words a
range_step k n a q words w more e h = elim (Bool-cases (leb k a && ltb a (k + cw))) [
  | inl c ↦
      let (inside, _, le, _) = in_chunk k n a c in
      rw (moved k q a, c, inside) (e (q + a - (q + k)) ∙ ap words (omega (arith, le)))
  | inr c ↦ rw (moved k q a, c, h, out_of_chunk k n a c) refl
]

-- A chunk of zeros before the rest of them.
range_skip :
    (k n a : ℕ) (words : ℕ → ℕ)
    → ((j : ℕ) → j < cw → words (k + j) ≡ 0)
    → range (k + cw) n words a ≡ range k (cw + n) words a
range_skip k n a words z = elim (Bool-cases (leb k a && ltb a (k + cw))) [
  | inl c ↦
      let (inside, outside, le, lt) = in_chunk k n a c in
      rw (inside, outside) (sym (z (a - k) lt) ∙ ap words (omega (arith, le)))
  | inr c ↦ rw (out_of_chunk k n a c) refl
]

-- The header's address in units of 64 bits.
header_at : (base k q : ℕ) → base ≡ 8 * q → 8 * q + 8 * k < 2 ^ 32 → u32 (base + 8 * k) / 8 ≡ q + k
header_at base k q e h = omega (arith, e, h)

-- A chunk is loaded, or was of zeros.
put_chunk-load :
    (n addr x : ℕ) (w : ℕ → ℕ) (rest : List Item)
    → (load (put_chunk n addr w rest) x
        ≡ (if leb (addr / 8) x && ltb x (addr / 8 + cw) then w (x - addr / 8) else load rest x))
      ⊎ ((load (put_chunk n addr w rest) x ≡ load rest x) × ((j : ℕ) → j < n → w j ≡ 0))
unfolding put_chunk
put_chunk-load n addr x w rest = elim (Bool-cases (truthy (joined n w))) [
  | inl c ↦ inl (rw c refl)
  | inr c ↦ inr (rw c refl, λ j lt. joined_zero n w j (ground (arith, c)) lt)
]

bank_step :
    (left k q a : ℕ) (b : Bank)
    → b.ram_pa_base ≡ 8 * q
    → 8 * q + 8 * k < 2 ^ 32
    → load (bank_chunks left (8 * k + chunk_sz) b) (q + a) ≡ range (k + cw) (left * cw) b.words a
    → load (bank_chunks (suc left) (8 * k) b) (q + a) ≡ range k (cw + left * cw) b.words a
unfolding bank_chunks
bank_step left k q a b e h more =
    elim (put_chunk-load cw (u32 (b.ram_pa_base + 8 * k)) (q + a) w
      (bank_chunks left (8 * k + chunk_sz) b)) [
        | inl c ↦
            c
            ∙ rw (header_at b.ram_pa_base k q e h)
                (range_step k (left * cw) a q b.words w _ (λ j. ap b.words (omega arith)) more)
        | inr (c, z) ↦
            c
            ∙ more
            ∙ range_skip k (left * cw) a b.words (λ j lt. ap b.words (omega arith) ∙ z j lt)
      ]
  where
    w : ℕ → ℕ
    w j = b.words (8 * k / 8 + j)

bank_chunks-load :
    (left k q a : ℕ) (b : Bank)
    → b.ram_pa_base ≡ 8 * q
    → 8 * q + 8 * k + left * chunk_sz ≤ 2 ^ 32
    → load (bank_chunks left (8 * k) b) (q + a) ≡ range k (left * cw) b.words a
unfolding bank_chunks
bank_chunks-load zero k q a b e h = ground arith
bank_chunks-load (suc left) k q a b e h =
    let more : load (bank_chunks left (8 * k + chunk_sz) b) (q + a)
        ≡ range (k + cw) (left * cw) b.words a =
      subst (λ (i : ℕ). load (bank_chunks left i b) (q + a) ≡ range (k + cw) (left * cw) b.words a)
        (omega arith) (bank_chunks-load left (k + cw) q a b e (omega (arith, h))) in
    bank_step left k q a b e (omega (arith, h)) more ∙ ap (λ n. range k n b.words a) (omega arith)

-- The words of a bank come back from its chunks, and nothing else does.
pub saved_banks-load :
    (b : Bank) (q a : ℕ)
    → b.ram_pa_base ≡ 8 * q
    → 8 * q + chunk_count b * chunk_sz ≤ 2 ^ 32
    → load (saved_banks (b ∷ [])) (q + a)
      ≡ (if ltb a (chunk_count b * (chunk_sz / 8)) then b.words a else 0)
unfolding saved_banks
saved_banks-load b q a e h =
    ap (λ is. load is (q + a)) (append-nil (bank_chunks (chunk_count b) 0 b))
    ∙ bank_chunks-load (chunk_count b) 0 q a b e (omega (arith, h))
    ∙ ground arith

-- Each block in the file has a word that is not 0: the chunks of zeros are left out.
abbrev pub IsSparse : List Item → Type 0
IsSparse [] = Unit {0}
IsSparse (header n len base ∷ is) = IsSparse is
IsSparse (block w ∷ is) = ((j : ℕ) × (j < chunk_sz / 8) × (w j ≢ 0)) × IsSparse is

joined_nonzero : (n : ℕ) (w : ℕ → ℕ) → joined n w ≢ 0 → (j : ℕ) × (j < n) × (w j ≢ 0)
unfolding joined
joined_nonzero zero w h = absurd (h refl)
joined_nonzero (suc n) w h = elim (Bool-cases (w n == 0)) [
  | inl e ↦
      let z : w n ≡ 0 = ground arith in
      let (j, lt, ne) =
        joined_nonzero n w (λ q. h (ap (bit_or (joined n w)) z ∙ bit_or-zero (joined n w) ∙ q)) in
      (j, omega (arith, lt), ne)
  | inr e ↦ (n, omega arith, λ q. absurd (ground (arith, q, e)))
]

truthy-ne : (x : ℕ) → truthy x ≡ true → x ≢ 0
truthy-ne x h q = absurd (ground (arith, q, h))

put_chunk-IsSparse :
    (n addr : ℕ) (w : ℕ → ℕ) (rest : List Item)
    → n ≡ chunk_sz / 8
    → IsSparse rest
    → IsSparse (put_chunk n addr w rest)
unfolding put_chunk
put_chunk-IsSparse n addr w rest e h = elim (Bool-cases (truthy (joined n w))) [
  | inl c ↦
      let (j, lt, ne) = joined_nonzero n w (truthy-ne (joined n w) c) in
      rw c ((j, subst (λ x. j < x) e lt, ne), h)
  | inr c ↦ rw c h
]

bank_chunks-IsSparse : (left i : ℕ) (b : Bank) → IsSparse (bank_chunks left i b)
unfolding bank_chunks
bank_chunks-IsSparse zero i b = tt
bank_chunks-IsSparse (suc left) i b =
    put_chunk-IsSparse (chunk_sz / 8) (u32 (b.ram_pa_base + i)) (λ j. b.words (i / 8 + j))
      (bank_chunks left (i + chunk_sz) b) refl (bank_chunks-IsSparse left (i + chunk_sz) b)

pub saved_banks-IsSparse : (b : Bank) → IsSparse (saved_banks (b ∷ []))
unfolding saved_banks
saved_banks-IsSparse b =
    subst IsSparse (sym (append-nil (bank_chunks (chunk_count b) 0 b)))
      (bank_chunks-IsSparse (chunk_count b) 0 b)
