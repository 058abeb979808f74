-- ===== src/Platform/Saved/Names.antt =====
-- The registers of a saved file are found by their names.
use mr_iss.Mmu.State.{Mmu}
use mr_iss.Cpu.State.{Cpu}
use mr_iss.Platform.Saved.Ram.{load, saved_banks-load, IsSparse, saved_banks-IsSparse}
use mr_iss.Host.Management.{codes}
use mr_iss.Platform.Saved.{
  Bank, chunk_sz, chunk_count, saved_banks, write_all, state_save_open, other_regs, name8,
  two_digits, gpr_chunks, File, size, drop, over, Item, header, block, saved_regs,
}
use mr_iss.Base.{
  ℕ, zero, suc, ◌+◌, ◌*◌, ◌/◌, ◌^◌, ◌≤◌, ◌<◌, ◌≡◌, refl, ap, subst, ◌∙◌, ◌⊎◌, inl, inr, Bool, true,
  false, not, ◌&&◌, Option, none, some, List, [], ◌∷◌, ◌++◌, arith, ltb, ◌==◌, if◌then◌else◌,
  ==_self, Yields, Yields-bind, length, Outcome, done, fatal, ◌>>=◌,
}
use mr_iss.Platform.Saved.{other_regs}
use mr_iss.Base.{Yields-both}

abbrev pub same : List ℕ → List ℕ → Bool
same [] [] = true
same [] (d ∷ ds) = false
same (c ∷ cs) [] = false
same (c ∷ cs) (d ∷ ds) = c == d && same cs ds

-- The data of the first chunk with a name.
abbrev pub find : List ℕ → List Item → Option ℕ
find name [] = none
find name (block w ∷ is) = find name is
find name (header n len data' ∷ is) =
    let rest = find name is in if same name n then some data' else rest

-- Whether no chunk has a name that stands before it.
abbrev absent : List ℕ → List Item → Bool
absent name [] = true
absent name (block w ∷ is) = absent name is
absent name (header n len data' ∷ is) = not (same n name) && absent name is

abbrev all_new : List Item → Bool
all_new [] = true
all_new (block w ∷ is) = all_new is
all_new (header n len data' ∷ is) = absent n is && all_new is

-- A register's chunk stands in the file.
abbrev pub Has : List ℕ → ℕ → List Item → Type 0
Has name v [] = ⊥
Has name v (block w ∷ is) = Has name v is
Has name v (header n len data' ∷ is) = ((n ≡ name) × (data' ≡ v)) ⊎ Has name v is

same_self : (name : List ℕ) → same name name ≡ true
same_self [] = refl
same_self (c ∷ cs) = rw (==_self c, same_self cs) refl

absent-Has :
    (n name : List ℕ) (v : ℕ) (is : List Item)
    → absent n is ≡ true
    → Has name v is
    → same name n ≡ false
absent-Has n name v [] h k = absurd k
absent-Has n name v (block w ∷ is) h k = absent-Has n name v is h k
absent-Has n name v (header n' len data' ∷ is) h (inl (e, _)) =
    subst (λ (x : List ℕ). same x n ≡ false) e (ground arith)
absent-Has n name v (header n' len data' ∷ is) h (inr k) = absent-Has n name v is (ground arith) k

-- Whatever follows.
find-Has :
    (name : List ℕ) (v : ℕ) (is more : List Item)
    → all_new is ≡ true
    → Has name v is
    → find name (is ++ more) ≡ some v
find-Has name v [] more h k = absurd k
find-Has name v (block w ∷ is) more h k = find-Has name v is more h k
find-Has name v (header n len data' ∷ is) more h (inl (e, e')) = rw (e, same_self name) (ap some e')
find-Has name v (header n len data' ∷ is) more h (inr k) =
    rw (absent-Has n name v is (ground arith) k) (find-Has name v is more (ground arith) k)

-- The name of a general register.
abbrev pub gpr_name : ℕ → List ℕ
gpr_name i = name8 (codes "GPR" ++ two_digits i)

gpr_chunks-Has :
    (left s j : ℕ) (c : Cpu) (more : List Item)
    → j < left
    → Has (gpr_name (s + j)) (c.gprs (s + j)) (gpr_chunks left s c ++ more)
gpr_chunks-Has zero s j c more h = absurd (omega arith)
gpr_chunks-Has (suc left) s zero c more h = inl (ap gpr_name (omega arith), ap c.gprs (omega arith))
gpr_chunks-Has (suc left) s (suc j) c more h = inr (
    subst (λ (i : ℕ). Has (gpr_name i) (c.gprs i) (gpr_chunks left (suc s) c ++ more)) (omega arith)
      (gpr_chunks-Has left (suc s) j c more (omega (arith, h))))

gpr_Has :
    (i : ℕ) (c : Cpu) (rest : List Item)
    → i < 32
    → Has (gpr_name i) (c.gprs i) (gpr_chunks 32 0 c ++ rest)
gpr_Has i c rest h =
    subst (λ (j : ℕ). Has (gpr_name j) (c.gprs j) (gpr_chunks 32 0 c ++ rest)) (omega arith)
      (gpr_chunks-Has 32 0 i c rest h)

-- Registers of the file by their names: the general ones, and some others.
abbrev pub OthersFound : Cpu → List Item → Type 0
OthersFound c file =
    (find (name8 (codes "PC")) file ≡ some c.pc)
    × (find (name8 (codes "LR")) file ≡ some c.lr)
    × (find (name8 (codes "CTR")) file ≡ some c.ctr)
    × (find (name8 (codes "CR")) file ≡ some c.cr)
    × (find (name8 (codes "XER")) file ≡ some c.xer)
    × (find (name8 (codes "MSR")) file ≡ some c.msr)
    × (find (name8 (codes "SRR0")) file ≡ some c.srr0)
    × (find (name8 (codes "SRR1")) file ≡ some c.srr1)

abbrev pub IsFound : Cpu → List Item → Type 0
IsFound c file = ((i : ℕ) → i < 32 → find (gpr_name i) file ≡ some (c.gprs i)) × OthersFound c file

pub saved_regs-IsFound :
    (c : Cpu) (m : Mmu) (more : List Item) → Yields (λ is. IsFound c (is ++ more)) (saved_regs c m)
unfolding saved_regs other_regs
saved_regs-IsFound c m more =
    Yields-bind (λ rest. (all_new (gprs ++ rest) ≡ true) × OthersFound c ((gprs ++ rest) ++ more))
      (λ is. IsFound c (is ++ more)) (other_regs c m) (λ rest. done (gprs ++ rest))
      (refl, (refl, refl, refl, refl, refl, refl, refl, refl))
      (λ rest k.
        (λ i h. find-Has (gpr_name i) (c.gprs i) (gprs ++ rest) more k.0 (gpr_Has i c rest h), k.1))
  where
    gprs : List Item
    gprs = gpr_chunks 32 0 c

-- The registers' chunks have no memory.
abbrev Before : Cpu → List Item → ℕ → List Item → Type 0
Before c more q is =
    IsFound c (is ++ more)
    × ((IsSparse more → IsSparse (is ++ more))
        × ((a : ℕ) → load (is ++ more) (q + a) ≡ load more (q + a)))

saved_both :
    (c : Cpu) (m : Mmu) (more : List Item) (q : ℕ) → Yields (Before c more q) (saved_regs c m)
unfolding saved_regs other_regs
saved_both c m more q =
    Yields-both (λ is. IsFound c (is ++ more))
      (λ is.
        (IsSparse more → IsSparse (is ++ more))
        × ((a : ℕ) → load (is ++ more) (q + a) ≡ load more (q + a)))
      (saved_regs c m) (saved_regs-IsFound c m more) (λ h. h, λ a. refl)

write_all-all :
    (works : ℕ → Bool) (n : ℕ) (is : List Item)
    → ((j : ℕ) → works j ≡ true)
    → write_all works n is ≡ (is, true)
unfolding write_all
write_all-all works n [] h = refl
write_all-all works n (i ∷ is) h = rw (h n, write_all-all works (suc n) is h) refl

drop-all : (n : ℕ) (bytes : List ℕ) → length bytes ≤ n → drop n bytes ≡ []
drop-all zero [] h = refl
drop-all zero (b ∷ bs) h = absurd (omega arith)
drop-all (suc n) [] h = refl
drop-all (suc n) (b ∷ bs) h = drop-all n bs (omega arith)

-- What the file gives back: the registers by their names, and the words of the bank, with 0 after the bank's chunks. No
-- chunk of zeros is in it, and nothing stands after what was written.
abbrev pub IsSaved : Cpu → Bank → ℕ → File → Type 0
IsSaved c b q file =
    IsFound c file.items
    × IsSparse file.items
    × ((a : ℕ)
        → load file.items (q + a)
          ≡ (if ltb a (chunk_count b * (chunk_sz / 8)) then b.words a else 0))
    × (file.tail ≡ [])

-- The bytes that the file had before do not reach past what is written now.
abbrev pub Covers : List ℕ → File × Bool → Type 0
Covers old r = length old ≤ size r.0.items

Done : Cpu → Bank → ℕ → File × Bool → Type 0
Done c b q r = IsSaved c b q r.0 × (r.1 ≡ true)

covered :
    (works : ℕ → Bool) (old : List ℕ) (c : Cpu) (b : Bank) (q : ℕ) (is : List Item)
    → ((j : ℕ) → works j ≡ true)
    → b.ram_pa_base ≡ 8 * q
    → 8 * q + chunk_count b * chunk_sz ≤ 2 ^ 32
    → Before c (saved_banks (b ∷ [])) q is
    → Covers old (over old (write_all works 0 (is ++ saved_banks (b ∷ []))))
    → Done c b q (over old (write_all works 0 (is ++ saved_banks (b ∷ []))))
unfolding over Done
covered works old c b q is ok e h (found, (sparse, loads)) =
    rw (write_all-all works 0 (is ++ saved_banks (b ∷ [])) ok) (λ short. (
      (
        found,
        sparse (saved_banks-IsSparse b),
        λ a. loads a ∙ saved_banks-load b q a e h,
        drop-all (size (is ++ saved_banks (b ∷ []))) old short,
      ),
      refl,
    ))

-- Where every write works and the file that is opened is no longer than what is then written, a file of one bank,
-- which starts at a multiple of 8 and whose last chunk ends within 32 bits, is complete: it gives back the general
-- registers, PC, LR, CTR, CR, XER, MSR, SRR0 and SRR1 by their names, and each word of the bank's chunks, also of
-- those of zeros, of which the file has none, and nothing of the old file is left.
pub state_save_open-IsSaved :
    (works : ℕ → Bool) (old : List ℕ) (c : Cpu) (m : Mmu) (b : Bank) (q : ℕ)
    → ((j : ℕ) → works j ≡ true)
    → b.ram_pa_base ≡ 8 * q
    → 8 * q + chunk_count b * chunk_sz ≤ 2 ^ 32
    → Yields (Covers old) (state_save_open works old c m (b ∷ []))
    → Yields (λ r. IsSaved c b q r.0 × (r.1 ≡ true)) (state_save_open works old c m (b ∷ []))
unfolding state_save_open Done
state_save_open-IsSaved works old c m b q ok e h =
    go (saved_regs c m) (saved_both c m (saved_banks (b ∷ [])) q)
  where
    go :
        (o : Outcome (List Item))
        → Yields (Before c (saved_banks (b ∷ [])) q) o
        → Yields
            (Covers old)
            (o >>= λ regs. done (over old (write_all works 0 (regs ++ saved_banks (b ∷ [])))))
        → Yields
            (λ (r : File × Bool). IsSaved c b q r.0 × (r.1 ≡ true))
            (o >>= λ regs. done (over old (write_all works 0 (regs ++ saved_banks (b ∷ [])))))
    go (done is) k s = covered works old c b q is ok e h k s
    go fatal k s = absurd k

size-append : (is more : List Item) → size (is ++ more) ≡ size is + size more
size-append [] more = omega arith
size-append (header n len d ∷ is) more = omega (arith, size-append is more)
size-append (block w ∷ is) more = omega (arith, size-append is more)

-- The registers' chunks are 84 headers.
saved_regs-size : (c : Cpu) (m : Mmu) → Yields (λ is. size is ≡ 2016) (saved_regs c m)
unfolding saved_regs other_regs
saved_regs-size c m = refl

-- A file that the registers' part covers.
pub state_save_open-Covers :
    (works : ℕ → Bool) (old : List ℕ) (c : Cpu) (m : Mmu) (banks : List Bank)
    → ((j : ℕ) → works j ≡ true)
    → length old ≤ 2016
    → Yields (Covers old) (state_save_open works old c m banks)
unfolding state_save_open over
state_save_open-Covers works old c m banks ok h =
    Yields-bind (λ is. size is ≡ 2016) (Covers old) (saved_regs c m)
      (λ regs. done (over old (write_all works 0 (regs ++ saved_banks banks))))
      (saved_regs-size c m)
      (λ is k.
        rw (write_all-all works 0 (is ++ saved_banks banks) ok)
          (omega (arith, k, size-append is (saved_banks banks))))
