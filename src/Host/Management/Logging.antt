-- ===== src/Host/Management/Logging.antt =====
-- The logging flags of the console: `log_set` and `log_send` of management.cc.
use mr_iss.Host.Management.{
  set_log, line_mask, process_line, c_string, skip_whitespace, find_whitespace, codes, is_one,
  log_set,
}
use mr_iss.Bits.Digits.{digit, digit-bit_or, digit-clear32, digit-power, digit-lt}
use native.Mathlib.Nat.{pow-le-pow_right}
use mr_iss.Base.{
  ℕ, zero, suc, ◌^◌, ◌≤◌, ◌<◌, bit_or, ◌≡◌, refl, ap, ◌∙◌, ◌≢◌, inl, inr, List, [], ◌∷◌, ◌++◌,
  arith, ◌==◌, if◌then◌else◌, to_int, ==_of_ne, Bool-cases, get_or, clear32,
}

-- The name of a flag by its place.
abbrev pub name_of : ℕ → List ℕ
name_of i =
    get_or
      (codes "LOG_FLAG_DBG"
        ∷ codes "LOG_FLAG_DISASS"
        ∷ codes "LOG_FLAG_STRACE"
        ∷ codes "LOG_FLAG_IO_TRACE"
        ∷ codes "LOG_FLAG_BRANCH_TRACE"
        ∷ codes "LOG_FLAG_MMU_TRACE"
        ∷ codes "LOG_FLAG_EXC_TRACE"
        ∷ [])
      i []

flag_bound : (i : ℕ) → i < 7 → 2 ^ i < 2 ^ 32
flag_bound i h =
    let below : 2 ^ i ≤ 2 ^ 6 =
      pow-le-pow_right {n = 2} (omega arith) {i = i} {j = 6} (omega (arith, h)) in
    omega (arith, below)

log_set_flag :
    (i : ℕ)
    → i < 7
    → (mask : ℕ) (val : List ℕ)
    → log_set mask (name_of i) val
      ≡ (if is_one val then bit_or mask (2 ^ i) else clear32 mask (2 ^ i))
unfolding log_set
log_set_flag zero h mask val = refl
log_set_flag (suc zero) h mask val = refl
log_set_flag (suc (suc zero)) h mask val = refl
log_set_flag (suc (suc (suc zero))) h mask val = refl
log_set_flag (suc (suc (suc (suc zero)))) h mask val = refl
log_set_flag (suc (suc (suc (suc (suc zero))))) h mask val = refl
log_set_flag (suc (suc (suc (suc (suc (suc zero)))))) h mask val = refl
log_set_flag (suc (suc (suc (suc (suc (suc (suc i))))))) h mask val = absurd (omega (arith, h))

log_set-digit :
    (i mask j : ℕ) (val : List ℕ)
    → i < 7
    → j < 32
    → digit (log_set mask (name_of i) val) j
      ≡ (if j == i then to_int (is_one val) else digit mask j)
log_set-digit i mask j val p q =
    ap (λ t. digit t j) (log_set_flag i p mask val) ∙ elim (Bool-cases (is_one val)) [
      | inl e ↦
          rw (e, digit-bit_or mask (2 ^ i) j, digit-power i j) (ground (arith, digit-lt mask j))
      | inr e ↦
          rw (e, digit-clear32 mask (2 ^ i) j (flag_bound i p) q, digit-power i j)
            (ground (arith, digit-lt mask j))
    ]

-- The line that sets a flag.
abbrev pub setlog : ℕ → ℕ → List ℕ
setlog i c = codes "SETLOG " ++ (name_of i ++ (0x20 ∷ c ∷ []))

process_line-setlog :
    (i c : ℕ) → i < 7 → c ≢ 0 → c ≢ 0x20 → process_line (setlog i c) ≡ set_log (name_of i) (c ∷ [])
unfolding process_line c_string skip_whitespace find_whitespace
process_line-setlog zero c h k l = rw (==_of_ne c 0 k, ==_of_ne c 0x20 l) refl
process_line-setlog (suc zero) c h k l = rw (==_of_ne c 0 k, ==_of_ne c 0x20 l) refl
process_line-setlog (suc (suc zero)) c h k l = rw (==_of_ne c 0 k, ==_of_ne c 0x20 l) refl
process_line-setlog (suc (suc (suc zero))) c h k l = rw (==_of_ne c 0 k, ==_of_ne c 0x20 l) refl
process_line-setlog (suc (suc (suc (suc zero)))) c h k l =
    rw (==_of_ne c 0 k, ==_of_ne c 0x20 l) refl
process_line-setlog (suc (suc (suc (suc (suc zero))))) c h k l =
    rw (==_of_ne c 0 k, ==_of_ne c 0x20 l) refl
process_line-setlog (suc (suc (suc (suc (suc (suc zero)))))) c h k l =
    rw (==_of_ne c 0 k, ==_of_ne c 0x20 l) refl
process_line-setlog (suc (suc (suc (suc (suc (suc (suc i))))))) c h k l = absurd (omega (arith, h))

-- A console line that names one of the seven flags with a value of one byte, neither a space nor NUL, sets the flag's digit
-- of the mask to 1 if the byte is `1` and to 0 if not, and leaves every other digit of the 32.
pub line_mask-setlog :
    (i c mask j : ℕ)
    → i < 7
    → c ≢ 0
    → c ≢ 0x20
    → j < 32
    → digit (line_mask mask (process_line (setlog i c))) j
      ≡ (if j == i then to_int (c == 0x31) else digit mask j)
unfolding line_mask
line_mask-setlog i c mask j p k l q =
    ap (λ t. digit (line_mask mask t) j) (process_line-setlog i c p k l)
    ∙ log_set-digit i mask j (c ∷ []) p q
