-- ===== src/Interp/Strings.antt =====
-- The string moves of PPCInterpreter_Memory.cc.
use mr_iss.Base.{
  ℕ, zero, suc, ◌+◌, ◌-◌, ◌*◌, ◌/◌, ◌^◌, ◌<◌, bit_and, ◌≡◌, refl, ap, true, false, arith, ltb, ◌==◌,
  if◌then◌else◌, holds_below_at, u32, ◌>>>◌, ◌>>=◌, Outcome, done,
}
use mr_iss.Bits.Digits.{digit, digit-lt, digit-bit_and}
use mr_iss.Bits.Shift.{digit-ones}
use mr_iss.Memory.{Memory}
use mr_iss.Cpu.State.{get_gpr, set_gpr}
use mr_iss.Interp.State.{read_gpr_oz}
use mr_iss.Interp.Memory.{Machine, cpu_of, set_cpu, load_word, store_word, mfcheck, next}

-- The word that a load keeps, with `left` bytes still to move.
pub kept_word : ℕ → ℕ → ℕ
kept_word left v = if ltb left 4 then bit_and v (0xffff_ffff >>> (8 * left)) else v

-- `NB`, where 0 stands for 32.
abbrev byte_count : ℕ → ℕ
byte_count nb = if nb == 0 then 32 else nb

-- The length in XER.
abbrev xer_str : ℕ
xer_str = 0x7f

module _ (mem : Memory) where
  -- The loop of the loads from offset `n` on, `k` words.
  unfoldable load_from : ℕ → ℕ → ℕ → ℕ → ℕ → ℕ → Machine mem → Outcome (Machine mem)
  unfolding load_word mfcheck set_gpr kept_word next
  load_from zero n reg base nb inst m = done (next mem m)
  load_from (suc k) n reg base nb inst m = load_word mem m (u32 (base + n)) >>= λ r.
      mfcheck mem r.2 true (u32 (base + n)) inst r.0 λ m1.
        set_gpr (cpu_of mem m1) reg (kept_word (nb - n) r.1) >>= λ c.
        load_from k (n + 4) (bit_and (reg + 1) 0x1f) base nb inst (set_cpu mem m1 c)

  -- The stores of a last, partial word: the whole word, at each of its bytes.
  unfoldable store_bytes :
      ℕ → ℕ → ℕ → ℕ → Machine mem → (Machine mem → Outcome (Machine mem)) → Outcome (Machine mem)
  unfolding store_word mfcheck
  store_bytes zero at v inst m k = k m
  store_bytes (suc left) at v inst m k = store_word mem m at v >>= λ r.
      mfcheck mem r.1 false at inst r.0 λ m1. store_bytes left (u32 (at + 1)) v inst m1 k

  unfoldable store_part :
      ℕ → ℕ → ℕ → ℕ → Machine mem → (Machine mem → Outcome (Machine mem)) → Outcome (Machine mem)
  unfolding store_bytes store_word mfcheck
  store_part left at v inst m k =
      if ltb left 4
      then store_bytes left at v inst m k
      else (store_word mem m at v >>= λ r. mfcheck mem r.1 false at inst r.0 k)

  -- The loop of the stores; the register that was read is written back.
  unfoldable store_from : ℕ → ℕ → ℕ → ℕ → ℕ → ℕ → Machine mem → Outcome (Machine mem)
  unfolding store_part get_gpr set_gpr next
  store_from zero n reg base nb inst m = done (next mem m)
  store_from (suc k) n reg base nb inst m = get_gpr (cpu_of mem m) reg >>= λ v.
      store_part (nb - n) (u32 (base + n)) v inst m λ m1. set_gpr (cpu_of mem m1) reg v >>= λ c.
      store_from k (n + 4) (bit_and (reg + 1) 0x1f) base nb inst (set_cpu mem m1 c)

  unfoldable op_lswi : Machine mem → ℕ → ℕ → ℕ → ℕ → Outcome (Machine mem)
  unfolding read_gpr_oz load_from
  op_lswi m rt ra0 nb inst =
      let bytes = byte_count nb in
      read_gpr_oz (cpu_of mem m) ra0 >>= λ base. load_from ((bytes + 3) / 4) 0 rt base bytes inst m

  unfoldable op_lswx : Machine mem → ℕ → ℕ → ℕ → ℕ → Outcome (Machine mem)
  unfolding read_gpr_oz get_gpr load_from
  op_lswx m rt ra0 rb inst =
      let bytes = bit_and (cpu_of mem m).xer xer_str in
      read_gpr_oz (cpu_of mem m) ra0 >>= λ a.
      get_gpr (cpu_of mem m) rb >>= λ b. load_from ((bytes + 3) / 4) 0 rt (u32 (a + b)) bytes inst m

  unfoldable op_stswi : Machine mem → ℕ → ℕ → ℕ → ℕ → Outcome (Machine mem)
  unfolding read_gpr_oz store_from
  op_stswi m rs ra0 nb inst =
      let bytes = byte_count nb in
      read_gpr_oz (cpu_of mem m) ra0 >>= λ base. store_from ((bytes + 3) / 4) 0 rs base bytes inst m

  unfoldable op_stswx : Machine mem → ℕ → ℕ → ℕ → ℕ → Outcome (Machine mem)
  unfolding read_gpr_oz get_gpr store_from
  op_stswx m rs ra0 rb inst =
      let bytes = bit_and (cpu_of mem m).xer xer_str in
      read_gpr_oz (cpu_of mem m) ra0 >>= λ a. get_gpr (cpu_of mem m) rb >>= λ b.
      store_from ((bytes + 3) / 4) 0 rs (u32 (a + b)) bytes inst m

-- Of a last, partial word with `left` bytes a string load clears just the `left` high bytes, which are
-- the ones that the instruction asked for, and keeps the bytes after them.
pub digit-kept_word :
    (left v i : ℕ)
    → 0 < left
    → left < 4
    → v < 2 ^ 32
    → digit (kept_word left v) i ≡ (if ltb i (32 - 8 * left) then digit v i else 0)
unfolding kept_word
digit-kept_word left v i p l h = ground (
  arith,
  digit-bit_and v (0xffff_ffff >>> (8 * left)) i,
  ap (λ t. digit t i) (part_mask left l),
  digit-ones (32 - 8 * left) i,
  digit-lt v i,
)
  where
    part_mask : (left : ℕ) → left < 4 → 0xffff_ffff >>> (8 * left) ≡ 2 ^ (32 - 8 * left) - 1
    part_mask left l =
        ground (
          arith,
          holds_below_at 4 (λ k. 0xffff_ffff >>> (8 * k) == 2 ^ (32 - 8 * k) - 1) left refl l,
        )
