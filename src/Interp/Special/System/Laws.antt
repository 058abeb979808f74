-- ===== src/Interp/Special/System/Laws.antt =====
-- What is read back of a segment register by the instructions that name it by an address.
use mr_iss.Base.{
  ℕ, ◌/◌, ◌^◌, ◌<◌, bit_and, ◌≡◌, refl, arith, length, set, ◌>>=◌, >>=-eq-done, Yields, ltb_of_lt,
  ==_self,
}
use mr_iss.Bits.Fields.{bit_and_low}
use mr_iss.Mmu.Regs.{set_segment_reg}
use mr_iss.Mmu.Regs.Laws.{get-set_segment_reg}
use mr_iss.Interp.State.{Interp}
use mr_iss.Interp.Special.System.{segment_of_address, op_mtsrin, op_mfsrin}

segment_of_address-lt : (ea : ℕ) → segment_of_address ea < 16
segment_of_address-lt ea = omega (arith, bit_and_low 4 (ea / 2 ^ 28))

-- Registers `rs` and `rb` are those of the write, `rt` takes what is read, and the second read of `rb` is
-- of the same address.
abbrev Reads : ℕ → ℕ → Interp → Type 0
Reads rt v q = q.core.cpu.gprs rt ≡ v

-- `mtsrin rs, rb` then `mfsrin rt, rb` ends with the 28 digits of a segment register and its three flags of
-- `rs` in `rt`, whatever address `rb` holds.
op_mtsrin-op_mfsrin :
    (p : Interp) (rs rb rt : ℕ)
    → rs < 32
    → rb < 32
    → rt < 32
    → length p.core.mmu.segreg ≡ 16
    → Yields
        (Reads rt (bit_and (p.core.cpu.gprs rs) 0x70ff_ffff))
        (op_mtsrin p rs rb >>= λ q. op_mfsrin q rb rt)
unfolding op_mtsrin op_mfsrin
op_mtsrin-op_mfsrin p rs rb rt h k j l =
    let sr = segment_of_address (p.core.cpu.gprs rb) in
    let v = p.core.cpu.gprs rs in
    let lt = segment_of_address-lt (p.core.cpu.gprs rb) in
    let (m, set, get) =
      >>=-eq-done (set_segment_reg p.core.mmu sr v) _ (get-set_segment_reg p.core.mmu sr v lt l) in
    rw (ltb_of_lt rs 32 h, ltb_of_lt rb 32 k, set, get) (rw (ltb_of_lt rt 32 j, ==_self rt) refl)
