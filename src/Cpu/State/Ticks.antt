-- ===== src/Cpu/State/Ticks.antt =====
-- The time base and the decrementer of PPCCPUState.h over many ticks.
use mr_iss.Base.{ℕ, zero, suc, ◌+◌, ◌-◌, ◌/◌, ◌^◌, ◌<◌, ◌≡◌, arith, u32, u64}
use mr_iss.Bits.Fields.{bit_and_low}
use mr_iss.Cpu.State.{Cpu, cpu_tick, get_tb}

-- `n` calls of `CPUTick()`.
abbrev ticks : ℕ → Cpu → Cpu
ticks zero c = c
ticks (suc n) c = cpu_tick (ticks n c) 1

tick :
    (c : Cpu)
    → c.tb + 1 < 2 ^ 64
    → c.dec < 2 ^ 32
    → let after = cpu_tick c 1 in
      (after.tb ≡ c.tb + 1)
      × (after.dec < 2 ^ 32)
      × (u32 (after.dec + ((c.tb + 1) / 4 - c.tb / 4)) ≡ c.dec)
unfolding cpu_tick
tick c h d = ground (arith, bit_and_low 2 (u64 (c.tb + 1)))

-- While the time base does not wrap, it counts every tick, and the decrementer falls, modulo 2^32, by
-- as much as the time base that software reads has risen.
ticks-count :
    (n : ℕ) (c : Cpu)
    → c.tb + n < 2 ^ 64
    → c.dec < 2 ^ 32
    → let after = ticks n c in
      (after.tb ≡ c.tb + n)
      × (after.dec < 2 ^ 32)
      × (u32 (after.dec + (get_tb after - get_tb c)) ≡ c.dec)
unfolding get_tb
ticks-count zero c h d = (omega arith, d, omega arith)
ticks-count (suc n) c h d =
    let (t, l, e) = ticks-count n c (omega arith) d in
    let (t', l', e') = tick (ticks n c) (omega (arith, t)) l in
    (omega (arith, t, t'), l', omega (arith, t, t', e, e', l, l'))
