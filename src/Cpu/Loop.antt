-- ===== src/Cpu/Loop.antt =====
-- The interpreter's main loop (main.cc) around `execute`: the tick, the delivery of interrupts and the
-- limit on instructions. The poll of the host's devices is not modelled.
use mr_iss.Base.{
  ℕ, ◌^◌, ◌<◌, ◌≡◌, refl, ap, ◌∙◌, ◌⊎◌, inl, inr, Bool, true, false, ◌&&◌, ltb, if◌then◌else◌,
  truthy, Bool-cases,
}
use mr_iss.Cpu.State.{cpu_tick, is_irq_pending, is_decrementer_pending}
use mr_iss.Cpu.Exceptions.{Core, irq, decrementer, raise_irq_exception, raise_dec_exception}
use mr_iss.Cpu.Exceptions.Laws.{AtHandler, take_exception-AtHandler}

abbrev pub ticked : Core → Core
ticked k = record { cpu = cpu_tick k.cpu 1; mmu = k.mmu }

-- An external interrupt goes before the decrementer's.
unfoldable pub deliver : Core → Core
unfolding raise_irq_exception raise_dec_exception is_irq_pending is_decrementer_pending
deliver k =
    if is_irq_pending k.cpu
    then raise_irq_exception k
    else if is_decrementer_pending k.cpu
    then raise_dec_exception k
    else k

-- Whether the loop asks itself to stop: `instr_limit` of 0 is no limit.
unfoldable pub limit_hit : ℕ → Core → Bool
limit_hit limit k = truthy limit && ltb limit k.cpu.cpu_inst_count

-- What follows each instruction.
unfoldable pub after_execute : Core → Core
unfolding deliver
after_execute k = deliver (ticked k)

-- What may come of the delivery: a handler entered for the interrupt that was pending, the external one
-- first, or nothing, and nothing was pending.
abbrev pub Delivered : Core → Core → Type 0
Delivered k after =
    ((is_irq_pending k.cpu ≡ true) × AtHandler k irq after)
    ⊎ ((is_irq_pending k.cpu ≡ false)
        × (is_decrementer_pending k.cpu ≡ true)
        × AtHandler k decrementer after)
    ⊎ ((is_irq_pending k.cpu ≡ false) × (is_decrementer_pending k.cpu ≡ false) × (after ≡ k))

pub deliver-Delivered : (k : Core) → k.cpu.pc < 2 ^ 32 → Delivered k (deliver k)
unfolding deliver raise_irq_exception raise_dec_exception
deliver-Delivered k h = elim (Bool-cases (is_irq_pending k.cpu)) [
  | inl e ↦ inl (e, rw e (take_exception-AtHandler k irq k.cpu.msr h))
  | inr e ↦ elim (Bool-cases (is_decrementer_pending k.cpu)) [
    | inl f ↦ inr (inl (e, f, rw (e, f) (take_exception-AtHandler k decrementer k.cpu.msr h)))
    | inr f ↦ inr (inr (e, f, rw (e, f) refl))
  ]
]

-- After each instruction the pending interrupt is taken, the external one before the decrementer's, or
-- none was pending; the next instruction starts with no enabled interrupt pending.
pub after_execute-Delivered :
    (k : Core)
    → k.cpu.pc < 2 ^ 32
    → Delivered (ticked k) (after_execute k)
      × (is_irq_pending (after_execute k).cpu ≡ false)
      × (is_decrementer_pending (after_execute k).cpu ≡ false)
unfolding after_execute cpu_tick
after_execute-Delivered k h =
    let d = deliver-Delivered (ticked k) h in
    (
      d,
      elim d [
        | inl (_, a) ↦ a.no_irq
        | inr (inl (_, _, a)) ↦ a.no_irq
        | inr (inr (e, _, q)) ↦ ap (λ x. is_irq_pending x.cpu) q ∙ e
      ],
      elim d [
        | inl (_, a) ↦ a.no_dec
        | inr (inl (_, _, a)) ↦ a.no_dec
        | inr (inr (_, f, q)) ↦ ap (λ x. is_decrementer_pending x.cpu) q ∙ f
      ],
    )
