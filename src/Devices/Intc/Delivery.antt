-- ===== src/Devices/Intc/Delivery.antt =====
-- A raised line of the interrupt controller, all the way to the processor's handler.
use mr_iss.Base.{
  ℕ, ◌^◌, ◌<◌, min, bit_and, bit_or, ◌≡◌, refl, ap, ap₂, subst, ◌∙◌, inl, inr, Bool, true, some,
  List, [], ◌∷◌, arith, ltb, if◌then◌else◌, if_all, truthy, ==_self,
}
use mr_iss.Bits.Digits.{digit, digit-bit_and, digit_lem}
use mr_iss.Cpu.State.{Cpu, msr_ee, is_irq_pending, cpu_tick}
use mr_iss.Cpu.Exceptions.{Core, irq, take_exception, raise_irq_exception, raise_dec_exception}
use mr_iss.Cpu.Exceptions.Laws.{AtHandler}
use mr_iss.Cpu.Loop.{ticked, deliver, after_execute, after_execute-Delivered}
use mr_iss.Devices.Intc.{Intc, isr, ier, set_reg, drive, get_active, reassess_output, trigger_irq}
use mr_iss.Devices.Intc.Laws.{Follows, LineIs, Op, perform-Follows, trigger_irq-raises}

reassess_output-regs : (d : Intc) → (reassess_output d).regs ≡ d.regs
unfolding reassess_output drive
reassess_output-regs d = ground arith

trigger_irq-ier : (d : Intc) (n : ℕ) → (trigger_irq d n).regs ier ≡ d.regs ier
unfolding trigger_irq set_reg
trigger_irq-ier d n =
    let raised = if ltb n 32 then set_reg d isr (bit_or (d.regs isr) (2 ^ n)) else d in
    ap (λ (r : ℕ → ℕ). r ier) (reassess_output-regs raised)
    ∙ if_all (λ (e : Intc). e.regs ier ≡ d.regs ier) (ltb n 32) _ d refl refl

set_digit : (a n : ℕ) → digit a n ≡ 1 → truthy a ≡ true
set_digit a n h = ground (arith, h, digit_lem a n)

-- An enabled line that was raised is active.
active_after :
    (d : Intc) (n : ℕ)
    → n < 32
    → digit (d.regs ier) n ≡ 1
    → truthy (get_active (trigger_irq d n)) ≡ true
unfolding get_active
active_after d n h e =
    let t = trigger_irq d n in
    let enabled = ap (λ x. digit x n) (trigger_irq-ier d n) ∙ e in
    let raised =
      trigger_irq-raises d n n h
      ∙ ap (λ (b : Bool). if b then 1 else digit (d.regs isr) n) (==_self n) in
    set_digit (get_active t) n (digit-bit_and (t.regs isr) (t.regs ier) n ∙ ap₂ min raised enabled)

-- The input of the processor that the controller drives.
abbrev pub Drives : Intc → Core → Type 0
Drives d k = (c : Cpu) × (d.cpus ≡ some c) × (k.cpu.irq_flag ≡ c.irq_flag)

trigger_irq-asserts :
    (d : Intc) (k : Core) (n : ℕ)
    → Follows d
    → n < 32
    → digit (d.regs ier) n ≡ 1
    → Drives (trigger_irq d n) k
    → k.cpu.irq_flag ≡ true
trigger_irq-asserts d k n f h e (c, has, flag) =
    let t = trigger_irq d n in
    let g : Follows t = perform-Follows d (Op.trigger n) f in
    flag ∙ subst (λ o. LineIs o t.triggered_cpu) has g.line ∙ g.triggered ∙ active_after d n h e

pending_after :
    (k : Core)
    → k.cpu.irq_flag ≡ true
    → truthy (bit_and k.cpu.msr msr_ee) ≡ true
    → is_irq_pending (ticked k).cpu ≡ true
unfolding is_irq_pending cpu_tick
pending_after k h e = rw (h, e) refl

-- An instruction, as what it makes of the processor and its MMU, that leaves the interrupt input as it is: it
-- does not acknowledge the line.
abbrev pub KeepsInput : (Core → Core) → Type 0
KeepsInput i = (k : Core) → (i k).cpu.irq_flag ≡ k.cpu.irq_flag

abbrev pub KeepInput : List (Core → Core) → Type 0
KeepInput [] = Unit {0}
KeepInput (i ∷ is) = KeepsInput i × KeepInput is

-- Instructions one after the other, with the loop's work after each.
abbrev pub rounds : List (Core → Core) → Core → Core
rounds [] k = k
rounds (i ∷ is) k = rounds is (after_execute (i k))

after_execute-irq_flag : (k : Core) → (after_execute k).cpu.irq_flag ≡ k.cpu.irq_flag
unfolding after_execute deliver raise_irq_exception raise_dec_exception take_exception cpu_tick
after_execute-irq_flag k = ground arith

rounds-irq_flag :
    (is : List (Core → Core)) (k : Core)
    → KeepInput is
    → (rounds is k).cpu.irq_flag ≡ k.cpu.irq_flag
rounds-irq_flag [] k h = refl
rounds-irq_flag (i ∷ is) k (h, hs) =
    rounds-irq_flag is (after_execute (i k)) hs ∙ after_execute-irq_flag (i k) ∙ h k

-- From a controller that drives its processor by its lines, let an enabled line be raised, and let the processor have
-- the input that the controller then gives it. Whatever instructions the loop has run since, with its work after
-- each, if none of them changes that input: after an instruction that leaves it too, external interrupts on, and a
-- 32-bit address, the processor is at the handler of the external interrupt, with the address and the registers
-- that this instruction left.
pub trigger_irq-AtHandler :
    (d : Intc) (k : Core) (n : ℕ) (before : List (Core → Core)) (inst : Core → Core)
    → Follows d
    → n < 32
    → digit (d.regs ier) n ≡ 1
    → Drives (trigger_irq d n) k
    → KeepInput before
    → KeepsInput inst
    → truthy (bit_and (inst (rounds before k)).cpu.msr msr_ee) ≡ true
    → (inst (rounds before k)).cpu.pc < 2 ^ 32
    → AtHandler (ticked (inst (rounds before k))) irq (after_execute (inst (rounds before k)))
trigger_irq-AtHandler d k n before inst f h e drives keep keeps ee pc =
    let flag =
      keeps (rounds before k)
      ∙ rounds-irq_flag before k keep
      ∙ trigger_irq-asserts d k n f h e drives in
    let pending = pending_after (inst (rounds before k)) flag ee in
    elim (after_execute-Delivered (inst (rounds before k)) pc).0 [
      | inl (_, at) ↦ at
      | inr (inl (none_pending, _, _)) ↦ absurd (ground (arith, pending, none_pending))
      | inr (inr (none_pending, _, _)) ↦ absurd (ground (arith, pending, none_pending))
    ]
