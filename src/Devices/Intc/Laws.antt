-- ===== src/Devices/Intc/Laws.antt =====
-- The controller's promises: its output follows ISR and IER, and IVR names the lowest active line.
use mr_iss.Base.{
  ℕ, zero, suc, ◌+◌, ◌-◌, ◌^◌, ◌<◌, min, bit_and, bit_or, ◌≡◌, refl, sym, ap, subst, ◌≢◌, ◌⊎◌, inl,
  inr, Bool, true, false, Option, none, some, List, [], ◌∷◌, arith, ltb, ◌==◌, if◌then◌else◌,
  truthy, Bool-cases, Option-cases, ◌>>=◌, Yields, Yields-bind, Outcome, done,
}
use mathlib.Core.Option.{map}
use mr_iss.Cpu.State.{assert_irq, Cpu}
use mr_iss.Bits.Fields.{bit_and-digit_iff, bit_and_field}
use mr_iss.Bits.Digits.{digit-power, digit, digit-lt, digit-bit_or, digit-clear32}
use mr_iss.Devices.Intc.{
  Intc, Register, isr, set_reg, get_active, drive, reassess_output, first_active, decode, read_reg,
  read32, write_reg, write32, trigger_irq,
}

-- The processor's interrupt line, where there is a processor.
abbrev pub LineIs : Option Cpu → Bool → Type 0
LineIs none v = Unit
LineIs (some c) v = c.irq_flag ≡ v

pub record Follows (d : Intc) : Type 0 where
  pub triggered : d.triggered_cpu ≡ truthy (get_active d)
  pub line : LineIs d.cpus d.triggered_cpu

LineIs-map : (o : Option Cpu) (v : Bool) → LineIs (map (λ c. assert_irq c v) o) v
unfolding assert_irq
LineIs-map none v = tt
LineIs-map (some c) v = refl

drive-Follows : (d : Intc) (v : Bool) → v ≡ truthy (get_active d) → Follows (drive d v)
unfolding drive get_active
drive-Follows d v h = record { triggered = h; line = LineIs-map d.cpus v }

reassess_output-cases :
    (d : Intc)
    → (reassess_output d ≡ drive d (truthy (get_active d)))
      ⊎ ((reassess_output d ≡ d) × (d.triggered_cpu ≡ truthy (get_active d)))
unfolding reassess_output
reassess_output-cases d = ground arith

reassess_output-Follows : (d : Intc) → LineIs d.cpus d.triggered_cpu → Follows (reassess_output d)
reassess_output-Follows d h = elim (reassess_output-cases d) [
  | inl e ↦ subst Follows (sym e) (drive-Follows d _ refl)
  | inr (e, t) ↦ subst Follows (sym e) (record { triggered = t; line = h })
]

-- What the rest of the simulator does to the controller.
pub data Op : Type 0 where
  write : ℕ → ℕ → Op
  trigger : ℕ → Op

abbrev perform : Intc → Op → Outcome Intc
perform d (write addr value) = write32 d addr value
perform d (trigger n) = done (trigger_irq d n)

abbrev pub perform_all : Intc → List Op → Outcome Intc
perform_all d [] = done d
perform_all d (op ∷ ops) = perform d op >>= λ after. perform_all after ops

decode-ne-none : (addr : ℕ) → decode addr ≢ none
unfolding decode
decode-ne-none addr h = ground (arith, bit_and_field 2 3 addr)

decode-some : (addr : ℕ) → (r : Register) × (decode addr ≡ some r)
decode-some addr = elim (Option-cases (decode addr)) [
  | inl h ↦ absurd (decode-ne-none addr h)
  | inr p ↦ p
]

LineIs-write_reg :
    (d : Intc) (r : Register) (value : ℕ)
    → LineIs d.cpus d.triggered_cpu
    → Yields (λ after. LineIs after.cpus after.triggered_cpu) (write_reg d (some r) value)
unfolding write_reg set_reg
LineIs-write_reg d Register.isr_reg value h = h
LineIs-write_reg d Register.ier_reg value h = h
LineIs-write_reg d Register.mer_reg value h = h
LineIs-write_reg d Register.ipr_reg value h = h
LineIs-write_reg d Register.ivr_reg value h = h
LineIs-write_reg d Register.iar_reg value h = h
LineIs-write_reg d Register.sie_reg value h = h
LineIs-write_reg d Register.cie_reg value h = h

LineIs-raise :
    (d : Intc) (b : Bool) (v : ℕ)
    → LineIs d.cpus d.triggered_cpu
    → let raised = if b then set_reg d isr v else d in LineIs raised.cpus raised.triggered_cpu
unfolding set_reg
LineIs-raise d true v h = h
LineIs-raise d false v h = h

pub perform-Follows : (d : Intc) (op : Op) → Follows d → Yields Follows (perform d op)
unfolding write32 trigger_irq set_reg
perform-Follows d (Op.write addr value) f =
    let (r, e) = decode-some addr in
    Yields-bind (λ after. LineIs after.cpus after.triggered_cpu) Follows
      (write_reg d (decode addr) value) _
      (subst (λ o. Yields (λ after. LineIs after.cpus after.triggered_cpu) (write_reg d o value))
        (sym e) (LineIs-write_reg d r value f.line))
      reassess_output-Follows
perform-Follows d (Op.trigger n) f =
    reassess_output-Follows (if ltb n 32 then set_reg d isr (bit_or (d.regs isr) (2 ^ n)) else d)
      (LineIs-raise d (ltb n 32) (bit_or (d.regs isr) (2 ^ n)) f.line)

-- Whatever software writes and whichever lines are raised, in any order: no write is fatal, and the
-- processor's interrupt input says afterwards whether a raised line is enabled.
pub perform_all-Follows :
    (d : Intc) (ops : List Op) → Follows d → Yields Follows (perform_all d ops)
perform_all-Follows d [] f = f
perform_all-Follows d (op ∷ ops) f =
    Yields-bind Follows Follows (perform d op) _ (perform-Follows d op f)
      (λ a fa. perform_all-Follows a ops fa)

-- Line `k` of a word of lines is raised.
abbrev Raised : ℕ → ℕ → Type 0
Raised lines k = digit lines k ≡ 1

-- What IVR reads as: the lowest raised line, or all ones where there is none.
abbrev LowestRaised : ℕ → ℕ → Type 0
LowestRaised lines v =
    ((v < 32) × Raised lines v × ((j : ℕ) → j < v → ¬ Raised lines j))
    ⊎ ((v ≡ 0xffff_ffff) × ((j : ℕ) → j < 32 → ¬ Raised lines j))

none_before :
    (lines i : ℕ)
    → ((j : ℕ) → j < i → ¬ Raised lines j)
    → ¬ Raised lines i
    → (j : ℕ) → j < suc i
    → ¬ Raised lines j
none_before lines i h hi j lt r = elim (Bool-cases (ltb j i)) [
  | inl t ↦ h j (ground arith) r
  | inr t ↦ hi (subst (Raised lines) {x = j} {y = i} (ground arith) r)
]

-- The search from line `i` on, when no earlier line is raised.
first_active-LowestRaised :
    (n i active : ℕ)
    → n + i ≡ 32
    → ((j : ℕ) → j < i → ¬ Raised active j)
    → LowestRaised active (first_active n i active)
unfolding first_active
first_active-LowestRaised zero i active e h = inr (refl, λ j lt. h j (omega arith))
first_active-LowestRaised (suc n) i active e h =
    let (to, from) = bit_and-digit_iff active i in
    elim (Bool-cases (truthy (bit_and active (2 ^ i)))) [
      | inl t ↦
          subst (LowestRaised active)
            (sym (ap (λ b. if b then i else first_active n (suc i) active) t))
            (inl (omega arith, to t, h))
      | inr t ↦
          subst (LowestRaised active)
            (sym (ap (λ b. if b then i else first_active n (suc i) active) t))
            (first_active-LowestRaised n (suc i) active (omega arith)
              (none_before active i h (λ r. ground (arith, from r, t))))
    ]

-- A read of IVR returns the lowest line that is raised and enabled, or all ones where there is none.
read_ivr_lowest : (d : Intc) → Yields (LowestRaised (get_active d)) (read32 d 0x18)
unfolding read32 read_reg decode
read_ivr_lowest d =
    first_active-LowestRaised 32 0 (get_active d) refl (λ j lt. absurd (omega arith))

-- The line `n` is raised and no other line changes.
pub trigger_irq-raises :
    (d : Intc) (n k : ℕ)
    → n < 32
    → digit ((trigger_irq d n).regs isr) k ≡ (if k == n then 1 else digit (d.regs isr) k)
unfolding trigger_irq set_reg reassess_output drive
trigger_irq-raises d n k h =
    let f = digit-lt (d.regs isr) k in
    ground (arith, digit-bit_or (d.regs isr) (2 ^ n) k, digit-power n k, f)

-- A write of a word to IAR lowers the lines that its bits name, and no other.
write_iar-lowers :
    (d : Intc) (value k : ℕ)
    → value < 2 ^ 32
    → k < 32
    → Yields
        (λ after. digit (after.regs isr) k ≡ min (digit (d.regs isr) k) (1 - digit value k))
        (write32 d 0xc value)
unfolding write32 write_reg decode set_reg reassess_output drive
write_iar-lowers d value k h l = ground (arith, digit-clear32 (d.regs isr) value k h l)
