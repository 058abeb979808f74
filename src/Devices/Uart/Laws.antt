-- ===== src/Devices/Uart/Laws.antt =====
-- The interrupt of the UART over any sequence of accesses and received bytes.
use mr_iss.Base.{
  ℕ, zero, suc, ◌<◌, bit_and, bit_or, ◌≡◌, refl, subst, ◌⊎◌, inl, inr, Bool, true, false, not, ◌&&◌,
  List, [], ◌∷◌, arith, ◌==◌, truthy, Bool-cases, In, All, All-In, ◌>>=◌, Yields, Yields-bind,
  Outcome, done,
}
use mr_iss.Bits.Fields.{bit_and_low, bit_and_field}
use mr_iss.Devices.Uart.{
  is_page1, Serial, Uart, reg_iir, reg_lsr, reg_ier, reg_rbr, put, dr_irq, thre_irq, assess_with,
  assess_irq_status, async_rx_cb, read_reg, read8, write_reg, write8,
}

-- The identification register says that no interrupt is pending, that the transmitter is empty or that data
-- is ready, and says none exactly when the interrupt is inactive.
pub record IsConsistent (u : Uart) : Type 0 where
  pub iir-cases : (u.regs reg_iir ≡ 1) ⊎ (u.regs reg_iir ≡ 2) ⊎ (u.regs reg_iir ≡ 4)
  pub active : u.irq_active ≡ not (u.regs reg_iir == 1)

-- Consistent, and the controller is told exactly of the interrupt's going active.
abbrev IsAssessed : Bool → Bool → Uart × Bool → Type 0
IsAssessed intc active r = IsConsistent r.0 × (r.1 ≡ (intc && (not active && r.0.irq_active)))

assess_with-IsAssessed :
    (u : Uart) (active intc dr thre : Bool)
    → IsAssessed intc active
        (assess_with (record u { irq_active = active; has_intc = intc }) dr thre)
unfolding assess_with
assess_with-IsAssessed u true true true thre =
    (record { iir-cases = inr (inr refl); active = refl }, refl)
assess_with-IsAssessed u true true false true =
    (record { iir-cases = inr (inl refl); active = refl }, refl)
assess_with-IsAssessed u true true false false =
    (record { iir-cases = inl refl; active = refl }, refl)
assess_with-IsAssessed u true false true thre =
    (record { iir-cases = inr (inr refl); active = refl }, refl)
assess_with-IsAssessed u true false false true =
    (record { iir-cases = inr (inl refl); active = refl }, refl)
assess_with-IsAssessed u true false false false =
    (record { iir-cases = inl refl; active = refl }, refl)
assess_with-IsAssessed u false true true thre =
    (record { iir-cases = inr (inr refl); active = refl }, refl)
assess_with-IsAssessed u false true false true =
    (record { iir-cases = inr (inl refl); active = refl }, refl)
assess_with-IsAssessed u false true false false =
    (record { iir-cases = inl refl; active = refl }, refl)
assess_with-IsAssessed u false false true thre =
    (record { iir-cases = inr (inr refl); active = refl }, refl)
assess_with-IsAssessed u false false false true =
    (record { iir-cases = inr (inl refl); active = refl }, refl)
assess_with-IsAssessed u false false false false =
    (record { iir-cases = inl refl; active = refl }, refl)

assess-IsAssessed : (u : Uart) → IsAssessed u.has_intc u.irq_active (assess_irq_status u)
unfolding assess_irq_status
assess-IsAssessed u = assess_with-IsAssessed u u.irq_active u.has_intc (dr_irq u) (thre_irq u)

abbrev below8 : List ℕ
below8 = 0 ∷ 1 ∷ 2 ∷ 3 ∷ 4 ∷ 5 ∷ 6 ∷ 7 ∷ []

low-In : (n : ℕ) → n < 8 → In n below8
low-In zero h = inl refl
low-In (suc zero) h = inr (inl refl)
low-In (suc (suc zero)) h = inr (inr (inl refl))
low-In (suc (suc (suc zero))) h = inr (inr (inr (inl refl)))
low-In (suc (suc (suc (suc zero)))) h = inr (inr (inr (inr (inl refl))))
low-In (suc (suc (suc (suc (suc zero))))) h = inr (inr (inr (inr (inr (inl refl)))))
low-In (suc (suc (suc (suc (suc (suc zero)))))) h = inr (inr (inr (inr (inr (inr (inl refl))))))
low-In (suc (suc (suc (suc (suc (suc (suc zero))))))) h =
    inr (inr (inr (inr (inr (inr (inr (inl refl)))))))
low-In (suc (suc (suc (suc (suc (suc (suc (suc n)))))))) h = absurd (omega arith)

register-In : (addr : ℕ) → In (bit_and addr 7) below8
register-In addr = low-In (bit_and addr 7) (omega (arith, bit_and_low 3 addr))

-- An access to a register leaves the interrupt as it was until it is assessed.
abbrev Same : Uart → Uart → Type 0
Same u v = (v.has_intc ≡ u.has_intc) × (v.irq_active ≡ u.irq_active)

-- What an operation on the device may be.
pub data Event : Type 0 where
  reads : ℕ → Event
  writes : ℕ → ℕ → Event
  receives : Event

module _ (line : Serial) where
  open line use {World}

  abbrev SameRead : Uart → ℕ × Uart × World → Type 0
  SameRead u r = Same u r.1

  abbrev SameWrite : Uart → Uart × World → Type 0
  SameWrite u r = Same u r.0

  reads_same :
      (u : Uart) (w : World) → All (λ reg. Yields (SameRead u) (read_reg line u w reg)) below8
  unfolding read_reg
  reads_same u w = elim (Bool-cases (is_page1 u)) [
    | inl e ↦ rw e (
      (refl, refl),
      (
        (refl, refl),
        (
          (refl, refl),
          ((refl, refl), ((refl, refl), ((refl, refl), ((refl, refl), ((refl, refl), tt))))),
        ),
      ),
    )
    | inr e ↦ rw e (
      (refl, refl),
      (
        (refl, refl),
        (
          (refl, refl),
          ((refl, refl), ((refl, refl), ((refl, refl), ((refl, refl), ((refl, refl), tt))))),
        ),
      ),
    )
  ]

  writes_same :
      (u : Uart) (w : World) (v : ℕ)
      → All (λ reg. Yields (SameWrite u) (write_reg line u w reg v)) below8
  unfolding write_reg
  writes_same u w v = elim (Bool-cases (is_page1 u)) [
    | inl e ↦ rw e (
      (refl, refl),
      (
        (refl, refl),
        (
          (refl, refl),
          ((refl, refl), ((refl, refl), ((refl, refl), ((refl, refl), ((refl, refl), tt))))),
        ),
      ),
    )
    | inr e ↦ rw e (
      (refl, refl),
      (
        (refl, refl),
        (
          (refl, refl),
          ((refl, refl), ((refl, refl), ((refl, refl), ((refl, refl), ((refl, refl), tt))))),
        ),
      ),
    )
  ]

  -- One operation, with whether the interrupt controller is told.
  abbrev step : Uart → World → Event → Outcome (Uart × World × Bool)
  step u w (reads addr) = read8 line u w addr >>= λ r. done (r.1, r.2, r.3)
  step u w (writes addr v) = write8 line u w addr v
  step u w receives = done ((async_rx_cb u).0, w, (async_rx_cb u).1)

  abbrev Steps : Uart → Uart × World × Bool → Type 0
  Steps u r = IsAssessed u.has_intc u.irq_active (r.0, r.2)

  assess-IsAssessed-Same :
      (u v : Uart) → Same u v → IsAssessed u.has_intc u.irq_active (assess_irq_status v)
  assess-IsAssessed-Same u v (i, a) =
      subst (λ b. IsAssessed u.has_intc b (assess_irq_status v)) a
        (subst (λ b. IsAssessed b v.irq_active (assess_irq_status v)) i (assess-IsAssessed v))

  step-Steps : (u : Uart) (w : World) (e : Event) → Yields (Steps u) (step u w e)
  unfolding read8 write8 async_rx_cb
  step-Steps u w (reads addr) =
      Yields-bind (λ (r : ℕ × Uart × World × Bool). IsAssessed u.has_intc u.irq_active (r.1, r.3))
        (Steps u) (read8 line u w addr) (λ r. done (r.1, r.2, r.3))
        (Yields-bind (SameRead u)
          (λ (r : ℕ × Uart × World × Bool). IsAssessed u.has_intc u.irq_active (r.1, r.3))
          (read_reg line u w (bit_and addr 7))
          (λ r. let a = assess_irq_status r.1 in done (r.0, a.0, r.2, a.1))
          (All-In (λ reg. Yields (SameRead u) (read_reg line u w reg)) below8 (bit_and addr 7)
            (reads_same u w) (register-In addr))
          (λ r h. assess-IsAssessed-Same u r.1 h))
        (λ r h. h)
  step-Steps u w (writes addr v) =
      Yields-bind (SameWrite u) (Steps u) (write_reg line u w (bit_and addr 7) v)
        (λ r. let a = assess_irq_status r.0 in done (a.0, r.1, a.1))
        (All-In (λ reg. Yields (SameWrite u) (write_reg line u w reg v)) below8 (bit_and addr 7)
          (writes_same u w v) (register-In addr))
        (λ r h. assess-IsAssessed-Same u r.0 h)
  step-Steps u w receives = assess-IsAssessed (put u reg_lsr (bit_or (u.regs reg_lsr) 0x01))

  abbrev pub run : Uart → World → List Event → Outcome (Uart × World)
  run u w [] = done (u, w)
  run u w (e ∷ es) = step u w e >>= λ r. run r.0 r.1 es

  abbrev pub Consistent : Uart × World → Type 0
  Consistent r = IsConsistent r.0

  -- Over any sequence of reads and writes of bytes at any addresses and of received bytes, from a consistent
  -- device, no operation is fatal and the device is consistent: the identification register is 1, 2 or 4,
  -- and 1 exactly when the interrupt is inactive.
  pub run-IsConsistent :
      (u : Uart) (w : World) (es : List Event) → IsConsistent u → Yields Consistent (run u w es)
  run-IsConsistent u w [] h = h
  run-IsConsistent u w (e ∷ es) h =
      Yields-bind (Steps u) Consistent (step u w e) (λ r. run r.0 r.1 es) (step-Steps u w e)
        (λ r k. run-IsConsistent r.0 r.1 es k.0)

  no_data : (l : ℕ) → bit_and (bit_and l 0xfe) 0x01 ≡ 0
  no_data l = omega (arith, bit_and_low 1 (bit_and l 0xfe), bit_and_field 1 7 l)

  and_false : (b : Bool) → (b && false) ≡ false
  and_false true = refl
  and_false false = refl

  -- A device with the interrupt active and the empty transmitter reported, before its byte is read.
  abbrev Silent : ℕ × Uart × World × Bool → Type 0
  Silent r = (r.1.regs reg_iir ≡ 1) × (r.1.irq_active ≡ false) × (r.3 ≡ false)

  reported-Silent :
      (u : Uart) (w : World)
      → is_page1 u ≡ false
      → Yields Silent (read8 line (record u { irq_active = true; thre_reported = true }) w reg_rbr)
  unfolding read8
  reported-Silent u w p =
      let some_thre =
        truthy (bit_and (bit_and (u.regs reg_lsr) 0xfe) 0x20)
        && truthy (bit_and (u.regs reg_ier) 0x02) in
      rw (p, no_data (u.regs reg_lsr), and_false some_thre) (refl, refl, refl)

  -- When data arrives and the transmitter is empty at once, and both interrupts are enabled, the interrupt is
  -- identified as the data's, and reading the byte ends it: the empty transmitter is not reported.
  pub read8-forgets_thre :
      (u : Uart) (w : World)
      → u.irq_active ≡ false
      → is_page1 u ≡ false
      → dr_irq u ≡ true
      → thre_irq u ≡ true
      → let v = (assess_irq_status u).0 in
        (v.regs reg_iir ≡ 4)
        × Yields
            (λ r. (r.1.regs reg_iir ≡ 1) × (r.1.irq_active ≡ false) × (r.3 ≡ false))
            (read8 line v w reg_rbr)
  unfolding assess_irq_status read8
  read8-forgets_thre u w a p d t = rw (a, d, t) (refl, reported-Silent (put u reg_iir 4) w p)
