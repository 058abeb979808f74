-- ===== src/Devices/SimpleUart/Laws.antt =====
-- The interrupt of the simple UART after each operation.
use mr_iss.Base.{
  ℕ, bit_and, ◌≡◌, refl, sym, subst, Bool, true, false, not, ◌&&◌, List, [], ◌∷◌, In, All, All-In,
  Yields, Yields-bind, done,
}
use mr_iss.Devices.Uart.{Serial}
use mr_iss.Devices.SimpleUart.{
  SimpleUart, wants_irq, assess_with, assess_irq_status, received, async_rx_cb, read_reg, read8,
  write_reg, write8,
}

-- Active exactly when an enabled status is set, and the controller is told exactly of a change to active.
abbrev IsAssessed : Bool → Bool → SimpleUart × Bool → Type 0
IsAssessed intc active r =
    (r.0.irq_active ≡ wants_irq r.0) × (r.1 ≡ (intc && (not active && r.0.irq_active)))

assess_with-IsAssessed :
    (u : SimpleUart) (active intc want : Bool)
    → wants_irq u ≡ want
    → IsAssessed intc active (assess_with (record u { irq_active = active; has_intc = intc }) want)
unfolding assess_with wants_irq
assess_with-IsAssessed u true true true e = (sym e, refl)
assess_with-IsAssessed u true true false e = (sym e, refl)
assess_with-IsAssessed u true false true e = (sym e, refl)
assess_with-IsAssessed u true false false e = (sym e, refl)
assess_with-IsAssessed u false true true e = (sym e, refl)
assess_with-IsAssessed u false true false e = (sym e, refl)
assess_with-IsAssessed u false false true e = (sym e, refl)
assess_with-IsAssessed u false false false e = (sym e, refl)

abbrev Same : SimpleUart → SimpleUart → Type 0
Same u v = (v.has_intc ≡ u.has_intc) × (v.irq_active ≡ u.irq_active)

assess-IsAssessed-Same :
    (u v : SimpleUart) → Same u v → IsAssessed u.has_intc u.irq_active (assess_irq_status v)
unfolding assess_irq_status
assess-IsAssessed-Same u v (i, a) =
    subst (λ b. IsAssessed u.has_intc b (assess_irq_status v)) a
      (subst (λ b. IsAssessed b v.irq_active (assess_irq_status v)) i
        (assess_with-IsAssessed v v.irq_active v.has_intc (wants_irq v) refl))

-- The places that can be read, and those that can be written.
abbrev readable : List ℕ
readable = 0x00 ∷ 0x04 ∷ 0x08 ∷ 0x0c ∷ []

abbrev writable : List ℕ
writable = 0x00 ∷ 0x08 ∷ 0x0c ∷ []

module _ (line : Serial) where
  open line use {World}

  abbrev SameRead : SimpleUart → ℕ × SimpleUart × World → Type 0
  SameRead u r = Same u r.1

  abbrev SameWrite : SimpleUart → SimpleUart × World → Type 0
  SameWrite u r = Same u r.0

  reads_same :
      (u : SimpleUart) (w : World)
      → All (λ reg. Yields (SameRead u) (read_reg line u w reg)) readable
  unfolding read_reg
  reads_same u w = ((refl, refl), ((refl, refl), ((refl, refl), ((refl, refl), tt))))

  writes_same :
      (u : SimpleUart) (w : World) (v : ℕ)
      → All (λ reg. Yields (SameWrite u) (write_reg line u w reg v)) writable
  unfolding write_reg
  writes_same u w v = ((refl, refl), ((refl, refl), ((refl, refl), tt)))

  abbrev AfterRead : SimpleUart → ℕ × SimpleUart × World × Bool → Type 0
  AfterRead u r = IsAssessed u.has_intc u.irq_active (r.1, r.3)

  abbrev AfterWrite : SimpleUart → SimpleUart × World × Bool → Type 0
  AfterWrite u r = IsAssessed u.has_intc u.irq_active (r.0, r.2)

  -- After a read of any place that can be read, a write of any place that can be written and a received
  -- byte, from any state, the interrupt is active exactly when an enabled status is set, and the interrupt
  -- controller is told exactly when it was not active before and is now; none of them is fatal.
  accesses-IsAssessed :
      (u : SimpleUart) (w : World) (addr v : ℕ)
      → (In (bit_and addr 0xf) readable → Yields (AfterRead u) (read8 line u w addr))
        × (In (bit_and addr 0xf) writable → Yields (AfterWrite u) (write8 line u w addr v))
        × IsAssessed u.has_intc u.irq_active (async_rx_cb u)
  unfolding read8 write8 async_rx_cb received
  accesses-IsAssessed u w addr v = (
    λ m.
        Yields-bind (SameRead u) (AfterRead u) (read_reg line u w (bit_and addr 0xf))
          (λ r. let a = assess_irq_status r.1 in done (r.0, a.0, r.2, a.1))
          (All-In (λ reg. Yields (SameRead u) (read_reg line u w reg)) readable (bit_and addr 0xf)
            (reads_same u w) m)
          (λ r h. assess-IsAssessed-Same u r.1 h),
    λ m.
        Yields-bind (SameWrite u) (AfterWrite u) (write_reg line u w (bit_and addr 0xf) v)
          (λ r. let a = assess_irq_status r.0 in done (a.0, r.1, a.1))
          (All-In (λ reg. Yields (SameWrite u) (write_reg line u w reg v)) writable
            (bit_and addr 0xf) (writes_same u w v) m)
          (λ r h. assess-IsAssessed-Same u r.0 h),
    assess-IsAssessed-Same u (received u) (refl, refl),
  )
