-- ===== src/Devices/Gpio.antt =====
-- The general-purpose lines (DevGPIO.cc, DevGPIO.h).
use mr_iss.Base.{
  ℕ, ◌-◌, ◌^◌, ◌<◌, min, max, bit_and, bit_or, ◌≡◌, ap, ◌∙◌, [], ◌∷◌, switch, clear32, ◌>>=◌,
  Yields, Outcome, done, fatal,
}
use mr_iss.Bits.Digits.{digit, digit-clear32, digit-bit_or}

pub record Gpio : Type 0 where
  pub out_state : ℕ
  pub in_state : ℕ

abbrev reg_out : ℕ
reg_out = 0x00

abbrev reg_out_w1s : ℕ
reg_out_w1s = 0x04

abbrev reg_out_w1c : ℕ
reg_out_w1c = 0x08

abbrev reg_in : ℕ
reg_in = 0x0c

unfoldable pub read32 : Gpio → ℕ → Outcome ℕ
read32 d addr =
    switch (bit_and addr 0xf)
      ((reg_out, done d.out_state)
        ∷ (reg_out_w1s, done d.out_state)
        ∷ (reg_out_w1c, done d.out_state)
        ∷ (reg_in, done d.in_state)
        ∷ [])
      fatal

unfoldable pub write32 : Gpio → ℕ → ℕ → Outcome Gpio
write32 d addr v =
    switch (bit_and addr 0xf)
      ((reg_out, done (record d { out_state = v }))
        ∷ (reg_out_w1s, done (record d { out_state = bit_or d.out_state v }))
        ∷ (reg_out_w1c, done (record d { out_state = clear32 d.out_state v }))
        ∷ (reg_in, done d)
        ∷ [])
      fatal

unfoldable set_inputs : Gpio → ℕ → Gpio
set_inputs d i = record d { in_state = i }

-- Whether line `i` is driven high after the lines of `v` are set and then those of `m` cleared.
abbrev pub Drives : Gpio → ℕ → ℕ → ℕ → Gpio → Type 0
Drives d v m i e = digit e.out_state i ≡ min (max (digit d.out_state i) (digit v i)) (1 - digit m i)

-- After a write of one word to the setting register and another to the clearing one, each of the 32 lines
-- is high exactly when it was or is in the first word, and is not in the second; neither write is fatal.
write32-Drives :
    (d : Gpio) (v m i : ℕ)
    → i < 32
    → m < 2 ^ 32
    → Yields (Drives d v m i) (write32 d reg_out_w1s v >>= λ e. write32 e reg_out_w1c m)
unfolding write32
write32-Drives d v m i h k =
    digit-clear32 (bit_or d.out_state v) m i k h
    ∙ ap (λ x. min x (1 - digit m i)) (digit-bit_or d.out_state v i)
