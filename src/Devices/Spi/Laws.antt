-- ===== src/Devices/Spi/Laws.antt =====
-- A transfer against the exchange of a list of bytes.
use mr_iss.Base.{
  ℕ, zero, suc, ◌+◌, ◌*◌, ◌/◌, ◌%◌, ◌^◌, ◌≤◌, ◌<◌, bit_or, ◌≡◌, ap, ◌∙◌, true, List, [], ◌∷◌, arith,
  u32,
}
use mr_iss.Bits.Fields.{bit_and_low, bit_or_sum, bit_or_comm}
use mr_iss.Devices.Spi.{SpiDev, Spi, transfer_from, do_transfer}

-- The lowest `n` bytes of a number, the lowest first, and the number of such bytes.
abbrev pub bytes_of : ℕ → ℕ → List ℕ
bytes_of zero x = []
bytes_of (suc n) x = x % 2 ^ 8 ∷ bytes_of n (x / 2 ^ 8)

abbrev pub number_of : List ℕ → ℕ
number_of [] = 0
number_of (b ∷ bs) = b + number_of bs * 2 ^ 8

fits : (i b : ℕ) → i < 4 → b < 256 → u32 (b * 2 ^ (i * 8)) ≡ b * 2 ^ (i * 8)
fits zero b h k = omega arith
fits (suc zero) b h k = omega arith
fits (suc (suc zero)) b h k = omega arith
fits (suc (suc (suc zero))) b h k = omega arith
fits (suc (suc (suc (suc i)))) b h k = absurd (omega arith)

or_byte :
    (i r b : ℕ)
    → i < 4
    → b < 256
    → r < 2 ^ (i * 8)
    → bit_or r (u32 (b * 2 ^ (i * 8))) ≡ r + b * 2 ^ (i * 8)
or_byte i r b h k l =
    ap (bit_or r) (fits i b h k)
    ∙ bit_or_comm r (b * 2 ^ (i * 8))
    ∙ bit_or_sum (i * 8) b r l
    ∙ omega arith

sum_step :
    (i r b f : ℕ)
    → i < 4
    → r + b * 2 ^ (i * 8) + f * 2 ^ (suc i * 8) ≡ r + (b + f * 256) * 2 ^ (i * 8)
sum_step zero r b f h = omega arith
sum_step (suc zero) r b f h = omega arith
sum_step (suc (suc zero)) r b f h = omega arith
sum_step (suc (suc (suc zero))) r b f h = omega arith
sum_step (suc (suc (suc (suc i)))) r b f h = absurd (omega arith)

bound_step : (i r b : ℕ) → i < 4 → b < 256 → r < 2 ^ (i * 8) → r + b * 2 ^ (i * 8) < 2 ^ (suc i * 8)
bound_step zero r b h k l = omega arith
bound_step (suc zero) r b h k l = omega arith
bound_step (suc (suc zero)) r b h k l = omega arith
bound_step (suc (suc (suc zero))) r b h k l = omega arith
bound_step (suc (suc (suc (suc i)))) r b h k l = absurd (omega arith)

shift_step : (i x : ℕ) → i < 4 → x / 2 ^ (suc i * 8) ≡ x / 2 ^ (i * 8) / 256
shift_step zero x h = omega arith
shift_step (suc zero) x h = omega arith
shift_step (suc (suc zero)) x h = omega arith
shift_step (suc (suc (suc zero))) x h = omega arith
shift_step (suc (suc (suc (suc i)))) x h = absurd (omega arith)

over_one : (x : ℕ) → x / 1 ≡ x
over_one x = omega arith

plain : (x : ℕ) → 0 + x * 1 ≡ x
plain x = omega arith

module _ (dev : SpiDev) where
  open dev use {World, get_put_byte}

  -- The bytes go out one after the other, and the answers come back in the same order.
  abbrev pub exchange : World → List ℕ → List ℕ × World
  exchange w [] = ([], w)
  exchange w (b ∷ bs) =
      let answer = get_put_byte w b in
      let rest = exchange answer.1 bs in (answer.0 ∷ rest.0, rest.1)

  module _ (byte : (w : World) (b : ℕ) → (get_put_byte w b).0 < 256) where
    transfer_from-exchange :
        (n i txd : ℕ) (w : World) (r : ℕ)
        → i + n ≤ 4
        → r < 2 ^ (i * 8)
        → let e = exchange w (bytes_of n (txd / 2 ^ (i * 8))) in
          transfer_from dev n i txd w r ≡ (r + number_of e.0 * 2 ^ (i * 8), e.1)
    unfolding transfer_from
    transfer_from-exchange zero i txd w r h k = ap (λ (x : ℕ). (x, w)) (omega arith)
    transfer_from-exchange (suc n) i txd w r h k =
        let out = txd / 2 ^ (i * 8) in
        let a = get_put_byte w (out % 256) in
        let small = byte w (out % 256) in
        ap
          (λ b.
            let c = get_put_byte w b in
            transfer_from dev n (suc i) txd c.1 (bit_or r (u32 (c.0 * 2 ^ (i * 8)))))
          (bit_and_low 8 out)
        ∙ ap (transfer_from dev n (suc i) txd a.1) (or_byte i r a.0 (omega arith) small k)
        ∙ transfer_from-exchange n (suc i) txd a.1 (r + a.0 * 2 ^ (i * 8)) (omega arith)
            (bound_step i r a.0 (omega arith) small k)
        ∙ ap
            (λ x.
              let e = exchange a.1 (bytes_of n x) in
              (r + a.0 * 2 ^ (i * 8) + number_of e.0 * 2 ^ (suc i * 8), e.1))
            (shift_step i txd (omega arith))
        ∙ ap (λ x. (x, (exchange a.1 (bytes_of n (out / 256))).1))
            (sum_step i r a.0 (number_of (exchange a.1 (bytes_of n (out / 256))).0) (omega arith))

    -- With a device whose answers are bytes, a transfer of `len + 1` bytes, four at most, exchanges the lowest
    -- `len + 1` bytes of the word, the lowest first, and gives the number of the answers in their order.
    pub do_transfer-exchange :
        (d : Spi) (w : World) (txd len : ℕ)
        → d.has_spidev ≡ true
        → len < 4
        → let e = exchange w (bytes_of (len + 1) txd) in
          do_transfer dev d w txd len ≡ (number_of e.0, e.1)
    unfolding do_transfer
    do_transfer-exchange d w txd len h k = rw h (
        transfer_from-exchange (len + 1) 0 txd w 0 (omega arith) (omega arith)
        ∙ ap (λ x. let e = exchange w (bytes_of (len + 1) x) in (0 + number_of e.0 * 1, e.1))
            (over_one txd)
        ∙ ap (λ x. (x, (exchange w (bytes_of (len + 1) txd)).1))
            (plain (number_of (exchange w (bytes_of (len + 1) txd)).0)))
