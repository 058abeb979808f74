-- ===== src/Devices/SpiGpio/Laws.antt =====
-- A byte exchanged over the pins with a device on their other side (SPIDevGPIO.cc).
use mr_iss.Base.{
  ℕ, ◌<◌, bit_or, bit_xor, ◌≡◌, refl, Bool, true, false, ◌&&◌, not, List, [], ◌∷◌, ◌==◌, ==_iff,
  if◌then◌else◌, truthy, to_int, bit_and, u8, ◌<<<◌, holds_below, holds_below_at,
}
use mr_iss.Devices.SpiGpio.{
  Pins, SpiGpio, gpio_dout, gpio_din, gpio_clk, set_config, get_put_byte, spi_dev,
}

-- A device of SPI mode `cpol`, `cpha`: the levels of its two inputs, the bits that it has yet to put on its output,
-- the first of them there now, and the bits that it has sampled, the last one first.
pub record Peer : Type 0 where
  pub clock : ℕ
  pub line : ℕ
  pub ahead : List ℕ
  pub sampled : List ℕ

head : List ℕ → ℕ
head [] = 0
head (x ∷ xs) = x

tail : List ℕ → List ℕ
tail [] = []
tail (x ∷ xs) = xs

-- An edge of the clock to level `v`: in phase 0 the leading edges sample and the trailing ones shift, in phase 1 the
-- other way round.
unfoldable edge : Bool → Bool → Peer → ℕ → Peer
edge cpol cpha p v =
    if v == bit_xor (to_int (not cpha)) (to_int cpol)
    then record p { clock = v; sampled = p.line ∷ p.sampled }
    else record p { clock = v; ahead = tail p.ahead }

unfoldable peer_write : Bool → Bool → Peer → ℕ → ℕ → Peer
unfolding edge
peer_write cpol cpha p pin v =
    if pin == gpio_dout
    then record p { line = v }
    else if pin == gpio_clk && not (v == p.clock)
    then edge cpol cpha p v
    else p

abbrev peer : Bool → Bool → Pins
peer cpol cpha = record {
  World = Peer;
  gpio_write = peer_write cpol cpha;
  gpio_read = λ p pin. if pin == gpio_din then head p.ahead else 0;
  set_up = λ p. p;
}

-- The bits of a byte, the highest first.
unfoldable pub bit_at : ℕ → ℕ → ℕ
bit_at b i = to_int (truthy (bit_and b (1 <<< i)))

abbrev msb_first : ℕ → List ℕ
msb_first b =
    bit_at b 7
    ∷ bit_at b 6
    ∷ bit_at b 5
    ∷ bit_at b 4
    ∷ bit_at b 3
    ∷ bit_at b 2
    ∷ bit_at b 1
    ∷ bit_at b 0
    ∷ []

abbrev lsb_first : ℕ → List ℕ
lsb_first b =
    bit_at b 0
    ∷ bit_at b 1
    ∷ bit_at b 2
    ∷ bit_at b 3
    ∷ bit_at b 4
    ∷ bit_at b 5
    ∷ bit_at b 6
    ∷ bit_at b 7
    ∷ []

pack : ℕ → List ℕ → ℕ
pack r [] = r
pack r (x ∷ xs) = pack (u8 (bit_or (r <<< 1) x)) xs

all_packed : holds_below 256 (λ s. pack 0 (msb_first s) == s) ≡ true
unfolding pack bit_at
all_packed = refl

-- A peer at rest that is about to send the byte `s`: in phase 1 its first shift puts the byte's first bit on the line.
unfoldable loaded : Bool → Bool → ℕ → Peer
unfolding bit_at
loaded cpol cpha s = record {
  clock = to_int cpol;
  line = 0;
  ahead = if cpha then 0 ∷ msb_first s else msb_first s;
  sampled = [];
}

-- A byte exchanged by the host's operations on the device: the configuration, from any one before, and the byte.
pub exchange_byte : SpiGpio → Bool → Bool → ℕ → ℕ → ℕ → ℕ × (SpiGpio × Peer)
unfolding loaded
exchange_byte old cpol cpha clkdiv b s =
    let dev = spi_dev (peer cpol cpha) in
    dev.get_put_byte (dev.set_config (old, loaded cpol cpha s) cpol cpha clkdiv) b

-- The byte that comes back, the bits that the peer has sampled and the level that its clock is left at.
abbrev pub Exchanged : Bool → ℕ → ℕ → ℕ × (SpiGpio × Peer) → Type 0
Exchanged cpol b s r = r.0 ≡ s × r.1.1.sampled ≡ lsb_first b × r.1.1.clock ≡ to_int cpol

packed : (s : ℕ) → s < 256 → pack 0 (msb_first s) ≡ s
packed s k =
    (==_iff (pack 0 (msb_first s)) s).0
      (holds_below_at 256 (λ x. pack 0 (msb_first x) == x) s all_packed k)

-- In every polarity and phase, a byte exchanged after the configuration with a peer of the same mode is the byte that
-- the peer had to send, the peer has sampled the sent byte's eight bits and no others, and the clock is left at rest.
pub exchange_byte-Exchanged :
    (old : SpiGpio) (cpol cpha : Bool) (clkdiv b s : ℕ)
    → s < 256
    → Exchanged cpol b s (exchange_byte old cpol cpha clkdiv b s)
unfolding exchange_byte set_config get_put_byte loaded peer_write pack bit_at head tail
exchange_byte-Exchanged old false false clkdiv b s k = (packed s k, refl, refl)
exchange_byte-Exchanged old false true clkdiv b s k = (packed s k, refl, refl)
exchange_byte-Exchanged old true false clkdiv b s k = (packed s k, refl, refl)
exchange_byte-Exchanged old true true clkdiv b s k = (packed s k, refl, refl)
