-- ===== src/Host/Serial.antt =====
-- The host's ends of a serial line: SerialTCP.cc and SerialPTY.cc, over what `poll`, `accept` and `read` give. The
-- listener's thread and the device that reads meet in `report_rx`: a round of the thread, and each operation, is a step.
-- The set-up of the socket and of the terminal is the host's, and so is a byte that is written.
pub mod Laws
use mr_iss.Base.{ℕ, Bool, true, false, ◌&&◌, Option, none, some, List, [], ◌∷◌, if◌then◌else◌}

-- The fields of both classes. A descriptor of -1 is `none`; `has_cb` is `rx_cb` set or null.
pub record Line : Type 0 where
  pub fd : Option ℕ
  pub has_cb : Bool
  pub report_rx : Bool

-- What `poll` reports with a result above 0: whether there is a caller, who gets `accepted`, and of the line, if it is
-- polled, whether it has an error or is hung up, and whether there is input.
pub record Polled : Type 0 where
  pub has_caller : Bool
  pub accepted : Option ℕ
  pub is_dropped : Bool
  pub has_input : Bool

-- The results of a `read` of a byte.
pub data Read : Type 0 where
  byte : ℕ → Read
  again failed : Read

abbrev is_some : Option ℕ → Bool
is_some (some fd) = true
is_some none = false

abbrev pub is_open : Line → Bool
is_open s = is_some s.fd

-- On input: the line, and whether the callback is called.
pub notify : Line → Line × Bool
notify s = if s.report_rx && s.has_cb then (record s { report_rx = false }, true) else (s, false)

-- A round of `SerialTCP::listenThread`. The line is polled if it was open before.
pub listen_tcp : Polled → Line → Line × Bool
unfolding notify
listen_tcp p s =
    let s1 = if p.has_caller then record s { fd = p.accepted } else s in
    if is_open s && p.is_dropped
    then (record s1 { fd = none }, false)
    else (if is_open s && p.has_input then notify s1 else (s1, false))

-- A round of `SerialPTY::listenThread`.
pub listen_pty : Polled → Line → Line × Bool
unfolding notify
listen_pty p s =
    if is_open s && p.is_dropped
    then (s, false)
    else (if is_open s && p.has_input then notify s else (s, false))

-- One `read`: a byte, or 0.
abbrev byte_of : Read → ℕ
byte_of (byte b) = b
byte_of again = 0
byte_of failed = 0

pub get_byte_tcp : Read → Line → ℕ × Line
get_byte_tcp result s = (if is_open s then byte_of result else 0, record s { report_rx = true })

-- The reads while there is nothing yet, over their results: 0 where these end.
pub read_on : List Read → ℕ
read_on [] = 0
read_on (again ∷ rest) = read_on rest
read_on (byte b ∷ rest) = b
read_on (failed ∷ rest) = 0

pub get_byte_pty : List Read → Line → ℕ × Line
unfolding read_on
get_byte_pty results s = (if is_open s then read_on results else 0, record s { report_rx = true })

-- The byte that is written, and where.
pub put_byte : ℕ → Line → Option (ℕ × ℕ)
put_byte b s = elim s.fd [ some fd ↦ some (fd, b) | none ↦ none ]

-- `answer` is whether a `poll` that does not wait gives 1.
pub rx_pending : Bool → Line → Bool
rx_pending answer s = is_open s && answer

pub register_async_rx_cb : Bool → Line → Line
register_async_rx_cb has_func s = record s { has_cb = has_func }

-- `SerialTCP::init` and the start of the thread.
pub start_tcp : Line → Line
start_tcp s = record s { fd = none; report_rx = true }
