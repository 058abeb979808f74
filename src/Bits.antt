-- ===== src/Bits.antt =====
-- Laws of `&`, `|`, `^` and `~` at variables: digit by digit, and as arithmetic on fields.
pub mod Step
pub mod Digits
pub mod Fields
pub mod Divide
pub mod Shift
pub mod Xor
