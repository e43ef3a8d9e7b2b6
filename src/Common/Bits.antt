-- ===== src/Common/Bits.antt =====
-- Laws of `&`, `|` and `^` at every width: a digit at a time, masks, fields, and the group of `^`.
mod Step
pub mod Masks
pub mod Words
pub mod Xor
pub use Step.{bit_and_step, bit_or_step, bit_xor_step}
