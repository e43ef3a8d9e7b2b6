-- ===== src/Common/Bits/Words.antt =====
-- `&` with wide masks, `|` and `&` the other way round, and a disjunction that is zero.
use Prim.Native.Nat.{
  ℕ, zero, suc, ◌+◌, ◌*◌, ◌/◌, ◌%◌, ◌^◌, ◌≤◌, bit_and, bit_or, bit_or-bitwise, bit_and-bitwise,
}
use mathlib.Core.Path.{◌≡◌, ap, ◌∙◌, sym}
use native.Mathlib.Omega.{arith}
use damen.Common.Bits.Step.{bit_and_step, bit_or_step}
use damen.Common.Bits.Masks.{and_ones_field, bit_or-zero, bit_and-zero}

-- The low 64 bits.
pub bit_and_dword : (a : ℕ) → bit_and a 0xffffffffffffffff ≡ a % 2 ^ 64
bit_and_dword a =
    ap (λ t. bit_and t 0xffffffffffffffff) split
    ∙ and_ones_field 64 (a / 2 ^ 64) (a % 2 ^ 64) (omega arith)
  where
    split : a ≡ a / 2 ^ 64 * 2 ^ 64 + a % 2 ^ 64
    split = omega arith

-- The low 51 bits.
pub bit_and_limb : (a : ℕ) → bit_and a 0x7ffffffffffff ≡ a % 2 ^ 51
bit_and_limb a =
    ap (λ t. bit_and t 0x7ffffffffffff) split
    ∙ and_ones_field 51 (a / 2 ^ 51) (a % 2 ^ 51) (omega arith)
  where
    split : a ≡ a / 2 ^ 51 * 2 ^ 51 + a % 2 ^ 51
    split = omega arith

or_comm_below : (n a b : ℕ) → a ≤ n → bit_or a b ≡ bit_or b a
or_comm_below n zero b h = bit_or-bitwise 0 b ∙ sym (bit_or-zero b)
or_comm_below zero (suc a) b h = absurd (omega arith)
or_comm_below (suc n) (suc a) b h = omega (
  arith,
  bit_or_step (suc a) b,
  bit_or_step b (suc a),
  or_comm_below n (suc a / 2) (b / 2) (omega arith),
)

pub bit_or_comm : (a b : ℕ) → bit_or a b ≡ bit_or b a
bit_or_comm a b = or_comm_below a a b (omega arith)

or_parts_below : (n a b : ℕ) → a + b ≤ n → bit_or a b ≡ 0 → a + b ≡ 0
or_parts_below n zero zero h e = omega arith
or_parts_below zero (suc a) b h e = absurd (omega arith)
or_parts_below zero zero (suc b) h e = absurd (omega arith)
or_parts_below (suc n) (suc a) b h e = omega (
  arith,
  e,
  bit_or_step (suc a) b,
  or_parts_below n (suc a / 2) (b / 2) (omega arith) (omega (arith, e, bit_or_step (suc a) b)),
)
or_parts_below (suc n) zero (suc b) h e = omega (arith, bit_or-bitwise 0 (suc b))

-- A disjunction is zero only of zeros.
pub bit_or_parts : (a b : ℕ) → bit_or a b ≡ 0 → (a ≡ 0) × (b ≡ 0)
bit_or_parts a b e =
    let both = or_parts_below (a + b) a b (omega arith) e in
    (omega (arith, both), omega (arith, both))

and_comm_below : (n a b : ℕ) → a ≤ n → bit_and a b ≡ bit_and b a
and_comm_below n zero b h = bit_and-bitwise 0 b ∙ sym (bit_and-zero b)
and_comm_below zero (suc a) b h = absurd (omega arith)
and_comm_below (suc n) (suc a) b h = omega (
  arith,
  bit_and_step (suc a) b,
  bit_and_step b (suc a),
  and_comm_below n (suc a / 2) (b / 2) (omega arith),
)

pub bit_and_comm : (a b : ℕ) → bit_and a b ≡ bit_and b a
bit_and_comm a b = and_comm_below a a b (omega arith)
