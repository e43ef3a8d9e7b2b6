-- ===== src/Common/Bits/Masks.antt =====
-- `&` with a mask of low bits or of one byte, and `|` of disjoint fields, as arithmetic.
use Prim.Native.Nat.{ℕ, zero, suc, ◌+◌, ◌*◌, ◌/◌, ◌%◌, ◌^◌, ◌≤◌, ◌<◌, bit_and, bit_or}
use mathlib.Core.Path.{◌≡◌, refl, ap, ◌∙◌}
use native.Mathlib.Omega.{arith}
use native.Mathlib.Nat.{pow-suc}
use damen.Common.Bits.Step.{bit_and_step, bit_or_step}

and_zero_below : (n a : ℕ) → a ≤ n → bit_and a 0 ≡ 0
and_zero_below n zero h = refl
and_zero_below zero (suc a) h = absurd (omega arith)
and_zero_below (suc n) (suc a) h =
    omega (arith, bit_and_step (suc a) 0, and_zero_below n (suc a / 2) (omega arith))

pub bit_and-zero : (a : ℕ) → bit_and a 0 ≡ 0
bit_and-zero a = and_zero_below a a (omega arith)

or_zero_below : (n a : ℕ) → a ≤ n → bit_or a 0 ≡ a
or_zero_below n zero h = refl
or_zero_below zero (suc a) h = absurd (omega arith)
or_zero_below (suc n) (suc a) h =
    omega (arith, bit_or_step (suc a) 0, or_zero_below n (suc a / 2) (omega arith))

pub bit_or-zero : (a : ℕ) → bit_or a 0 ≡ a
bit_or-zero a = or_zero_below a a (omega arith)

-- A mask that ends in a one, and one that ends in a zero.
and_odd : (a m : ℕ) → bit_and a (m * 2 + 1) ≡ bit_and (a / 2) m * 2 + a % 2
and_odd a m = omega (arith, bit_and_step a (m * 2 + 1), ap (bit_and (a / 2)) (halve m))
  where
    halve : (m : ℕ) → (m * 2 + 1) / 2 ≡ m
    halve m = omega arith

and_even : (a m : ℕ) → bit_and a (m * 2) ≡ bit_and (a / 2) m * 2
and_even a m = omega (arith, bit_and_step a (m * 2), ap (bit_and (a / 2)) (halve m))
  where
    halve : (m : ℕ) → m * 2 / 2 ≡ m
    halve m = omega arith

pub bit_and_one : (a : ℕ) → bit_and a 1 ≡ a % 2
bit_and_one a = omega (arith, and_odd a 0, bit_and-zero (a / 2))

and_three : (a : ℕ) → bit_and a 3 ≡ a % 4
and_three a = omega (arith, and_odd a 1, bit_and_one (a / 2))

and_seven : (a : ℕ) → bit_and a 7 ≡ a % 8
and_seven a = omega (arith, and_odd a 3, and_three (a / 2))

and_nibble : (a : ℕ) → bit_and a 0xf ≡ a % 16
and_nibble a = omega (arith, and_odd a 7, and_seven (a / 2))

and_five_ones : (a : ℕ) → bit_and a 0x1f ≡ a % 32
and_five_ones a = omega (arith, and_odd a 0xf, and_nibble (a / 2))

and_six_ones : (a : ℕ) → bit_and a 0x3f ≡ a % 64
and_six_ones a = omega (arith, and_odd a 0x1f, and_five_ones (a / 2))

and_seven_ones : (a : ℕ) → bit_and a 0x7f ≡ a % 128
and_seven_ones a = omega (arith, and_odd a 0x3f, and_six_ones (a / 2))

pub bit_and_byte : (a : ℕ) → bit_and a 0xff ≡ a % 256
bit_and_byte a = omega (arith, and_odd a 0x7f, and_seven_ones (a / 2))

-- A mask moved up by four digits, and by a byte.
and_up_nibble : (a m : ℕ) → bit_and a (m * 16) ≡ bit_and (a / 16) m * 16
and_up_nibble a m =
    ap (bit_and a) doubled
    ∙ and_even a (m * 2 * 2 * 2)
    ∙ ap (λ t. t * 2) (and_even (a / 2) (m * 2 * 2))
    ∙ ap (λ t. t * 2 * 2) (and_even (a / 2 / 2) (m * 2))
    ∙ ap (λ t. t * 2 * 2 * 2) (and_even (a / 2 / 2 / 2) m)
    ∙ joined
  where
    doubled : m * 16 ≡ m * 2 * 2 * 2 * 2
    doubled = omega arith

    quarters : a / 2 / 2 / 2 / 2 ≡ a / 16
    quarters = omega arith

    joined : bit_and (a / 2 / 2 / 2 / 2) m * 2 * 2 * 2 * 2 ≡ bit_and (a / 16) m * 16
    joined = omega (arith, ap (λ t. bit_and t m) quarters)

pub bit_and_up_byte : (a m : ℕ) → bit_and a (m * 256) ≡ bit_and (a / 256) m * 256
bit_and_up_byte a m =
    ap (bit_and a) (omega arith)
    ∙ and_up_nibble a (m * 16)
    ∙ ap (λ t. t * 16) (and_up_nibble (a / 16) m)
    ∙ omega (arith, ap (λ t. bit_and t m) sixteenths)
  where
    sixteenths : a / 16 / 16 ≡ a / 256
    sixteenths = omega arith

-- `k` ones.
abbrev pub ones : ℕ → ℕ
ones zero = 0
ones (suc k) = ones k * 2 + 1

double_power : (q k : ℕ) → q * 2 ^ suc k ≡ 2 * (q * 2 ^ k)
double_power q k = omega (arith, ap (λ (t : ℕ). q * t) (pow-suc 2 k))

-- `(q << k) | r` is a sum when `r` keeps to `k` digits.
pub bit_or_field : (k q r : ℕ) → r < 2 ^ k → bit_or (q * 2 ^ k) r ≡ q * 2 ^ k + r
bit_or_field zero q r h = ground (arith, bit_or-zero q)
bit_or_field (suc k) q r h = ground (
  arith,
  bit_or_step (q * 2 ^ suc k) r,
  double_power q k,
  bit_or_field k q (r / 2) (omega (arith, pow-suc 2 k)),
)

pub and_ones_field : (k q r : ℕ) → r < 2 ^ k → bit_and (q * 2 ^ k + r) (ones k) ≡ r
and_ones_field zero q r h = omega (arith, bit_and-zero (q * 1 + r))
and_ones_field (suc k) q r h = ground (
  arith,
  and_odd (q * 2 ^ suc k + r) (ones k),
  double_power q k,
  pow-suc 2 k,
  and_ones_field k q (r / 2),
)

-- The low 32 bits.
pub bit_and_word : (a : ℕ) → bit_and a 0xffffffff ≡ a % 2 ^ 32
bit_and_word a =
    ap (λ t. bit_and t 0xffffffff) split ∙ and_ones_field 32 (a / 2 ^ 32) (a % 2 ^ 32) (omega arith)
  where
    split : a ≡ a / 2 ^ 32 * 2 ^ 32 + a % 2 ^ 32
    split = omega arith
