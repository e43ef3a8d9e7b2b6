-- ===== src/Common/Bits/Step.antt =====
-- One equation for the lowest digit of each bit operation, with the digit count of the native
-- definition dropped.
use Prim.Native.Nat.{ℕ, zero, suc, ◌+◌, ◌*◌, ◌/◌, ◌%◌, ◌≤◌, ◌<◌, min, max, digits, bitwise, differ}
use Prim.Native.Nat.{bit_and, bit_or, bit_xor, bit_and-bitwise, bit_or-bitwise, bit_xor-bitwise}
use mathlib.Core.Path.{◌≡◌, refl, sym, ap, ◌∙◌}
use native.Mathlib.Omega.{arith}

module _ (rest : ℕ → ℕ) (op : ℕ → ℕ → ℕ) where
  -- When the first number has run out, the rest of the second counts, at any count of digits.
  digits-zero : (n y : ℕ) → digits rest op n zero y ≡ rest y
  digits-zero zero y = refl
  digits-zero (suc n) y = refl

  -- Any count that covers the first number gives the same digits.
  enough_digits : (n m x y : ℕ) → x ≤ n → x ≤ m → digits rest op n x y ≡ digits rest op m x y
  enough_digits n m zero y fits_n fits_m = digits-zero n y ∙ sym (digits-zero m y)
  enough_digits zero m (suc x) y fits_n fits_m = absurd (omega arith)
  enough_digits (suc n) zero (suc x) y fits_n fits_m = absurd (omega arith)
  enough_digits (suc n) (suc m) (suc x) y fits_n fits_m =
      ap (λ d. d * 2 + op (suc x % 2) (y % 2))
        (enough_digits n m (suc x / 2) (y / 2) (omega arith) (omega arith))

  -- The digits of a number that is not zero: its lowest, and those of its half.
  bitwise_halves :
      (x y : ℕ)
      → bitwise rest op (suc x) y ≡ bitwise rest op (suc x / 2) (y / 2) * 2 + op (suc x % 2) (y % 2)
  bitwise_halves x y =
      ap (λ d. d * 2 + op (suc x % 2) (y % 2))
        (enough_digits x (suc x / 2) (suc x / 2) (y / 2) (omega arith) (omega arith))

pub bit_or_step : (x y : ℕ) → bit_or x y ≡ bit_or (x / 2) (y / 2) * 2 + max (x % 2) (y % 2)
bit_or_step zero y = simp bit_or-bitwise (omega arith)
bit_or_step (suc x) y = simp bit_or-bitwise (bitwise_halves (λ rest. rest) max x y)

pub bit_and_step : (x y : ℕ) → bit_and x y ≡ bit_and (x / 2) (y / 2) * 2 + min (x % 2) (y % 2)
bit_and_step zero y = simp bit_and-bitwise (omega arith)
bit_and_step (suc x) y = simp bit_and-bitwise (bitwise_halves (λ rest. 0) min x y)

-- Of two digits, `differ` is the sum without its carry.
differ_digits : (x y : ℕ) → x < 2 → y < 2 → differ x y ≡ (x + y) % 2
differ_digits zero zero p q = refl
differ_digits zero (suc zero) p q = refl
differ_digits (suc zero) zero p q = refl
differ_digits (suc zero) (suc zero) p q = refl
differ_digits zero (suc (suc y)) p q = absurd (omega arith)
differ_digits (suc zero) (suc (suc y)) p q = absurd (omega arith)
differ_digits (suc (suc x)) y p q = absurd (omega arith)

zero_xor_halves : (b : ℕ) → b ≡ b / 2 * 2 + (0 + b) % 2
zero_xor_halves b = omega arith

pub bit_xor_step : (a b : ℕ) → bit_xor a b ≡ bit_xor (a / 2) (b / 2) * 2 + (a + b) % 2
bit_xor_step zero b = simp bit_xor-bitwise (zero_xor_halves b)
bit_xor_step (suc a) b = simp bit_xor-bitwise (
    omega (
      arith,
      bitwise_halves (λ y. y) differ a b,
      differ_digits (suc a % 2) (b % 2) (omega arith) (omega arith),
    ))
