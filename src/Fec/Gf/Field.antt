-- ===== src/Fec/Gf/Field.antt =====
-- The powers of the generator, and the products of tight/src/fec.cpp on them.
use damen.Common.{
  ℕ, zero, suc, ◌+◌, ◌-◌, ◌%◌, ◌<◌, ◌≡◌, ◌⊎◌, inl, inr, refl, sym, ap, ap₂, ◌∙◌, arith, bit_xor,
  Bool, true, ◌==◌, ==_ne, ==_iff, dec_lt,
}
use damen.Fec.Gf.{gf, next_power, gf_mul}
use damen.Fec.Gf.Tables.{
  gf_exp, gf_log, gf_exp_suc, gf_exp_repeat, gf_exp_byte, gf_log-gf_exp, gf_exp-gf_log, holds_below,
  holds_below-lt,
}

-- The `n`-th power of the generator.
pub power : ℕ → ℕ
power n = gf_exp (n % 255)

pub power_lem : (n : ℕ) → n < 510 → gf_exp n ≡ power n
unfolding power
power_lem n h = elim (dec_lt n 255) [
  | yes low ↦ ap gf_exp (omega arith)
  | no high ↦
      ap gf_exp (omega arith) ∙ gf_exp_repeat (n - 255) (omega arith) ∙ ap gf_exp (omega arith)
]

pub power-zero : power 0 ≡ 1
unfolding power gf
power-zero = refl

pub power-suc : (n : ℕ) → power (suc n) ≡ next_power (power n)
unfolding power
power-suc n = elim (dec_lt (n % 255) 254) [
  | yes inner ↦ ap gf_exp (omega arith) ∙ gf_exp_suc (n % 255) (omega arith)
  | no last ↦
      ap gf_exp (omega arith)
      ∙ sym (gf_exp_repeat 0 (omega arith))
      ∙ gf_exp_suc 254 (omega arith)
      ∙ ap (λ t. next_power (gf_exp t)) (omega arith)
]

-- Powers go round with period 255.
pub power_mod : (n m : ℕ) → n % 255 ≡ m % 255 → power n ≡ power m
unfolding power
power_mod n m e = ap gf_exp e

pub power_byte : (n : ℕ) → (0 < power n) × (power n < 256)
unfolding power
power_byte n = gf_exp_byte (n % 255) (omega arith)

-- A nonzero byte is a power of the generator.
pub log_power : (a : ℕ) → 0 < a → a < 256 → power (gf_log a) ≡ a
unfolding power
log_power a h k = let f = gf_exp-gf_log a h k in ap gf_exp (omega (arith, f.0)) ∙ f.1

gf_log-power : (n : ℕ) → gf_log (power n) ≡ n % 255
unfolding power
gf_log-power n = gf_log-gf_exp (n % 255) (omega arith)

pub gf_mul-power : (n m : ℕ) → gf_mul (power n) (power m) ≡ power (n + m)
unfolding gf_mul
gf_mul-power n m =
    rw
      (
        ==_ne (power n) 0 (omega (arith, power_byte n)),
        ==_ne (power m) 0 (omega (arith, power_byte m)),
      )
      (ap₂ (λ i j. gf_exp (i + j)) (gf_log-power n) (gf_log-power m)
        ∙ power_lem (n % 255 + m % 255) (omega arith)
        ∙ regroup)
  where
    regroup : power (n % 255 + m % 255) ≡ power (n + m)
    regroup = power_mod (n % 255 + m % 255) (n + m) (omega arith)

pub gf_mul-zero : (a : ℕ) → gf_mul a 0 ≡ 0
unfolding gf_mul
gf_mul-zero a = ground arith

pub zero-gf_mul : (a : ℕ) → gf_mul 0 a ≡ 0
unfolding gf_mul
zero-gf_mul a = ground arith

-- The next power of a sum is the sum of the next powers: every pair of bytes, checked.
linear_at : ℕ → ℕ → Bool
linear_at a b = next_power (bit_xor a b) == bit_xor (next_power a) (next_power b)

linear_table : holds_below (λ a. holds_below (linear_at a) 256) 256 ≡ true
unfolding holds_below linear_at next_power
linear_table = refl

pub next_power-bit_xor :
    (a b : ℕ) → a < 256 → b < 256 → next_power (bit_xor a b) ≡ bit_xor (next_power a) (next_power b)
unfolding linear_at
next_power-bit_xor a b ha hb = (==_iff _ _).0 (
    holds_below-lt (linear_at a) 256 b hb
      (holds_below-lt (λ a. holds_below (linear_at a) 256) 256 a ha linear_table))

pub next_power-zero : next_power 0 ≡ 0
unfolding next_power
next_power-zero = refl

-- A byte is zero or a power.
pub byte_cases : (a : ℕ) → a < 256 → (a ≡ 0) ⊎ ((n : ℕ) × (a ≡ power n))
byte_cases zero h = inl refl
byte_cases (suc a) h = inr (gf_log (suc a), sym (log_power (suc a) (omega arith) h))

pub gf_mul-lt : (a b : ℕ) → a < 256 → b < 256 → gf_mul a b < 256
gf_mul-lt a b ha hb = elim (byte_cases a ha) [
  | inl e ↦ rw (e, zero-gf_mul) (omega arith)
  | inr (n, e) ↦ elim (byte_cases b hb) [
    | inl f ↦ rw (f, gf_mul-zero) (omega arith)
    | inr (m, f) ↦ rw (e, f, gf_mul-power) (power_byte (n + m)).1
  ]
]
