-- ===== src/Crypto/X25519/Product.antt =====
-- The products of field elements in tight/src/crypto.cpp, as numbers.
use damen.Common.{ℕ, ◌+◌, ◌*◌, ◌%◌, ◌^◌, ◌≤◌, ◌<◌, ◌≡◌, sym, ap, subst, ◌∙◌, arith}
use native.Mathlib.Nat.{add-mul-mod_self_left, mul-le-mul}
use damen.Crypto.X25519.Field.{Fe, fe_mul, fe_mul_scalar}
use damen.Crypto.X25519.Carries.{
  value, prime, Below, Reduced, plain, plain-value, plain-Below, carried,
}

-- The product of two limbs.
limbs : (a b : ℕ) → a < 2 ^ 53 → b < 2 ^ 53 → a * b ≤ 2 ^ 53 * 2 ^ 53
limbs a b h k = mul-le-mul {n₁ = a} {m₁ = b} {n₂ = 2 ^ 53} {m₂ = 2 ^ 53} (omega arith) (omega arith)

-- The digits of the product before the carries.
abbrev row0 : Fe → Fe → ℕ
row0 f g = f.l0 * g.l0 + 19 * (f.l1 * g.l4 + f.l2 * g.l3 + f.l3 * g.l2 + f.l4 * g.l1)

abbrev row1 : Fe → Fe → ℕ
row1 f g = f.l0 * g.l1 + f.l1 * g.l0 + 19 * (f.l2 * g.l4 + f.l3 * g.l3 + f.l4 * g.l2)

abbrev row2 : Fe → Fe → ℕ
row2 f g = f.l0 * g.l2 + f.l1 * g.l1 + f.l2 * g.l0 + 19 * (f.l3 * g.l4 + f.l4 * g.l3)

abbrev row3 : Fe → Fe → ℕ
row3 f g = f.l0 * g.l3 + f.l1 * g.l2 + f.l2 * g.l1 + f.l3 * g.l0 + 19 * (f.l4 * g.l4)

abbrev row4 : Fe → Fe → ℕ
row4 f g = f.l0 * g.l4 + f.l1 * g.l3 + f.l2 * g.l2 + f.l3 * g.l1 + f.l4 * g.l0

rows_value :
    (f g : Fe)
    → value f * value g
      ≡ row0 f g
        + row1 f g * 2 ^ 51
        + row2 f g * 2 ^ 102
        + row3 f g * 2 ^ 153
        + row4 f g * 2 ^ 204
        + prime
          * (f.l1 * g.l4
              + f.l2 * g.l3
              + f.l3 * g.l2
              + f.l4 * g.l1
              + (f.l2 * g.l4 + f.l3 * g.l3 + f.l4 * g.l2) * 2 ^ 51
              + (f.l3 * g.l4 + f.l4 * g.l3) * 2 ^ 102
              + f.l4 * g.l4 * 2 ^ 153)
rows_value f g = omega arith

module _ (f g : Fe) (hf : Below (2 ^ 53) f) (hg : Below (2 ^ 53) g) where
  row0_bound : row0 f g < 2 ^ 113
  row0_bound = omega (
    arith,
    limbs f.l0 g.l0 hf.0 hg.0,
    limbs f.l1 g.l4 hf.1 hg.4,
    limbs f.l2 g.l3 hf.2 hg.3,
    limbs f.l3 g.l2 hf.3 hg.2,
    limbs f.l4 g.l1 hf.4 hg.1,
  )

  row1_bound : row1 f g < 2 ^ 113
  row1_bound = omega (
    arith,
    limbs f.l0 g.l1 hf.0 hg.1,
    limbs f.l1 g.l0 hf.1 hg.0,
    limbs f.l2 g.l4 hf.2 hg.4,
    limbs f.l3 g.l3 hf.3 hg.3,
    limbs f.l4 g.l2 hf.4 hg.2,
  )

  row2_bound : row2 f g < 2 ^ 113
  row2_bound = omega (
    arith,
    limbs f.l0 g.l2 hf.0 hg.2,
    limbs f.l1 g.l1 hf.1 hg.1,
    limbs f.l2 g.l0 hf.2 hg.0,
    limbs f.l3 g.l4 hf.3 hg.4,
    limbs f.l4 g.l3 hf.4 hg.3,
  )

  row3_bound : row3 f g < 2 ^ 113
  row3_bound = omega (
    arith,
    limbs f.l0 g.l3 hf.0 hg.3,
    limbs f.l1 g.l2 hf.1 hg.2,
    limbs f.l2 g.l1 hf.2 hg.1,
    limbs f.l3 g.l0 hf.3 hg.0,
    limbs f.l4 g.l4 hf.4 hg.4,
  )

  row4_bound : row4 f g < 2 ^ 109
  row4_bound = omega (
    arith,
    limbs f.l0 g.l4 hf.0 hg.4,
    limbs f.l1 g.l3 hf.1 hg.3,
    limbs f.l2 g.l2 hf.2 hg.2,
    limbs f.l3 g.l1 hf.3 hg.1,
    limbs f.l4 g.l0 hf.4 hg.0,
  )

  fe_mul-plain : fe_mul f g ≡ plain (row0 f g) (row1 f g) (row2 f g) (row3 f g) (row4 f g)
  unfolding fe_mul
  fe_mul-plain =
      carried (row0 f g) (row1 f g) (row2 f g) (row3 f g) (row4 f g) row0_bound row1_bound
        row2_bound row3_bound row4_bound

-- The product of elements with limbs below 2^53 is, modulo 2^255 - 19, the product of their
-- numbers, and its limbs are small enough for further operations: none of the 64-bit and 128-bit
-- sums overflows.
pub fe_mul-value :
    (f g : Fe)
    → Below (2 ^ 53) f
    → Below (2 ^ 53) g
    → Reduced (fe_mul f g) × (value (fe_mul f g) % prime ≡ value f * value g % prime)
fe_mul-value f g hf hg =
    let e = fe_mul-plain f g hf hg in
    (
      subst Reduced (sym e) (
          plain-Below (row0 f g) (row1 f g) (row2 f g) (row3 f g) (row4 f g) (row0_bound f g hf hg)
            (row1_bound f g hf hg) (row2_bound f g hf hg) (row3_bound f g hf hg)
            (row4_bound f g hf hg)),
      ap (λ t. value t % prime) e
          ∙ plain-value (row0 f g) (row1 f g) (row2 f g) (row3 f g) (row4 f g)
          ∙ sym (add-mul-mod_self_left _ prime _)
          ∙ ap (λ n. n % prime) (sym (rows_value f g)),
    )

-- The product with a small number: 121665 in the ladder.
scaled : (a s : ℕ) → a < 2 ^ 53 → s < 2 ^ 32 → a * s ≤ 2 ^ 53 * 2 ^ 32
scaled a s h k =
    mul-le-mul {n₁ = a} {m₁ = s} {n₂ = 2 ^ 53} {m₂ = 2 ^ 32} (omega arith) (omega arith)

pub fe_mul_scalar-value :
    (f : Fe) (s : ℕ)
    → Below (2 ^ 53) f
    → s < 2 ^ 32
    → Reduced (fe_mul_scalar f s) × (value (fe_mul_scalar f s) % prime ≡ value f * s % prime)
unfolding fe_mul_scalar
fe_mul_scalar-value f s hf hs =
    let b0 = scaled f.l0 s hf.0 hs in
    let b1 = scaled f.l1 s hf.1 hs in
    let b2 = scaled f.l2 s hf.2 hs in
    let b3 = scaled f.l3 s hf.3 hs in
    let b4 = scaled f.l4 s hf.4 hs in
    let e =
      carried (f.l0 * s) (f.l1 * s) (f.l2 * s) (f.l3 * s) (f.l4 * s) (omega arith) (omega arith)
        (omega arith) (omega arith) (omega arith) in
    (
      subst Reduced (sym e) (
          plain-Below (f.l0 * s) (f.l1 * s) (f.l2 * s) (f.l3 * s) (f.l4 * s) (omega arith)
            (omega arith) (omega arith) (omega arith) (omega arith)),
      ap (λ t. value t % prime) e
          ∙ plain-value (f.l0 * s) (f.l1 * s) (f.l2 * s) (f.l3 * s) (f.l4 * s)
          ∙ ap (λ n. n % prime) (multiplied f.l0 f.l1 f.l2 f.l3 f.l4),
    )
  where
    multiplied :
        (a b c d e : ℕ)
        → a * s + b * s * 2 ^ 51 + c * s * 2 ^ 102 + d * s * 2 ^ 153 + e * s * 2 ^ 204
          ≡ (a + b * 2 ^ 51 + c * 2 ^ 102 + d * 2 ^ 153 + e * 2 ^ 204) * s
    multiplied a b c d e = omega arith
