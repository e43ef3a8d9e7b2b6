-- ===== src/Fec/Gf/Laws.antt =====
-- The laws of the products and inverses of tight/src/fec.cpp.
use damen.Common.{
  ℕ, zero, suc, ◌+◌, ◌-◌, ◌<◌, ◌≡◌, ◌⊎◌, dec_lt, inl, inr, sym, ap, ap₂, ◌∙◌, arith, bit_xor,
}
use damen.Common.Bits.Xor.{bit_xor-lt}
use damen.Fec.Gf.{next_power, gf_mul, gf_inv}
use damen.Fec.Gf.Tables.{gf_log, gf_exp-gf_log}
use damen.Fec.Gf.Field.{
  power, power_lem, power-zero, power-suc, power_mod, power_byte, log_power, gf_mul-power,
  next_power-bit_xor, next_power-zero, byte_cases, gf_mul-zero, zero-gf_mul, gf_mul-lt,
}

pub gf_mul_comm : (a b : ℕ) → a < 256 → b < 256 → gf_mul a b ≡ gf_mul b a
gf_mul_comm a b ha hb = elim (byte_cases a ha) [
  | inl e ↦ rw (e, zero-gf_mul, gf_mul-zero)
  | inr (n, e) ↦ elim (byte_cases b hb) [
    | inl f ↦ rw (f, zero-gf_mul, gf_mul-zero)
    | inr (m, f) ↦ rw (e, f, gf_mul-power, gf_mul-power) (ap power (omega arith))
  ]
]

pub one-gf_mul : (a : ℕ) → a < 256 → gf_mul 1 a ≡ a
one-gf_mul a h = elim (byte_cases a h) [
  | inl e ↦ rw (e, gf_mul-zero)
  | inr (n, e) ↦
      rw e
        (ap (λ t. gf_mul t (power n)) (sym power-zero) ∙ gf_mul-power 0 n ∙ ap power (omega arith))
]

pub gf_mul_assoc :
    (a b c : ℕ) → a < 256 → b < 256 → c < 256 → gf_mul (gf_mul a b) c ≡ gf_mul a (gf_mul b c)
gf_mul_assoc a b c ha hb hc = elim (byte_cases a ha) [
  | inl e ↦ rw (e, zero-gf_mul, zero-gf_mul, zero-gf_mul)
  | inr (n, e) ↦ elim (byte_cases b hb) [
    | inl f ↦ rw (f, gf_mul-zero, zero-gf_mul, gf_mul-zero)
    | inr (m, f) ↦ elim (byte_cases c hc) [
      | inl g ↦ rw (g, gf_mul-zero, gf_mul-zero, gf_mul-zero)
      | inr (k, g) ↦
          rw (e, f, g)
            (ap (λ t. gf_mul t (power k)) (gf_mul-power n m)
              ∙ gf_mul-power (n + m) k
              ∙ ap power (omega arith)
              ∙ sym (gf_mul-power n (m + k))
              ∙ ap (gf_mul (power n)) (sym (gf_mul-power m k)))
    ]
  ]
]

-- One factor more of the generator.
gf_mul-power-suc : (n b : ℕ) → b < 256 → gf_mul (power (suc n)) b ≡ next_power (gf_mul (power n) b)
gf_mul-power-suc n b h = elim (byte_cases b h) [
  | inl e ↦ rw (e, gf_mul-zero, gf_mul-zero, next_power-zero)
  | inr (m, e) ↦ rw (e, gf_mul-power, gf_mul-power) (ap power (omega arith) ∙ power-suc (n + m))
]

power-gf_mul-bit_xor :
    (n a b : ℕ)
    → a < 256
    → b < 256
    → gf_mul (power n) (bit_xor a b) ≡ bit_xor (gf_mul (power n) a) (gf_mul (power n) b)
power-gf_mul-bit_xor zero a b ha hb = rw (
  power-zero,
  one-gf_mul (bit_xor a b) (bit_xor-lt 8 a b ha hb),
  one-gf_mul a ha,
  one-gf_mul b hb,
)
power-gf_mul-bit_xor (suc n) a b ha hb =
    gf_mul-power-suc n (bit_xor a b) (bit_xor-lt 8 a b ha hb)
    ∙ ap next_power (power-gf_mul-bit_xor n a b ha hb)
    ∙ next_power-bit_xor (gf_mul (power n) a) (gf_mul (power n) b)
        (gf_mul-lt (power n) a (power_byte n).1 ha) (gf_mul-lt (power n) b (power_byte n).1 hb)
    ∙ ap₂ bit_xor (sym (gf_mul-power-suc n a ha)) (sym (gf_mul-power-suc n b hb))

-- The product distributes over the sum.
pub gf_mul-bit_xor :
    (c a b : ℕ)
    → c < 256
    → a < 256
    → b < 256
    → gf_mul c (bit_xor a b) ≡ bit_xor (gf_mul c a) (gf_mul c b)
gf_mul-bit_xor c a b hc ha hb = elim (byte_cases c hc) [
  | inl e ↦ rw (e, zero-gf_mul, zero-gf_mul, zero-gf_mul)
  | inr (n, e) ↦ rw e (power-gf_mul-bit_xor n a b ha hb)
]

pub gf_inv-lt : (a : ℕ) → a < 256 → gf_inv a < 256
unfolding gf_inv
gf_inv-lt a h = rw (power_lem (255 - gf_log a) (omega arith)) (power_byte (255 - gf_log a)).1

-- Every byte but zero has an inverse.
pub gf_inv-gf_mul : (a : ℕ) → 0 < a → a < 256 → gf_mul (gf_inv a) a ≡ 1
unfolding gf_inv
gf_inv-gf_mul a h k =
    let f = gf_exp-gf_log a h k in
    ap₂ gf_mul (power_lem (255 - gf_log a) (omega arith)) (sym (log_power a h k))
    ∙ gf_mul-power (255 - gf_log a) (gf_log a)
    ∙ power_mod (255 - gf_log a + gf_log a) 0 (omega (arith, f.0))
    ∙ power-zero

-- The field laws of the table arithmetic, for all bytes: a commutative, associative product with
-- unit 1 that distributes over `^` and stays within a byte, and an inverse for each byte but zero.
pub gf_mul_field :
    (a b c : ℕ)
    → a < 256
    → b < 256
    → c < 256
    → (gf_mul a b < 256)
      × (gf_mul a b ≡ gf_mul b a)
      × (gf_mul (gf_mul a b) c ≡ gf_mul a (gf_mul b c))
      × (gf_mul 1 a ≡ a)
      × (gf_mul a (bit_xor b c) ≡ bit_xor (gf_mul a b) (gf_mul a c))
      × ((a ≡ 0) ⊎ (gf_mul (gf_inv a) a ≡ 1))
gf_mul_field a b c ha hb hc = (
  gf_mul-lt a b ha hb,
  gf_mul_comm a b ha hb,
  gf_mul_assoc a b c ha hb hc,
  one-gf_mul a ha,
  gf_mul-bit_xor a b c ha hb hc,
  elim (dec_lt 0 a) [
    | yes positive ↦ inr (gf_inv-gf_mul a positive ha)
    | no zero_byte ↦ inl (omega arith)
  ],
)
