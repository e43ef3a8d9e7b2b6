-- ===== src/Crypto/X25519/Carries.antt =====
-- The carries at the end of a product of tight/src/crypto.cpp, as numbers.
use damen.Common.{ℕ, ◌+◌, ◌-◌, ◌*◌, ◌/◌, ◌%◌, ◌^◌, ◌<◌, ◌≡◌, sym, ap, ◌∙◌, arith, bit_and}
use native.Mathlib.Nat.{add-mul-mod_self_left}
use damen.Common.Bits.Words.{bit_and_limb}
use damen.Common.Bytes.{u64, shr}
use damen.Crypto.X25519.Field.{Fe, mask51, u128, carry_all}

-- The number that the limbs make; the field is the numbers modulo `prime`.
abbrev pub value : Fe → ℕ
value f = f.l0 + f.l1 * 2 ^ 51 + f.l2 * 2 ^ 102 + f.l3 * 2 ^ 153 + f.l4 * 2 ^ 204

abbrev pub prime : ℕ
prime = 2 ^ 255 - 19

abbrev pub Below : ℕ → Fe → Type 0
Below bound f = (f.l0 < bound) × (f.l1 < bound) × (f.l2 < bound) × (f.l3 < bound) × (f.l4 < bound)

down : (r : ℕ) → r < 2 ^ 114 → u64 (shr r 51) ≡ r / 2 ^ 51
down r h = omega arith

pub fits : (r : ℕ) → r < 2 ^ 127 → u128 r ≡ r
fits r h = omega arith

-- The carries, without the wrap-around.
unfoldable pub plain : ℕ → ℕ → ℕ → ℕ → ℕ → Fe
plain r0 r1 r2 r3 r4 =
    let s1 = r1 + r0 / 2 ^ 51 in
    let s2 = r2 + s1 / 2 ^ 51 in
    let s3 = r3 + s2 / 2 ^ 51 in
    let s4 = r4 + s3 / 2 ^ 51 in
    let s0 = r0 % 2 ^ 51 + 19 * (s4 / 2 ^ 51) in
    record {
      l0 = s0 % 2 ^ 51;
      l1 = s1 % 2 ^ 51 + s0 / 2 ^ 51;
      l2 = s2 % 2 ^ 51;
      l3 = s3 % 2 ^ 51;
      l4 = s4 % 2 ^ 51;
    }

add_down : (r s : ℕ) → r < 2 ^ 113 → s < 2 ^ 114 → u128 (r + u64 (shr s 51)) ≡ r + s / 2 ^ 51
add_down r s h k = omega (arith, down s k)

-- The end of the carries, from the sums on.
abbrev from_sums : ℕ → ℕ → ℕ → ℕ → ℕ → Fe
from_sums s0 s1 s2 s3 s4 = record {
  l0 = u64 (bit_and s0 mask51);
  l1 = u64 (u128 (bit_and s1 mask51 + u64 (shr s0 51)));
  l2 = u64 (bit_and s2 mask51);
  l3 = u64 (bit_and s3 mask51);
  l4 = u64 (bit_and s4 mask51);
}

abbrev low_sum : ℕ → ℕ → ℕ
low_sum r0 s4 = u128 (bit_and r0 mask51 + u64 (19 * u64 (shr s4 51)))

low_sum_plain : (r0 s4 : ℕ) → s4 < 2 ^ 110 → low_sum r0 s4 ≡ r0 % 2 ^ 51 + 19 * (s4 / 2 ^ 51)
low_sum_plain r0 s4 h = omega (arith, bit_and_limb r0)

limb_plain : (s : ℕ) → u64 (bit_and s mask51) ≡ s % 2 ^ 51
limb_plain s = omega (arith, bit_and_limb s)

limb_and_carry :
    (s0 s1 : ℕ)
    → s0 < 2 ^ 113
    → u64 (u128 (bit_and s1 mask51 + u64 (shr s0 51))) ≡ s1 % 2 ^ 51 + s0 / 2 ^ 51
limb_and_carry s0 s1 h = omega (arith, bit_and_limb s1)

unfoldable fe : ℕ → ℕ → ℕ → ℕ → ℕ → Fe
fe a b c d e = record { l0 = a; l1 = b; l2 = c; l3 = d; l4 = e }

same_limbs :
    {a b c d e a2 b2 c2 d2 e2 : ℕ}
    → a ≡ a2
    → b ≡ b2
    → c ≡ c2
    → d ≡ d2
    → e ≡ e2
    → fe a b c d e ≡ fe a2 b2 c2 d2 e2
same_limbs p q r s t = cc

carry_all-plain :
    (r0 r1 r2 r3 r4 : ℕ)
    → r0 < 2 ^ 113
    → r1 < 2 ^ 113
    → r2 < 2 ^ 113
    → r3 < 2 ^ 113
    → r4 < 2 ^ 109
    → carry_all r0 r1 r2 r3 r4 ≡ plain r0 r1 r2 r3 r4
unfolding carry_all plain fe
carry_all-plain r0 r1 r2 r3 r4 h0 h1 h2 h3 h4 =
    let s1 = r1 + r0 / 2 ^ 51 in
    let s2 = r2 + s1 / 2 ^ 51 in
    let s3 = r3 + s2 / 2 ^ 51 in
    let s4 = r4 + s3 / 2 ^ 51 in
    let s0 = r0 % 2 ^ 51 + 19 * (s4 / 2 ^ 51) in
    let k1 : s1 < 2 ^ 114 = omega arith in
    let k2 : s2 < 2 ^ 114 = omega arith in
    let k3 : s3 < 2 ^ 114 = omega arith in
    let k4 : s4 < 2 ^ 110 = omega arith in
    let k0 : s0 < 2 ^ 113 = omega arith in
    ap
      (λ s1.
        let s2 = u128 (r2 + u64 (shr s1 51)) in
        let s3 = u128 (r3 + u64 (shr s2 51)) in
        let s4 = u128 (r4 + u64 (shr s3 51)) in from_sums (low_sum r0 s4) s1 s2 s3 s4)
      (add_down r1 r0 h1 (omega arith))
    ∙ ap
        (λ s2.
          let s3 = u128 (r3 + u64 (shr s2 51)) in
          let s4 = u128 (r4 + u64 (shr s3 51)) in from_sums (low_sum r0 s4) s1 s2 s3 s4)
        (add_down r2 s1 h2 k1)
    ∙ ap (λ s3. let s4 = u128 (r4 + u64 (shr s3 51)) in from_sums (low_sum r0 s4) s1 s2 s3 s4)
        (add_down r3 s2 h3 k2)
    ∙ ap (λ s4. from_sums (low_sum r0 s4) s1 s2 s3 s4) (add_down r4 s3 (omega arith) k3)
    ∙ ap (λ s0. from_sums s0 s1 s2 s3 s4) (low_sum_plain r0 s4 k4)
    ∙ same_limbs (limb_plain s0) (limb_and_carry s0 s1 k0) (limb_plain s2) (limb_plain s3)
        (limb_plain s4)

pub plain-value :
    (r0 r1 r2 r3 r4 : ℕ)
    → value (plain r0 r1 r2 r3 r4) % prime
      ≡ (r0 + r1 * 2 ^ 51 + r2 * 2 ^ 102 + r3 * 2 ^ 153 + r4 * 2 ^ 204) % prime
unfolding plain
plain-value r0 r1 r2 r3 r4 =
    let s1 = r1 + r0 / 2 ^ 51 in
    let s2 = r2 + s1 / 2 ^ 51 in
    let s3 = r3 + s2 / 2 ^ 51 in
    let s4 = r4 + s3 / 2 ^ 51 in
    let all : value (plain r0 r1 r2 r3 r4) + prime * (s4 / 2 ^ 51)
        ≡ r0 + r1 * 2 ^ 51 + r2 * 2 ^ 102 + r3 * 2 ^ 153 + r4 * 2 ^ 204 =
      omega arith in
    sym (add-mul-mod_self_left (value (plain r0 r1 r2 r3 r4)) prime (s4 / 2 ^ 51))
    ∙ ap (λ n. n % prime) all

pub plain-Below :
    (r0 r1 r2 r3 r4 : ℕ)
    → r0 < 2 ^ 113
    → r1 < 2 ^ 113
    → r2 < 2 ^ 113
    → r3 < 2 ^ 113
    → r4 < 2 ^ 109
    → Below (2 ^ 51 + 2 ^ 13) (plain r0 r1 r2 r3 r4)
unfolding plain
plain-Below r0 r1 r2 r3 r4 h0 h1 h2 h3 h4 =
    let s1 = r1 + r0 / 2 ^ 51 in
    let s2 = r2 + s1 / 2 ^ 51 in
    let s3 = r3 + s2 / 2 ^ 51 in
    let s4 = r4 + s3 / 2 ^ 51 in (omega arith, omega arith, omega arith, omega arith, omega arith)

pub carried :
    (r0 r1 r2 r3 r4 : ℕ)
    → r0 < 2 ^ 113
    → r1 < 2 ^ 113
    → r2 < 2 ^ 113
    → r3 < 2 ^ 113
    → r4 < 2 ^ 109
    → carry_all (u128 r0) (u128 r1) (u128 r2) (u128 r3) (u128 r4) ≡ plain r0 r1 r2 r3 r4
carried r0 r1 r2 r3 r4 h0 h1 h2 h3 h4 =
    ap (λ t. carry_all t (u128 r1) (u128 r2) (u128 r3) (u128 r4)) (fits r0 (omega arith))
    ∙ ap (λ t. carry_all r0 t (u128 r2) (u128 r3) (u128 r4)) (fits r1 (omega arith))
    ∙ ap (λ t. carry_all r0 r1 t (u128 r3) (u128 r4)) (fits r2 (omega arith))
    ∙ ap (λ t. carry_all r0 r1 r2 t (u128 r4)) (fits r3 (omega arith))
    ∙ ap (carry_all r0 r1 r2 r3) (fits r4 (omega arith))
    ∙ carry_all-plain r0 r1 r2 r3 r4 h0 h1 h2 h3 h4

abbrev pub Reduced : Fe → Type 0
Reduced f = Below (2 ^ 51 + 2 ^ 13) f
