-- ===== src/Crypto/X25519/Power.antt =====
-- The chain of products in `fe_inv` of tight/src/crypto.cpp.
use damen.Common.{ℕ, zero, suc, ◌+◌, ◌-◌, ◌*◌, ◌/◌, ◌%◌, ◌^◌, ◌≡◌, sym, ap, subst, ◌∙◌, arith}
use native.Mathlib.Nat.{add-mul-mod_self_left, pow-suc}
use damen.Crypto.X25519.Field.{
  Fe, fe_mul, fe_sq, fe_sq_n, sq_n_mul, inv_from_50, inv_from_5, fe_inv,
}
use damen.Crypto.X25519.Carries.{value, prime, Below, Reduced}
use damen.Crypto.X25519.Product.{fe_mul-value}

unfoldable pub power : ℕ → ℕ → ℕ
power v zero = 1
power v (suc n) = v * power v n

power_add : (v m n : ℕ) → power v (m + n) ≡ power v m * power v n
unfolding power
power_add v zero n = ap (power v) (from_zero n) ∙ once (power v n)
  where
    from_zero : (n : ℕ) → 0 + n ≡ n
    from_zero n = omega arith

    once : (n : ℕ) → n ≡ 1 * n
    once n = omega arith
power_add v (suc m) n =
    ap (power v) (moved m n) ∙ ap (λ t. v * t) (power_add v m n) ∙ grouped v (power v m) (power v n)
  where
    moved : (m n : ℕ) → suc m + n ≡ suc (m + n)
    moved m n = omega arith

    grouped : (a b c : ℕ) → a * (b * c) ≡ a * b * c
    grouped a b c = omega arith

power_one : (v : ℕ) → v ≡ power v 1
unfolding power
power_one v = omega arith

left_mod : (x y : ℕ) → x * y % prime ≡ (x % prime) * y % prime
left_mod x y =
    ap (λ n. n % prime) (ap (λ t. t * y) (parts x) ∙ spread (x % prime) (x / prime) y)
    ∙ add-mul-mod_self_left ((x % prime) * y) prime (x / prime * y)
  where
    parts : (x : ℕ) → x ≡ x % prime + prime * (x / prime)
    parts x = omega arith

    spread : (r q y : ℕ) → (r + prime * q) * y ≡ r * y + prime * (q * y)
    spread r q y = omega arith

-- A product modulo the prime depends on its factors modulo the prime.
product_mod :
    (x y x2 y2 : ℕ)
    → x % prime ≡ x2 % prime
    → y % prime ≡ y2 % prime
    → x * y % prime ≡ x2 * y2 % prime
product_mod x y x2 y2 p q =
    left_mod x y
    ∙ ap (λ t. t * y % prime) p
    ∙ sym (left_mod x2 y)
    ∙ swap x2 y
    ∙ left_mod y x2
    ∙ ap (λ t. t * x2 % prime) q
    ∙ sym (left_mod y2 x2)
    ∙ swap y2 x2
  where
    swap : (a b : ℕ) → a * b % prime ≡ b * a % prime
    swap a b = ap (λ n. n % prime) (omega arith)

-- An element that is a power of `v`, with small limbs.
pub record IsPower (v n : ℕ) (f : Fe) : Type 0 where
  pub small : Below (2 ^ 53) f
  pub powered : value f % prime ≡ power v n % prime

wider : (f : Fe) → Reduced f → Below (2 ^ 53) f
wider f h =
    let h0 = h.0 in
    let h1 = h.1 in
    let h2 = h.2 in
    let h3 = h.3 in
    let h4 = h.4 in (omega arith, omega arith, omega arith, omega arith, omega arith)

IsPower-fe_mul :
    (v m n : ℕ) (f g : Fe) → IsPower v m f → IsPower v n g → IsPower v (m + n) (fe_mul f g)
IsPower-fe_mul v m n f g p q =
    let product = fe_mul-value f g p.small q.small in
    record {
      small = wider (fe_mul f g) product.0;
      powered =
          product.1
          ∙ product_mod (value f) (value g) (power v m) (power v n) p.powered q.powered
          ∙ ap (λ t. t % prime) (sym (power_add v m n));
    }

IsPower-fe_sq : (v n : ℕ) (f : Fe) → IsPower v n f → IsPower v (n + n) (fe_sq f)
unfolding fe_sq
IsPower-fe_sq v n f p = IsPower-fe_mul v n n f f p p

IsPower-fe_sq_n : (v k n : ℕ) (f : Fe) → IsPower v n f → IsPower v (n * 2 ^ k) (fe_sq_n k f)
unfolding fe_sq_n
IsPower-fe_sq_n v zero n f p = subst (λ m. IsPower v m f) (once n) p
  where
    once : (n : ℕ) → n ≡ n * 1
    once n = omega arith
IsPower-fe_sq_n v (suc k) n f p =
    subst (λ m. IsPower v m (fe_sq_n k (fe_sq f)))
      (doubled n (2 ^ k) ∙ ap (λ t. n * t) (sym (pow-suc 2 k)))
      (IsPower-fe_sq_n v k (n + n) (fe_sq f) (IsPower-fe_sq v n f p))
  where
    doubled : (n m : ℕ) → (n + n) * m ≡ n * (m * 2)
    doubled n m = omega arith

IsPower-sq_n_mul :
    (v k m n : ℕ) (f g : Fe)
    → IsPower v m f
    → IsPower v n g
    → IsPower v (m * 2 ^ k + n) (sq_n_mul k f g)
unfolding sq_n_mul
IsPower-sq_n_mul v k m n f g p q =
    IsPower-fe_mul v (m * 2 ^ k) n (fe_sq_n k f) g (IsPower-fe_sq_n v k m f p) q

IsPower-inv_from_50 :
    (v : ℕ) (z_50_0 z11 : Fe)
    → IsPower v (2 ^ 50 - 1) z_50_0
    → IsPower v 11 z11
    → IsPower v (2 ^ 255 - 21) (inv_from_50 z_50_0 z11)
unfolding inv_from_50
IsPower-inv_from_50 v z_50_0 z11 p q =
    let z_100_0 = sq_n_mul 50 z_50_0 z_50_0 in
    let z_200_0 = sq_n_mul 100 z_100_0 z_100_0 in
    let z_250_0 = sq_n_mul 50 z_200_0 z_50_0 in
    let p100 = IsPower-sq_n_mul v 50 (2 ^ 50 - 1) (2 ^ 50 - 1) z_50_0 z_50_0 p p in
    let p200 = IsPower-sq_n_mul v 100 (2 ^ 100 - 1) (2 ^ 100 - 1) z_100_0 z_100_0 p100 p100 in
    let p250 = IsPower-sq_n_mul v 50 (2 ^ 200 - 1) (2 ^ 50 - 1) z_200_0 z_50_0 p200 p in
    IsPower-sq_n_mul v 5 (2 ^ 250 - 1) 11 z_250_0 z11 p250 q

IsPower-inv_from_5 :
    (v : ℕ) (z_5_0 z11 : Fe)
    → IsPower v 31 z_5_0
    → IsPower v 11 z11
    → IsPower v (2 ^ 255 - 21) (inv_from_5 z_5_0 z11)
unfolding inv_from_5
IsPower-inv_from_5 v z_5_0 z11 p q =
    let z_10_0 = sq_n_mul 5 z_5_0 z_5_0 in
    let z_20_0 = sq_n_mul 10 z_10_0 z_10_0 in
    let z_40_0 = sq_n_mul 20 z_20_0 z_20_0 in
    let p10 = IsPower-sq_n_mul v 5 31 31 z_5_0 z_5_0 p p in
    let p20 = IsPower-sq_n_mul v 10 (2 ^ 10 - 1) (2 ^ 10 - 1) z_10_0 z_10_0 p10 p10 in
    let p40 = IsPower-sq_n_mul v 20 (2 ^ 20 - 1) (2 ^ 20 - 1) z_20_0 z_20_0 p20 p20 in
    let p50 = IsPower-sq_n_mul v 10 (2 ^ 40 - 1) (2 ^ 10 - 1) z_40_0 z_10_0 p40 p10 in
    IsPower-inv_from_50 v (sq_n_mul 10 z_40_0 z_10_0) z11 p50 q

IsPower-fe_inv : (v : ℕ) (z : Fe) → IsPower v 1 z → IsPower v (2 ^ 255 - 21) (fe_inv z)
unfolding fe_inv
IsPower-fe_inv v z p =
    let z2 = fe_sq z in
    let z9 = fe_mul z (fe_sq_n 2 z2) in
    let z11 = fe_mul z2 z9 in
    let p2 = IsPower-fe_sq v 1 z p in
    let p9 = IsPower-fe_mul v 1 8 z (fe_sq_n 2 z2) p (IsPower-fe_sq_n v 2 2 z2 p2) in
    let p11 = IsPower-fe_mul v 2 9 z2 z9 p2 p9 in
    let p31 = IsPower-fe_mul v 9 22 z9 (fe_sq z11) p9 (IsPower-fe_sq v 11 z11 p11) in
    IsPower-inv_from_5 v (fe_mul z9 (fe_sq z11)) z11 p31 p11

-- The chain of squarings and products is the power with exponent 2^255 - 21, the prime less two,
-- modulo the prime, and no limb overflows on the way.
pub fe_inv-power :
    (z : Fe)
    → Below (2 ^ 53) z
    → Below (2 ^ 53) (fe_inv z) × (value (fe_inv z) % prime ≡ power (value z) (prime - 2) % prime)
fe_inv-power z h =
    let p =
      IsPower-fe_inv (value z) z
        (record { small = h; powered = ap (λ t. t % prime) (power_one (value z)) }) in
    (p.small, p.powered)
