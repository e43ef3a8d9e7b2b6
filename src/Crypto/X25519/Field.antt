-- ===== src/Crypto/X25519/Field.antt =====
-- The field elements of tight/src/crypto.cpp: five digits of 51 bits in 64-bit words, with products in
-- 128-bit words.
use damen.Common.{ℕ, zero, suc, ◌+◌, ◌-◌, ◌*◌, ◌%◌, ◌^◌, bit_and, bit_xor}
use damen.Common.Bytes.{u64, shr}

pub record Fe : Type 0 where
  pub l0 : ℕ
  pub l1 : ℕ
  pub l2 : ℕ
  pub l3 : ℕ
  pub l4 : ℕ

abbrev pub mask51 : ℕ
mask51 = 0x7ffffffffffff

abbrev pub u128 : ℕ → ℕ
u128 n = n % 2 ^ 128

-- The difference of two 64-bit words, round 2^64.
abbrev pub minus : ℕ → ℕ → ℕ
minus a b = u64 (a + (2 ^ 64 - b))

unfoldable pub fe_add : Fe → Fe → Fe
fe_add f g = record {
  l0 = u64 (f.l0 + g.l0);
  l1 = u64 (f.l1 + g.l1);
  l2 = u64 (f.l2 + g.l2);
  l3 = u64 (f.l3 + g.l3);
  l4 = u64 (f.l4 + g.l4);
}

unfoldable pub fe_sub : Fe → Fe → Fe
fe_sub f g = record {
  l0 = minus (u64 (f.l0 + 0xfffffffffffda)) g.l0;
  l1 = minus (u64 (f.l1 + 0xffffffffffffe)) g.l1;
  l2 = minus (u64 (f.l2 + 0xffffffffffffe)) g.l2;
  l3 = minus (u64 (f.l3 + 0xffffffffffffe)) g.l3;
  l4 = minus (u64 (f.l4 + 0xffffffffffffe)) g.l4;
}

-- The carries at the end of `fe_mul` and of `fe_mul_scalar`.
unfoldable pub carry_all : ℕ → ℕ → ℕ → ℕ → ℕ → Fe
carry_all r0 r1 r2 r3 r4 =
    let s1 = u128 (r1 + u64 (shr r0 51)) in
    let s2 = u128 (r2 + u64 (shr s1 51)) in
    let s3 = u128 (r3 + u64 (shr s2 51)) in
    let s4 = u128 (r4 + u64 (shr s3 51)) in
    let s0 = u128 (bit_and r0 mask51 + u64 (19 * u64 (shr s4 51))) in
    record {
      l0 = u64 (bit_and s0 mask51);
      l1 = u64 (u128 (bit_and s1 mask51 + u64 (shr s0 51)));
      l2 = u64 (bit_and s2 mask51);
      l3 = u64 (bit_and s3 mask51);
      l4 = u64 (bit_and s4 mask51);
    }

unfoldable pub fe_mul : Fe → Fe → Fe
unfolding carry_all
fe_mul f g =
    carry_all (u128 (f.l0 * g.l0 + 19 * (f.l1 * g.l4 + f.l2 * g.l3 + f.l3 * g.l2 + f.l4 * g.l1)))
      (u128 (f.l0 * g.l1 + f.l1 * g.l0 + 19 * (f.l2 * g.l4 + f.l3 * g.l3 + f.l4 * g.l2)))
      (u128 (f.l0 * g.l2 + f.l1 * g.l1 + f.l2 * g.l0 + 19 * (f.l3 * g.l4 + f.l4 * g.l3)))
      (u128 (f.l0 * g.l3 + f.l1 * g.l2 + f.l2 * g.l1 + f.l3 * g.l0 + 19 * (f.l4 * g.l4)))
      (u128 (f.l0 * g.l4 + f.l1 * g.l3 + f.l2 * g.l2 + f.l3 * g.l1 + f.l4 * g.l0))

unfoldable pub fe_sq : Fe → Fe
unfolding fe_mul
fe_sq f = fe_mul f f

unfoldable pub fe_mul_scalar : Fe → ℕ → Fe
unfolding carry_all
fe_mul_scalar f s =
    carry_all (u128 (f.l0 * s)) (u128 (f.l1 * s)) (u128 (f.l2 * s)) (u128 (f.l3 * s))
      (u128 (f.l4 * s))

unfoldable pub fe_sq_n : ℕ → Fe → Fe
unfolding fe_sq
fe_sq_n zero f = f
fe_sq_n (suc n) f = fe_sq_n n (fe_sq f)

-- `n` squarings and a product.
unfoldable pub sq_n_mul : ℕ → Fe → Fe → Fe
unfolding fe_mul fe_sq_n
sq_n_mul n f g = fe_mul (fe_sq_n n f) g

-- `fe_inv` from `z_50_0` on.
unfoldable pub inv_from_50 : Fe → Fe → Fe
unfolding sq_n_mul
inv_from_50 z_50_0 z11 =
    let z_100_0 = sq_n_mul 50 z_50_0 z_50_0 in
    let z_200_0 = sq_n_mul 100 z_100_0 z_100_0 in
    let z_250_0 = sq_n_mul 50 z_200_0 z_50_0 in sq_n_mul 5 z_250_0 z11

-- `fe_inv` from `z_5_0` on.
unfoldable pub inv_from_5 : Fe → Fe → Fe
unfolding inv_from_50
inv_from_5 z_5_0 z11 =
    let z_10_0 = sq_n_mul 5 z_5_0 z_5_0 in
    let z_20_0 = sq_n_mul 10 z_10_0 z_10_0 in
    let z_40_0 = sq_n_mul 20 z_20_0 z_20_0 in
    let z_50_0 = sq_n_mul 10 z_40_0 z_10_0 in inv_from_50 z_50_0 z11

unfoldable pub fe_inv : Fe → Fe
unfolding fe_mul fe_sq fe_sq_n inv_from_5
fe_inv z =
    let z2 = fe_sq z in
    let z8 = fe_sq_n 2 z2 in
    let z9 = fe_mul z z8 in
    let z11 = fe_mul z2 z9 in
    let z22 = fe_sq z11 in let z_5_0 = fe_mul z9 z22 in inv_from_5 z_5_0 z11

-- Both elements after the exchange; `swap` is a bit.
unfoldable pub fe_cswap : Fe → Fe → ℕ → Fe × Fe
fe_cswap f g swap =
    let mask = minus 0 swap in
    let t0 = bit_and mask (bit_xor f.l0 g.l0) in
    let t1 = bit_and mask (bit_xor f.l1 g.l1) in
    let t2 = bit_and mask (bit_xor f.l2 g.l2) in
    let t3 = bit_and mask (bit_xor f.l3 g.l3) in
    let t4 = bit_and mask (bit_xor f.l4 g.l4) in
    (
      record {
        l0 = bit_xor f.l0 t0;
        l1 = bit_xor f.l1 t1;
        l2 = bit_xor f.l2 t2;
        l3 = bit_xor f.l3 t3;
        l4 = bit_xor f.l4 t4;
      },
      record {
        l0 = bit_xor g.l0 t0;
        l1 = bit_xor g.l1 t1;
        l2 = bit_xor g.l2 t2;
        l3 = bit_xor g.l3 t3;
        l4 = bit_xor g.l4 t4;
      },
    )
