-- ===== src/Crypto/X25519.antt =====
-- The key agreement of tight/src/crypto.cpp: the ladder and the keys. The random bytes of a private key
-- are an argument.
pub mod Field
pub mod Carries
pub mod Product
pub mod Sums
pub mod Power
pub mod Bounded
pub mod Encoding
use damen.Common.{
  ℕ, zero, suc, ◌+◌, ◌-◌, ◌/◌, ◌%◌, bit_and, bit_or, bit_xor, List, [], ◌∷◌, Bool, true, ◌==◌, not,
  get_or, set, replicate,
}
use damen.Common.Bytes.{shr}
use damen.Fec.Code.{Bytes}
use damen.Crypto.X25519.Field.{Fe, fe_add, fe_sub, fe_mul, fe_sq, fe_mul_scalar, fe_inv, fe_cswap}
use damen.Crypto.X25519.Encoding.{fe_frombytes, fe_tobytes}

-- The scalar, with its lowest three digits and its highest cleared and the one below it set.
unfoldable pub clamp : Bytes → Bytes
clamp e =
    let low = set e 0 (bit_and (get_or e 0 0) 248) in
    let high = set low 31 (bit_and (get_or low 31 0) 127) in
    set high 31 (bit_or (get_or high 31 0) 64)

-- The variables of the ladder.
pub record Ladder : Type 0 where
  pub x2 : Fe
  pub z2 : Fe
  pub x3 : Fe
  pub z3 : Fe
  pub swap : ℕ

abbrev fe_small : ℕ → Fe
fe_small n = record { l0 = n; l1 = 0; l2 = 0; l3 = 0; l4 = 0 }

abbrev pub ladder_start : Fe → Ladder
ladder_start x1 = record { x2 = fe_small 1; z2 = fe_small 0; x3 = x1; z3 = fe_small 1; swap = 0 }

-- The exchange at the start of the loop's body, and after the loop.
unfoldable pub ladder_swap : Ladder → Ladder
unfolding fe_cswap
ladder_swap s =
    let xs = fe_cswap s.x2 s.x3 s.swap in
    let zs = fe_cswap s.z2 s.z3 s.swap in
    record { x2 = xs.0; z2 = zs.0; x3 = xs.1; z3 = zs.1; swap = s.swap }

-- The arithmetic of the loop's body.
unfoldable pub ladder_step : Fe → Ladder → Ladder
unfolding fe_add fe_sub fe_mul fe_sq fe_mul_scalar
ladder_step x1 s =
    let a = fe_add s.x2 s.z2 in
    let aa = fe_sq a in
    let b = fe_sub s.x2 s.z2 in
    let bb = fe_sq b in
    let e2 = fe_sub aa bb in
    let c = fe_add s.x3 s.z3 in
    let d = fe_sub s.x3 s.z3 in
    let da = fe_mul d a in
    let cb = fe_mul c b in
    let da_cb = fe_add da cb in
    let da_cb2 = fe_sub da cb in
    record {
      x2 = fe_mul aa bb;
      z2 = fe_mul e2 (fe_add aa (fe_mul_scalar e2 121665));
      x3 = fe_sq da_cb;
      z3 = fe_mul x1 (fe_sq da_cb2);
      swap = s.swap;
    }

-- The loop, with `n` digits of the scalar left.
unfoldable pub ladder_loop : ℕ → Bytes → Fe → Ladder → Ladder
unfolding ladder_swap ladder_step
ladder_loop zero e x1 s = s
ladder_loop (suc n) e x1 s =
    let kt = bit_and (shr (get_or e (n / 8) 0) (n % 8)) 1 in
    let turned = ladder_swap (record s { swap = bit_xor s.swap kt }) in
    ladder_loop n e x1 (ladder_step x1 (record turned { swap = kt }))

unfoldable pub any_bits : ℕ → Bytes → ℕ
any_bits acc [] = acc
any_bits acc (b ∷ bs) = any_bits (bit_or acc b) bs

-- The shared secret, and whether it is valid.
unfoldable pub x25519 : Bytes → Bytes → Bytes × Bool
unfolding clamp ladder_loop ladder_swap fe_mul fe_inv fe_frombytes fe_tobytes any_bits
x25519 private_key peer_public_key =
    let x1 = fe_frombytes peer_public_key in
    let last = ladder_swap (ladder_loop 255 (clamp private_key) x1 (ladder_start x1)) in
    let out = fe_tobytes (fe_mul last.x2 (fe_inv last.z2)) in (out, not (any_bits 0 out == 0))

pub record X25519KeyPair : Type 0 where
  pub private_key : Bytes
  pub public_key : Bytes

unfoldable pub x25519_generate : Bytes → X25519KeyPair
unfolding x25519
x25519_generate random = record {
  private_key = random;
  public_key = (x25519 random (set (replicate 32 0) 0 9)).0;
}
