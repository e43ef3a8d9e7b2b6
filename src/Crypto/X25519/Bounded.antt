-- ===== src/Crypto/X25519/Bounded.antt =====
-- The limbs in the ladder of tight/src/crypto.cpp.
use damen.Common.{◌+◌, ◌*◌, ◌^◌, ◌<◌, ◌≡◌}
use damen.Fec.Code.{Bytes}
use damen.Crypto.X25519.{Ladder}
use damen.Crypto.X25519.Field.{Fe, fe_add, fe_sub, fe_mul, fe_sq, fe_mul_scalar}
use damen.Crypto.X25519.Carries.{value, prime, Below, Reduced}

-- Between two steps of the ladder every limb is below 2^51 + 2^13, and the pending exchange is a bit.
pub record IsReduced (s : Ladder) : Type 0 where
  pub x2 : Reduced s.x2
  pub z2 : Reduced s.z2
  pub x3 : Reduced s.x3
  pub z3 : Reduced s.z3
  pub bit : s.swap < 2

-- The sum and the difference of two elements are exact: the difference with twice the prime added.
abbrev pub IsExactSum : Fe → Fe → Type 0
IsExactSum f g = Below (2 ^ 53) (fe_add f g) × (value (fe_add f g) ≡ value f + value g)

abbrev pub IsExactDifference : Fe → Fe → Type 0
IsExactDifference f g =
    Below (2 ^ 53) (fe_sub f g) × (value (fe_sub f g) + value g ≡ value f + prime * 2)

-- The seven sums and differences of a step of the ladder from `s`.
pub record IsExactStep (s : Ladder) : Type 0 where
  pub a : IsExactSum s.x2 s.z2
  pub b : IsExactDifference s.x2 s.z2
  pub c : IsExactSum s.x3 s.z3
  pub d : IsExactDifference s.x3 s.z3
  pub e2 : IsExactDifference (fe_sq (fe_add s.x2 s.z2)) (fe_sq (fe_sub s.x2 s.z2))
  pub z2_sum :
      IsExactSum
        (fe_sq (fe_add s.x2 s.z2))
        (fe_mul_scalar (fe_sub (fe_sq (fe_add s.x2 s.z2)) (fe_sq (fe_sub s.x2 s.z2))) 121665)
  pub da_cb :
      IsExactSum
        (fe_mul (fe_sub s.x3 s.z3) (fe_add s.x2 s.z2))
        (fe_mul (fe_add s.x3 s.z3) (fe_sub s.x2 s.z2))
  pub da_cb2 :
      IsExactDifference
        (fe_mul (fe_sub s.x3 s.z3) (fe_add s.x2 s.z2))
        (fe_mul (fe_add s.x3 s.z3) (fe_sub s.x2 s.z2))
