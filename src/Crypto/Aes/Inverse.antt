-- ===== src/Crypto/Aes/Inverse.antt =====
-- The inverse of tight/src/crypto.cpp, from which the table is made.
use damen.Common.{ℕ, ◌≡◌, ◌<◌, refl, arith, Bool, true, ◌==◌, ◌||◌, ==_iff}
use damen.Fec.Gf.Tables.{holds_below, holds_below-lt}
use damen.Crypto.Aes.{aes_mul, aes_inv}

abbrev has_inverse : ℕ → Bool
has_inverse a = aes_mul a (aes_inv a) == 1

all_inverses : holds_below (λ a. a == 0 || has_inverse a) 256 ≡ true
unfolding holds_below aes_mul aes_inv
all_inverses = refl

nonzero : (a : ℕ) → 0 < a → (a == 0 || has_inverse a) ≡ true → has_inverse a ≡ true
nonzero a h p = ground arith

-- The product of a nonzero byte with its `aes_inv`, the 254th power, is one.
pub aes_mul-aes_inv : (a : ℕ) → 0 < a → a < 256 → aes_mul a (aes_inv a) ≡ 1
aes_mul-aes_inv a h k =
    (==_iff (aes_mul a (aes_inv a)) 1).0
      (nonzero a h (holds_below-lt (λ b. b == 0 || has_inverse b) 256 a k all_inverses))
