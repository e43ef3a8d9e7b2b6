-- ===== src/Crypto/X25519/Sums.antt =====
-- Sums, differences and the conditional exchange of field elements in tight/src/crypto.cpp.
use damen.Common.{ℕ, ◌+◌, ◌-◌, ◌*◌, ◌^◌, ◌<◌, ◌≡◌, sym, ap, ap₂, ◌∙◌, arith, bit_and, bit_xor}
use damen.Common.Bits.Masks.{bit_and-zero}
use damen.Common.Bits.Words.{bit_and_comm, bit_and_dword}
use damen.Common.Bits.Xor.{
  bit_xor-zero, bit_xor_comm, bit_xor_assoc, bit_xor_self, zero-bit_xor, bit_xor-lt,
}
use damen.Crypto.X25519.Field.{Fe, fe_add, fe_sub, fe_cswap}
use damen.Crypto.X25519.Carries.{value, prime, Below, Reduced}

-- The sum of two results of products has no overflow, and can be multiplied.
pub fe_add-value :
    (f g : Fe)
    → Below (2 ^ 52) f
    → Below (2 ^ 52) g
    → Below (2 ^ 53) (fe_add f g) × (value (fe_add f g) ≡ value f + value g)
unfolding fe_add
fe_add-value f g hf hg =
    let f0 = hf.0 in
    let f1 = hf.1 in
    let f2 = hf.2 in
    let f3 = hf.3 in
    let f4 = hf.4 in
    let g0 = hg.0 in
    let g1 = hg.1 in
    let g2 = hg.2 in
    let g3 = hg.3 in
    let g4 = hg.4 in
    ((omega arith, omega arith, omega arith, omega arith, omega arith), omega arith)

-- The difference of two results of products is not below zero in any limb, since twice the prime is
-- added, and can be multiplied.
pub fe_sub-exact :
    (f g : Fe)
    → Reduced f
    → Reduced g
    → Below (2 ^ 53) (fe_sub f g) × (value (fe_sub f g) + value g ≡ value f + prime * 2)
unfolding fe_sub
fe_sub-exact f g hf hg =
    let f0 = hf.0 in
    let f1 = hf.1 in
    let f2 = hf.2 in
    let f3 = hf.3 in
    let f4 = hf.4 in
    let g0 = hg.0 in
    let g1 = hg.1 in
    let g2 = hg.2 in
    let g3 = hg.3 in
    let g4 = hg.4 in
    ((omega arith, omega arith, omega arith, omega arith, omega arith), omega arith)

-- One limb of the exchange.
kept : (a b : ℕ) → bit_xor a (bit_and 0 (bit_xor a b)) ≡ a
kept a b =
    ap (bit_xor a) (bit_and_comm 0 (bit_xor a b) ∙ bit_and-zero (bit_xor a b)) ∙ bit_xor-zero a

masked : (a b : ℕ) → a < 2 ^ 64 → b < 2 ^ 64 → bit_and (2 ^ 64 - 1) (bit_xor a b) ≡ bit_xor a b
masked a b h k = omega (
  arith,
  bit_and_comm (2 ^ 64 - 1) (bit_xor a b),
  bit_and_dword (bit_xor a b),
  bit_xor-lt 64 a b h k,
)

taken : (a b : ℕ) → a < 2 ^ 64 → b < 2 ^ 64 → bit_xor a (bit_and (2 ^ 64 - 1) (bit_xor a b)) ≡ b
taken a b h k =
    ap (bit_xor a) (masked a b h k)
    ∙ sym (bit_xor_assoc a a b)
    ∙ ap (λ t. bit_xor t b) (bit_xor_self a)
    ∙ zero-bit_xor b

given : (a b : ℕ) → a < 2 ^ 64 → b < 2 ^ 64 → bit_xor b (bit_and (2 ^ 64 - 1) (bit_xor a b)) ≡ a
given a b h k = ap (λ t. bit_xor b (bit_and (2 ^ 64 - 1) t)) (bit_xor_comm a b) ∙ taken b a k h

same : {f g : Fe} → f.l0 ≡ g.l0 → f.l1 ≡ g.l1 → f.l2 ≡ g.l2 → f.l3 ≡ g.l3 → f.l4 ≡ g.l4 → f ≡ g
same p q r s t = cc

-- Without a branch on the secret bit, the elements are exchanged when it is one and left as they
-- are when it is zero.
pub fe_cswap_lem :
    (f g : Fe)
    → Below (2 ^ 64) f
    → Below (2 ^ 64) g
    → (fe_cswap f g 0 ≡ (f, g)) × (fe_cswap f g 1 ≡ (g, f))
unfolding fe_cswap
fe_cswap_lem f g hf hg = (
  ap₂ (λ x y. (x, y))
      (same (kept f.l0 g.l0) (kept f.l1 g.l1) (kept f.l2 g.l2) (kept f.l3 g.l3) (kept f.l4 g.l4))
      (same (kept2 f.l0 g.l0) (kept2 f.l1 g.l1) (kept2 f.l2 g.l2) (kept2 f.l3 g.l3)
        (kept2 f.l4 g.l4)),
  ap₂ (λ x y. (x, y))
      (same (taken f.l0 g.l0 hf.0 hg.0) (taken f.l1 g.l1 hf.1 hg.1) (taken f.l2 g.l2 hf.2 hg.2)
        (taken f.l3 g.l3 hf.3 hg.3) (taken f.l4 g.l4 hf.4 hg.4))
      (same (given f.l0 g.l0 hf.0 hg.0) (given f.l1 g.l1 hf.1 hg.1) (given f.l2 g.l2 hf.2 hg.2)
        (given f.l3 g.l3 hf.3 hg.3) (given f.l4 g.l4 hf.4 hg.4)),
)
  where
    kept2 : (a b : ℕ) → bit_xor b (bit_and 0 (bit_xor a b)) ≡ b
    kept2 a b = ap (λ t. bit_xor b (bit_and 0 t)) (bit_xor_comm a b) ∙ kept b a
