-- ===== src/Fec/Code/Parity.antt =====
-- `ReedSolomon::encode_into` of tight/src/fec.cpp, byte by byte, and its coefficients.
use damen.Common.{
  ℕ, zero, suc, ◌+◌, ◌<◌, ◌≡◌, inl, inr, refl, sym, ap, ◌∙◌, arith, bit_xor, List, [], ◌∷◌, ◌++◌,
  length, drop, get_or, replicate, ltb, Bool-cases, length-append, ==_ne, length-replicate,
}
use damen.Common.Bytes.{AllBytes}
use damen.Common.Bits.Xor.{bit_xor-zero, zero-bit_xor, bit_xor_assoc}
use damen.Fec.Gf.{gf_mul, gf_pow, coef}
use damen.Fec.Code.{
  Bytes, gf_mul_add, add_fragments, cleared, encode_parity, encode_from, encode_into,
}
use damen.Fec.Code.Encode.{byte, byte-gf_mul_add, length-gf_mul_add}

-- Every fragment is made of bytes.
abbrev AllFragments : List Bytes → Type 0
AllFragments [] = Unit
AllFragments (f ∷ fragments) = AllBytes f × AllFragments fragments

-- Byte `i` of parity `p`: the field's sum of `(j + 1) ^ p` times byte `i` of fragment `j`.
abbrev pub parity_byte : ℕ → ℕ → ℕ → List Bytes → ℕ
parity_byte p j i [] = 0
parity_byte p j i (f ∷ fragments) =
    bit_xor (gf_mul (coef p j) (byte i f)) (parity_byte p (j + 1) i fragments)

byte-add_fragments :
    (p j width i : ℕ) (fragments : List Bytes) (acc : Bytes)
    → AllFragments fragments
    → i < width
    → i < length acc
    → byte i (add_fragments p j fragments width acc)
      ≡ bit_xor (byte i acc) (parity_byte p j i fragments)
unfolding add_fragments
byte-add_fragments p j width i [] acc h hw ha = sym (bit_xor-zero (byte i acc))
byte-add_fragments p j width i (f ∷ fragments) acc h hw ha =
    byte-add_fragments p (j + 1) width i fragments (gf_mul_add acc f (coef p j) width) h.1 hw
      (omega (arith, length-gf_mul_add (coef p j) width acc f))
    ∙ ap (λ t. bit_xor t (parity_byte p (j + 1) i fragments))
        (byte-gf_mul_add i (coef p j) width acc f hw ha h.0)
    ∙ bit_xor_assoc (byte i acc) (gf_mul (coef p j) (byte i f)) (parity_byte p (j + 1) i fragments)

byte-replicate : (width i : ℕ) (rest : Bytes) → i < width → byte i (replicate width 0 ++ rest) ≡ 0
byte-replicate zero i rest h = absurd (omega arith)
byte-replicate (suc width) zero rest h = refl
byte-replicate (suc width) (suc i) rest h = byte-replicate width i rest (omega arith)

byte-zeros : (width i : ℕ) → byte i (replicate width 0) ≡ 0
byte-zeros zero i = refl
byte-zeros (suc width) zero = refl
byte-zeros (suc width) (suc i) = byte-zeros width i

byte-cleared : (width i : ℕ) (out : Bytes) → i < width → byte i (cleared width out) ≡ 0
unfolding cleared
byte-cleared width i out h = elim (Bool-cases (ltb (length out) width)) [
  | inl short ↦ rw (short) (byte-zeros width i)
  | inr long ↦ rw (long) (byte-replicate width i (drop width out) h)
]

length-cleared : (width i : ℕ) (out : Bytes) → i < width → i < length (cleared width out)
unfolding cleared
length-cleared width i out h = elim (Bool-cases (ltb (length out) width)) [
  | inl short ↦ rw (short) (omega (arith, length-replicate {A = ℕ} width 0))
  | inr long ↦ rw (long) (
      omega (
        arith,
        length-append (replicate width 0) (drop width out),
        length-replicate {A = ℕ} width 0,
      ))
]

get_or-encode_from :
    (n p k width : ℕ) (fragments out : List Bytes)
    → k < n
    → get_or (encode_from n p fragments width out) k []
      ≡ encode_parity (p + k) fragments width (get_or out k [])
unfolding encode_from
get_or-encode_from zero p k width fragments out h = absurd (omega arith)
get_or-encode_from (suc n) p zero width fragments [] h =
    ap (λ q. encode_parity q fragments width []) (omega arith)
get_or-encode_from (suc n) p zero width fragments (o ∷ out) h =
    ap (λ q. encode_parity q fragments width o) (omega arith)
get_or-encode_from (suc n) p (suc k) width fragments [] h =
    get_or-encode_from n (p + 1) k width fragments [] (omega arith)
    ∙ ap (λ q. encode_parity q fragments width []) (omega arith)
get_or-encode_from (suc n) p (suc k) width fragments (o ∷ out) h =
    get_or-encode_from n (p + 1) k width fragments out (omega arith)
    ∙ ap (λ q. encode_parity q fragments width (get_or out k [])) (omega arith)

-- Whatever the buffers held before, byte `i` of parity `p` that `encode_into` writes, for every
-- parity asked for and every byte inside the width, is the sum over the data fragments, in the
-- field, of the coefficient of the pair times byte `i` of the fragment; a fragment shorter than the
-- width counts as padded with zeros.
pub byte-encode_into :
    (fragments out : List Bytes) (parity_count width p i : ℕ)
    → AllFragments fragments
    → p < parity_count
    → i < width
    → byte i (get_or (encode_into fragments parity_count width out) p [])
      ≡ parity_byte p 0 i fragments
unfolding encode_into encode_parity
byte-encode_into fragments out parity_count width p i h hp hw =
    ap (byte i) (
      get_or-encode_from parity_count 0 p width fragments out hp
      ∙ ap (λ q. encode_parity q fragments width (get_or out p [])) (omega arith))
    ∙ byte-add_fragments p 0 width i fragments (cleared width (get_or out p [])) h hw
        (length-cleared width i (get_or out p []) hw)
    ∙ ap (λ t. bit_xor t (parity_byte p 0 i fragments)) (byte-cleared width i (get_or out p []) hw)
    ∙ zero-bit_xor (parity_byte p 0 i fragments)

-- The coefficients repeat every 256 data fragments, and data fragment 255 has coefficient zero in
-- every parity but the first.
pub coef_wraps : (p j : ℕ) → (coef p (j + 256) ≡ coef p j) × (coef (suc p) 255 ≡ 0)
unfolding coef gf_pow
coef_wraps p j = (ap (λ b. gf_pow b p) (omega arith), rw (==_ne (suc p) 0 (omega arith)) refl)
