-- ===== src/Fec/Tests.antt =====
-- Runs of the erasure code, and each of its properties at concrete fragments.
use damen.Common.{ℕ, ◌+◌, ◌<◌, ◌≡◌, ◌⊎◌, refl, arith, bit_xor, List, [], ◌∷◌, none, some, get_or}
use damen.Fec.Gf.{gf, gf_mul, gf_pow, gf_inv, coef}
use damen.Fec.Gf.Laws.{gf_mul_field}
use damen.Fec.Code.{
  Bytes, encode_into, encode_from, encode_parity, cleared, add_fragments, gf_mul_add, add_bytes,
  add_scaled, decode, eliminate, missing_from, equations, equation, add_present, resize, coefs,
  find_pivot, swap_rows, scale_all, scale_from, normalise, add_all, add_from, clear_row, clear_rows,
  reduce_column, fill_missing,
}
use damen.Fec.Code.Encode.{byte}
use damen.Fec.Code.Parity.{parity_byte, byte-encode_into, coef_wraps}

-- Three data fragments, the second a byte short.
abbrev fragments : List Bytes
fragments = (1 ∷ 2 ∷ 3 ∷ []) ∷ (200 ∷ 100 ∷ []) ∷ (0 ∷ 255 ∷ 7 ∷ []) ∷ []

abbrev old_buffers : List Bytes
old_buffers = (9 ∷ 9 ∷ 9 ∷ 9 ∷ []) ∷ []

byte-encode_into_example :
    byte 2 (get_or (encode_into fragments 2 3 old_buffers) 1 []) ≡ parity_byte 1 0 2 fragments
byte-encode_into_example =
    byte-encode_into fragments old_buffers 2 3 1 2
      (
        (omega arith, (omega arith, (omega arith, tt))),
        ((omega arith, (omega arith, tt)), ((omega arith, (omega arith, (omega arith, tt))), tt)),
      )
      (omega arith) (omega arith)

coef_wraps_example : (coef 2 (3 + 256) ≡ coef 2 3) × (coef 3 255 ≡ 0)
coef_wraps_example = coef_wraps 2 3

abbrev two : ℕ
two = 2

gf_mul_field_example :
    (gf_mul 2 200 < 256)
    × (gf_mul 2 200 ≡ gf_mul 200 2)
    × (gf_mul (gf_mul 2 200) 7 ≡ gf_mul 2 (gf_mul 200 7))
    × (gf_mul 1 2 ≡ two)
    × (gf_mul 2 (bit_xor 200 7) ≡ bit_xor (gf_mul 2 200) (gf_mul 2 7))
    × ((two ≡ 0) ⊎ (gf_mul (gf_inv 2) 2 ≡ 1))
gf_mul_field_example = gf_mul_field 2 200 7 (omega arith) (omega arith) (omega arith)

-- Of three fragments two are lost, and two parities bring them back, padded.
abbrev parities : List Bytes
parities = encode_into fragments 2 3 []

recovered :
    decode
      (none ∷ none ∷ some (0 ∷ 255 ∷ 7 ∷ []) ∷ [])
      ((0, get_or parities 0 []) ∷ (1, get_or parities 1 []) ∷ [])
      3
    ≡ some (some (1 ∷ 2 ∷ 3 ∷ []) ∷ some (200 ∷ 100 ∷ 0 ∷ []) ∷ some (0 ∷ 255 ∷ 7 ∷ []) ∷ [])
unfolding encode_into encode_from encode_parity cleared add_fragments gf_mul_add add_bytes
    add_scaled coef gf_pow gf_inv gf_mul gf decode eliminate missing_from equations equation
    add_present resize coefs find_pivot swap_rows scale_all scale_from normalise add_all add_from
    clear_row clear_rows reduce_column fill_missing
recovered = refl
