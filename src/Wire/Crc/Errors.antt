-- ===== src/Wire/Crc/Errors.antt =====
-- `crc32_compute` of tight/src/crc32.cpp on messages that differ in a byte.
use damen.Common.{
  ℕ, zero, suc, ◌+◌, ◌*◌, ◌/◌, ◌%◌, ◌^◌, ◌<◌, ◌≡◌, ◌≢◌, sym, ap, ◌∙◌, inl, inr, arith, bit_xor,
  List, [], ◌∷◌, ◌++◌, ◌==◌, if◌then◌else◌, ltb, ltb→lt, Bool-cases, false,
}
use damen.Common.Bytes.{AllBytes, AllBytes-append}
use damen.Common.Bits.Xor.{bit_xor_cancel, bit_xor_cancel_left, bit_xor-lt}
use damen.Wire.Crc.{polynomial, crc_round, crc_rounds, crc32_update, crc32_compute}
use damen.Wire.Crc.Bitwise.{crc_bitwise, crc_round_digit, crc32_update-eq-crc_bitwise}

-- The round backwards: the top digit tells whether the polynomial was taken.
uncrc_round : ℕ → ℕ
uncrc_round z = if ltb z (2 ^ 31) then z * 2 else bit_xor polynomial z * 2 + 1

-- The polynomial has its top digit, so a sum with a shorter number has it too.
top_digit : (y : ℕ) → y < 2 ^ 31 → ltb (bit_xor polynomial y) (2 ^ 31) ≡ false
top_digit y h = elim (Bool-cases (ltb (bit_xor polynomial y) (2 ^ 31))) [
  | inl short ↦ absurd (
      omega (
        arith,
        ltb→lt _ _ short,
        bit_xor_cancel polynomial y,
        bit_xor-lt 31 (bit_xor polynomial y) y (ltb→lt _ _ short) h,
      ))
  | inr e ↦ e
]

uncrc_round-crc_round : (c : ℕ) → c < 2 ^ 32 → uncrc_round (crc_round c) ≡ c
unfolding uncrc_round
uncrc_round-crc_round c h = elim (Bool-cases (c % 2 == 0)) [
  | inl e ↦ rw (crc_round_digit c, e) (ground arith)
  | inr e ↦
      rw (crc_round_digit c, e, top_digit (c / 2) (omega arith), bit_xor_cancel_left) (ground arith)
]

crc_round-lt : (c : ℕ) → c < 2 ^ 32 → crc_round c < 2 ^ 32
crc_round-lt c h =
    ground (arith, crc_round_digit c, bit_xor-lt 32 polynomial (c / 2) (omega arith) (omega arith))

crc_rounds-lt : (k c : ℕ) → c < 2 ^ 32 → crc_rounds k c < 2 ^ 32
unfolding crc_rounds
crc_rounds-lt zero c h = h
crc_rounds-lt (suc k) c h = crc_rounds-lt k (crc_round c) (crc_round-lt c h)

crc_rounds_injective :
    (k c d : ℕ) → c < 2 ^ 32 → d < 2 ^ 32 → crc_rounds k c ≡ crc_rounds k d → c ≡ d
unfolding crc_rounds
crc_rounds_injective zero c d hc hd e = e
crc_rounds_injective (suc k) c d hc hd e =
    sym (uncrc_round-crc_round c hc)
    ∙ ap uncrc_round (
        crc_rounds_injective k (crc_round c) (crc_round d) (crc_round-lt c hc) (crc_round-lt d hd)
          e)
    ∙ uncrc_round-crc_round d hd

xor_cancel_right : (c d b : ℕ) → bit_xor c b ≡ bit_xor d b → c ≡ d
xor_cancel_right c d b e = sym (bit_xor_cancel c b) ∙ ap (λ t. bit_xor t b) e ∙ bit_xor_cancel d b

-- The state after a message, and the state before its last byte, tell each other.
crc_bitwise_injective :
    (bs : List ℕ) (c d : ℕ)
    → AllBytes bs
    → c < 2 ^ 32
    → d < 2 ^ 32
    → crc_bitwise c bs ≡ crc_bitwise d bs
    → c ≡ d
unfolding crc_bitwise
crc_bitwise_injective [] c d h hc hd e = e
crc_bitwise_injective (b ∷ bs) c d h hc hd e = xor_cancel_right c d b (
    crc_rounds_injective 8 (bit_xor c b) (bit_xor d b) (fits c hc) (fits d hd) (
      crc_bitwise_injective bs _ _ h.1 (crc_rounds-lt 8 _ (fits c hc))
        (crc_rounds-lt 8 _ (fits d hd)) e))
  where
    fits : (a : ℕ) → a < 2 ^ 32 → bit_xor a b < 2 ^ 32
    fits a ha = bit_xor-lt 32 a b ha (omega (arith, h.0))

crc_bitwise_byte :
    (xs : List ℕ) (b d : ℕ) (ys : List ℕ) (c : ℕ)
    → AllBytes xs
    → AllBytes ys
    → b < 256
    → d < 256
    → c < 2 ^ 32
    → crc_bitwise c (xs ++ (b ∷ ys)) ≡ crc_bitwise c (xs ++ (d ∷ ys))
    → b ≡ d
unfolding crc_bitwise
crc_bitwise_byte [] b d ys c hx hy hb hd hc e =
    sym (bit_xor_cancel_left c b)
    ∙ ap (bit_xor c) (
        crc_rounds_injective 8 (bit_xor c b) (bit_xor c d) (fits b hb) (fits d hd) (
          crc_bitwise_injective ys _ _ hy (crc_rounds-lt 8 _ (fits b hb))
            (crc_rounds-lt 8 _ (fits d hd)) e))
    ∙ bit_xor_cancel_left c d
  where
    fits : (a : ℕ) → a < 256 → bit_xor c a < 2 ^ 32
    fits a ha = bit_xor-lt 32 c a hc (omega arith)
crc_bitwise_byte (x ∷ xs) b d ys c hx hy hb hd hc e =
    crc_bitwise_byte xs b d ys (crc_rounds 8 (bit_xor c x)) hx.1 hy hb hd
      (crc_rounds-lt 8 _ (bit_xor-lt 32 c x hc (omega (arith, hx.0)))) e

-- Two messages that are alike but for the value of one byte, wherever it stands, have different
-- checksums.
pub crc32_compute_byte :
    (xs : List ℕ) (b d : ℕ) (ys : List ℕ)
    → AllBytes xs
    → AllBytes ys
    → b < 256
    → d < 256
    → b ≢ d
    → crc32_compute (xs ++ (b ∷ ys)) ≢ crc32_compute (xs ++ (d ∷ ys))
unfolding crc32_compute crc_bitwise
crc32_compute_byte xs b d ys hx hy hb hd ne e = ne (
    crc_bitwise_byte xs b d ys 0xffffffff hx hy hb hd (omega arith)
      (sym (by_bits b hb) ∙ xor_cancel_right _ _ 0xffffffff e ∙ by_bits d hd))
  where
    by_bits :
        (a : ℕ)
        → a < 256
        → crc32_update 0xffffffff (xs ++ (a ∷ ys)) ≡ crc_bitwise 0xffffffff (xs ++ (a ∷ ys))
    by_bits a ha =
        crc32_update-eq-crc_bitwise 0xffffffff (xs ++ (a ∷ ys))
          (AllBytes-append xs (a ∷ ys) hx (ha, hy))

-- A checksum is a 32-bit word.
pub crc32_compute-lt : (bs : List ℕ) → AllBytes bs → crc32_compute bs < 2 ^ 32
unfolding crc32_compute crc_bitwise
crc32_compute-lt bs h =
    bit_xor-lt 32 (crc32_update 0xffffffff bs) 0xffffffff
      (rw (crc32_update-eq-crc_bitwise 0xffffffff bs h)
        (crc_bitwise-lt bs 0xffffffff h (omega arith)))
      (omega arith)
  where
    crc_bitwise-lt : (bs : List ℕ) (c : ℕ) → AllBytes bs → c < 2 ^ 32 → crc_bitwise c bs < 2 ^ 32
    crc_bitwise-lt [] c h hc = hc
    crc_bitwise-lt (b ∷ bs) c h hc =
        crc_bitwise-lt bs (crc_rounds 8 (bit_xor c b)) h.1
          (crc_rounds-lt 8 (bit_xor c b) (bit_xor-lt 32 c b hc (omega (arith, h.0))))
