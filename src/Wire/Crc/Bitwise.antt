-- ===== src/Wire/Crc/Bitwise.antt =====
-- `crc32_update` of tight/src/crc32.cpp and the division bit by bit.
use damen.Common.{
  ℕ, zero, suc, ◌+◌, ◌*◌, ◌/◌, ◌%◌, ◌^◌, ◌<◌, ◌≡◌, refl, sym, ap, ◌∙◌, inl, inr, arith, bit_and,
  bit_xor, List, [], ◌∷◌, ◌++◌, ◌==◌, if◌then◌else◌, get_or, Bool-cases,
}
use damen.Common.Bytes.{shr, AllBytes}
use damen.Common.Bits.{bit_xor_step}
use damen.Common.Bits.Masks.{bit_and_one, bit_and_byte}
use damen.Common.Bits.Xor.{bit_xor-zero, bit_xor_assoc, bit_xor-byte_down, bit_xor_field}
use native.Mathlib.Nat.{pow-suc}
use damen.Wire.Crc.{polynomial, crc_round, crc_rounds, table_from, crc_table, crc32_update}

-- The checksum as the division of the message: eight rounds on each byte.
unfoldable pub crc_bitwise : ℕ → List ℕ → ℕ
crc_bitwise crc [] = crc
crc_bitwise crc (b ∷ bs) = crc_bitwise (crc_rounds 8 (bit_xor crc b)) bs

-- A round by the lowest digit of its argument.
pub crc_round_digit :
    (c : ℕ) → crc_round c ≡ (if c % 2 == 0 then c / 2 else bit_xor polynomial (c / 2))
unfolding crc_round
crc_round_digit c = rw bit_and_one

-- A number whose lowest digit is zero passes through a round as a shift.
round_even : (u v : ℕ) → crc_round (bit_xor u (v * 2)) ≡ bit_xor (crc_round u) v
round_even u v = elim (Bool-cases (u % 2 == 0)) [
  | inl e ↦ rw (crc_round_digit u, crc_round_digit (bit_xor u (v * 2)), parity, half, e)
  | inr e ↦
      rw (crc_round_digit u, crc_round_digit (bit_xor u (v * 2)), parity, half, e)
        (sym (bit_xor_assoc polynomial (u / 2) v))
]
  where
    halved : v * 2 / 2 ≡ v
    halved = omega arith

    parity : bit_xor u (v * 2) % 2 ≡ u % 2
    parity = omega (arith, bit_xor_step u (v * 2))

    half : bit_xor u (v * 2) / 2 ≡ bit_xor (u / 2) v
    half = omega (arith, bit_xor_step u (v * 2), ap (bit_xor (u / 2)) halved)

rounds_even : (k u v : ℕ) → crc_rounds k (bit_xor u (v * 2 ^ k)) ≡ bit_xor (crc_rounds k u) v
unfolding crc_rounds
rounds_even zero u v = ap (bit_xor u) (omega arith)
rounds_even (suc k) u v =
    ap (crc_rounds k) (ap (λ t. crc_round (bit_xor u t)) doubled ∙ round_even u (v * 2 ^ k))
    ∙ rounds_even k (crc_round u) v
  where
    doubled : v * 2 ^ suc k ≡ v * 2 ^ k * 2
    doubled = omega (arith, ap (λ (t : ℕ). v * t) (pow-suc 2 k))

table-get : (n i j : ℕ) → j < n → get_or (table_from n i) j 0 ≡ crc_rounds 8 (i + j)
unfolding table_from
table-get zero i j h = absurd (omega arith)
table-get (suc n) i zero h = ap (crc_rounds 8) (omega arith)
table-get (suc n) i (suc j) h =
    table-get n (i + 1) j (omega arith) ∙ ap (crc_rounds 8) (omega arith)

-- One byte by the table is eight rounds.
pub table_byte :
    (c b : ℕ)
    → b < 256
    → bit_xor (get_or crc_table (bit_and (bit_xor c b) 0xff) 0) (shr c 8)
      ≡ crc_rounds 8 (bit_xor c b)
unfolding crc_table
table_byte c b h =
    ap (λ t. bit_xor t (c / 256)) looked_up
    ∙ sym (rounds_even 8 (x % 256) (c / 256))
    ∙ ap (crc_rounds 8) (bit_xor_field 8 (x % 256) (c / 256) (omega arith) ∙ omega (arith, high))
  where
    x : ℕ
    x = bit_xor c b

    looked_up : get_or (table_from 256 0) (bit_and x 0xff) 0 ≡ crc_rounds 8 (x % 256)
    looked_up =
        table-get 256 0 (bit_and x 0xff) (omega (arith, bit_and_byte x))
        ∙ ap (crc_rounds 8) (omega (arith, bit_and_byte x))

    small : b / 256 ≡ 0
    small = omega arith

    high : x / 256 ≡ c / 256
    high = bit_xor-byte_down c b ∙ ap (bit_xor (c / 256)) small ∙ bit_xor-zero (c / 256)

-- The checksum that reads the table byte by byte is the bit-by-bit division, from any start value
-- and for any bytes.
pub crc32_update-eq-crc_bitwise :
    (crc : ℕ) (bs : List ℕ) → AllBytes bs → crc32_update crc bs ≡ crc_bitwise crc bs
unfolding crc32_update crc_bitwise
crc32_update-eq-crc_bitwise crc [] h = refl
crc32_update-eq-crc_bitwise crc (b ∷ bs) h =
    ap (λ t. crc32_update t bs) (table_byte crc b h.0)
    ∙ crc32_update-eq-crc_bitwise (crc_rounds 8 (bit_xor crc b)) bs h.1

-- A message may be fed in parts.
pub crc32_update-append :
    (xs ys : List ℕ) (crc : ℕ) → crc32_update crc (xs ++ ys) ≡ crc32_update (crc32_update crc xs) ys
unfolding crc32_update
crc32_update-append [] ys crc = refl
crc32_update-append (b ∷ xs) ys crc =
    crc32_update-append xs ys
      (bit_xor (get_or crc_table (bit_and (bit_xor crc b) 0xff) 0) (shr crc 8))
