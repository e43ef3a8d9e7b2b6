-- ===== src/Crypto/Aes/Block.antt =====
-- The length and the bytes of what `encrypt_block` of tight/src/crypto.cpp puts out.
use damen.Common.{ℕ, zero, suc, min, ◌≡◌, refl, arith, List, [], ◌∷◌, ◌++◌, length, drop, get_or}
use damen.Common.Bytes.{AllBytes}
use damen.Fec.Code.{Bytes}
use damen.Crypto.Sha256.{load_words, word_be}
use damen.Crypto.Aes.{
  expand_key, xor_bytes, sub_shift, mix_columns, aes_rounds, round_keys, aes256, encrypt_block,
}

pub length-xor_bytes : (xs ys : Bytes) → length (xor_bytes xs ys) ≡ min (length xs) (length ys)
unfolding xor_bytes
length-xor_bytes [] ys = omega arith
length-xor_bytes (x ∷ xs) [] = omega arith
length-xor_bytes (x ∷ xs) (y ∷ ys) = omega (arith, length-xor_bytes xs ys)

pub AllBytes-xor_bytes : (xs ys : Bytes) → AllBytes (xor_bytes xs ys)
unfolding xor_bytes
AllBytes-xor_bytes [] ys = tt
AllBytes-xor_bytes (x ∷ xs) [] = tt
AllBytes-xor_bytes (x ∷ xs) (y ∷ ys) = (omega arith, AllBytes-xor_bytes xs ys)

abbrev pub IsBlock : Bytes → Type 0
IsBlock bytes = (length bytes ≡ 16) × AllBytes bytes

abbrev AllKeys : List Bytes → Type 0
AllKeys [] = Unit {0}
AllKeys (rk ∷ rks) = (length rk ≡ 16) × AllKeys rks

length-sub_shift : (s : Bytes) → length (sub_shift s) ≡ 16
unfolding sub_shift
length-sub_shift s = refl

length-mix_columns : (s : Bytes) → length (mix_columns (sub_shift s)) ≡ 16
unfolding sub_shift mix_columns
length-mix_columns s = refl

aes_rounds-IsBlock :
    (rk : Bytes) (rks : List Bytes) (s : Bytes)
    → AllKeys (rk ∷ rks)
    → IsBlock (aes_rounds (rk ∷ rks) s)
unfolding aes_rounds
aes_rounds-IsBlock rk [] s k = (
  omega (arith, length-xor_bytes (sub_shift s) rk, length-sub_shift s, k.0),
  AllBytes-xor_bytes (sub_shift s) rk,
)
aes_rounds-IsBlock rk (next ∷ rks) s k =
    aes_rounds-IsBlock next rks (xor_bytes (mix_columns (sub_shift s)) rk) k.1

AllKeys-round_keys : (n : ℕ) (w : List ℕ) → AllKeys (round_keys n w)
unfolding round_keys
AllKeys-round_keys zero w = tt
AllKeys-round_keys (suc n) w = (refl, AllKeys-round_keys n (drop 4 w))

round_keys-IsBlock :
    (n : ℕ) (w : List ℕ) (block : Bytes)
    → IsBlock (encrypt_block (round_keys (suc (suc n)) w) block)
unfolding encrypt_block round_keys
round_keys-IsBlock n w block =
    aes_rounds-IsBlock
      (word_be (get_or (drop 4 w) 0 0)
        ++ word_be (get_or (drop 4 w) 1 0)
        ++ word_be (get_or (drop 4 w) 2 0)
        ++ word_be (get_or (drop 4 w) 3 0))
      (round_keys n (drop 4 (drop 4 w)))
      (xor_bytes block (
        word_be (get_or w 0 0)
        ++ word_be (get_or w 1 0)
        ++ word_be (get_or w 2 0)
        ++ word_be (get_or w 3 0)))
      (AllKeys-round_keys (suc n) (drop 4 w))

-- A key stream block.
pub encrypt_block-IsBlock : (key block : Bytes) → IsBlock (encrypt_block (aes256 key) block)
unfolding aes256
encrypt_block-IsBlock key block =
    round_keys-IsBlock 13 (expand_key 52 8 0x01000000 (load_words 8 key 0)) block
