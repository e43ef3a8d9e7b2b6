-- ===== src/Crypto/Aes.antt =====
-- The block cipher of tight/src/crypto.cpp: the arithmetic of bytes, the table, the round keys and
-- `encrypt_block`.
pub mod Block
pub mod Inverse
use damen.Common.{
  ℕ, zero, suc, ◌+◌, ◌-◌, ◌*◌, ◌%◌, bit_and, bit_or, bit_xor, List, [], ◌∷◌, ◌++◌, ◌==◌,
  if◌then◌else◌, take, drop, get_or,
}
use damen.Common.Bytes.{u8, u32, shr, shl}
use damen.Fec.Code.{Bytes}
use damen.Crypto.Sha256.{load_words, word_be}

-- The loop of `aes_mul`; a byte has eight digits, so eight rounds are enough.
unfoldable pub aes_mul_loop : ℕ → ℕ → ℕ → ℕ → ℕ
aes_mul_loop zero r a b = r
aes_mul_loop (suc fuel) r a b =
    let rest =
      aes_mul_loop fuel (if bit_and b 1 == 0 then r else bit_xor r a)
        (u8 (bit_xor (shl a 1) (if bit_and a 0x80 == 0 then 0 else 0x1b))) (shr b 1) in
    if b == 0 then r else rest

unfoldable pub aes_mul : ℕ → ℕ → ℕ
unfolding aes_mul_loop
aes_mul a b = aes_mul_loop 8 0 a b

-- The loop of `aes_inv`, over the eight digits of the exponent.
unfoldable pub aes_inv_loop : ℕ → ℕ → ℕ → ℕ → ℕ
unfolding aes_mul
aes_inv_loop zero result base e = result
aes_inv_loop (suc fuel) result base e =
    let rest =
      aes_inv_loop fuel (if bit_and e 1 == 0 then result else aes_mul result base)
        (aes_mul base base) (shr e 1) in
    if e == 0 then result else rest

unfoldable pub aes_inv : ℕ → ℕ
unfolding aes_inv_loop
aes_inv a = if a == 0 then 0 else aes_inv_loop 8 1 a 254

unfoldable pub rotl : ℕ → ℕ → ℕ
rotl y n = u8 (bit_or (shl y n) (shr y (8 - n)))

unfoldable pub sbox_entry : ℕ → ℕ
unfolding aes_inv rotl
sbox_entry x =
    let y = aes_inv (u8 x) in
    u8 (
      bit_xor (bit_xor (bit_xor (bit_xor (bit_xor 0x63 y) (rotl y 1)) (rotl y 2)) (rotl y 3))
        (rotl y 4))

-- The table from entry `x` on, with `n` entries left.
unfoldable pub sbox_from : ℕ → ℕ → List ℕ
unfolding sbox_entry
sbox_from zero x = []
sbox_from (suc n) x = sbox_entry x ∷ sbox_from n (x + 1)

unfoldable pub sbox : List ℕ
unfolding sbox_from
sbox = sbox_from 256 0

abbrev pub sub : ℕ → ℕ
sub x = get_or sbox x 0

-- The bytes of `t` through the table, with the shifts at which they are read.
unfoldable pub sub_word : ℕ → ℕ → ℕ → ℕ → ℕ → ℕ
unfolding sbox
sub_word t p q r s =
    bit_or
      (bit_or
        (bit_or (u32 (shl (sub (bit_and (shr t p) 0xff)) 24))
          (u32 (shl (sub (bit_and (shr t q) 0xff)) 16)))
        (u32 (shl (sub (bit_and (shr t r) 0xff)) 8)))
      (sub (bit_and (shr t s) 0xff))

-- The word that is added to the word eight places back, and the round constant after it.
unfoldable pub key_step : ℕ → ℕ → ℕ → ℕ × ℕ
unfolding sub_word aes_mul
key_step i t rcon =
    if i % 8 == 0
    then (bit_xor (sub_word t 16 8 0 24) rcon, u32 (shl (aes_mul (u8 (shr rcon 24)) 2) 24))
    else if i % 8 == 4
    then (sub_word t 24 16 8 0, rcon)
    else (t, rcon)

-- The loop of the key expansion: `n` words from word `i` on.
unfoldable pub expand_key : ℕ → ℕ → ℕ → List ℕ → List ℕ
unfolding key_step
expand_key zero i rcon w = w
expand_key (suc n) i rcon w =
    let step = key_step i (get_or w (i - 1) 0) rcon in
    expand_key n (i + 1) step.1 (w ++ (bit_xor (get_or w (i - 8) 0) step.0 ∷ []))

-- The keys of `n` rounds, four words each.
unfoldable pub round_keys : ℕ → List ℕ → List Bytes
unfolding word_be
round_keys zero w = []
round_keys (suc n) w =
    (word_be (get_or w 0 0)
      ++ word_be (get_or w 1 0)
      ++ word_be (get_or w 2 0)
      ++ word_be (get_or w 3 0))
    ∷ round_keys n (drop 4 w)

-- The constructor of `Aes256`: its round keys.
unfoldable pub aes256 : Bytes → List Bytes
unfolding load_words expand_key round_keys
aes256 key = round_keys 15 (expand_key 52 8 0x01000000 (load_words 8 key 0))

unfoldable pub xor_bytes : Bytes → Bytes → Bytes
xor_bytes (x ∷ xs) (y ∷ ys) = u8 (bit_xor x y) ∷ xor_bytes xs ys
xor_bytes _ _ = []

abbrev sub_at : Bytes → ℕ → ℕ
sub_at s i = sub (get_or s i 0)

unfoldable pub sub_shift : Bytes → Bytes
unfolding sbox
sub_shift s =
    sub_at s 0
    ∷ sub_at s 5
    ∷ sub_at s 10
    ∷ sub_at s 15
    ∷ sub_at s 4
    ∷ sub_at s 9
    ∷ sub_at s 14
    ∷ sub_at s 3
    ∷ sub_at s 8
    ∷ sub_at s 13
    ∷ sub_at s 2
    ∷ sub_at s 7
    ∷ sub_at s 12
    ∷ sub_at s 1
    ∷ sub_at s 6
    ∷ sub_at s 11
    ∷ []

unfoldable pub mix_columns : Bytes → Bytes
unfolding aes_mul
mix_columns (a0 ∷ a1 ∷ a2 ∷ a3 ∷ s) =
    u8 (bit_xor (bit_xor (bit_xor (aes_mul a0 2) (aes_mul a1 3)) a2) a3)
    ∷ u8 (bit_xor (bit_xor (bit_xor a0 (aes_mul a1 2)) (aes_mul a2 3)) a3)
    ∷ u8 (bit_xor (bit_xor (bit_xor a0 a1) (aes_mul a2 2)) (aes_mul a3 3))
    ∷ u8 (bit_xor (bit_xor (bit_xor (aes_mul a0 3) a1) a2) (aes_mul a3 2))
    ∷ mix_columns s
mix_columns _ = []

-- The rounds from round 1 on; the last one does not mix.
unfoldable pub aes_rounds : List Bytes → Bytes → Bytes
unfolding sub_shift mix_columns xor_bytes
aes_rounds [] s = s
aes_rounds (rk ∷ []) s = xor_bytes (sub_shift s) rk
aes_rounds (rk ∷ next ∷ rks) s = aes_rounds (next ∷ rks) (xor_bytes (mix_columns (sub_shift s)) rk)

unfoldable pub encrypt_block : List Bytes → Bytes → Bytes
unfolding aes_rounds
encrypt_block [] block = []
encrypt_block (rk ∷ rks) block = aes_rounds rks (xor_bytes block rk)
