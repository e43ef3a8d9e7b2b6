-- ===== src/Crypto/Gcm.antt =====
-- The authenticated encryption of tight/src/crypto.cpp: the product and the hash of `ghash_update`, the
-- tag, the counter mode, and the two calls. The caller's pointers are lists; `decrypt` returns the
-- plaintext where the source writes it and returns true.
pub mod RoundTrip
pub mod Refused
pub mod Counter
use damen.Common.{
  ℕ, zero, suc, ◌+◌, ◌-◌, ◌*◌, ◌/◌, ◌%◌, min, bit_and, bit_or, bit_xor, List, [], ◌∷◌, ◌++◌, Option,
  none, some, ◌==◌, if◌then◌else◌, length, take, drop, get_or, set, replicate,
}
use damen.Common.Bytes.{u8, u64, shr, shl, memcpy_to}
use damen.Fec.Code.{Bytes}
use damen.Crypto.Sha256.{len_be}
use damen.Crypto.Aes.{xor_bytes, aes256, encrypt_block}

-- A byte loop of `ghash_mul` from the second byte on, with the byte before.
unfoldable pub shift_bytes : ℕ → Bytes → Bytes
shift_bytes before [] = []
shift_bytes before (b ∷ bs) = u8 (bit_or (shr b 1) (shl before 7)) ∷ shift_bytes b bs

unfoldable pub shift_first : Bytes → Bytes
unfolding shift_bytes
shift_first [] = []
shift_first (b ∷ bs) = shr b 1 ∷ shift_bytes b bs

unfoldable pub halve : Bytes → Bytes
unfolding shift_first
halve v =
    let shifted = shift_first v in
    if bit_and (get_or v 15 0) 1 == 0
    then shifted
    else set shifted 0 (bit_xor (get_or shifted 0 0) 0xe1)

-- The loop of `ghash_mul`, with `n` digits left from digit `i` on.
unfoldable pub ghash_mul_loop : ℕ → ℕ → Bytes → Bytes → Bytes → Bytes
unfolding halve xor_bytes
ghash_mul_loop zero i x z v = z
ghash_mul_loop (suc n) i x z v =
    ghash_mul_loop n (i + 1) x
      (if bit_and (shr (get_or x (i / 8) 0) (7 - i % 8)) 1 == 0 then z else xor_bytes z v) (halve v)

unfoldable pub ghash_mul : Bytes → Bytes → Bytes
unfolding ghash_mul_loop
ghash_mul x y = ghash_mul_loop 128 0 x (replicate 16 0) y

-- The loop of `ghash_update`, which takes at least one byte each time round.
unfoldable pub ghash_loop : ℕ → Bytes → Bytes → Bytes → Bytes
unfolding ghash_mul xor_bytes
ghash_loop zero x h bytes = x
ghash_loop (suc fuel) x h [] = x
ghash_loop (suc fuel) x h (b ∷ bs) =
    let n = min (length (b ∷ bs)) 16 in
    let block = memcpy_to (replicate 16 0) 0 (take n (b ∷ bs)) in
    ghash_loop fuel (ghash_mul (xor_bytes x block) h) h (drop n (b ∷ bs))

unfoldable pub ghash_update : Bytes → Bytes → Bytes → Bytes
unfolding ghash_loop
ghash_update x h bytes = ghash_loop (length bytes) x h bytes

unfoldable pub gcm_compute_tag : List Bytes → Bytes → Bytes → Bytes → Bytes
unfolding encrypt_block ghash_update len_be
gcm_compute_tag aes j0 aad ct =
    let h = encrypt_block aes (replicate 16 0) in
    let x = ghash_update (ghash_update (replicate 16 0) h aad) h ct in
    let len_block = len_be (u64 (length aad * 8)) ++ len_be (u64 (length ct * 8)) in
    xor_bytes (ghash_update x h len_block) (encrypt_block aes j0)

-- The increment of the last four bytes of the counter: `n` bytes left, from byte `i` down.
unfoldable pub increment : ℕ → ℕ → Bytes → Bytes
increment zero i ctr = ctr
increment (suc n) i ctr =
    let b = u8 (get_or ctr i 0 + 1) in
    let rest = increment n (i - 1) (set ctr i b) in if b == 0 then rest else set ctr i b

-- The loop of `aes256_gcm_crypt`.
unfoldable pub crypt_loop : ℕ → List Bytes → Bytes → Bytes → Bytes
unfolding increment encrypt_block xor_bytes
crypt_loop zero aes ctr bytes = []
crypt_loop (suc fuel) aes ctr [] = []
crypt_loop (suc fuel) aes ctr (b ∷ bs) =
    let next = increment 4 15 ctr in
    let n = min (length (b ∷ bs)) 16 in
    xor_bytes (take n (b ∷ bs)) (encrypt_block aes next)
    ++ crypt_loop fuel aes next (drop n (b ∷ bs))

unfoldable pub aes256_gcm_crypt : List Bytes → Bytes → Bytes → Bytes
unfolding crypt_loop
aes256_gcm_crypt aes j0 bytes = crypt_loop (length bytes) aes j0 bytes

-- The first counter: the nonce of 12 bytes, and one.
unfoldable pub first_counter : Bytes → Bytes
first_counter nonce = set (memcpy_to (replicate 16 0) 0 nonce) 15 1

-- The ciphertext and the tag.
unfoldable pub aes256_gcm_encrypt : Bytes → Bytes → Bytes → Bytes → Bytes × Bytes
unfolding aes256 first_counter aes256_gcm_crypt gcm_compute_tag
aes256_gcm_encrypt key nonce aad plaintext =
    let aes = aes256 key in
    let j0 = first_counter nonce in
    let ciphertext = aes256_gcm_crypt aes j0 plaintext in
    (ciphertext, gcm_compute_tag aes j0 aad ciphertext)

-- The loop that compares the tags.
unfoldable pub tag_diff : ℕ → Bytes → Bytes → ℕ
tag_diff diff (e ∷ expect) (t ∷ tag) = tag_diff (bit_or diff (u8 (bit_xor e t))) expect tag
tag_diff diff _ _ = diff

unfoldable pub aes256_gcm_decrypt : Bytes → Bytes → Bytes → Bytes → Bytes → Option Bytes
unfolding aes256 first_counter aes256_gcm_crypt gcm_compute_tag tag_diff
aes256_gcm_decrypt key nonce aad ciphertext tag =
    let aes = aes256 key in
    let j0 = first_counter nonce in
    let expect = gcm_compute_tag aes j0 aad ciphertext in
    if tag_diff 0 expect tag == 0 then some (aes256_gcm_crypt aes j0 ciphertext) else none
