-- ===== src/Crypto/Gcm/RoundTrip.antt =====
-- Decryption after encryption by tight/src/crypto.cpp, and tags that are refused.
use damen.Common.{
  ℕ, zero, suc, ◌≤◌, ◌<◌, min, ◌≡◌, refl, sym, ap, ap₂, subst, ◌∙◌, arith, bit_or, bit_xor, List,
  [], ◌∷◌, ◌++◌, none, some, ◌==◌, if◌then◌else◌, length, take, drop, rejoined, length-append,
  length-take, length-drop, take-append, drop-append,
}
use damen.Common.Bits.Xor.{bit_xor_assoc, bit_xor_self, bit_xor-zero, bit_xor-lt}
use damen.Common.Bytes.{u8, AllBytes, AllBytes-split}
use damen.Fec.Code.{Bytes}
use damen.Crypto.Aes.Block.{length-xor_bytes, encrypt_block-IsBlock}
use damen.Crypto.Aes.{xor_bytes, aes256, encrypt_block}
use damen.Crypto.Gcm.{
  gcm_compute_tag, increment, crypt_loop, aes256_gcm_crypt, first_counter, aes256_gcm_encrypt,
  tag_diff, aes256_gcm_decrypt,
}

xor_byte_twice : (x y : ℕ) → x < 256 → y < 256 → u8 (bit_xor (u8 (bit_xor x y)) y) ≡ x
xor_byte_twice x y h k = omega (
  arith,
  bit_xor-lt 8 x y h k,
  ap (λ t. bit_xor t y) (small (bit_xor x y) (bit_xor-lt 8 x y h k)),
  bit_xor_assoc x y y,
  ap (bit_xor x) (bit_xor_self y),
  bit_xor-zero x,
)
  where
    small : (n : ℕ) → n < 256 → u8 n ≡ n
    small n h = omega arith

xor_bytes_twice :
    (xs ys : Bytes)
    → length xs ≤ length ys
    → AllBytes xs
    → AllBytes ys
    → xor_bytes (xor_bytes xs ys) ys ≡ xs
unfolding xor_bytes
xor_bytes_twice [] ys h p q = refl
xor_bytes_twice (x ∷ xs) [] h p q = absurd (omega arith)
xor_bytes_twice (x ∷ xs) (y ∷ ys) h p q =
    ap₂ ◌∷◌ (xor_byte_twice x y p.0 q.0) (xor_bytes_twice xs ys (omega arith) p.1 q.1)

crypt_round :
    (fuel : ℕ) (aes : List Bytes) (ctr bytes : Bytes)
    → 0 < length bytes
    → crypt_loop (suc fuel) aes ctr bytes
      ≡ xor_bytes (take (min (length bytes) 16) bytes) (encrypt_block aes (increment 4 15 ctr))
        ++ crypt_loop fuel aes (increment 4 15 ctr) (drop (min (length bytes) 16) bytes)
unfolding crypt_loop
crypt_round fuel aes ctr [] h = absurd (omega arith)
crypt_round fuel aes ctr (b ∷ bs) h = refl

module _ (key : Bytes) where
  -- The part that one round takes.
  length-part :
      (ctr bytes : Bytes)
      → length (xor_bytes (take (min (length bytes) 16) bytes) (encrypt_block (aes256 key) ctr))
        ≡ min (length bytes) 16
  length-part ctr bytes = omega (
    arith,
    length-xor_bytes (take (min (length bytes) 16) bytes) (encrypt_block (aes256 key) ctr),
    length-take (min (length bytes) 16) bytes,
    (encrypt_block-IsBlock key ctr).0,
  )

  length-crypt_loop :
      (fuel : ℕ) (ctr bytes : Bytes)
      → length bytes ≤ fuel
      → length (crypt_loop fuel (aes256 key) ctr bytes) ≡ length bytes
  unfolding crypt_loop
  length-crypt_loop zero ctr [] h = refl
  length-crypt_loop zero ctr (b ∷ bs) h = absurd (omega arith)
  length-crypt_loop (suc fuel) ctr [] h = refl
  length-crypt_loop (suc fuel) ctr (b ∷ bs) h =
      let next = increment 4 15 ctr in
      let n = min (length (b ∷ bs)) 16 in
      let part = xor_bytes (take n (b ∷ bs)) (encrypt_block (aes256 key) next) in
      let short = length-drop n (b ∷ bs) in
      omega (
        arith,
        length-append part (crypt_loop fuel (aes256 key) next (drop n (b ∷ bs))),
        length-part next (b ∷ bs),
        short,
        length-crypt_loop fuel next (drop n (b ∷ bs)) (omega (arith, short)),
      )

  crypt_loop_twice :
      (fuel : ℕ) (ctr bytes : Bytes)
      → length bytes ≤ fuel
      → AllBytes bytes
      → crypt_loop fuel (aes256 key) ctr (crypt_loop fuel (aes256 key) ctr bytes) ≡ bytes
  unfolding crypt_loop
  crypt_loop_twice zero ctr [] h a = refl
  crypt_loop_twice zero ctr (b ∷ bs) h a = absurd (omega arith)
  crypt_loop_twice (suc fuel) ctr [] h a = refl
  crypt_loop_twice (suc fuel) ctr (b ∷ bs) h a =
      let next = increment 4 15 ctr in
      let n = min (length (b ∷ bs)) 16 in
      let ks = encrypt_block (aes256 key) next in
      let part = xor_bytes (take n (b ∷ bs)) ks in
      let rest = crypt_loop fuel (aes256 key) next (drop n (b ∷ bs)) in
      let short = length-drop n (b ∷ bs) in
      let size = length-part next (b ∷ bs) in
      let all = length-crypt_loop (suc fuel) ctr (b ∷ bs) h in
      let halves =
        AllBytes-split (take n (b ∷ bs)) (drop n (b ∷ bs))
          (subst AllBytes (sym (rejoined n (b ∷ bs))) a) in
      let block = encrypt_block-IsBlock key next in
      let same : min (length (part ++ rest)) 16 ≡ length part = omega (arith, all, size) in
      crypt_round fuel (aes256 key) ctr (part ++ rest) (omega (arith, all))
      ∙ ap
          (λ k.
            xor_bytes (take k (part ++ rest)) ks
            ++ crypt_loop fuel (aes256 key) next (drop k (part ++ rest)))
          same
      ∙ ap₂ (λ s t. xor_bytes s ks ++ crypt_loop fuel (aes256 key) next t) (take-append part rest)
          (drop-append part rest)
      ∙ ap₂ ◌++◌
          (xor_bytes_twice (take n (b ∷ bs)) ks (omega (arith, length-take n (b ∷ bs), block.0))
            halves.0 block.1)
          (crypt_loop_twice fuel next (drop n (b ∷ bs)) (omega (arith, short)) halves.1)
      ∙ rejoined n (b ∷ bs)

  crypt_twice :
      (j0 bytes : Bytes)
      → AllBytes bytes
      → aes256_gcm_crypt (aes256 key) j0 (aes256_gcm_crypt (aes256 key) j0 bytes) ≡ bytes
  unfolding aes256_gcm_crypt
  crypt_twice j0 bytes a =
      ap (λ k. crypt_loop k (aes256 key) j0 (crypt_loop (length bytes) (aes256 key) j0 bytes))
        (length-crypt_loop (length bytes) j0 bytes (omega arith))
      ∙ crypt_loop_twice (length bytes) j0 bytes (omega arith) a

tag_diff-same : (tag : Bytes) → tag_diff 0 tag tag ≡ 0
unfolding tag_diff
tag_diff-same [] = refl
tag_diff-same (t ∷ tag) = ap (λ d. tag_diff d tag tag) (none_differ t) ∙ tag_diff-same tag
  where
    none_differ : (t : ℕ) → bit_or 0 (u8 (bit_xor t t)) ≡ 0
    none_differ t = ap (λ d. bit_or 0 (u8 d)) (bit_xor_self t)

-- What is encrypted, for any key, nonce and associated bytes, decrypts to the plaintext.
pub aes256_gcm_decrypt-encrypt :
    (key nonce aad plaintext : Bytes)
    → AllBytes plaintext
    → aes256_gcm_decrypt key nonce aad
        (aes256_gcm_encrypt key nonce aad plaintext).0
        (aes256_gcm_encrypt key nonce aad plaintext).1
      ≡ some plaintext
unfolding aes256_gcm_decrypt aes256_gcm_encrypt
aes256_gcm_decrypt-encrypt key nonce aad plaintext a =
    let ct = aes256_gcm_crypt (aes256 key) (first_counter nonce) plaintext in
    let tag = gcm_compute_tag (aes256 key) (first_counter nonce) aad ct in
    ap (λ d. if d == 0 then some (aes256_gcm_crypt (aes256 key) (first_counter nonce) ct) else none)
      (tag_diff-same tag)
    ∙ ap some (crypt_twice key (first_counter nonce) plaintext a)
