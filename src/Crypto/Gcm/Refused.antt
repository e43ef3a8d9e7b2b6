-- ===== src/Crypto/Gcm/Refused.antt =====
-- The tags that `aes256_gcm_decrypt` of tight/src/crypto.cpp refuses.
use damen.Common.{
  ℕ, zero, suc, ◌+◌, ◌<◌, min, ◌≡◌, ◌≢◌, refl, sym, ap, ap₂, ◌∙◌, arith, bit_and, bit_or, bit_xor,
  [], ◌∷◌, none, ◌==◌, length, take, drop, get_or, replicate, Bool-cases, inl, inr, length-set, ◌/◌,
  ◌-◌, ◌%◌, ◌*◌, ==_iff, ◌++◌,
}
use damen.Common.Bits.Words.{bit_or_parts}
use damen.Common.Bits.Xor.{bit_xor_assoc, bit_xor_self, bit_xor-zero, zero-bit_xor, bit_xor-lt}
use damen.Common.Bytes.{u8, u64, shr, AllBytes, memcpy_to}
use damen.Fec.Code.{Bytes}
use damen.Crypto.Sha256.{len_be}
use damen.Crypto.Aes.Block.{length-xor_bytes, AllBytes-xor_bytes, encrypt_block-IsBlock}
use damen.Crypto.Aes.{xor_bytes, aes256, encrypt_block}
use damen.Crypto.Gcm.{
  shift_bytes, shift_first, halve, ghash_mul_loop, ghash_mul, ghash_loop, ghash_update,
  gcm_compute_tag, first_counter, tag_diff, aes256_gcm_decrypt,
}

length-shift_bytes : (before : ℕ) (bs : Bytes) → length (shift_bytes before bs) ≡ length bs
unfolding shift_bytes
length-shift_bytes before [] = refl
length-shift_bytes before (b ∷ bs) = ap suc (length-shift_bytes b bs)

length-shift_first : (bs : Bytes) → length (shift_first bs) ≡ length bs
unfolding shift_first
length-shift_first [] = refl
length-shift_first (b ∷ bs) = ap suc (length-shift_bytes b bs)

length-halve : (v : Bytes) → length (halve v) ≡ length v
unfolding halve
length-halve v = elim (Bool-cases (bit_and (get_or v 15 0) 1 == 0)) [
  | inl even ↦ rw (even) (length-shift_first v)
  | inr odd ↦ rw (odd) (
      length-set (shift_first v) 0 (bit_xor (get_or (shift_first v) 0 0) 0xe1)
      ∙ length-shift_first v)
]

length-ghash_mul_loop :
    (n i : ℕ) (x z v : Bytes)
    → length z ≡ 16
    → length v ≡ 16
    → length (ghash_mul_loop n i x z v) ≡ 16
unfolding ghash_mul_loop
length-ghash_mul_loop zero i x z v hz hv = hz
length-ghash_mul_loop (suc n) i x z v hz hv =
    let more = length-halve v ∙ hv in
    elim (Bool-cases (bit_and (shr (get_or x (i / 8) 0) (7 - i % 8)) 1 == 0)) [
      | inl off ↦ rw (off) (length-ghash_mul_loop n (i + 1) x z (halve v) hz more)
      | inr on ↦ rw (on) (
          length-ghash_mul_loop n (i + 1) x (xor_bytes z v) (halve v)
            (omega (arith, length-xor_bytes z v)) more)
    ]

length-ghash_loop :
    (fuel : ℕ) (x h bytes : Bytes)
    → length x ≡ 16
    → length h ≡ 16
    → length (ghash_loop fuel x h bytes) ≡ 16
unfolding ghash_loop ghash_mul
length-ghash_loop zero x h bytes hx hh = hx
length-ghash_loop (suc fuel) x h [] hx hh = hx
length-ghash_loop (suc fuel) x h (b ∷ bs) hx hh =
    let n = min (length (b ∷ bs)) 16 in
    let block = memcpy_to (replicate 16 0) 0 (take n (b ∷ bs)) in
    length-ghash_loop fuel (ghash_mul (xor_bytes x block) h) h (drop n (b ∷ bs))
      (length-ghash_mul_loop 128 0 (xor_bytes x block) (replicate 16 0) h refl hh) hh

length-ghash_update :
    (x h bytes : Bytes) → length x ≡ 16 → length h ≡ 16 → length (ghash_update x h bytes) ≡ 16
unfolding ghash_update
length-ghash_update x h bytes hx hh = length-ghash_loop (length bytes) x h bytes hx hh

-- The two parts of the tag.
length-gcm_compute_tag :
    (key j0 aad ct : Bytes) → length (gcm_compute_tag (aes256 key) j0 aad ct) ≡ 16
unfolding gcm_compute_tag
length-gcm_compute_tag key j0 aad ct =
    let h = encrypt_block (aes256 key) (replicate 16 0) in
    let hh = (encrypt_block-IsBlock key (replicate 16 0)).0 in
    let x1 = ghash_update (replicate 16 0) h aad in
    let x2 = ghash_update x1 h ct in
    let lens = len_be (u64 (length aad * 8)) ++ len_be (u64 (length ct * 8)) in
    omega (
      arith,
      length-xor_bytes (ghash_update x2 h lens) (encrypt_block (aes256 key) j0),
      (encrypt_block-IsBlock key j0).0,
      length-ghash_update x2 h lens
          (length-ghash_update x1 h ct (length-ghash_update (replicate 16 0) h aad refl hh) hh) hh,
    )

AllBytes-gcm_compute_tag :
    (key j0 aad ct : Bytes) → AllBytes (gcm_compute_tag (aes256 key) j0 aad ct)
unfolding gcm_compute_tag
AllBytes-gcm_compute_tag key j0 aad ct = AllBytes-xor_bytes _ (encrypt_block (aes256 key) j0)

same_byte : (e t : ℕ) → e < 256 → t < 256 → u8 (bit_xor e t) ≡ 0 → e ≡ t
same_byte e t he ht h =
    sym (bit_xor-zero e)
    ∙ ap (bit_xor e) (sym (bit_xor_self t))
    ∙ sym (bit_xor_assoc e t t)
    ∙ ap (λ d. bit_xor d t) (omega (arith, h, bit_xor-lt 8 e t he ht))
    ∙ zero-bit_xor t

tag_diff-zero :
    (diff : ℕ) (expect tag : Bytes)
    → length expect ≡ length tag
    → AllBytes expect
    → AllBytes tag
    → tag_diff diff expect tag ≡ 0
    → (diff ≡ 0) × (expect ≡ tag)
unfolding tag_diff
tag_diff-zero diff [] [] l p q h = (h, refl)
tag_diff-zero diff [] (t ∷ tag) l p q h = absurd (omega arith)
tag_diff-zero diff (e ∷ expect) [] l p q h = absurd (omega arith)
tag_diff-zero diff (e ∷ expect) (t ∷ tag) l p q h =
    let rest = tag_diff-zero (bit_or diff (u8 (bit_xor e t))) expect tag (omega arith) p.1 q.1 h in
    let parts = bit_or_parts diff (u8 (bit_xor e t)) rest.0 in
    (parts.0, ap₂ ◌∷◌ (same_byte e t p.0 q.0 parts.1) rest.1)

-- Every tag of 16 bytes but the one that is computed from the key, the nonce, the associated bytes
-- and the ciphertext is refused.
pub aes256_gcm_decrypt-refused :
    (key nonce aad ct tag : Bytes)
    → length tag ≡ 16
    → AllBytes tag
    → tag ≢ gcm_compute_tag (aes256 key) (first_counter nonce) aad ct
    → aes256_gcm_decrypt key nonce aad ct tag ≡ none
unfolding aes256_gcm_decrypt
aes256_gcm_decrypt-refused key nonce aad ct tag l a other =
    let j0 = first_counter nonce in
    let expect = gcm_compute_tag (aes256 key) j0 aad ct in
    elim (Bool-cases (tag_diff 0 expect tag == 0)) [
      | inl same ↦ absurd (
          other (
            sym
              (tag_diff-zero 0 expect tag (length-gcm_compute_tag key j0 aad ct ∙ sym l)
                (AllBytes-gcm_compute_tag key j0 aad ct) a
                ((==_iff (tag_diff 0 expect tag) 0).0 same)).1))
      | inr differs ↦ rw (differs) refl
    ]
