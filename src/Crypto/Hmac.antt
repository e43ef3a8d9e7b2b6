-- ===== src/Crypto/Hmac.antt =====
-- The keyed hash and the key derivation of tight/src/crypto.cpp: `hmac_sha256` and `hkdf_sha256`. The
-- contents of the block buffers that the contexts begin with are numbered in the order in which the
-- contexts are made.
use damen.Common.{
  ℕ, ◌+◌, ◌≡◌, sym, ap, ◌∙◌, arith, bit_xor, [], ◌∷◌, ◌++◌, map, ltb, ◌==◌, if◌then◌else◌, length,
  replicate, length-append,
}
use damen.Common.Bytes.{u8, u64, memcpy_to}
use damen.Fec.Code.{Bytes}
use damen.Crypto.Sha256.{new_ctx, update, finish, sha256}
use damen.Crypto.Sha256.Holds.{new_ctx-Holds, update-Holds, update-total_len}
use damen.Crypto.Sha256.Digest.{digest, finish-digest, sha256-digest}

abbrev pub Uninit : Type 0
Uninit = ℕ → Bytes

-- The key, cut or hashed to a block.
unfoldable pub key_block : Uninit → Bytes → Bytes
key_block uninit key =
    memcpy_to (replicate 64 0) 0 (if ltb 64 (length key) then sha256 (uninit 0) key else key)

unfoldable pub xor_pad : ℕ → Bytes → Bytes
xor_pad pad k0 = map (λ b. u8 (bit_xor b pad)) k0

unfoldable pub hmac_sha256 : Uninit → Bytes → Bytes → Bytes
unfolding key_block xor_pad
hmac_sha256 uninit key msg =
    let k0 = key_block uninit key in
    let inner_out = finish (update (update (new_ctx (uninit 1)) (xor_pad 0x36 k0)) msg) in
    finish (update (update (new_ctx (uninit 2)) (xor_pad 0x5c k0)) inner_out)

-- A missing salt is an empty one.
unfoldable pub hkdf_sha256 : Uninit → Bytes → Bytes → Bytes → Bytes
unfolding hmac_sha256
hkdf_sha256 uninit ikm salt info =
    let real_salt = if length salt == 0 then replicate 32 0 else salt in
    let prk = hmac_sha256 uninit real_salt ikm in
    hmac_sha256 (λ n. uninit (n + 3)) prk (info ++ (1 ∷ []))

-- The keyed hash and the key derivation by their definitions.
unfoldable pub hmac : Bytes → Bytes → Bytes
hmac key msg =
    let k0 = memcpy_to (replicate 64 0) 0 (if ltb 64 (length key) then digest key else key) in
    digest (xor_pad 0x5c k0 ++ digest (xor_pad 0x36 k0 ++ msg))

abbrev pub AllBlocks : Uninit → Type 0
AllBlocks uninit = (n : ℕ) → length (uninit n) ≡ 64

-- Two parts hashed one after the other.
finish-two :
    (uninit one two : Bytes)
    → length uninit ≡ 64
    → finish (update (update (new_ctx uninit) one) two) ≡ digest (one ++ two)
finish-two uninit one two e =
    finish-digest (update (update (new_ctx uninit) one) two) (one ++ two)
      (update-Holds (update (new_ctx uninit) one) one two
        (update-Holds (new_ctx uninit) [] one (new_ctx-Holds uninit e)))
      (update-total_len (update (new_ctx uninit) one) two
        ∙ ap (λ n. u64 (n + length two)) (update-total_len (new_ctx uninit) one)
        ∙ wrapped (length one) (length two)
        ∙ ap u64 (sym (length-append one two)))
  where
    wrapped : (m n : ℕ) → u64 (u64 (0 + m) + n) ≡ u64 (m + n)
    wrapped m n = omega arith

-- For every key, long ones included, and every message, `hmac_sha256` is the keyed hash of its
-- definition, whatever the three block buffers contain at first.
pub hmac_sha256-hmac :
    (uninit : Uninit) (key msg : Bytes)
    → AllBlocks uninit
    → hmac_sha256 uninit key msg ≡ hmac key msg
unfolding hmac_sha256 hmac key_block
hmac_sha256-hmac uninit key msg e =
    ap (λ t. finish (update (update (new_ctx (uninit 2)) (xor_pad 0x5c (key_block uninit key))) t))
      (finish-two (uninit 1) (xor_pad 0x36 (key_block uninit key)) msg (e 1))
    ∙ finish-two (uninit 2) (xor_pad 0x5c (key_block uninit key))
        (digest (xor_pad 0x36 (key_block uninit key) ++ msg)) (e 2)
    ∙ ap
        (λ t.
          (let k0 = memcpy_to (replicate 64 0) 0 (if ltb 64 (length key) then t else key) in
            digest (xor_pad 0x5c k0 ++ digest (xor_pad 0x36 k0 ++ msg))))
        (sha256-digest (uninit 0) key (e 0))

-- The key that is derived is the keyed hash of the information and a one, under the keyed hash of
-- the secret under the salt; an empty salt counts as 32 zeros.
pub hkdf_sha256-hmac :
    (uninit : Uninit) (ikm salt info : Bytes)
    → AllBlocks uninit
    → hkdf_sha256 uninit ikm salt info
      ≡ hmac (hmac (if length salt == 0 then replicate 32 0 else salt) ikm) (info ++ (1 ∷ []))
unfolding hkdf_sha256
hkdf_sha256-hmac uninit ikm salt info e =
    hmac_sha256-hmac (λ n. uninit (n + 3))
      (hmac_sha256 uninit (if length salt == 0 then replicate 32 0 else salt) ikm)
      (info ++ (1 ∷ [])) (λ n. e (n + 3))
    ∙ ap (λ t. hmac t (info ++ (1 ∷ [])))
        (hmac_sha256-hmac uninit (if length salt == 0 then replicate 32 0 else salt) ikm e)
