-- ===== src/Crypto/Tests.antt =====
-- Published test vectors for the primitives of tight/src/crypto.cpp, and their properties at concrete
-- inputs.
use damen.Common.{
  ℕ, zero, suc, ◌+◌, ◌-◌, ◌*◌, ◌%◌, ◌^◌, ◌≡◌, ◌≢◌, refl, ap, arith, [], ◌∷◌, ◌++◌, some, none, true,
  ◌==◌, if◌then◌else◌, length, get_or, replicate,
}
use damen.Common.Bytes.{u32, be32, AllBytes}
use damen.Fec.Code.{Bytes}
use damen.Crypto.Sha256.{new_ctx, update, pad_zeros, sha256}
use damen.Crypto.Sha256.Holds.{Holds, new_ctx-Holds, update-Holds}
use damen.Crypto.Sha256.Digest.{digest, sha256-digest, pad_zeros-ends}
use damen.Crypto.Hmac.{hmac, hkdf_sha256, hkdf_sha256-hmac}
use damen.Crypto.Aes.{aes_mul, aes_inv, aes256, encrypt_block}
use damen.Crypto.Aes.Inverse.{aes_mul-aes_inv}
use damen.Crypto.Gcm.{
  gcm_compute_tag, increment, first_counter, aes256_gcm_encrypt, aes256_gcm_decrypt,
}
use damen.Crypto.Gcm.RoundTrip.{aes256_gcm_decrypt-encrypt}
use damen.Crypto.Gcm.Refused.{aes256_gcm_decrypt-refused}
use damen.Crypto.Gcm.Counter.{increment-be32}
use damen.Crypto.X25519.{x25519}
use damen.Crypto.X25519.Field.{Fe, fe_mul, fe_inv, fe_cswap}
use damen.Crypto.X25519.Encoding.{fe_frombytes}
use damen.Crypto.X25519.Carries.{value, prime, Below, Reduced}
use damen.Crypto.X25519.Product.{fe_mul-value}
use damen.Crypto.X25519.Sums.{fe_cswap_lem}
use damen.Crypto.X25519.Power.{power, fe_inv-power}

-- "abc".
abbrev abc : Bytes
abc = 0x61 ∷ 0x62 ∷ 0x63 ∷ []

abbrev sevens : Bytes
sevens = replicate 64 7

sha256-abc : sha256 sevens abc ≡ (
    0xba ∷ 0x78 ∷ 0x16 ∷ 0xbf ∷ 0x8f ∷ 0x01 ∷ 0xcf ∷ 0xea ∷ 0x41 ∷ 0x41 ∷ 0x40 ∷ 0xde ∷ 0x5d ∷ 0xae
    ∷ 0x22 ∷ 0x23 ∷ 0xb0 ∷ 0x03 ∷ 0x61 ∷ 0xa3 ∷ 0x96 ∷ 0x17 ∷ 0x7a ∷ 0x9c ∷ 0xb4 ∷ 0x10 ∷ 0xff
    ∷ 0x61 ∷ 0xf2 ∷ 0x00 ∷ 0x15 ∷ 0xad ∷ [])
unfolding sha256
sha256-abc = refl

sha256-digest_example : sha256 sevens abc ≡ digest abc
sha256-digest_example = sha256-digest sevens abc refl

abc_held : Holds (update (new_ctx sevens) abc) ([] ++ abc)
abc_held = update-Holds (new_ctx sevens) [] abc (new_ctx-Holds sevens refl)

pad_zeros-ends_example :
    ((pad_zeros 64 (update (new_ctx sevens) abc)).buf_len ≡ 56)
    × Holds
        (pad_zeros 64 (update (new_ctx sevens) abc))
        (([] ++ abc) ++ replicate ((120 - length ([] ++ abc) % 64) % 64) 0)
pad_zeros-ends_example =
    pad_zeros-ends 64 (update (new_ctx sevens) abc) ([] ++ abc) (omega arith) abc_held

hkdf_sha256-hmac_example :
    hkdf_sha256 (λ n. sevens) abc [] abc
    ≡ hmac (hmac (if length {A = ℕ} [] == 0 then replicate 32 0 else []) abc) (abc ++ (1 ∷ []))
hkdf_sha256-hmac_example = hkdf_sha256-hmac (λ n. sevens) abc [] abc (λ n. refl)

-- FIPS 197, C.3.
abbrev counting : ℕ → ℕ → Bytes
counting zero i = []
counting (suc n) i = i ∷ counting n (i + 1)

encrypt_block-counting :
    encrypt_block (aes256 (counting 32 0)) (
      0 ∷ 0x11 ∷ 0x22 ∷ 0x33 ∷ 0x44 ∷ 0x55 ∷ 0x66 ∷ 0x77 ∷ 0x88 ∷ 0x99 ∷ 0xaa ∷ 0xbb ∷ 0xcc ∷ 0xdd
      ∷ 0xee ∷ 0xff ∷ [])
    ≡ (0x8e ∷ 0xa2 ∷ 0xb7 ∷ 0xca ∷ 0x51 ∷ 0x67 ∷ 0x45 ∷ 0xbf ∷ 0xea ∷ 0xfc ∷ 0x49 ∷ 0x90 ∷ 0x4b
        ∷ 0x49 ∷ 0x60 ∷ 0x89 ∷ [])
unfolding encrypt_block aes256
encrypt_block-counting = refl

aes_mul-aes_inv_example : aes_mul 0x53 (aes_inv 0x53) ≡ 1
aes_mul-aes_inv_example = aes_mul-aes_inv 0x53 (omega arith) (omega arith)

-- Test case 14 of the submission of GCM.
encrypt_zeros : aes256_gcm_encrypt (replicate 32 0) (replicate 12 0) [] (replicate 16 0) ≡ (
  (0xce ∷ 0xa7 ∷ 0x40 ∷ 0x3d ∷ 0x4d ∷ 0x60 ∷ 0x6b ∷ 0x6e ∷ 0x07 ∷ 0x4e ∷ 0xc5 ∷ 0xd3 ∷ 0xba ∷ 0xf3
      ∷ 0x9d ∷ 0x18 ∷ []),
  (0xd0 ∷ 0xd1 ∷ 0xc8 ∷ 0xa7 ∷ 0x99 ∷ 0x99 ∷ 0x6b ∷ 0xf0 ∷ 0x26 ∷ 0x5b ∷ 0x98 ∷ 0xb5 ∷ 0xd4 ∷ 0x8a
      ∷ 0xb9 ∷ 0x19 ∷ []),
)
unfolding aes256_gcm_encrypt
encrypt_zeros = refl

aes256_gcm_decrypt-encrypt_example :
    aes256_gcm_decrypt
      (counting 32 0)
      (counting 12 0)
      abc
      (aes256_gcm_encrypt (counting 32 0) (counting 12 0) abc abc).0
      (aes256_gcm_encrypt (counting 32 0) (counting 12 0) abc abc).1
    ≡ some abc
aes256_gcm_decrypt-encrypt_example =
    aes256_gcm_decrypt-encrypt (counting 32 0) (counting 12 0) abc abc
      (omega arith, (omega arith, (omega arith, tt)))

first_byte :
    get_or (gcm_compute_tag (aes256 (replicate 32 0)) (first_counter (replicate 12 0)) [] []) 0 0
    ≡ 0x53
unfolding gcm_compute_tag aes256 first_counter
first_byte = refl

other_tag :
    counting 16 0 ≢ gcm_compute_tag (aes256 (replicate 32 0)) (first_counter (replicate 12 0)) [] []
other_tag e = absurd (omega (arith, ap (λ t. get_or t 0 0) e, first_byte))

aes256_gcm_decrypt-refused_example :
    aes256_gcm_decrypt (replicate 32 0) (replicate 12 0) [] [] (counting 16 0) ≡ none
aes256_gcm_decrypt-refused_example =
    aes256_gcm_decrypt-refused (replicate 32 0) (replicate 12 0) [] [] (counting 16 0) refl bytes
      other_tag
  where
    bytes : AllBytes (counting 16 0)
    bytes = (
      omega arith,
      (
        omega arith,
        (
          omega arith,
          (
            omega arith,
            (
              omega arith,
              (
                omega arith,
                (
                  omega arith,
                  (
                    omega arith,
                    (
                      omega arith,
                      (
                        omega arith,
                        (
                          omega arith,
                          (
                            omega arith,
                            (omega arith, (omega arith, (omega arith, (omega arith, tt)))),
                          ),
                        ),
                      ),
                    ),
                  ),
                ),
              ),
            ),
          ),
        ),
      ),
    )

increment-be32_example :
    increment 4 15 (counting 12 0 ++ be32 0xffff) ≡ counting 12 0 ++ be32 (u32 (0xffff + 1))
increment-be32_example = increment-be32 (counting 12 0) 0xffff refl (omega arith)

-- RFC 7748, 5.2.
x25519_vector :
    x25519
      (0xa5 ∷ 0x46 ∷ 0xe3 ∷ 0x6b ∷ 0xf0 ∷ 0x52 ∷ 0x7c ∷ 0x9d ∷ 0x3b ∷ 0x16 ∷ 0x15 ∷ 0x4b ∷ 0x82
        ∷ 0x46 ∷ 0x5e ∷ 0xdd ∷ 0x62 ∷ 0x14 ∷ 0x4c ∷ 0x0a ∷ 0xc1 ∷ 0xfc ∷ 0x5a ∷ 0x18 ∷ 0x50 ∷ 0x6a
        ∷ 0x22 ∷ 0x44 ∷ 0xba ∷ 0x44 ∷ 0x9a ∷ 0xc4 ∷ [])
      (0xe6 ∷ 0xdb ∷ 0x68 ∷ 0x67 ∷ 0x58 ∷ 0x30 ∷ 0x30 ∷ 0xdb ∷ 0x35 ∷ 0x94 ∷ 0xc1 ∷ 0xa4 ∷ 0x24
        ∷ 0xb1 ∷ 0x5f ∷ 0x7c ∷ 0x72 ∷ 0x66 ∷ 0x24 ∷ 0xec ∷ 0x26 ∷ 0xb3 ∷ 0x35 ∷ 0x3b ∷ 0x10 ∷ 0xa9
        ∷ 0x03 ∷ 0xa6 ∷ 0xd0 ∷ 0xab ∷ 0x1c ∷ 0x4c ∷ [])
    ≡ (
      (0xc3 ∷ 0xda ∷ 0x55 ∷ 0x37 ∷ 0x9d ∷ 0xe9 ∷ 0xc6 ∷ 0x90 ∷ 0x8e ∷ 0x94 ∷ 0xea ∷ 0x4d ∷ 0xf2
          ∷ 0x8d ∷ 0x08 ∷ 0x4f ∷ 0x32 ∷ 0xec ∷ 0xcf ∷ 0x03 ∷ 0x49 ∷ 0x1c ∷ 0x71 ∷ 0xf7 ∷ 0x54 ∷ 0xb4
          ∷ 0x07 ∷ 0x55 ∷ 0x77 ∷ 0xa2 ∷ 0x85 ∷ 0x52 ∷ []),
      true,
    )
unfolding x25519
x25519_vector = refl

abbrev high_limbs : Fe
high_limbs = record {
  l0 = 2 ^ 53 - 1;
  l1 = 2 ^ 53 - 1;
  l2 = 2 ^ 53 - 1;
  l3 = 2 ^ 53 - 1;
  l4 = 2 ^ 53 - 1;
}

high_limbs_bound : Below (2 ^ 53) high_limbs
high_limbs_bound = (omega arith, omega arith, omega arith, omega arith, omega arith)

fe_mul-value_example :
    Reduced (fe_mul high_limbs high_limbs)
    × (value (fe_mul high_limbs high_limbs) % prime ≡ value high_limbs * value high_limbs % prime)
fe_mul-value_example = fe_mul-value high_limbs high_limbs high_limbs_bound high_limbs_bound

abbrev nine : Fe
nine = record { l0 = 9; l1 = 0; l2 = 0; l3 = 0; l4 = 0 }

fe_cswap_example :
    (fe_cswap nine high_limbs 0 ≡ (nine, high_limbs))
    × (fe_cswap nine high_limbs 1 ≡ (high_limbs, nine))
fe_cswap_example =
    fe_cswap_lem nine high_limbs (omega arith, omega arith, omega arith, omega arith, omega arith)
      (omega arith, omega arith, omega arith, omega arith, omega arith)

fe_inv-power_example :
    Below (2 ^ 53) (fe_inv nine)
    × (value (fe_inv nine) % prime ≡ power (value nine) (prime - 2) % prime)
fe_inv-power_example =
    fe_inv-power nine (omega arith, omega arith, omega arith, omega arith, omega arith)

abbrev some_point : Fe
some_point = fe_frombytes (counting 32 1)
