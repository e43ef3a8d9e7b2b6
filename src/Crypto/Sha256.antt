-- ===== src/Crypto/Sha256.antt =====
-- The hash of tight/src/crypto.cpp: `Sha256Ctx` and `sha256`. The block buffer is not initialised by
-- the constructor: its first contents are an argument.
pub mod Holds
pub mod Digest
use damen.Common.{
  ℕ, zero, suc, ◌+◌, ◌-◌, ◌*◌, min, bit_and, bit_or, bit_xor, List, [], ◌∷◌, ◌++◌, ◌==◌, length,
  take, drop, get_or, if◌then◌else◌,
}
use damen.Common.Bytes.{u32, u64, shr, shl, memcpy_to}
use damen.Fec.Code.{Bytes}

abbrev pub sha256_k : List ℕ
sha256_k =
    0x428a2f98 ∷ 0x71374491 ∷ 0xb5c0fbcf ∷ 0xe9b5dba5 ∷ 0x3956c25b ∷ 0x59f111f1 ∷ 0x923f82a4
    ∷ 0xab1c5ed5 ∷ 0xd807aa98 ∷ 0x12835b01 ∷ 0x243185be ∷ 0x550c7dc3 ∷ 0x72be5d74 ∷ 0x80deb1fe
    ∷ 0x9bdc06a7 ∷ 0xc19bf174 ∷ 0xe49b69c1 ∷ 0xefbe4786 ∷ 0x0fc19dc6 ∷ 0x240ca1cc ∷ 0x2de92c6f
    ∷ 0x4a7484aa ∷ 0x5cb0a9dc ∷ 0x76f988da ∷ 0x983e5152 ∷ 0xa831c66d ∷ 0xb00327c8 ∷ 0xbf597fc7
    ∷ 0xc6e00bf3 ∷ 0xd5a79147 ∷ 0x06ca6351 ∷ 0x14292967 ∷ 0x27b70a85 ∷ 0x2e1b2138 ∷ 0x4d2c6dfc
    ∷ 0x53380d13 ∷ 0x650a7354 ∷ 0x766a0abb ∷ 0x81c2c92e ∷ 0x92722c85 ∷ 0xa2bfe8a1 ∷ 0xa81a664b
    ∷ 0xc24b8b70 ∷ 0xc76c51a3 ∷ 0xd192e819 ∷ 0xd6990624 ∷ 0xf40e3585 ∷ 0x106aa070 ∷ 0x19a4c116
    ∷ 0x1e376c08 ∷ 0x2748774c ∷ 0x34b0bcb5 ∷ 0x391c0cb3 ∷ 0x4ed8aa4a ∷ 0x5b9cca4f ∷ 0x682e6ff3
    ∷ 0x748f82ee ∷ 0x78a5636f ∷ 0x84c87814 ∷ 0x8cc70208 ∷ 0x90befffa ∷ 0xa4506ceb ∷ 0xbef9a3f7
    ∷ 0xc67178f2 ∷ []

unfoldable pub rotr32 : ℕ → ℕ → ℕ
rotr32 x n = bit_or (shr x n) (u32 (shl x (32 - n)))

-- The eight words of the state, and of the work on a block.
pub record Words : Type 0 where
  pub a : ℕ
  pub b : ℕ
  pub c : ℕ
  pub d : ℕ
  pub e : ℕ
  pub f : ℕ
  pub g : ℕ
  pub hh : ℕ

pub record Sha256Ctx : Type 0 where
  pub h : Words
  pub buf : Bytes
  pub buf_len : ℕ
  pub total_len : ℕ

abbrev pub initial_h : Words
initial_h = record {
  a = 0x6a09e667;
  b = 0xbb67ae85;
  c = 0x3c6ef372;
  d = 0xa54ff53a;
  e = 0x510e527f;
  f = 0x9b05688c;
  g = 0x1f83d9ab;
  hh = 0x5be0cd19;
}

abbrev pub new_ctx : Bytes → Sha256Ctx
new_ctx uninit = record { h = initial_h; buf = uninit; buf_len = 0; total_len = 0 }

-- The first loop of `compress`, over `n` words from byte `i` on.
unfoldable pub load_words : ℕ → Bytes → ℕ → List ℕ
load_words zero block i = []
load_words (suc n) block i =
    bit_or
      (bit_or (bit_or (u32 (shl (get_or block i 0) 24)) (u32 (shl (get_or block (i + 1) 0) 16)))
        (u32 (shl (get_or block (i + 2) 0) 8)))
      (get_or block (i + 3) 0)
    ∷ load_words n block (i + 4)

-- One word of the schedule, from the words before it.
unfoldable pub next_word : List ℕ → ℕ → ℕ
unfolding rotr32
next_word w i =
    let w15 = get_or w (i - 15) 0 in
    let w2 = get_or w (i - 2) 0 in
    let s0 = bit_xor (bit_xor (rotr32 w15 7) (rotr32 w15 18)) (shr w15 3) in
    let s1 = bit_xor (bit_xor (rotr32 w2 17) (rotr32 w2 19)) (shr w2 10) in
    u32 (get_or w (i - 16) 0 + s0 + get_or w (i - 7) 0 + s1)

-- The second loop of `compress`: `n` words from word `i` on.
unfoldable pub extend_words : ℕ → ℕ → List ℕ → List ℕ
unfolding next_word
extend_words zero i w = w
extend_words (suc n) i w = extend_words n (i + 1) (w ++ (next_word w i ∷ []))

unfoldable pub sha256_round : ℕ → ℕ → Words → Words
unfolding rotr32
sha256_round ki wi s =
    let s1 = bit_xor (bit_xor (rotr32 s.e 6) (rotr32 s.e 11)) (rotr32 s.e 25) in
    let ch = bit_xor (bit_and s.e s.f) (bit_and (0xffffffff - s.e) s.g) in
    let t1 = u32 (s.hh + s1 + ch + ki + wi) in
    let s0 = bit_xor (bit_xor (rotr32 s.a 2) (rotr32 s.a 13)) (rotr32 s.a 22) in
    let maj = bit_xor (bit_xor (bit_and s.a s.b) (bit_and s.a s.c)) (bit_and s.b s.c) in
    let t2 = u32 (s0 + maj) in
    record {
      a = u32 (t1 + t2);
      b = s.a;
      c = s.b;
      d = s.c;
      e = u32 (s.d + t1);
      f = s.e;
      g = s.f;
      hh = s.g;
    }

-- The third loop of `compress`, over the constants and the words.
unfoldable pub sha256_rounds : List ℕ → List ℕ → Words → Words
unfolding sha256_round
sha256_rounds (ki ∷ ks) (wi ∷ ws) s = sha256_rounds ks ws (sha256_round ki wi s)
sha256_rounds _ _ s = s

unfoldable pub add_words : Words → Words → Words
add_words s t = record {
  a = u32 (s.a + t.a);
  b = u32 (s.b + t.b);
  c = u32 (s.c + t.c);
  d = u32 (s.d + t.d);
  e = u32 (s.e + t.e);
  f = u32 (s.f + t.f);
  g = u32 (s.g + t.g);
  hh = u32 (s.hh + t.hh);
}

unfoldable pub compress : Words → Bytes → Words
unfolding load_words extend_words sha256_rounds add_words
compress s block =
    add_words s (sha256_rounds sha256_k (extend_words 48 16 (load_words 16 block 0)) s)

-- The end of the loop's body in `update`.
unfoldable pub compress_full : Sha256Ctx → Sha256Ctx
unfolding compress
compress_full ctx =
    if ctx.buf_len == 64 then record ctx { h = compress ctx.h ctx.buf; buf_len = 0 } else ctx

-- The loop of `update`, which takes at least one byte each time round.
unfoldable pub update_loop : ℕ → Sha256Ctx → Bytes → Sha256Ctx
unfolding compress_full
update_loop zero ctx bytes = ctx
update_loop (suc fuel) ctx [] = ctx
update_loop (suc fuel) ctx (b ∷ bs) =
    let n = min (64 - ctx.buf_len) (length (b ∷ bs)) in
    update_loop fuel
      (compress_full (record ctx {
        buf = memcpy_to ctx.buf ctx.buf_len (take n (b ∷ bs));
        buf_len = ctx.buf_len + n;
      }))
      (drop n (b ∷ bs))

unfoldable pub update : Sha256Ctx → Bytes → Sha256Ctx
unfolding update_loop
update ctx bytes =
    update_loop (length bytes) (record ctx { total_len = u64 (ctx.total_len + length bytes) }) bytes

-- The loop of `finish` that pads with zeros.
unfoldable pub pad_zeros : ℕ → Sha256Ctx → Sha256Ctx
unfolding update
pad_zeros zero ctx = ctx
pad_zeros (suc fuel) ctx =
    let rest = pad_zeros fuel (update ctx (0 ∷ [])) in if ctx.buf_len == 56 then ctx else rest

-- The eight bytes of a length in bits, highest first.
unfoldable pub len_be : ℕ → Bytes
len_be bits =
    bit_and (shr bits 56) 0xff
    ∷ bit_and (shr bits 48) 0xff
    ∷ bit_and (shr bits 40) 0xff
    ∷ bit_and (shr bits 32) 0xff
    ∷ bit_and (shr bits 24) 0xff
    ∷ bit_and (shr bits 16) 0xff
    ∷ bit_and (shr bits 8) 0xff
    ∷ bit_and (shr bits 0) 0xff
    ∷ []

unfoldable pub word_be : ℕ → Bytes
word_be w =
    bit_and (shr w 24) 0xff ∷ bit_and (shr w 16) 0xff ∷ bit_and (shr w 8) 0xff ∷ bit_and w 0xff ∷ []

-- The last loop of `finish`.
unfoldable pub out_bytes : Words → Bytes
unfolding word_be
out_bytes s =
    word_be s.a
    ++ word_be s.b
    ++ word_be s.c
    ++ word_be s.d
    ++ word_be s.e
    ++ word_be s.f
    ++ word_be s.g
    ++ word_be s.hh

-- 64 rounds of the padding are enough.
unfoldable pub finish : Sha256Ctx → Bytes
unfolding update pad_zeros len_be out_bytes
finish ctx =
    out_bytes (update (pad_zeros 64 (update ctx (0x80 ∷ []))) (len_be (u64 (ctx.total_len * 8)))).h

unfoldable pub sha256 : Bytes → Bytes → Bytes
unfolding update finish
sha256 uninit bytes = finish (update (new_ctx uninit) bytes)
