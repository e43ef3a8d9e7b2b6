-- ===== src/Crypto/Sha256/Digest.antt =====
-- `sha256` of tight/src/crypto.cpp against the padded_message message cut into blocks.
use damen.Common.{
  ℕ, zero, suc, ◌+◌, ◌-◌, ◌*◌, ◌/◌, ◌%◌, ◌≤◌, ◌<◌, ◌≡◌, refl, sym, ap, subst, ◌∙◌, arith, List, [],
  ◌∷◌, ◌++◌, append_assoc, append-nil, length, take, drop, replicate, length-replicate,
  length-append, take-append, drop-append, ◌==◌, ==_iff, false, ==_ne,
}
use damen.Common.Bytes.{u64}
use damen.Fec.Code.{Bytes}
use damen.Crypto.Sha256.{
  Sha256Ctx, initial_h, new_ctx, update, pad_zeros, len_be, out_bytes, finish, sha256,
}
use damen.Crypto.Sha256.Holds.{
  hash_blocks, joined, AllWhole, Holds, new_ctx-Holds, update-Holds, update-total_len, Holds-length,
}

-- The message with a one bit, zeros up to 56 bytes past a block, and its length in bits.
abbrev pub pad_count : ℕ → ℕ
pad_count n = (119 - n % 64) % 64

unfoldable pub padded_message : Bytes → Bytes
padded_message msg =
    msg
    ++ (0x80 ∷ [])
    ++ replicate (pad_count (length msg)) 0
    ++ len_be (u64 (u64 (length msg) * 8))

unfoldable pub split_blocks : ℕ → Bytes → List Bytes
split_blocks zero bytes = []
split_blocks (suc n) bytes = take 64 bytes ∷ split_blocks n (drop 64 bytes)

split_blocks-joined :
    (blocks : List Bytes) → AllWhole blocks → split_blocks (length blocks) (joined blocks) ≡ blocks
unfolding split_blocks
split_blocks-joined [] w = refl
split_blocks-joined (block ∷ blocks) w =
    ap
      (λ n.
        take n (block ++ joined blocks)
        ∷ split_blocks (length blocks) (drop n (block ++ joined blocks)))
      (sym w.0)
    ∙ ap (λ t. t ∷ split_blocks (length blocks) (drop (length block) (block ++ joined blocks)))
        (take-append block (joined blocks))
    ∙ ap (λ t. block ∷ split_blocks (length blocks) t) (drop-append block (joined blocks))
    ∙ ap (◌∷◌ block) (split_blocks-joined blocks w.1)

pad_done : (fuel : ℕ) (ctx : Sha256Ctx) → ctx.buf_len ≡ 56 → pad_zeros fuel ctx ≡ ctx
unfolding pad_zeros
pad_done zero ctx e = refl
pad_done (suc fuel) ctx e = rw ((==_iff ctx.buf_len 56).1 e) refl

pad_more :
    (fuel : ℕ) (ctx : Sha256Ctx)
    → (ctx.buf_len == 56) ≡ false
    → pad_zeros (suc fuel) ctx ≡ pad_zeros fuel (update ctx (0 ∷ []))
unfolding pad_zeros
pad_more fuel ctx e = rw (e) refl

-- The loop of `finish` stops at 56 bytes in the buffer, and adds as many zeros as that takes.
pub pad_zeros-Holds :
    (fuel left q : ℕ) (ctx : Sha256Ctx) (msg : Bytes)
    → left ≤ fuel
    → left < 64
    → length msg + left ≡ 64 * q + 56
    → Holds ctx msg
    → Holds (pad_zeros fuel ctx) (msg ++ replicate left 0)
pad_zeros-Holds fuel zero q ctx msg h k e w =
    let full = Holds-length ctx msg w in
    let room = w.room in
    subst (λ c. Holds c (msg ++ [])) (sym (pad_done fuel ctx (omega arith)))
      (subst (Holds ctx) (sym (append-nil msg)) w)
pad_zeros-Holds zero (suc left) q ctx msg h k e w = absurd (omega arith)
pad_zeros-Holds (suc fuel) (suc left) q ctx msg h k e w =
    let full = Holds-length ctx msg w in
    let room = w.room in
    subst (λ c. Holds c (msg ++ (0 ∷ replicate left 0)))
      (sym (pad_more fuel ctx (==_ne ctx.buf_len 56 (λ r. omega arith))))
      (subst (Holds (pad_zeros fuel (update ctx (0 ∷ []))))
        (append_assoc msg (0 ∷ []) (replicate left 0))
        (pad_zeros-Holds fuel left q (update ctx (0 ∷ [])) (msg ++ (0 ∷ [])) (omega arith)
          (omega arith) (omega (arith, length-append msg (0 ∷ [])))
          (update-Holds ctx msg (0 ∷ []) w)))

length-len_be : (bits : ℕ) → length (len_be bits) ≡ 8
unfolding len_be
length-len_be bits = refl

finish-Holds :
    (ctx : Sha256Ctx) (msg : Bytes)
    → Holds ctx msg
    → Holds
        (update (pad_zeros 64 (update ctx (0x80 ∷ []))) (len_be (u64 (u64 (length msg) * 8))))
        (padded_message msg)
unfolding padded_message
finish-Holds ctx msg w =
    update-Holds (pad_zeros 64 (update ctx (0x80 ∷ [])))
      (msg ++ (0x80 ∷ []) ++ replicate (pad_count (length msg)) 0)
      (len_be (u64 (u64 (length msg) * 8)))
      (pad_zeros-Holds 64 (pad_count (length msg)) ((length msg + 8) / 64) (update ctx (0x80 ∷ []))
        (msg ++ (0x80 ∷ [])) (omega arith) (omega arith)
        (omega (arith, length-append msg (0x80 ∷ []))) (update-Holds ctx msg (0x80 ∷ []) w))

length-padded_message : (msg : Bytes) → length (padded_message msg) ≡ 64 * ((length msg + 72) / 64)
unfolding padded_message
length-padded_message msg = omega (
  arith,
  length-append (msg ++ (0x80 ∷ []) ++ replicate (pad_count (length msg)) 0)
      (len_be (u64 (u64 (length msg) * 8))),
  length-append (msg ++ (0x80 ∷ [])) (replicate (pad_count (length msg)) 0),
  length-append msg (0x80 ∷ []),
  length-replicate {A = ℕ} (pad_count (length msg)) 0,
  length-len_be (u64 (u64 (length msg) * 8)),
)

-- The hash of a message by its definition: the padded_message message is cut into blocks of 64 bytes.
unfoldable pub digest : Bytes → Bytes
unfolding out_bytes
digest msg =
    out_bytes (hash_blocks initial_h (split_blocks ((length msg + 72) / 64) (padded_message msg)))

blocks_of :
    (ctx : Sha256Ctx) (msg : Bytes)
    → Holds ctx (padded_message msg)
    → ctx.h ≡ hash_blocks initial_h (split_blocks ((length msg + 72) / 64) (padded_message msg))
blocks_of ctx msg w =
    w.hashed
    ∙ ap (hash_blocks initial_h) (
        sym (split_blocks-joined w.blocks w.whole)
        ∙ ap (λ n. split_blocks n (joined w.blocks)) count
        ∙ ap (split_blocks ((length msg + 72) / 64)) (sym all))
  where
    full : length (padded_message msg) ≡ 64 * length w.blocks + ctx.buf_len
    full = Holds-length ctx (padded_message msg) w

    count : length w.blocks ≡ (length msg + 72) / 64
    count = omega (arith, full, length-padded_message msg, w.room)

    drained : ctx.buf_len ≡ 0
    drained = omega (arith, full, length-padded_message msg, w.room)

    all : padded_message msg ≡ joined w.blocks
    all =
        w.content
        ∙ ap (λ n. joined w.blocks ++ take n ctx.buf) drained
        ∙ append-nil (joined w.blocks)

pub finish-digest :
    (ctx : Sha256Ctx) (msg : Bytes)
    → Holds ctx msg
    → ctx.total_len ≡ u64 (length msg)
    → finish ctx ≡ digest msg
unfolding finish digest
finish-digest ctx msg w e =
    ap (λ n. out_bytes (update (pad_zeros 64 (update ctx (0x80 ∷ []))) (len_be (u64 (n * 8)))).h) e
    ∙ ap out_bytes (blocks_of _ msg (finish-Holds ctx msg w))

-- For every message and whatever the uninitialised block buffer contains, `sha256` is the hash of
-- the padded_message message cut into blocks of 64 bytes: the buffered updates, one call for each byte of
-- padding included, compute the definition of the hash.
pub sha256-digest : (uninit msg : Bytes) → length uninit ≡ 64 → sha256 uninit msg ≡ digest msg
unfolding sha256
sha256-digest uninit msg e =
    finish-digest (update (new_ctx uninit) msg) msg
      (update-Holds (new_ctx uninit) [] msg (new_ctx-Holds uninit e))
      (update-total_len (new_ctx uninit) msg ∙ from_zero (length msg))
  where
    from_zero : (n : ℕ) → u64 (0 + n) ≡ u64 n
    from_zero n = omega arith

-- The padding loop of `finish` ends: whatever message the context holds, after at most 63 rounds
-- its buffer holds 56 bytes, which is the loop's exit, and the zeros are all that was added.
pub pad_zeros-ends :
    (fuel : ℕ) (ctx : Sha256Ctx) (msg : Bytes)
    → 63 ≤ fuel
    → Holds ctx msg
    → ((pad_zeros fuel ctx).buf_len ≡ 56)
      × Holds (pad_zeros fuel ctx) (msg ++ replicate ((120 - length msg % 64) % 64) 0)
pad_zeros-ends fuel ctx msg h w =
    let left = (120 - length msg % 64) % 64 in
    let after =
      pad_zeros-Holds fuel left ((length msg + 7) / 64) ctx msg (omega arith) (omega arith)
        (omega arith) w in
    let full = Holds-length (pad_zeros fuel ctx) (msg ++ replicate left 0) after in
    let room = after.room in
    (
      omega (arith, full, length-append msg (replicate left 0), length-replicate {A = ℕ} left 0),
      after,
    )
