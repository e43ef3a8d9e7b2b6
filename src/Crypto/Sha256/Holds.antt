-- ===== src/Crypto/Sha256/Holds.antt =====
-- What a `Sha256Ctx` of tight/src/crypto.cpp holds of a message, under `update`.
use damen.Common.{
  ℕ, zero, suc, ◌+◌, ◌-◌, ◌≤◌, ◌<◌, min, ◌≡◌, refl, sym, ap, subst, ◌∙◌, arith, List, [], ◌∷◌, ◌++◌,
  append_assoc, append-nil, ◌==◌, length, take, drop, length-take, length-drop, rejoined,
  Bool-cases, inl, inr, false, ==_iff, ==_false→ne, take-all, length-append, ◌*◌,
}
use damen.Common.Bytes.{memcpy_to, u64, length-memcpy_to, take-memcpy_to}
use damen.Fec.Code.{Bytes}
use damen.Crypto.Sha256.{
  Words, Sha256Ctx, initial_h, new_ctx, compress, compress_full, update_loop, update,
}

-- The hash of whole blocks.
unfoldable pub hash_blocks : Words → List Bytes → Words
hash_blocks s [] = s
hash_blocks s (block ∷ blocks) = hash_blocks (compress s block) blocks

abbrev pub joined : List Bytes → Bytes
joined [] = []
joined (block ∷ blocks) = block ++ joined blocks

abbrev pub AllWhole : List Bytes → Type 0
AllWhole [] = Unit {0}
AllWhole (block ∷ blocks) = (length block ≡ 64) × AllWhole blocks

-- The context has hashed whole blocks of the message and keeps the rest in its buffer.
pub record Holds (ctx : Sha256Ctx) (msg : Bytes) : Type 0 where
  pub blocks : List Bytes
  pub whole : AllWhole blocks
  pub content : msg ≡ joined blocks ++ take ctx.buf_len ctx.buf
  pub hashed : ctx.h ≡ hash_blocks initial_h blocks
  pub room : ctx.buf_len < 64
  pub size : length ctx.buf ≡ 64

hash_blocks-append :
    (s : Words) (blocks : List Bytes) (last : Bytes)
    → hash_blocks s (blocks ++ (last ∷ [])) ≡ compress (hash_blocks s blocks) last
unfolding hash_blocks
hash_blocks-append s [] last = refl
hash_blocks-append s (block ∷ blocks) last = hash_blocks-append (compress s block) blocks last

joined-append :
    (blocks : List Bytes) (last : Bytes) → joined (blocks ++ (last ∷ [])) ≡ joined blocks ++ last
joined-append [] last = append-nil last
joined-append (block ∷ blocks) last =
    ap (◌++◌ block) (joined-append blocks last) ∙ sym (append_assoc block (joined blocks) last)

AllWhole-append :
    (blocks : List Bytes) (last : Bytes)
    → AllWhole blocks
    → length last ≡ 64
    → AllWhole (blocks ++ (last ∷ []))
AllWhole-append [] last w e = (e, tt)
AllWhole-append (block ∷ blocks) last w e = (w.0, AllWhole-append blocks last w.1 e)

pub new_ctx-Holds : (uninit : Bytes) → length uninit ≡ 64 → Holds (new_ctx uninit) []
unfolding hash_blocks
new_ctx-Holds uninit e = record {
  blocks = [];
  whole = tt;
  content = refl;
  hashed = refl;
  room = omega arith;
  size = e;
}

-- `n` more bytes in the buffer.
abbrev filled : Sha256Ctx → Bytes → Sha256Ctx
filled ctx part = record ctx {
  buf = memcpy_to ctx.buf ctx.buf_len part;
  buf_len = ctx.buf_len + length part;
}

filled-content :
    (ctx : Sha256Ctx) (msg part : Bytes) (w : Holds ctx msg)
    → ctx.buf_len + length part ≤ 64
    → msg ++ part ≡ joined w.blocks ++ take (filled ctx part).buf_len (filled ctx part).buf
filled-content ctx msg part w fits =
    ap (λ t. t ++ part) w.content
    ∙ append_assoc (joined w.blocks) (take ctx.buf_len ctx.buf) part
    ∙ ap (◌++◌ (joined w.blocks))
        (sym (take-memcpy_to ctx.buf ctx.buf_len part (omega (arith, w.size))))

compressed :
    (ctx : Sha256Ctx)
    → ctx.buf_len ≡ 64
    → compress_full ctx ≡ record ctx { h = compress ctx.h ctx.buf; buf_len = 0 }
unfolding compress_full
compressed ctx e = rw ((==_iff ctx.buf_len 64).1 e) refl

not_compressed : (ctx : Sha256Ctx) → (ctx.buf_len == 64) ≡ false → compress_full ctx ≡ ctx
unfolding compress_full
not_compressed ctx e = rw (e) refl

compress_full-Holds :
    (ctx : Sha256Ctx) (msg part : Bytes)
    → Holds ctx msg
    → ctx.buf_len + length part ≤ 64
    → Holds (compress_full (filled ctx part)) (msg ++ part)
compress_full-Holds ctx msg part w fits = elim (Bool-cases ((filled ctx part).buf_len == 64)) [
  | inl full ↦
      let e = (==_iff (filled ctx part).buf_len 64).0 full in
      let size = length-memcpy_to ctx.buf ctx.buf_len part ∙ w.size in
      subst (λ c. Holds c (msg ++ part)) (sym (compressed (filled ctx part) e))
        (record {
          blocks = w.blocks ++ ((filled ctx part).buf ∷ []);
          whole = AllWhole-append w.blocks (filled ctx part).buf w.whole size;
          content =
              filled-content ctx msg part w fits
              ∙ ap (◌++◌ (joined w.blocks))
                  (take-all (filled ctx part).buf_len (filled ctx part).buf (e ∙ sym size))
              ∙ sym (joined-append w.blocks (filled ctx part).buf)
              ∙ sym (append-nil (joined (w.blocks ++ ((filled ctx part).buf ∷ []))));
          hashed =
              ap (λ s. compress s (filled ctx part).buf) w.hashed
              ∙ sym (hash_blocks-append initial_h w.blocks (filled ctx part).buf);
          room = omega arith;
          size = size;
        })
  | inr more ↦
      subst (λ c. Holds c (msg ++ part)) (sym (not_compressed (filled ctx part) more))
        (record {
          blocks = w.blocks;
          whole = w.whole;
          content = filled-content ctx msg part w fits;
          hashed = w.hashed;
          room = omega (arith, ==_false→ne (ctx.buf_len + length part) 64 more);
          size = length-memcpy_to ctx.buf ctx.buf_len part ∙ w.size;
        })
]

update_loop-Holds :
    (fuel : ℕ) (ctx : Sha256Ctx) (msg bytes : Bytes)
    → length bytes ≤ fuel
    → Holds ctx msg
    → Holds (update_loop fuel ctx bytes) (msg ++ bytes)
unfolding update_loop
update_loop-Holds zero ctx msg [] h w = subst (Holds ctx) (sym (append-nil msg)) w
update_loop-Holds zero ctx msg (b ∷ bs) h w = absurd (omega arith)
update_loop-Holds (suc fuel) ctx msg [] h w = subst (Holds ctx) (sym (append-nil msg)) w
update_loop-Holds (suc fuel) ctx msg (b ∷ bs) h w =
    let n = min (64 - ctx.buf_len) (length (b ∷ bs)) in
    let part = take n (b ∷ bs) in
    let room = w.room in
    let count = length-take n (b ∷ bs) ∙ capped (64 - ctx.buf_len) (length (b ∷ bs)) in
    let step = compress_full-Holds ctx msg part w (omega (arith, count)) in
    let rest =
      update_loop-Holds fuel (compress_full (filled ctx part)) (msg ++ part) (drop n (b ∷ bs))
        (omega (arith, length-drop n (b ∷ bs))) step in
    subst
      (λ k.
        Holds
          (update_loop fuel
            (compress_full
              (record ctx { buf = memcpy_to ctx.buf ctx.buf_len part; buf_len = ctx.buf_len + k }))
            (drop n (b ∷ bs)))
          (msg ++ (b ∷ bs)))
      count
      (subst (Holds (update_loop fuel (compress_full (filled ctx part)) (drop n (b ∷ bs))))
        (append_assoc msg part (drop n (b ∷ bs)) ∙ ap (◌++◌ msg) (rejoined n (b ∷ bs))) rest)
  where
    capped : (a m : ℕ) → min (min a m) m ≡ min a m
    capped a m = omega arith

-- `update` adds the bytes to what the context holds, whatever was held before and however many
-- bytes there are.
pub update-Holds :
    (ctx : Sha256Ctx) (msg bytes : Bytes) → Holds ctx msg → Holds (update ctx bytes) (msg ++ bytes)
unfolding update
update-Holds ctx msg bytes w =
    update_loop-Holds (length bytes) (record ctx { total_len = u64 (ctx.total_len + length bytes) })
      msg bytes (omega arith)
      (record {
        blocks = w.blocks;
        whole = w.whole;
        content = w.content;
        hashed = w.hashed;
        room = w.room;
        size = w.size;
      })

compress_full-total_len : (ctx : Sha256Ctx) → (compress_full ctx).total_len ≡ ctx.total_len
unfolding compress_full
compress_full-total_len ctx = elim (Bool-cases (ctx.buf_len == 64)) [
  | inl full ↦ rw (full) refl
  | inr more ↦ rw (more) refl
]

update_loop-total_len :
    (fuel : ℕ) (ctx : Sha256Ctx) (bytes : Bytes)
    → (update_loop fuel ctx bytes).total_len ≡ ctx.total_len
unfolding update_loop
update_loop-total_len zero ctx bytes = refl
update_loop-total_len (suc fuel) ctx [] = refl
update_loop-total_len (suc fuel) ctx (b ∷ bs) =
    let n = min (64 - ctx.buf_len) (length (b ∷ bs)) in
    let next = record ctx {
      buf = memcpy_to ctx.buf ctx.buf_len (take n (b ∷ bs));
      buf_len = ctx.buf_len + n;
    } in
    update_loop-total_len fuel (compress_full next) (drop n (b ∷ bs)) ∙ compress_full-total_len next

pub update-total_len :
    (ctx : Sha256Ctx) (bytes : Bytes)
    → (update ctx bytes).total_len ≡ u64 (ctx.total_len + length bytes)
unfolding update
update-total_len ctx bytes =
    update_loop-total_len (length bytes)
      (record ctx { total_len = u64 (ctx.total_len + length bytes) }) bytes

length-joined :
    (blocks : List Bytes) → AllWhole blocks → length (joined blocks) ≡ 64 * length blocks
length-joined [] w = refl
length-joined (block ∷ blocks) w =
    omega (arith, length-append block (joined blocks), w.0, length-joined blocks w.1)

-- How far the buffer is filled.
pub Holds-length :
    (ctx : Sha256Ctx) (msg : Bytes) (w : Holds ctx msg)
    → length msg ≡ 64 * length w.blocks + ctx.buf_len
Holds-length ctx msg w = omega (
  arith,
  ap length w.content,
  length-append (joined w.blocks) (take ctx.buf_len ctx.buf),
  length-joined w.blocks w.whole,
  length-take ctx.buf_len ctx.buf,
  w.room,
  w.size,
)
