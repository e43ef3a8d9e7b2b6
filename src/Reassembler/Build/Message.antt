-- ===== src/Reassembler/Build/Message.antt =====
-- The message that `build_msg` of tight/src/reassembler.cpp gives.
use damen.Common.{
  ℕ, ◌+◌, ◌-◌, ◌^◌, ◌≤◌, ◌<◌, ◌≡◌, refl, sym, ap, ◌∙◌, arith, List, ◌++◌, length, take, drop,
  replicate, length-append, length-take, length-replicate, take-append, drop-append, le→ltb,
}
use mathlib.Core.List.{append-nil}
use damen.Common.Bytes.{be32}
use damen.Wire.Endian.{to_be32-word32}
use damen.Fec.Code.{Bytes}
use damen.Reassembler.Build.{stream_length, read_prefix, copy_out, claimed, copy_message, build_msg}
use damen.Reassembler.Build.Stream.{stream, stream_length-stream, read_prefix-take, copy_out-take}

length-copy_message : (total : ℕ) (pieces : List Bytes) → length (copy_message total pieces) ≡ total
unfolding copy_message
length-copy_message total pieces = omega (
  arith,
  length-append (copy_out 4 total pieces) (replicate (total - length (copy_out 4 total pieces)) 0),
  length-replicate {A = ℕ} (total - length (copy_out 4 total pieces)) 0,
  ap length (copy_out-take pieces 4 total),
  length-take total (drop 4 (stream pieces)),
)

-- No message is longer than the limit, nor than what its fragments carry behind the prefix.
pub length-build_msg :
    (max_message_bytes : ℕ) (pieces : List Bytes)
    → (length (build_msg max_message_bytes pieces) ≤ max_message_bytes)
      × (length (build_msg max_message_bytes pieces) ≤ length (stream pieces) - 4)
unfolding build_msg
length-build_msg max_message_bytes pieces =
    let carried = stream_length-stream pieces in
    let short = length-copy_message (stream_length pieces - 4) pieces in
    let whole = length-copy_message (claimed (read_prefix 4 pieces)) pieces in ground arith

claimed-be32 : (n : ℕ) (rest : Bytes) → n < 2 ^ 32 → claimed (take 4 (be32 n ++ rest)) ≡ n
unfolding claimed
claimed-be32 n rest h = to_be32-word32 n h

copy_message-payload :
    (pieces : List Bytes) (prefix payload padding : Bytes)
    → length prefix ≡ 4
    → stream pieces ≡ prefix ++ (payload ++ padding)
    → copy_message (length payload) pieces ≡ payload
unfolding copy_message
copy_message-payload pieces prefix payload padding four e =
    ap (λ (t : Bytes). t ++ replicate (length payload - length t) 0) copied
    ∙ ap (λ k. payload ++ replicate k 0) (nothing_left (length payload))
    ∙ append-nil payload
  where
    nothing_left : (n : ℕ) → n - n ≡ 0
    nothing_left n = omega arith

    copied : copy_out 4 (length payload) pieces ≡ payload
    copied =
        copy_out-take pieces 4 (length payload)
        ∙ ap (λ (t : Bytes). take (length payload) (drop 4 t)) e
        ∙ ap (λ k. take (length payload) (drop k (prefix ++ (payload ++ padding)))) (sym four)
        ∙ ap (take (length payload)) (drop-append prefix (payload ++ padding))
        ∙ take-append payload padding

-- Pieces that together are the length of a message in network order, the message, and perhaps
-- padding, give the message, wherever it was cut, if it is within the limit.
pub build_msg-message :
    (max_message_bytes : ℕ) (pieces : List Bytes) (payload padding : Bytes)
    → length payload < 2 ^ 32
    → length payload ≤ max_message_bytes
    → stream pieces ≡ be32 (length payload) ++ (payload ++ padding)
    → build_msg max_message_bytes pieces ≡ payload
unfolding build_msg
build_msg-message max_message_bytes pieces payload padding fits within e =
    rw
      (
        le→ltb (stream_length pieces) 4 (omega (arith, carried)),
        total,
        le→ltb max_message_bytes (length payload) within,
        le→ltb (stream_length pieces - 4) (length payload) (omega (arith, carried)),
      )
      (copy_message-payload pieces (be32 (length payload)) payload padding refl e)
  where
    carried : stream_length pieces ≡ 4 + (length payload + length padding)
    carried =
        stream_length-stream pieces
        ∙ ap length e
        ∙ omega (
          arith,
          length-append (be32 (length payload)) (payload ++ padding),
          length-append payload padding,
        )

    total : claimed (read_prefix 4 pieces) ≡ length payload
    total =
        ap claimed (read_prefix-take 4 pieces ∙ ap (take 4) e)
        ∙ claimed-be32 (length payload) (payload ++ padding) fits
