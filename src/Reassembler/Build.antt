-- ===== src/Reassembler/Build.antt =====
-- `build_msg` of `Reassembler::try_assemble` in tight/src/reassembler.cpp: a message out of its data
-- fragments. A piece is what counts of a fragment, its first `min(size, length)` bytes.
pub mod Stream
pub mod Message
use damen.Common.{
  ℕ, zero, suc, ◌+◌, ◌-◌, min, List, [], ◌∷◌, ◌++◌, ◌==◌, ltb, if◌then◌else◌, length, take, drop,
  get_or, replicate,
}
use damen.Common.Bytes.{word32}
use damen.Wire.Endian.{to_be32}
use damen.Fec.Code.{Bytes}

unfoldable pub stream_length : List Bytes → ℕ
stream_length [] = 0
stream_length (piece ∷ pieces) = length piece + stream_length pieces

-- The loop that collects the first `need` bytes, which may lie across pieces.
unfoldable pub read_prefix : ℕ → List Bytes → Bytes
read_prefix need [] = []
read_prefix need (piece ∷ pieces) =
    let n = min (length piece) need in
    let rest = read_prefix (need - n) pieces in if need == 0 then [] else take n piece ++ rest

-- The loop that copies out `left` bytes after the first `skip`.
unfoldable pub copy_out : ℕ → ℕ → List Bytes → Bytes
copy_out skip left [] = []
copy_out skip left (piece ∷ pieces) =
    let after = drop skip piece in
    let n = min (length after) left in
    let later = copy_out (skip - length piece) left pieces in
    let rest = copy_out 0 (left - n) pieces in
    if left == 0 then [] else if ltb skip (length piece) then take n after ++ rest else later

-- The length that the message claims.
unfoldable pub claimed : Bytes → ℕ
claimed prefix =
    to_be32 (word32 (get_or prefix 0 0) (get_or prefix 1 0) (get_or prefix 2 0) (get_or prefix 3 0))

unfoldable pub copy_message : ℕ → List Bytes → Bytes
copy_message total pieces =
    let copied = copy_out 4 total pieces in copied ++ replicate (total - length copied) 0

unfoldable pub build_msg : ℕ → List Bytes → Bytes
build_msg max_message_bytes pieces =
    let stream_len = stream_length pieces in
    let total = claimed (read_prefix 4 pieces) in
    if ltb stream_len 4
    then []
    else if ltb max_message_bytes total
    then []
    else if ltb (stream_len - 4) total
    then copy_message (stream_len - 4) pieces
    else copy_message total pieces
