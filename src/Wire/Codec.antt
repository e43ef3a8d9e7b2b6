-- ===== src/Wire/Codec.antt =====
-- tight/src/packet_codec.cpp over the packet header of tight/include/tight/types.hpp. The host is
-- little-endian; a write past the end of the output buffer is dropped.
pub mod Layout
pub mod RoundTrip
pub mod Reencode
pub mod Refused
use damen.Common.{
  ℕ, ◌+◌, List, [], ◌∷◌, Option, none, some, ◌==◌, ltb, if◌then◌else◌, length, take, drop, get_or,
  replicate, bit_xor, bit_or, not,
}
use damen.Common.Bytes.{u64, shl, mem16, mem32, mem64, word16, word32, memcpy_to}
use damen.Wire.Endian.{magic_number, protocol_version, header_size, to_be16, to_be32, to_be64}
use damen.Wire.Crc.{crc32_update}

pub record PacketHeader : Type 0 where
  pub magic : ℕ
  pub version : ℕ
  pub packet_type : ℕ
  pub flags : ℕ
  pub client_id : ℕ
  pub session_id : ℕ
  pub sequence : ℕ
  pub acknowledgment : ℕ
  pub message_id : ℕ
  pub fragment_index : ℕ
  pub fragment_count : ℕ
  pub payload_size : ℕ
  pub reserved : ℕ
  pub tick : ℕ
  pub checksum : ℕ

-- The lambdas of `encode_header_to` and of `decode`.
unfoldable pub put16 : List ℕ → ℕ → ℕ → List ℕ
put16 p off v = memcpy_to p off (mem16 (to_be16 v))

unfoldable pub put32 : List ℕ → ℕ → ℕ → List ℕ
put32 p off v = memcpy_to p off (mem32 (to_be32 v))

unfoldable pub put64 : List ℕ → ℕ → ℕ → List ℕ
put64 p off v = memcpy_to p off (mem64 (to_be64 v))

unfoldable pub get16 : List ℕ → ℕ → ℕ
get16 p off = to_be16 (word16 (get_or p off 0) (get_or p (off + 1) 0))

unfoldable pub get32 : List ℕ → ℕ → ℕ
get32 p off =
    to_be32
      (word32 (get_or p off 0) (get_or p (off + 1) 0) (get_or p (off + 2) 0) (get_or p (off + 3) 0))

unfoldable pub get64 : List ℕ → ℕ → ℕ
unfolding get32
get64 p off = let lo = get32 p off in let hi = get32 p (off + 4) in bit_or (u64 (shl hi 32)) lo

-- The header, field by field; the checksum is left zero. `payload_size` is the header's own.
unfoldable pub encode_header_to : PacketHeader → List ℕ → List ℕ
encode_header_to h out =
    let p = put32 out 0 h.magic in
    let p = memcpy_to p 4 (h.version ∷ []) in
    let p = memcpy_to p 5 (h.packet_type ∷ []) in
    let p = put16 p 6 h.flags in
    let p = put32 p 8 h.client_id in
    let p = put64 p 12 h.session_id in
    let p = put32 p 20 h.sequence in
    let p = put32 p 24 h.acknowledgment in
    let p = put32 p 28 h.message_id in
    let p = put16 p 32 h.fragment_index in
    let p = put16 p 34 h.fragment_count in
    let p = put16 p 36 h.payload_size in
    let p = put16 p 38 h.reserved in let p = put32 p 40 h.tick in put32 p 44 0

abbrev zeros : List ℕ
zeros = 0 ∷ 0 ∷ 0 ∷ 0 ∷ []

-- `size` is the length of the datagram, which the buffer holds whole.
unfoldable pub finalize_crc : List ℕ → ℕ → List ℕ
finalize_crc datagram size =
    if ltb size header_size
    then datagram
    else (let cleared = memcpy_to datagram 44 zeros in
        let crc = crc32_update 0xffffffff (take size cleared) in
        memcpy_to cleared 44 (mem32 (to_be32 (bit_xor crc 0xffffffff))))

-- The buffer after the call, and the length of the datagram.
unfoldable pub encode_to : PacketHeader → List ℕ → List ℕ → List ℕ × ℕ
unfolding encode_header_to finalize_crc
encode_to h payload out =
    let total = header_size + length payload in
    (finalize_crc (memcpy_to (encode_header_to h out) header_size payload) total, total)

unfoldable pub encode : PacketHeader → List ℕ → List ℕ
unfolding encode_to
encode h payload = (encode_to h payload (replicate (header_size + length payload) 0)).0

-- What `decode` reads off the 48 bytes.
unfoldable pub read_header : List ℕ → PacketHeader
unfolding get16 get32 get64
read_header p = record {
  magic = get32 p 0;
  version = get_or p 4 0;
  packet_type = get_or p 5 0;
  flags = get16 p 6;
  client_id = get32 p 8;
  session_id = get64 p 12;
  sequence = get32 p 20;
  acknowledgment = get32 p 24;
  message_id = get32 p 28;
  fragment_index = get16 p 32;
  fragment_count = get16 p 34;
  payload_size = get16 p 36;
  reserved = get16 p 38;
  tick = get32 p 40;
  checksum = get32 p 44;
}

-- The checksum of a datagram as `decode` recomputes it: the header's first 44 bytes, four zero
-- bytes, and the payload.
unfoldable pub received_crc : List ℕ → ℕ → ℕ
received_crc p payload_size =
    let crc = crc32_update 0xffffffff (take 44 p) in
    let crc = crc32_update crc zeros in
    let crc = crc32_update crc (take payload_size (drop header_size p)) in bit_xor crc 0xffffffff

-- The tests of `decode`, in order. `none` is the result `false`; no caller reads the header or the
-- payload then.
unfoldable pub checked : List ℕ → PacketHeader → Option (PacketHeader × List ℕ)
unfolding received_crc
checked p header =
    let size = header.payload_size in
    if ltb (length p) header_size
    then none
    else if not (header.magic == magic_number)
    then none
    else if not (header.version == protocol_version)
    then none
    else if ltb (length p) (header_size + size)
    then none
    else if not (received_crc p size == header.checksum)
    then none
    else some (header, take size (drop header_size p))

unfoldable pub decode : List ℕ → Option (PacketHeader × List ℕ)
unfolding checked read_header
decode p = checked p (read_header p)
