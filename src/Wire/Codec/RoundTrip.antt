-- ===== src/Wire/Codec/RoundTrip.antt =====
-- `PacketCodec::decode` after `PacketCodec::encode`, of tight/src/packet_codec.cpp.
use damen.Common.{
  ℕ, ◌+◌, ◌/◌, ◌%◌, ◌^◌, ◌≤◌, ◌<◌, ◌≡◌, refl, sym, ap, ap₂, ◌∙◌, arith, bit_or, bit_xor, List, [],
  ◌∷◌, ◌++◌, none, some, length, take, drop, replicate, ◌==◌, if◌then◌else◌, length-append,
  length-append, take-all, take-append, le→ltb, ==_self,
}
use damen.Common.Bytes.{
  u64, shl, be32, mem32, memcpy_to, AllBytes, AllBytes-append, overwrite-replicate,
  replicate_header,
}
use damen.Common.Bits.Masks.{bit_or_field}
use damen.Wire.Endian.{
  magic_number, protocol_version, to_be32, to_be16-word16, to_be32-word32, mem32-to_be32,
}
use damen.Wire.Crc.{crc32_update, crc32_compute}
use damen.Wire.Crc.Bitwise.{crc32_update-append}
use damen.Wire.Crc.Errors.{crc32_compute-lt}
use damen.Wire.Codec.{
  PacketHeader, encode_header_to, finalize_crc, encode, read_header, received_crc, checked, decode,
}
use damen.Wire.Codec.Layout.{IsHeader, header_bytes, encode_header_to-layout}

abbrev pub zeros : List ℕ
zeros = 0 ∷ 0 ∷ 0 ∷ 0 ∷ []

-- The checksum of a datagram: that of its bytes with the checksum's own place zeroed.
abbrev pub frame_crc : PacketHeader → List ℕ → ℕ
frame_crc h payload = crc32_compute (header_bytes h ++ (zeros ++ payload))

-- A datagram with a given checksum.
abbrev pub frame : PacketHeader → ℕ → List ℕ → List ℕ
frame h crc payload = header_bytes h ++ (be32 crc ++ payload)

finalize_crc-frame :
    (h : PacketHeader) (payload : List ℕ)
    → AllBytes (header_bytes h ++ (zeros ++ payload))
    → finalize_crc (header_bytes h ++ (zeros ++ payload)) (48 + length payload)
      ≡ frame h (frame_crc h payload) payload
unfolding finalize_crc crc32_compute
finalize_crc-frame h payload bytes =
    rw (le→ltb (48 + length payload) 48 (omega arith))
      (ap (λ (b : List ℕ). header_bytes h ++ (b ++ payload)) stored)
  where
    whole :
        take (48 + length payload) (header_bytes h ++ (zeros ++ payload))
        ≡ header_bytes h ++ (zeros ++ payload)
    whole = take-all (48 + length payload) (header_bytes h ++ (zeros ++ payload)) (omega arith)

    stored :
        mem32 (
          to_be32 (
            bit_xor
              (crc32_update 0xffffffff
                (take (48 + length payload) (header_bytes h ++ (zeros ++ payload))))
              0xffffffff))
        ≡ be32 (frame_crc h payload)
    stored =
        ap (λ (t : List ℕ). mem32 (to_be32 (bit_xor (crc32_update 0xffffffff t) 0xffffffff))) whole
        ∙ mem32-to_be32 (frame_crc h payload)
            (crc32_compute-lt (header_bytes h ++ (zeros ++ payload)) bytes)

header_bytes-AllBytes : (h : PacketHeader) → IsHeader h → AllBytes (header_bytes h)
header_bytes-AllBytes h v = omega arith

pub frame-AllBytes :
    (h : PacketHeader) (payload : List ℕ)
    → IsHeader h
    → AllBytes payload
    → AllBytes (header_bytes h ++ (zeros ++ payload))
frame-AllBytes h payload v b =
    AllBytes-append (header_bytes h) (zeros ++ payload) (header_bytes-AllBytes h v)
      (AllBytes-append zeros payload (omega arith) b)

-- `encode` writes the header, the checksum of the whole and the payload.
pub encode-frame :
    (h : PacketHeader) (payload : List ℕ)
    → IsHeader h
    → AllBytes payload
    → encode h payload ≡ frame h (frame_crc h payload) payload
unfolding encode
encode-frame h payload v b =
    ap (λ b. finalize_crc (memcpy_to (encode_header_to h b) 48 payload) (48 + length payload))
      (replicate_header (length payload))
    ∙ ap (λ b. finalize_crc (memcpy_to b 48 payload) (48 + length payload))
        (encode_header_to-layout h (replicate 48 0 ++ replicate (length payload) 0) v (omega arith))
    ∙ ap (λ b. finalize_crc (header_bytes h ++ (zeros ++ b)) (48 + length payload))
        (overwrite-replicate payload)
    ∙ finalize_crc-frame h payload (frame-AllBytes h payload v b)

join_halves : (v : ℕ) → v < 2 ^ 64 → bit_or (u64 (shl (v / 2 ^ 32) 32)) (v % 2 ^ 32) ≡ v
join_halves v h =
    ap (λ t. bit_or t (v % 2 ^ 32)) (omega arith)
    ∙ bit_or_field 32 (v / 2 ^ 32) (v % 2 ^ 32) (omega arith)
    ∙ omega arith

-- The header that the decoder reads off a datagram is the one that was written.
pub read_header-frame :
    (h : PacketHeader) (crc : ℕ) (rest : List ℕ)
    → IsHeader h
    → crc < 2 ^ 32
    → read_header (frame h crc rest) ≡ record h { checksum = crc }
unfolding read_header
read_header-frame h crc rest v hc = simp (
  to_be32-word32 h.magic v.magic_lt,
  to_be16-word16 h.flags v.flags_lt,
  to_be32-word32 h.client_id v.client_lt,
  to_be32-word32 (h.session_id % 2 ^ 32) (omega arith),
  to_be32-word32 (h.session_id / 2 ^ 32) (omega (arith, v.session_lt)),
  join_halves h.session_id v.session_lt,
  to_be32-word32 h.sequence v.sequence_lt,
  to_be32-word32 h.acknowledgment v.acknowledgment_lt,
  to_be32-word32 h.message_id v.message_lt,
  to_be16-word16 h.fragment_index v.index_lt,
  to_be16-word16 h.fragment_count v.count_lt,
  to_be16-word16 h.payload_size v.size_lt,
  to_be16-word16 h.reserved v.reserved_lt,
  to_be32-word32 h.tick v.tick_lt,
  to_be32-word32 crc hc,
)

pub received_crc-frame :
    (h : PacketHeader) (crc : ℕ) (payload extra : List ℕ)
    → received_crc (frame h crc (payload ++ extra)) (length payload) ≡ frame_crc h payload
unfolding received_crc crc32_compute
received_crc-frame h crc payload extra =
    ap
      (λ (t : List ℕ).
        bit_xor (crc32_update (crc32_update (crc32_update 0xffffffff (header_bytes h)) zeros) t)
          0xffffffff)
      (take-append payload extra)
    ∙ ap (λ t. bit_xor t 0xffffffff)
        (sym (crc32_update-append zeros payload (crc32_update 0xffffffff (header_bytes h)))
          ∙ sym (crc32_update-append (header_bytes h) (zeros ++ payload) 0xffffffff))

-- A header that a sender fills in: its fields fit, and it names the format and the payload's size.
pub record IsSent (h : PacketHeader) (payload : List ℕ) : Type 0 where
  pub fits : IsHeader h
  pub named : h.magic ≡ magic_number
  pub versioned : h.version ≡ protocol_version
  pub sized : h.payload_size ≡ length payload
  pub bytes : AllBytes payload

-- The tests come down to the checksum where the others pass.
checked_crc :
    (p : List ℕ) (h : PacketHeader)
    → h.magic ≡ magic_number
    → h.version ≡ protocol_version
    → 48 + h.payload_size ≤ length p
    → checked p h ≡ (
        if received_crc p h.payload_size == h.checksum
        then some (h, take h.payload_size (drop 48 p))
        else none)
unfolding checked
checked_crc p h named versioned enough = ground arith

-- A datagram for a sent header is accepted exactly when its checksum is that of its header and
-- payload, whatever follows the payload.
pub decode-frame :
    (h : PacketHeader) (crc : ℕ) (payload extra : List ℕ)
    → IsSent h payload
    → crc < 2 ^ 32
    → decode (frame h crc (payload ++ extra))
      ≡ (if frame_crc h payload == crc then some (record h { checksum = crc }, payload) else none)
unfolding decode
decode-frame h crc payload extra v hc =
    ap (checked p) (read_header-frame h crc (payload ++ extra) v.fits hc)
    ∙ checked_crc p (record h { checksum = crc }) v.named v.versioned enough
    ∙ ap₂ (λ (c : ℕ) (t : List ℕ). if c == crc then some (record h { checksum = crc }, t) else none)
        (ap (received_crc p) v.sized ∙ received_crc-frame h crc payload extra)
        (ap (λ k. take k (payload ++ extra)) v.sized ∙ take-append payload extra)
  where
    p : List ℕ
    p = frame h crc (payload ++ extra)

    enough : 48 + h.payload_size ≤ length p
    enough = omega (arith, length-append payload extra, v.sized)

-- A datagram that `encode` built is decoded to the header and the payload it was built from, the
-- header with the checksum filled in; bytes that follow the datagram are ignored. The header is one
-- that a sender fills in: its fields are within their widths, it names the format and the version,
-- and its size is the length of the payload, which is bytes.
pub decode-encode :
    (h : PacketHeader) (payload extra : List ℕ)
    → IsSent h payload
    → decode (encode h payload ++ extra)
      ≡ some (record h { checksum = frame_crc h payload }, payload)
decode-encode h payload extra v =
    ap (λ (t : List ℕ). decode (t ++ extra)) (encode-frame h payload v.fits v.bytes)
    ∙ ap (λ (t : List ℕ). decode (header_bytes h ++ t)) (regroup (frame_crc h payload))
    ∙ decode-frame h (frame_crc h payload) payload extra v (
        crc32_compute-lt (header_bytes h ++ (zeros ++ payload))
          (frame-AllBytes h payload v.fits v.bytes))
    ∙ ap (λ b. if b then some (record h { checksum = frame_crc h payload }, payload) else none)
        (==_self (frame_crc h payload))
  where
    regroup : (c : ℕ) → be32 c ++ payload ++ extra ≡ be32 c ++ (payload ++ extra)
    regroup c = refl
