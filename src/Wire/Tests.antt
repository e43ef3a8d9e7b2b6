-- ===== src/Wire/Tests.antt =====
-- Runs of the packet codec, and each of its properties at a concrete datagram.
use damen.Common.{
  ℕ, ◌/◌, ◌%◌, ◌^◌, drop, replicate, ◌≡◌, ◌≢◌, refl, arith, List, [], ◌∷◌, ◌++◌, some, none,
}
use damen.Common.Bytes.{AllBytes, mem16, mem32, mem64, be16, be32}
use damen.Wire.Endian.{
  magic_number, protocol_version, to_be16, to_be32, to_be64, conversions_network_order,
}
use damen.Wire.Crc.{crc32_update, crc32_compute}
use damen.Wire.Crc.Bitwise.{crc_bitwise, crc32_update-eq-crc_bitwise}
use damen.Wire.Crc.Errors.{crc32_compute_byte}
use damen.Wire.Codec.{
  PacketHeader, put16, put32, put64, finalize_crc, encode_to, encode_header_to, encode, decode,
}
use damen.Wire.Codec.Layout.{IsHeader, header_bytes, encode_header_to-layout}
use damen.Wire.Codec.RoundTrip.{IsSent, frame, frame_crc, decode-encode}
use damen.Wire.Codec.Refused.{decode_corrupted}
use damen.Wire.Codec.Reencode.{encode-decode}
use damen.Wire.PacketType.{data_packet}

-- The check value of CRC-32: the digits from 1 to 9.
abbrev digits : List ℕ
digits = 0x31 ∷ 0x32 ∷ 0x33 ∷ 0x34 ∷ 0x35 ∷ 0x36 ∷ 0x37 ∷ 0x38 ∷ 0x39 ∷ []

crc32_compute-digits : crc32_compute digits ≡ 0xcbf43926
unfolding crc32_compute crc32_update
crc32_compute-digits = refl

crc32_update-eq-crc_bitwise_example : crc32_update 0xffffffff digits ≡ crc_bitwise 0xffffffff digits
crc32_update-eq-crc_bitwise_example = crc32_update-eq-crc_bitwise 0xffffffff digits (
  omega arith,
  (
    omega arith,
    (
      omega arith,
      (omega arith, (omega arith, (omega arith, (omega arith, (omega arith, (omega arith, tt)))))),
    ),
  ),
)

crc32_compute_byte_example : crc32_compute (1 ∷ 2 ∷ 3 ∷ []) ≢ crc32_compute (1 ∷ 7 ∷ 3 ∷ [])
crc32_compute_byte_example =
    crc32_compute_byte (1 ∷ []) 2 7 (3 ∷ []) (omega arith, tt) (omega arith, tt) (omega arith)
      (omega arith) (omega arith)

conversions_network_order_example :
    (mem16 (to_be16 0x0102) ≡ be16 0x0102)
    × (mem32 (to_be32 0x01020304) ≡ be32 0x01020304)
    × (mem64 (to_be64 0x0102030405060708)
        ≡ be32 (0x0102030405060708 % 2 ^ 32) ++ be32 (0x0102030405060708 / 2 ^ 32))
conversions_network_order_example =
    conversions_network_order 0x0102 0x01020304 0x0102030405060708 (omega arith) (omega arith)
      (omega arith)

-- A data packet of three bytes.
abbrev three_bytes : List ℕ
three_bytes = 10 ∷ 20 ∷ 30 ∷ []

abbrev sample : PacketHeader
sample = record {
  magic = magic_number;
  version = protocol_version;
  packet_type = data_packet;
  flags = 1;
  client_id = 7;
  session_id = 0x0102030405060708;
  sequence = 42;
  acknowledgment = 41;
  message_id = 3;
  fragment_index = 0;
  fragment_count = 1;
  payload_size = 3;
  reserved = 0;
  tick = 123456;
  checksum = 0;
}

sample-IsHeader : IsHeader sample
sample-IsHeader = record {
  magic_lt = omega arith;
  version_lt = omega arith;
  type_lt = omega arith;
  flags_lt = omega arith;
  client_lt = omega arith;
  session_lt = omega arith;
  sequence_lt = omega arith;
  acknowledgment_lt = omega arith;
  message_lt = omega arith;
  index_lt = omega arith;
  count_lt = omega arith;
  size_lt = omega arith;
  reserved_lt = omega arith;
  tick_lt = omega arith;
}

sample-IsSent : IsSent sample three_bytes
sample-IsSent = record {
  fits = sample-IsHeader;
  named = refl;
  versioned = refl;
  sized = refl;
  bytes = (omega arith, (omega arith, (omega arith, tt)));
}

-- A buffer that was used before, of 51 bytes.
abbrev used_buffer : List ℕ
used_buffer = replicate 48 77 ++ three_bytes

encode_header_to-layout_example :
    encode_header_to sample used_buffer
    ≡ header_bytes sample ++ (0 ∷ 0 ∷ 0 ∷ 0 ∷ drop 48 used_buffer)
encode_header_to-layout_example =
    encode_header_to-layout sample used_buffer sample-IsHeader (omega arith)

decode-encode_example :
    decode (encode sample three_bytes ++ (99 ∷ []))
    ≡ some (record sample { checksum = frame_crc sample three_bytes }, three_bytes)
decode-encode_example = decode-encode sample three_bytes (99 ∷ []) sample-IsSent

datagram_bytes : AllBytes (encode sample three_bytes ++ (99 ∷ []))
unfolding encode encode_to encode_header_to finalize_crc put16 put32 put64 to_be16 to_be32 to_be64
    crc32_update
datagram_bytes = omega arith

encode-decode_example :
    encode sample three_bytes ++ (99 ∷ [])
    ≡ encode (record sample { checksum = frame_crc sample three_bytes }) three_bytes
      ++ drop 3 (drop 48 (encode sample three_bytes ++ (99 ∷ [])))
encode-decode_example =
    encode-decode (encode sample three_bytes ++ (99 ∷ [])) three_bytes
      (record sample { checksum = frame_crc sample three_bytes }) datagram_bytes
      decode-encode_example

decode_corrupted_example :
    decode (frame sample (frame_crc sample three_bytes) (10 ∷ 21 ∷ 30 ∷ [])) ≡ none
decode_corrupted_example =
    decode_corrupted sample (10 ∷ []) 20 21 (30 ∷ []) sample-IsSent (omega arith) (omega arith)
