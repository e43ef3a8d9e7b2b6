-- ===== src/Wire/Codec/Layout.antt =====
-- The 48 bytes that `encode_header_to` of tight/src/packet_codec.cpp lays down.
use damen.Common.{
  ℕ, zero, suc, ◌/◌, ◌%◌, ◌^◌, ◌≤◌, ◌<◌, ◌≡◌, refl, sym, ap, ◌∙◌, arith, List, [], ◌∷◌, ◌++◌,
  length, drop, get_or,
}
use damen.Common.Bytes.{be16, be32, memcpy_to}
use damen.Wire.Endian.{mem16-to_be16, mem32-to_be32, mem64-to_be64}
use damen.Wire.Codec.{PacketHeader, put16, put32, put64, encode_header_to}

-- Every field is within its width.
pub record IsHeader (h : PacketHeader) : Type 0 where
  pub magic_lt : h.magic < 2 ^ 32
  pub version_lt : h.version < 2 ^ 8
  pub type_lt : h.packet_type < 2 ^ 8
  pub flags_lt : h.flags < 2 ^ 16
  pub client_lt : h.client_id < 2 ^ 32
  pub session_lt : h.session_id < 2 ^ 64
  pub sequence_lt : h.sequence < 2 ^ 32
  pub acknowledgment_lt : h.acknowledgment < 2 ^ 32
  pub message_lt : h.message_id < 2 ^ 32
  pub index_lt : h.fragment_index < 2 ^ 16
  pub count_lt : h.fragment_count < 2 ^ 16
  pub size_lt : h.payload_size < 2 ^ 16
  pub reserved_lt : h.reserved < 2 ^ 16
  pub tick_lt : h.tick < 2 ^ 32

-- The header up to the checksum: every field in network order, but for the session number, whose
-- low half comes first.
abbrev pub header_bytes : PacketHeader → List ℕ
header_bytes h =
    be32 h.magic
    ++ (h.version ∷ h.packet_type ∷ be16 h.flags)
    ++ be32 h.client_id
    ++ be32 (h.session_id % 2 ^ 32)
    ++ be32 (h.session_id / 2 ^ 32)
    ++ be32 h.sequence
    ++ be32 h.acknowledgment
    ++ be32 h.message_id
    ++ be16 h.fragment_index
    ++ be16 h.fragment_count
    ++ be16 h.payload_size
    ++ be16 h.reserved
    ++ be32 h.tick

-- A stored word is the word in network order.
put16-be16 : (p : List ℕ) (off v : ℕ) → v < 2 ^ 16 → put16 p off v ≡ memcpy_to p off (be16 v)
unfolding put16
put16-be16 p off v h = ap (memcpy_to p off) (mem16-to_be16 v h)

put32-be32 : (p : List ℕ) (off v : ℕ) → v < 2 ^ 32 → put32 p off v ≡ memcpy_to p off (be32 v)
unfolding put32
put32-be32 p off v h = ap (memcpy_to p off) (mem32-to_be32 v h)

put64-be32 :
    (p : List ℕ) (off v : ℕ)
    → v < 2 ^ 64
    → put64 p off v ≡ memcpy_to p off (be32 (v % 2 ^ 32) ++ be32 (v / 2 ^ 32))
unfolding put64
put64-be32 p off v h = ap (memcpy_to p off) (mem64-to_be64 v h)

-- The first `n` elements of a list, taken one by one.
abbrev firsts : ℕ → List ℕ → List ℕ
firsts zero xs = []
firsts (suc n) xs = get_or xs 0 0 ∷ firsts n (drop 1 xs)

firsts-rest : (n : ℕ) (xs : List ℕ) → n ≤ length xs → firsts n xs ++ drop n xs ≡ xs
firsts-rest zero xs h = refl
firsts-rest (suc n) [] h = absurd (omega arith)
firsts-rest (suc n) (x ∷ xs) h = ap (◌∷◌ x) (firsts-rest n xs (omega arith))

encode_header_to-firsts :
    (h : PacketHeader) (out rest : List ℕ)
    → IsHeader h
    → encode_header_to h (firsts 48 out ++ rest) ≡ header_bytes h ++ (0 ∷ 0 ∷ 0 ∷ 0 ∷ rest)
unfolding encode_header_to
encode_header_to-firsts h out rest v = simp (
  λ (p : List ℕ). put32-be32 p 0 h.magic v.magic_lt,
  λ (p : List ℕ). put16-be16 p 6 h.flags v.flags_lt,
  λ (p : List ℕ). put32-be32 p 8 h.client_id v.client_lt,
  λ (p : List ℕ). put64-be32 p 12 h.session_id v.session_lt,
  λ (p : List ℕ). put32-be32 p 20 h.sequence v.sequence_lt,
  λ (p : List ℕ). put32-be32 p 24 h.acknowledgment v.acknowledgment_lt,
  λ (p : List ℕ). put32-be32 p 28 h.message_id v.message_lt,
  λ (p : List ℕ). put16-be16 p 32 h.fragment_index v.index_lt,
  λ (p : List ℕ). put16-be16 p 34 h.fragment_count v.count_lt,
  λ (p : List ℕ). put16-be16 p 36 h.payload_size v.size_lt,
  λ (p : List ℕ). put16-be16 p 38 h.reserved v.reserved_lt,
  λ (p : List ℕ). put32-be32 p 40 h.tick v.tick_lt,
  λ (p : List ℕ). put32-be32 p 44 0 (omega arith),
)

-- Whatever a buffer of 48 bytes at least held, its first 48 bytes are then the header's and the
-- checksum's zeros, and the rest is as it was. The fields are within their widths.
pub encode_header_to-layout :
    (h : PacketHeader) (out : List ℕ)
    → IsHeader h
    → 48 ≤ length out
    → encode_header_to h out ≡ header_bytes h ++ (0 ∷ 0 ∷ 0 ∷ 0 ∷ drop 48 out)
encode_header_to-layout h out v room =
    ap (encode_header_to h) (sym (firsts-rest 48 out room))
    ∙ encode_header_to-firsts h out (drop 48 out) v
