-- ===== src/Wire/Codec/Reencode.antt =====
-- `PacketCodec::encode` after `PacketCodec::decode`, of tight/src/packet_codec.cpp.
use damen.Common.{
  ℕ, zero, suc, ◌+◌, ◌*◌, ◌/◌, ◌%◌, ◌^◌, ◌≤◌, ◌<◌, ◌≡◌, refl, sym, subst, ap, ap₂, ◌∙◌, arith,
  bit_or, List, [], ◌∷◌, ◌++◌, some, length, take, drop, get_or, rejoined,
}
use damen.Common.Bits.Masks.{bit_or_field}
use damen.Common.Bytes.{be16, be32, word16, word32, AllBytes}
use damen.Wire.Endian.{to_be16, to_be32, to_be16_sum, to_be32_sum, to_be32-lt}
use damen.Wire.Codec.{PacketHeader, encode, read_header, received_crc, decode}
use damen.Wire.Codec.Layout.{IsHeader, header_bytes}
use damen.Wire.Codec.RoundTrip.{frame, frame_crc, encode-frame, received_crc-frame}
use damen.Wire.Codec.Refused.{IsAccepted, checked-IsAccepted, checked_header}

-- The `n` elements of a list from place `i` on.
abbrev places : ℕ → ℕ → List ℕ → List ℕ
places zero i xs = []
places (suc n) i xs = get_or xs i 0 ∷ places n (i + 1) xs

get_or-byte : (p : List ℕ) (i : ℕ) → AllBytes p → get_or p i 0 < 256
get_or-byte [] i h = omega arith
get_or-byte (b ∷ p) zero h = h.0
get_or-byte (b ∷ p) (suc i) h = get_or-byte p i h.1

places-later : (n i : ℕ) (b : ℕ) (p : List ℕ) → places n (suc i) (b ∷ p) ≡ places n i p
places-later zero i b p = refl
places-later (suc n) i b p =
    ap (◌∷◌ (get_or p i 0)) (ap (λ j. places n j (b ∷ p)) next ∙ places-later n (i + 1) b p)
  where
    next : suc i + 1 ≡ suc (i + 1)
    next = omega arith

-- Bytes read as a word in network order are that word's bytes.
read_word16 : (a b : ℕ) → a < 256 → b < 256 → be16 (to_be16 (word16 a b)) ≡ a ∷ b ∷ []
read_word16 a b ha hb = ground (arith, to_be16_sum (word16 a b) (omega arith))

read_word32 :
    (a b c d : ℕ)
    → a < 256
    → b < 256
    → c < 256
    → d < 256
    → be32 (to_be32 (word32 a b c d)) ≡ a ∷ b ∷ c ∷ d ∷ []
read_word32 a b c d ha hb hc hd = ground (arith, sum)
  where
    sum : to_be32 (word32 a b c d) ≡ a * 16777216 + b * 65536 + c * 256 + d
    sum = omega (arith, to_be32_sum (word32 a b c d) (omega arith))

join : {xs us ys vs : List ℕ} → xs ≡ us → ys ≡ vs → xs ++ ys ≡ us ++ vs
join e f = ap₂ (λ (xs ys : List ℕ). xs ++ ys) e f

module _ (p : List ℕ) (bytes : AllBytes p) where
  byte_at : (i : ℕ) → get_or p i 0 < 256
  byte_at i = get_or-byte p i bytes

  abbrev read16 : ℕ → ℕ
  read16 i = to_be16 (word16 (get_or p i 0) (get_or p (i + 1) 0))

  abbrev read32 : ℕ → ℕ
  read32 i =
      to_be32 (word32 (get_or p i 0) (get_or p (i + 1) 0) (get_or p (i + 2) 0) (get_or p (i + 3) 0))

  read16-lt : (i : ℕ) → read16 i < 2 ^ 16
  read16-lt i = omega (
    arith,
    byte_at i,
    byte_at (i + 1),
    to_be16_sum (word16 (get_or p i 0) (get_or p (i + 1) 0))
        (omega (arith, byte_at i, byte_at (i + 1))),
  )

  read32-lt : (i : ℕ) → read32 i < 2 ^ 32
  read32-lt i =
      to_be32-lt
        (word32 (get_or p i 0) (get_or p (i + 1) 0) (get_or p (i + 2) 0) (get_or p (i + 3) 0))
        (omega (arith, byte_at i, byte_at (i + 1), byte_at (i + 2), byte_at (i + 3)))

  written16 : (i : ℕ) → be16 (read16 i) ≡ places 2 i p
  written16 i = read_word16 (get_or p i 0) (get_or p (i + 1) 0) (byte_at i) (byte_at (i + 1))

  written32 :
      (i : ℕ)
      → be32 (read32 i)
        ≡ get_or p i 0 ∷ get_or p (i + 1) 0 ∷ get_or p (i + 2) 0 ∷ get_or p (i + 3) 0 ∷ []
  written32 i =
      read_word32 (get_or p i 0) (get_or p (i + 1) 0) (get_or p (i + 2) 0) (get_or p (i + 3) 0)
        (byte_at i) (byte_at (i + 1)) (byte_at (i + 2)) (byte_at (i + 3))

  -- The session number, from its two halves.
  session_sum : (read_header p).session_id ≡ read32 16 * 2 ^ 32 + read32 12
  unfolding read_header
  session_sum =
      let high = read32-lt 16 in
      let low = read32-lt 12 in
      ap (λ t. bit_or t (read32 12)) (omega arith) ∙ bit_or_field 32 (read32 16) (read32 12) low

  read_header-IsHeader : IsHeader (read_header p)
  unfolding read_header
  read_header-IsHeader = record {
    magic_lt = read32-lt 0;
    version_lt = byte_at 4;
    type_lt = byte_at 5;
    flags_lt = read16-lt 6;
    client_lt = read32-lt 8;
    session_lt = omega (arith, session_sum, read32-lt 16, read32-lt 12);
    sequence_lt = read32-lt 20;
    acknowledgment_lt = read32-lt 24;
    message_lt = read32-lt 28;
    index_lt = read16-lt 32;
    count_lt = read16-lt 34;
    size_lt = read16-lt 36;
    reserved_lt = read16-lt 38;
    tick_lt = read32-lt 40;
  }

  header_bytes-read_header :
      header_bytes (read_header p) ++ be32 (read_header p).checksum ≡ places 48 0 p
  unfolding read_header
  header_bytes-read_header =
      let low : (read_header p).session_id % 2 ^ 32 ≡ read32 12 =
        omega (arith, session_sum, read32-lt 12, read32-lt 16) in
      let high : (read_header p).session_id / 2 ^ 32 ≡ read32 16 =
        omega (arith, session_sum, read32-lt 12, read32-lt 16) in
      join (written32 0) (
        ap (λ (t : List ℕ). get_or p 4 0 ∷ get_or p 5 0 ∷ t)
          (join (written16 6) (
            join (written32 8) (
              join (ap be32 low ∙ written32 12) (
                join (ap be32 high ∙ written32 16) (
                  join (written32 20) (
                    join (written32 24) (
                      join (written32 28) (
                        join (written16 32) (
                          join (written16 34) (
                            join (written16 36)
                              (join (written16 38) (join (written32 40) (written32 44))))))))))))))

places-take : (n i : ℕ) (p : List ℕ) → i + n ≤ length p → places n i p ≡ take n (drop i p)
places-take zero i p h = refl
places-take (suc n) zero [] h = absurd (omega arith)
places-take (suc n) zero (b ∷ p) h =
    ap (◌∷◌ b) (places-later n 0 b p ∙ places-take n 0 p (omega arith))
places-take (suc n) (suc i) [] h = absurd (omega arith)
places-take (suc n) (suc i) (b ∷ p) h =
    places-later (suc n) i b p ∙ places-take (suc n) i p (omega arith)

AllBytes-take : (n : ℕ) (p : List ℕ) → AllBytes p → AllBytes (take n p)
AllBytes-take zero p h = tt
AllBytes-take (suc n) [] h = tt
AllBytes-take (suc n) (b ∷ p) h = (h.0, AllBytes-take n p h.1)

AllBytes-drop : (n : ℕ) (p : List ℕ) → AllBytes p → AllBytes (drop n p)
AllBytes-drop zero p h = h
AllBytes-drop (suc n) [] h = tt
AllBytes-drop (suc n) (b ∷ p) h = AllBytes-drop n p h.1

-- A datagram is the header read off it, the checksum read off it, and what follows.
datagram :
    (p : List ℕ)
    → AllBytes p
    → 48 ≤ length p
    → p ≡ frame (read_header p) (read_header p).checksum (drop 48 p)
datagram p bytes whole =
    sym (rejoined 48 p)
    ∙ ap (λ (t : List ℕ). t ++ drop 48 p) (sym (places-take 48 0 p whole))
    ∙ ap (λ (t : List ℕ). t ++ drop 48 p) (sym (header_bytes-read_header p bytes))

-- An accepted datagram of bytes is what `encode` makes of the header and the payload it was decoded
-- to, followed by the bytes behind the payload: so nothing else is accepted, and each field is read
-- from where it is written.
pub encode-decode :
    (p payload : List ℕ) (h : PacketHeader)
    → AllBytes p
    → decode p ≡ some (h, payload)
    → p ≡ encode h payload ++ drop h.payload_size (drop 48 p)
unfolding decode
encode-decode p payload h bytes e =
    framed
    ∙ ap (λ c. frame h c (payload ++ extra)) (sym accepted.checksum_right ∙ crc_same)
    ∙ ap (λ (t : List ℕ). t ++ extra) (sym (encode-frame h payload is_header payload_bytes))
  where
    accepted : IsAccepted p h payload
    accepted = checked-IsAccepted p (read_header p) h payload e

    same : read_header p ≡ h
    same = checked_header p (read_header p) h payload e

    is_header : IsHeader h
    is_header = subst IsHeader same (read_header-IsHeader p bytes)

    extra : List ℕ
    extra = drop h.payload_size (drop 48 p)

    payload_bytes : AllBytes payload
    payload_bytes =
        subst AllBytes (sym accepted.payload_bytes)
          (AllBytes-take h.payload_size (drop 48 p) (AllBytes-drop 48 p bytes))

    parts : drop 48 p ≡ payload ++ extra
    parts =
        sym (rejoined h.payload_size (drop 48 p))
        ∙ ap (λ (t : List ℕ). t ++ extra) (sym accepted.payload_bytes)

    framed : p ≡ frame h h.checksum (payload ++ extra)
    framed =
        datagram p bytes accepted.header_whole
        ∙ ap₂ (λ (q : PacketHeader) (t : List ℕ). frame q q.checksum t) same parts

    crc_same : received_crc p h.payload_size ≡ frame_crc h payload
    crc_same =
        ap₂ received_crc framed (sym accepted.payload_length)
        ∙ received_crc-frame h h.checksum payload extra
