-- ===== src/Wire/Codec/Refused.antt =====
-- `PacketCodec::decode` of tight/src/packet_codec.cpp on any datagram, and on a damaged one.
use mathlib.Core.List.{append-nil}
use damen.Common.{
  ℕ, ◌+◌, ◌≤◌, ◌<◌, ◌≡◌, ◌≢◌, refl, sym, ap, subst, ◌∙◌, arith, Bool, false, not, List, [], ◌∷◌,
  ◌++◌, some, none, length, take, drop, ◌==◌, ltb, if◌then◌else◌, ltb-false→le, not-==→eq,
  length-append, length-take, length-drop, ==_ne,
}
use damen.Common.Bytes.{AllBytes-append, AllBytes-split}
use damen.Wire.Endian.{magic_number, protocol_version}
use damen.Wire.Crc.Errors.{crc32_compute_byte, crc32_compute-lt}
use damen.Wire.Codec.{PacketHeader, received_crc, checked, decode}
use damen.Wire.Codec.Layout.{header_bytes}
use damen.Wire.Codec.RoundTrip.{frame, frame_crc, IsSent, zeros, frame-AllBytes, decode-frame}

module _ (h : PacketHeader) (before : List ℕ) (sent received : ℕ) (after : List ℕ) where
  received-IsSent :
      IsSent h (before ++ (sent ∷ after)) → received < 256 → IsSent h (before ++ (received ∷ after))
  received-IsSent v hr = record {
    fits = v.fits;
    named = v.named;
    versioned = v.versioned;
    sized =
        v.sized
        ∙ omega
            (arith, length-append before (sent ∷ after), length-append before (received ∷ after));
    bytes =
        let parts = AllBytes-split before (sent ∷ after) v.bytes in
        AllBytes-append before (received ∷ after) parts.0 (hr, parts.1.1);
  }

  -- The checksums of the two payloads differ.
  crc-ne :
      IsSent h (before ++ (sent ∷ after))
      → received < 256
      → sent ≢ received
      → frame_crc h (before ++ (received ∷ after)) ≢ frame_crc h (before ++ (sent ∷ after))
  crc-ne v hr ne =
      let parts = AllBytes-split before (sent ∷ after) v.bytes in
      crc32_compute_byte (header_bytes h ++ (zeros ++ before)) received sent after
        (frame-AllBytes h before v.fits parts.0) parts.1.1 hr parts.1.0
        (λ e. ne (ap (λ t. t) (sym e)))

  -- A datagram whose payload was changed in one byte on the way, and is otherwise as it was sent,
  -- is refused.
  pub decode_corrupted :
      IsSent h (before ++ (sent ∷ after))
      → received < 256
      → sent ≢ received
      → decode (frame h (frame_crc h (before ++ (sent ∷ after))) (before ++ (received ∷ after)))
        ≡ none
  decode_corrupted v hr ne =
      ap (λ (t : List ℕ). decode (frame h crc t)) (sym (append-nil (before ++ (received ∷ after))))
      ∙ decode-frame h crc (before ++ (received ∷ after)) [] (received-IsSent v hr)
          (crc32_compute-lt _ (frame-AllBytes h (before ++ (sent ∷ after)) v.fits v.bytes))
      ∙ ap
          (λ b.
            if b then some (record h { checksum = crc }, before ++ (received ∷ after)) else none)
          (==_ne _ crc (crc-ne v hr ne))
    where
      crc : ℕ
      crc = frame_crc h (before ++ (sent ∷ after))

-- The tests of `decode`, passed by a datagram for a header and a payload.
pub record IsAccepted (p : List ℕ) (h : PacketHeader) (payload : List ℕ) : Type 0 where
  pub header_whole : 48 ≤ length p
  pub named : h.magic ≡ magic_number
  pub versioned : h.version ≡ protocol_version
  pub payload_whole : 48 + h.payload_size ≤ length p
  pub payload_length : length payload ≡ h.payload_size
  pub payload_bytes : payload ≡ take h.payload_size (drop 48 p)
  pub checksum_right : received_crc p h.payload_size ≡ h.checksum

five_tests {ℓ} :
    {A : Type ℓ} (a b c d e : Bool) (x y : A)
    → (if a
        then none
        else if b
        then none
        else if c
        then none
        else if d
        then none
        else if e
        then none
        else some x)
      ≡ some y
    → (a ≡ false) × (b ≡ false) × (c ≡ false) × (d ≡ false) × (e ≡ false) × (x ≡ y)
five_tests a b c d e x y h = ground arith

pub checked-IsAccepted :
    (p : List ℕ) (header h : PacketHeader) (payload : List ℕ)
    → checked p header ≡ some (h, payload)
    → IsAccepted p h payload
unfolding checked
checked-IsAccepted p header h payload e =
    subst (λ (r : PacketHeader × List ℕ). IsAccepted p r.0 r.1) passed.5
      (record {
        header_whole = ltb-false→le _ _ passed.0;
        named = not-==→eq _ _ passed.1;
        versioned = not-==→eq _ _ passed.2;
        payload_whole = whole;
        payload_length =
            omega (arith, length-take header.payload_size (drop 48 p), length-drop 48 p, whole);
        payload_bytes = refl;
        checksum_right = not-==→eq _ _ passed.4;
      })
  where
    passed :
        (ltb (length p) 48 ≡ false)
        × (not (header.magic == magic_number) ≡ false)
        × (not (header.version == protocol_version) ≡ false)
        × (ltb (length p) (48 + header.payload_size) ≡ false)
        × (not (received_crc p header.payload_size == header.checksum) ≡ false)
        × (◌≡◌ {A = PacketHeader × List ℕ}
            (header, take header.payload_size (drop 48 p))
            (h, payload))
    passed = five_tests _ _ _ _ _ _ _ e

    whole : 48 + header.payload_size ≤ length p
    whole = ltb-false→le _ _ passed.3

-- The header that is handed on is the one that was read.
pub checked_header :
    (p : List ℕ) (header h : PacketHeader) (payload : List ℕ)
    → checked p header ≡ some (h, payload)
    → header ≡ h
unfolding checked
checked_header p header h payload e =
    ap (λ (r : PacketHeader × List ℕ). r.0)
      (five_tests (ltb (length p) 48) (not (header.magic == magic_number))
        (not (header.version == protocol_version)) (ltb (length p) (48 + header.payload_size))
        (not (received_crc p header.payload_size == header.checksum))
        (header, take header.payload_size (drop 48 p)) (h, payload) e).5
