-- ===== src/Reassembler/Assembly/Delivered.antt =====
-- `try_assemble` of tight/src/reassembler.cpp where all data fragments are there.
use damen.Common.{
  ℕ, zero, suc, ◌+◌, ◌-◌, ◌^◌, ◌≤◌, ◌<◌, ◌≡◌, refl, ap, ap₂, ◌∙◌, arith, min, List, [], ◌∷◌, ◌++◌,
  Option, some, map, length, take, replicate, length-append, take-append, le→ltb, lt→ltb, ==_self,
}
use damen.Common.Bytes.{be32}
use damen.Fec.Code.{Bytes}
use damen.Reassembler.Build.Stream.{stream}
use damen.Reassembler.Build.Message.{build_msg-message}
use damen.Reassembler.Assembly.{
  IncomingMessage, delivered, present, pieces_of, data_count_of, whole_message, try_assemble,
}

-- A fragment on the wire: padded to the width with zeros.
abbrev pub padded : ℕ → Bytes → Bytes
padded width f = take width f ++ replicate (width - length f) 0

abbrev pub on_wire : ℕ → List Bytes → List (Option Bytes)
on_wire width [] = []
on_wire width (f ∷ data_frags) = some (padded width f) ∷ on_wire width data_frags

-- No fragment is longer than the width.
abbrev pub AllFit : ℕ → List Bytes → Type 0
AllFit width [] = Unit
AllFit width (f ∷ data_frags) = (length f ≤ width) × AllFit width data_frags

-- The entry of a message of which the data fragments came, each padded to the width and with its
-- own size, and perhaps parities.
abbrev pub gathered : ℕ → ℕ → List Bytes → List (Option Bytes) → List ℕ → ℕ → IncomingMessage
gathered message_id width data_frags parities parity_sizes seen = record {
  message_id = message_id;
  total_count = length data_frags + length parities;
  data_count = length data_frags;
  fragments = on_wire width data_frags ++ parities;
  sizes = map length data_frags ++ parity_sizes;
  first_seen = seen;
}

length-on_wire :
    (width : ℕ) (data_frags : List Bytes) → length (on_wire width data_frags) ≡ length data_frags
length-on_wire width [] = refl
length-on_wire width (f ∷ data_frags) = ap suc (length-on_wire width data_frags)

length-sizes : (data_frags : List Bytes) → length (map length data_frags) ≡ length data_frags
length-sizes [] = refl
length-sizes (f ∷ data_frags) = ap suc (length-sizes data_frags)

take-gathered :
    (width : ℕ) (data_frags : List Bytes) (parities : List (Option Bytes))
    → take (length data_frags) (on_wire width data_frags ++ parities) ≡ on_wire width data_frags
take-gathered width [] parities = refl
take-gathered width (f ∷ data_frags) parities =
    ap (◌∷◌ (some (padded width f))) (take-gathered width data_frags parities)

present-on_wire :
    (width : ℕ) (data_frags : List Bytes) → present (on_wire width data_frags) ≡ length data_frags
unfolding present
present-on_wire width [] = refl
present-on_wire width (f ∷ data_frags) = ap suc (present-on_wire width data_frags)

take_past : (n : ℕ) (xs : Bytes) → length xs ≤ n → take n xs ≡ xs
take_past zero [] h = refl
take_past zero (x ∷ xs) h = absurd (omega arith)
take_past (suc n) [] h = refl
take_past (suc n) (x ∷ xs) h = ap (◌∷◌ x) (take_past n xs (omega arith))

-- What counts of a padded fragment is the fragment.
take-padded :
    (width : ℕ) (f : Bytes)
    → length f ≤ width
    → take (min (length f) (length (padded width f))) (padded width f) ≡ f
take-padded width f h =
    ap (λ k. take k (padded width f)) counted
    ∙ ap (λ (t : Bytes). take (length f) (t ++ replicate (width - length f) 0)) whole
    ∙ take-append f (replicate (width - length f) 0)
  where
    whole : take width f ≡ f
    whole = take_past width f h

    counted : min (length f) (length (padded width f)) ≡ length f
    counted =
        omega
          (arith, length-append (take width f) (replicate (width - length f) 0), ap length whole)

pieces_of-on_wire :
    (width : ℕ) (data_frags : List Bytes) (parity_sizes : List ℕ)
    → AllFit width data_frags
    → pieces_of (on_wire width data_frags) (map length data_frags ++ parity_sizes) ≡ data_frags
unfolding pieces_of
pieces_of-on_wire width [] parity_sizes h = refl
pieces_of-on_wire width (f ∷ data_frags) parity_sizes h =
    ap₂ (λ (x : Bytes) (xs : List Bytes). x ∷ xs) (take-padded width f h.0)
      (pieces_of-on_wire width data_frags parity_sizes h.1)

-- Once all data fragments of a message are there, at least one of them and at least two fragments
-- in all, the message is delivered, if it is within the limit: wherever the length prefix and the
-- message were cut, with the fragments padded on the wire to a width that holds each of them,
-- whatever padding follows the message, and whichever parities came.
pub try_assemble-message :
    (max_message_bytes message_id width seen : ℕ) (data_frags : List Bytes)
    (parities : List (Option Bytes)) (parity_sizes : List ℕ) (payload padding : Bytes)
    → 0 < length data_frags
    → 2 ≤ length data_frags + length parities
    → AllFit width data_frags
    → length payload < 2 ^ 32
    → length payload ≤ max_message_bytes
    → stream data_frags ≡ be32 (length payload) ++ (payload ++ padding)
    → try_assemble max_message_bytes
        (gathered message_id width data_frags parities parity_sizes seen)
      ≡ delivered payload
unfolding try_assemble whole_message data_count_of
try_assemble-message max_message_bytes message_id width seen data_frags parities parity_sizes
      payload padding some_data two fit fits within e =
    rw
      (
        lt→ltb 0 (length data_frags) some_data,
        le→ltb (length data_frags + length parities) 2 two,
        le→ltb (length (on_wire width data_frags ++ parities)) (length data_frags) enough,
        take-gathered width data_frags parities,
        present-on_wire width data_frags,
        ==_self (length data_frags),
        le→ltb (length (map length data_frags ++ parity_sizes)) (length data_frags) sized,
        pieces_of-on_wire width data_frags parity_sizes fit,
      )
      (ap delivered (build_msg-message max_message_bytes data_frags payload padding fits within e))
  where
    sized : length data_frags ≤ length (map length data_frags ++ parity_sizes)
    sized =
        omega (arith, length-append (map length data_frags) parity_sizes, length-sizes data_frags)

    enough : length data_frags ≤ length (on_wire width data_frags ++ parities)
    enough =
        omega (
          arith,
          length-append (on_wire width data_frags) parities,
          length-on_wire width data_frags,
        )
