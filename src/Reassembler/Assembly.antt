-- ===== src/Reassembler/Assembly.antt =====
-- The collection of fragments in `Reassembler::handle_data` and `Reassembler::try_assemble` of
-- tight/src/reassembler.cpp, over `IncomingMessage` of tight/src/peer.hpp. The warnings that are
-- logged are left out.
pub mod Within
pub mod Delivered
pub mod Overrun
use damen.Common.{
  ℕ, zero, suc, ◌+◌, ◌-◌, ◌/◌, min, max, List, [], ◌∷◌, ◌++◌, Option, none, some, Bool, true, false,
  ◌==◌, not, ltb, leb, if◌then◌else◌, length, take, drop, get_elem?, get_or, set, replicate,
}
use damen.Common.Bytes.{u16}
use damen.Common.OrdMap.{OrdMap, lookup, assign, erase}
use damen.Wire.Codec.{PacketHeader}
use damen.Fec.Code.{Bytes, decode}
use damen.Reassembler.Build.{build_msg}

-- The counts and the sizes are 16-bit numbers: they are taken as they stand from fields of the
-- header that have 16 bits too.
pub record IncomingMessage : Type 0 where
  pub message_id : ℕ
  pub total_count : ℕ
  pub data_count : ℕ
  pub fragments : List (Option Bytes)
  pub sizes : List ℕ
  pub first_seen : ℕ

-- What `try_assemble` comes to: the message is delivered; or it is not; or the code indexes
-- `m_fragments` or `m_sizes` past its end, where its behaviour is undefined.
pub data Outcome : Type 0 where
  delivered : Bytes → Outcome
  incomplete : Outcome
  out_of_bounds : Outcome

unfoldable pub present : List (Option Bytes) → ℕ
present [] = 0
present (none ∷ fragments) = present fragments
present (some f ∷ fragments) = suc (present fragments)

-- The pieces that `build_msg` reads off the fragments and their sizes.
unfoldable pub pieces_of : List (Option Bytes) → List ℕ → List Bytes
pieces_of (some f ∷ fragments) (size ∷ sizes) =
    take (min size (length f)) f ∷ pieces_of fragments sizes
pieces_of (none ∷ fragments) (size ∷ sizes) = [] ∷ pieces_of fragments sizes
pieces_of _ _ = []

unfoldable pub widest : List (Option Bytes) → ℕ
widest [] = 0
widest (none ∷ fragments) = widest fragments
widest (some f ∷ fragments) = max (length f) (widest fragments)

-- The parities at hand, from parity `p` on.
unfoldable pub parities_from : ℕ → List (Option Bytes) → List (ℕ × Bytes)
parities_from p [] = []
parities_from p (none ∷ fragments) = parities_from (p + 1) fragments
parities_from p (some f ∷ fragments) = (p, f) ∷ parities_from (p + 1) fragments

-- A fragment that was restored counts with the whole width.
unfoldable pub restored_sizes : ℕ → List (Option Bytes) → List ℕ → List ℕ
restored_sizes width (none ∷ fragments) (size ∷ sizes) =
    u16 width ∷ restored_sizes width fragments sizes
restored_sizes width (some f ∷ fragments) (size ∷ sizes) =
    size ∷ restored_sizes width fragments sizes
restored_sizes width _ _ = []

unfoldable pub data_count_of : IncomingMessage → ℕ
data_count_of m = if ltb 0 m.data_count then m.data_count else m.total_count - 1

-- The end of `try_assemble`, with the erasure code's result: the sizes are indexed by the data
-- fragments.
unfoldable pub deliver_restored :
    ℕ → ℕ → List (Option Bytes) → List ℕ → Option (List (Option Bytes)) → Outcome
deliver_restored max_message_bytes width fragments sizes none = incomplete
deliver_restored max_message_bytes width fragments sizes (some restored) =
    if ltb (length sizes) (length fragments)
    then out_of_bounds
    else delivered
        (build_msg max_message_bytes (pieces_of restored (restored_sizes width fragments sizes)))

unfoldable pub recover : ℕ → ℕ → IncomingMessage → Outcome
recover max_message_bytes data_count m =
    let data_frags = take data_count m.fragments in
    let multi = data_count - present data_frags in
    let width = widest m.fragments in
    let parities =
      parities_from 0 (take (m.total_count - data_count) (drop data_count m.fragments)) in
    if ltb (m.total_count - data_count) multi
    then incomplete
    else if multi == 0
    then incomplete
    else if width == 0
    then incomplete
    else if ltb (length parities) multi
    then incomplete
    else deliver_restored max_message_bytes width data_frags m.sizes
        (decode data_frags parities width)

-- All data fragments are there: `build_msg` indexes the sizes by them.
unfoldable pub whole_message : ℕ → ℕ → IncomingMessage → Outcome
whole_message max_message_bytes data_count m =
    if ltb (length m.sizes) data_count
    then out_of_bounds
    else delivered (build_msg max_message_bytes (pieces_of (take data_count m.fragments) m.sizes))

unfoldable pub try_assemble : ℕ → IncomingMessage → Outcome
try_assemble max_message_bytes m =
    let data_count = data_count_of m in
    if ltb m.total_count 2
    then incomplete
    else if ltb (length m.fragments) data_count
    then out_of_bounds
    else if present (take data_count m.fragments) == data_count
    then whole_message max_message_bytes data_count m
    else recover max_message_bytes data_count m

-- The maps of the peer: the messages under way, and those delivered, with the time.
pub record CollectState : Type 0 where
  pub incoming : OrdMap IncomingMessage
  pub completed : OrdMap ℕ

-- The entry of a message before its first fragment.
abbrev pub blank_message : IncomingMessage
blank_message = record {
  message_id = 0;
  total_count = 0;
  data_count = 0;
  fragments = [];
  sizes = [];
  first_seen = 0;
}

abbrev pub entry_of : Option IncomingMessage → IncomingMessage
entry_of none = blank_message
entry_of (some m) = m

unfoldable pub opened : IncomingMessage → PacketHeader → ℕ → IncomingMessage
opened m header now =
    if m.message_id == 0
    then record {
      message_id = header.message_id;
      total_count = header.fragment_count;
      data_count = header.flags;
      fragments = replicate header.fragment_count none;
      sizes = replicate header.fragment_count 0;
      first_seen = now;
    }
    else m

-- The first fragment that comes under an index stays. What stands under the index in `m_fragments`
-- is the first argument; `none` is an index out of bounds, here and in the result.
unfoldable pub stored :
    Option (Option Bytes) → IncomingMessage → PacketHeader → Bytes → Option IncomingMessage
stored none m header payload = none
stored (some (some f)) m header payload = some m
stored (some none) m header payload =
    if ltb header.fragment_index (length m.sizes)
    then some (record m {
      fragments = set m.fragments header.fragment_index (some payload);
      sizes = set m.sizes header.fragment_index header.reserved;
    })
    else none

-- What a packet brings: nothing or a message, and the maps after it; or the index out of bounds.
pub data Collected : Type 0 where
  collected : Option Bytes → CollectState → Collected
  overrun : Collected

unfoldable pub settle : Outcome → CollectState → ℕ → ℕ → Collected
settle (delivered message) st message_id now = collected (some message) (record {
  incoming = erase message_id st.incoming;
  completed = assign message_id now st.completed;
})
settle incomplete st message_id now = collected none st
settle out_of_bounds st message_id now = overrun

unfoldable pub assemble_into : ℕ → CollectState → ℕ → ℕ → Option IncomingMessage → Collected
assemble_into max_message_bytes st message_id now none = overrun
assemble_into max_message_bytes st message_id now (some full) =
    settle (try_assemble max_message_bytes full)
      (record st { incoming = assign message_id full st.incoming }) message_id now

-- From the entry of the message on. `st` has the entry as it stands when the call returns.
unfoldable pub collect_into :
    ℕ → CollectState → PacketHeader → Bytes → ℕ → IncomingMessage → Collected
collect_into max_message_bytes st header payload now m =
    let kept = record st { incoming = assign header.message_id m st.incoming } in
    let full = stored (get_elem? m.fragments header.fragment_index) m header payload in
    if not (m.total_count == header.fragment_count)
    then collected none kept
    else if not (ltb header.fragment_index (length m.fragments))
    then collected none kept
    else assemble_into max_message_bytes st header.message_id now full

unfoldable pub is_completed : Option ℕ → Bool
is_completed none = false
is_completed (some t) = true

-- `handle_data` from the test of the fragment count on.
unfoldable pub collect : ℕ → CollectState → PacketHeader → Bytes → ℕ → Collected
collect max_message_bytes st header payload now =
    if header.fragment_count == 0
    then collected none st
    else if is_completed (lookup header.message_id st.completed)
    then collected none st
    else if not (ltb header.fragment_index header.fragment_count)
    then collected none st
    else if ltb (max_message_bytes / 64 + 8) header.fragment_count
    then collected none st
    else collect_into max_message_bytes st header payload now
        (opened (entry_of (lookup header.message_id st.incoming)) header now)
