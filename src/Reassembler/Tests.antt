-- ===== src/Reassembler/Tests.antt =====
-- Runs of the reassembler, and each of its properties at a concrete state.
use damen.Common.{ℕ, ◌+◌, ◌-◌, ◌<◌, ◌≤◌, ◌≡◌, refl, arith, List, [], ◌∷◌, none, length}
use damen.Common.OrdMap.{lookup, emplace, erase}
use damen.Wire.Endian.{magic_number, protocol_version}
use damen.Wire.PacketType.{data_packet}
use damen.Wire.Codec.{PacketHeader}
use damen.Fec.Code.{Bytes}
use damen.Reassembler.Track.{
  count, add_missing, consume, consume_all, track_numbered, track, track_all, untracked,
}
use damen.Reassembler.Track.Acked.{Arrived}
use damen.Reassembler.Track.Cursor.{cursor_missing}
use damen.Reassembler.Track.Reordered.{tracking, track_reordered}
use damen.Reassembler.Build.{build_msg}
use damen.Reassembler.Build.Stream.{stream}
use damen.Reassembler.Build.Message.{length-build_msg}
use damen.Reassembler.Assembly.{CollectState, delivered, try_assemble, overrun, collect}
use damen.Reassembler.Assembly.Within.{InBounds, collect-InBounds}
use damen.Reassembler.Assembly.Delivered.{gathered, try_assemble-message}
use damen.Reassembler.Assembly.Overrun.{collect_overrun}

-- Packets 5, 7, 6 and 9: the cursor comes to 8.
abbrev later_packets : List (ℕ × ℕ)
later_packets = (7, 20) ∷ (6, 30) ∷ (9, 40) ∷ []

cursor_at_eight : (track_all untracked ((5, 10) ∷ later_packets)).next_expected_seq ≡ 8
unfolding track_all track track_numbered consume_all consume count add_missing lookup emplace erase
cursor_at_eight = refl

abbrev cursor : ℕ
cursor = (track_all untracked ((5, 10) ∷ later_packets)).next_expected_seq

cursor_missing_example :
    (5 < cursor)
    × ((n : ℕ) → 5 ≤ n → n < cursor → Arrived ((5, 10) ∷ later_packets) n)
    × ¬ Arrived ((5, 10) ∷ later_packets) cursor
cursor_missing_example = cursor_missing 5 10 later_packets (
  omega arith,
  omega arith,
  (omega arith, omega arith, (omega arith, omega arith, (omega arith, omega arith, tt))),
)

track_reordered_example :
    track (track (tracking [] [] 5) (5 + 1) 100) 5 200 ≡ tracking (emplace 5 100 []) [] (5 + 2)
track_reordered_example = track_reordered 5 100 200 [] (omega arith) (omega arith)

-- A message of three bytes, cut after its fifth byte, with padding behind it.
abbrev two_pieces : List Bytes
two_pieces = (0 ∷ 0 ∷ 0 ∷ 3 ∷ 10 ∷ []) ∷ (20 ∷ 30 ∷ 0 ∷ 0 ∷ 0 ∷ []) ∷ []

length-build_msg_example :
    (length (build_msg 1000 two_pieces) ≤ 1000)
    × (length (build_msg 1000 two_pieces) ≤ length (stream two_pieces) - 4)
length-build_msg_example = length-build_msg 1000 two_pieces

try_assemble-message_example :
    try_assemble 1000 (gathered 1 8 two_pieces (none ∷ []) (0 ∷ []) 50)
    ≡ delivered (10 ∷ 20 ∷ 30 ∷ [])
try_assemble-message_example =
    try_assemble-message 1000 1 8 50 two_pieces (none ∷ []) (0 ∷ []) (10 ∷ 20 ∷ 30 ∷ [])
      (0 ∷ 0 ∷ 0 ∷ []) (omega arith) (omega arith) (omega arith, (omega arith, tt)) (omega arith)
      (omega arith) refl

-- The first fragment of a message of two; `flags` holds the number of its data fragments.
abbrev first_fragment : ℕ → PacketHeader
first_fragment flags = record {
  magic = magic_number;
  version = protocol_version;
  packet_type = data_packet;
  flags = flags;
  client_id = 7;
  session_id = 1;
  sequence = 42;
  acknowledgment = 0;
  message_id = 3;
  fragment_index = 0;
  fragment_count = 2;
  payload_size = 5;
  reserved = 5;
  tick = 0;
  checksum = 0;
}

abbrev nothing_yet : CollectState
nothing_yet = record { incoming = []; completed = [] }

collect-InBounds_example :
    InBounds (collect 1000 nothing_yet (first_fragment 1) (0 ∷ 0 ∷ 0 ∷ 1 ∷ 10 ∷ []) 60)
collect-InBounds_example =
    collect-InBounds 1000 nothing_yet (first_fragment 1) (0 ∷ 0 ∷ 0 ∷ 1 ∷ 10 ∷ []) 60 (omega arith)
      tt

message_new : lookup 3 nothing_yet.incoming ≡ none
unfolding lookup
message_new = refl

message_open : lookup 3 nothing_yet.completed ≡ none
unfolding lookup
message_open = refl

collect_overrun_example :
    collect 1000 nothing_yet (first_fragment 3) (0 ∷ 0 ∷ 0 ∷ 1 ∷ 10 ∷ []) 60 ≡ overrun
collect_overrun_example =
    collect_overrun 1000 nothing_yet (first_fragment 3) (0 ∷ 0 ∷ 0 ∷ 1 ∷ 10 ∷ []) 60 message_new
      message_open (omega arith) (omega arith) (omega arith) (omega arith)
