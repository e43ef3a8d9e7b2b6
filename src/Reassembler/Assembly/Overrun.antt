-- ===== src/Reassembler/Assembly/Overrun.antt =====
-- `handle_data` of tight/src/reassembler.cpp on a packet that names more data fragments than
-- fragments.
use damen.Common.{
  ℕ, zero, suc, ◌+◌, ◌/◌, ◌≤◌, ◌<◌, ◌≡◌, refl, arith, List, Option, none, some, length, get_elem?,
  set, replicate, length-set, length-replicate, le→ltb, lt→ltb, ==_ne, ==_self,
}
use damen.Common.OrdMap.{lookup}
use damen.Wire.Codec.{PacketHeader}
use damen.Fec.Code.{Bytes}
use damen.Reassembler.Assembly.{
  IncomingMessage, out_of_bounds, data_count_of, try_assemble, CollectState, opened, stored,
  overrun, settle, assemble_into, collect_into, is_completed, collect,
}

-- An entry without any fragment.
abbrev empty_fragments : ℕ → List (Option Bytes)
empty_fragments n = replicate n none

abbrev no_size : ℕ
no_size = 0

abbrev zero_sizes : ℕ → List ℕ
zero_sizes n = replicate n 0

get_elem?-empty : (n i : ℕ) → i < n → get_elem? (empty_fragments n) i ≡ some none
get_elem?-empty zero i h = absurd (omega arith)
get_elem?-empty (suc n) zero h = refl
get_elem?-empty (suc n) (suc i) h = get_elem?-empty n i (omega arith)

try_assemble_overrun :
    (max_message_bytes : ℕ) (m : IncomingMessage)
    → 2 ≤ m.total_count
    → length m.fragments < m.data_count
    → try_assemble max_message_bytes m ≡ out_of_bounds
unfolding try_assemble data_count_of
try_assemble_overrun max_message_bytes m two more =
    rw
      (
        lt→ltb 0 m.data_count (omega arith),
        le→ltb m.total_count 2 two,
        lt→ltb (length m.fragments) m.data_count more,
      )
      refl

-- A packet of a message not met before that passes every test of the header, has two fragments at
-- least, and names more data fragments than fragments, makes the code index past the fragments.
pub collect_overrun :
    (max_message_bytes : ℕ) (st : CollectState) (header : PacketHeader) (payload : Bytes) (now : ℕ)
    → lookup header.message_id st.incoming ≡ none
    → lookup header.message_id st.completed ≡ none
    → 2 ≤ header.fragment_count
    → header.fragment_index < header.fragment_count
    → header.fragment_count ≤ max_message_bytes / 64 + 8
    → header.fragment_count < header.flags
    → collect max_message_bytes st header payload now ≡ overrun
unfolding collect collect_into assemble_into opened stored settle is_completed
collect_overrun max_message_bytes st header payload now new open_yet two inside allowed more =
    rw
      (
        ==_ne header.fragment_count 0 (omega arith),
        open_yet,
        lt→ltb header.fragment_index header.fragment_count inside,
        le→ltb (max_message_bytes / 64 + 8) header.fragment_count allowed,
        new,
        ==_self header.fragment_count,
        places,
        lt→ltb header.fragment_index header.fragment_count inside,
        get_elem?-empty header.fragment_count header.fragment_index inside,
        sized,
        lt→ltb header.fragment_index header.fragment_count inside,
        try_assemble_overrun max_message_bytes
            (record {
              message_id = header.message_id;
              total_count = header.fragment_count;
              data_count = header.flags;
              fragments =
                  set (empty_fragments header.fragment_count) header.fragment_index (some payload);
              sizes = set (replicate header.fragment_count 0) header.fragment_index header.reserved;
              first_seen = now;
            })
            two
            (omega (
              arith,
              places,
              length-set (empty_fragments header.fragment_count) header.fragment_index
                  (some payload),
            )),
      )
      refl
  where
    places : length (empty_fragments header.fragment_count) ≡ header.fragment_count
    places = length-replicate header.fragment_count none

    sized : length (zero_sizes header.fragment_count) ≡ header.fragment_count
    sized = length-replicate header.fragment_count no_size
