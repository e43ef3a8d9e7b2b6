-- ===== src/Reassembler/Assembly/Within.antt =====
-- The indices of `handle_data` and `try_assemble` in tight/src/reassembler.cpp, and the entries they
-- keep.
use damen.Common.{
  ℕ, zero, suc, ◌-◌, ◌≤◌, ◌<◌, ◌≡◌, refl, sym, subst, ◌∙◌, arith, lt→ltb, le→ltb, length-take,
  get_elem?, dec_lt, List, [], ◌∷◌, Option, none, some, false, ◌==◌, ltb, length, take, drop,
  get_or, length-set, length-replicate, Bool-cases, inl, inr,
}
use damen.Common.OrdMap.{OrdMap, lookup, assign, erase}
use damen.Wire.Codec.{PacketHeader}
use damen.Fec.Code.{Bytes, decode}
use damen.Reassembler.Assembly.{
  IncomingMessage, parities_from, widest, Outcome, delivered, incomplete, out_of_bounds,
  data_count_of, deliver_restored, recover, try_assemble, CollectState, blank_message, entry_of,
  opened, stored, Collected, collected, overrun, settle, assemble_into, whole_message, collect_into,
  collect,
}

-- The entry has a place for each fragment and for its size, and its data fragments are among them.
pub record IsRoomy (m : IncomingMessage) : Type 0 where
  pub roomy : length m.fragments ≡ m.total_count
  pub sizes_roomy : length m.sizes ≡ m.total_count
  pub data_within : m.data_count ≤ m.total_count

abbrev pub AllRoomy : OrdMap IncomingMessage → Type 0
AllRoomy [] = Unit
AllRoomy ((k, m) ∷ ms) = IsRoomy m × AllRoomy ms

-- A result in bounds, with the maps as they should be.
abbrev pub InBounds : Collected → Type 0
InBounds (collected message st) = AllRoomy st.incoming
InBounds overrun = ⊥

AllRoomy-assign :
    (k : ℕ) (m : IncomingMessage) (ms : OrdMap IncomingMessage)
    → IsRoomy m
    → AllRoomy ms
    → AllRoomy (assign k m ms)
unfolding assign
AllRoomy-assign k m [] r h = (r, h)
AllRoomy-assign k m ((j, n) ∷ ms) r h = ground (arith, AllRoomy-assign k m ms)

AllRoomy-erase : (k : ℕ) (ms : OrdMap IncomingMessage) → AllRoomy ms → AllRoomy (erase k ms)
unfolding erase
AllRoomy-erase k [] h = h
AllRoomy-erase k ((j, n) ∷ ms) h = ground (arith, AllRoomy-erase k ms)

blank_message-IsRoomy : IsRoomy blank_message
blank_message-IsRoomy = record { roomy = refl; sizes_roomy = refl; data_within = omega arith }

entry_of-IsRoomy :
    (k : ℕ) (ms : OrdMap IncomingMessage) → AllRoomy ms → IsRoomy (entry_of (lookup k ms))
unfolding lookup
entry_of-IsRoomy k [] h = blank_message-IsRoomy
entry_of-IsRoomy k ((j, m) ∷ ms) h = elim (Bool-cases (j == k)) [
  | inl here ↦ rw (here) h.0
  | inr later ↦ rw (later) (entry_of-IsRoomy k ms h.1)
]

abbrev no_size : ℕ
no_size = 0

opened-IsRoomy :
    (m : IncomingMessage) (header : PacketHeader) (now : ℕ)
    → header.flags ≤ header.fragment_count
    → IsRoomy m
    → IsRoomy (opened m header now)
unfolding opened
opened-IsRoomy m header now h r = elim (Bool-cases (m.message_id == 0)) [
  | inl new ↦ rw (new) (record {
    roomy = length-replicate header.fragment_count none;
    sizes_roomy = length-replicate header.fragment_count no_size;
    data_within = h;
  })
  | inr old ↦ rw (old) r
]

abbrev StoredRoomy : Option IncomingMessage → Type 0
StoredRoomy none = ⊥
StoredRoomy (some m) = IsRoomy m

get_elem?-within :
    (fragments : List (Option Bytes)) (i : ℕ)
    → i < length fragments
    → get_elem? fragments i ≡ some (get_or fragments i none)
get_elem?-within [] i h = absurd (omega arith)
get_elem?-within (f ∷ fragments) zero h = refl
get_elem?-within (f ∷ fragments) (suc i) h = get_elem?-within fragments i (omega arith)

-- Within the fragments, the write is within the sizes too.
stored-StoredRoomy :
    (f : Option Bytes) (m : IncomingMessage) (header : PacketHeader) (payload : Bytes)
    → IsRoomy m
    → header.fragment_index < m.total_count
    → StoredRoomy (stored (some f) m header payload)
unfolding stored
stored-StoredRoomy (some f) m header payload r i = r
stored-StoredRoomy none m header payload r i =
    rw (lt→ltb header.fragment_index (length m.sizes) (omega (arith, r.sizes_roomy))) (record {
      roomy = length-set m.fragments header.fragment_index (some payload) ∙ r.roomy;
      sizes_roomy = length-set m.sizes header.fragment_index header.reserved ∙ r.sizes_roomy;
      data_within = r.data_within;
    })

abbrev Bounded : Outcome → Type 0
Bounded (delivered message) = Unit
Bounded incomplete = Unit
Bounded out_of_bounds = ⊥

deliver_restored-Bounded :
    (restored : Option (List (Option Bytes))) (max_message_bytes width : ℕ)
    (fragments : List (Option Bytes)) (sizes : List ℕ)
    → length fragments ≤ length sizes
    → Bounded (deliver_restored max_message_bytes width fragments sizes restored)
unfolding deliver_restored
deliver_restored-Bounded none max_message_bytes width fragments sizes h = tt
deliver_restored-Bounded (some r) max_message_bytes width fragments sizes h =
    rw (le→ltb (length sizes) (length fragments) h) tt

data_count_of-le : (m : IncomingMessage) → IsRoomy m → data_count_of m ≤ m.total_count
unfolding data_count_of
data_count_of-le m r = let b = r.data_within in ground arith

recover-Bounded :
    (max_message_bytes : ℕ) (m : IncomingMessage)
    → IsRoomy m
    → Bounded (recover max_message_bytes (data_count_of m) m)
unfolding recover
recover-Bounded max_message_bytes m room =
    let data_count = data_count_of m in
    let restored =
      deliver_restored-Bounded
        (decode (take data_count m.fragments)
          (parities_from 0 (take (m.total_count - data_count) (drop data_count m.fragments)))
          (widest m.fragments))
        max_message_bytes (widest m.fragments) (take data_count m.fragments) m.sizes
        (omega
          (arith, length-take data_count m.fragments, data_count_of-le m room, room.sizes_roomy)) in
    ground (arith, restored)

whole_message-Bounded :
    (max_message_bytes : ℕ) (m : IncomingMessage)
    → IsRoomy m
    → Bounded (whole_message max_message_bytes (data_count_of m) m)
unfolding whole_message
whole_message-Bounded max_message_bytes m r =
    rw
      (le→ltb (length m.sizes) (data_count_of m)
        (omega (arith, data_count_of-le m r, r.sizes_roomy)))
      tt

data_count_of-length :
    (m : IncomingMessage) → IsRoomy m → ltb (length m.fragments) (data_count_of m) ≡ false
data_count_of-length m r =
    le→ltb (length m.fragments) (data_count_of m) (omega (arith, data_count_of-le m r, r.roomy))

try_assemble-Bounded :
    (max_message_bytes : ℕ) (m : IncomingMessage)
    → IsRoomy m
    → Bounded (try_assemble max_message_bytes m)
unfolding try_assemble
try_assemble-Bounded max_message_bytes m r = ground (
  arith,
  data_count_of-length m r,
  recover-Bounded max_message_bytes m r,
  whole_message-Bounded max_message_bytes m r,
)

settle-InBounds :
    (o : Outcome) (st : CollectState) (message_id now : ℕ)
    → Bounded o
    → AllRoomy st.incoming
    → InBounds (settle o st message_id now)
unfolding settle
settle-InBounds (delivered message) st message_id now b h = AllRoomy-erase message_id st.incoming h
settle-InBounds incomplete st message_id now b h = h
settle-InBounds out_of_bounds st message_id now b h = b

assemble_into-InBounds :
    (max_message_bytes : ℕ) (st : CollectState) (message_id now : ℕ) (full : Option IncomingMessage)
    → StoredRoomy full
    → AllRoomy st.incoming
    → InBounds (assemble_into max_message_bytes st message_id now full)
unfolding assemble_into
assemble_into-InBounds max_message_bytes st message_id now none r h = r
assemble_into-InBounds max_message_bytes st message_id now (some full) r h =
    settle-InBounds (try_assemble max_message_bytes full)
      (record st { incoming = assign message_id full st.incoming }) message_id now
      (try_assemble-Bounded max_message_bytes full r)
      (AllRoomy-assign message_id full st.incoming r h)

-- The entry has as many places as the packet's fragment count, or the packet is put by.
collect_into-InBounds :
    (max_message_bytes : ℕ) (st : CollectState) (header : PacketHeader) (payload : Bytes) (now : ℕ)
    (m : IncomingMessage)
    → IsRoomy m
    → AllRoomy st.incoming
    → InBounds (collect_into max_message_bytes st header payload now m)
unfolding collect_into
collect_into-InBounds max_message_bytes st header payload now m r h =
    elim (dec_lt header.fragment_index (length m.fragments)) [
      | no outside ↦
          rw (le→ltb header.fragment_index (length m.fragments) (omega arith))
            (ground (arith, kept))
      | yes inside ↦
          let settled =
            assemble_into-InBounds max_message_bytes st header.message_id now
              (stored (get_elem? m.fragments header.fragment_index) m header payload)
              (subst (λ f. StoredRoomy (stored f m header payload))
                (sym (get_elem?-within m.fragments header.fragment_index inside))
                (stored-StoredRoomy (get_or m.fragments header.fragment_index none) m header payload
                  r (omega (arith, r.roomy))))
              h in
          ground (arith, kept, settled)
    ]
  where
    kept : AllRoomy (assign header.message_id m st.incoming)
    kept = AllRoomy-assign header.message_id m st.incoming r h

-- A packet that names no more data fragments than fragments is collected without an index out of
-- bounds, of the fragments or of the sizes, on entries with a place for each fragment and for its
-- size and their data fragments among them; and it leaves the entries so.
pub collect-InBounds :
    (max_message_bytes : ℕ) (st : CollectState) (header : PacketHeader) (payload : Bytes) (now : ℕ)
    → header.flags ≤ header.fragment_count
    → AllRoomy st.incoming
    → InBounds (collect max_message_bytes st header payload now)
unfolding collect
collect-InBounds max_message_bytes st header payload now within h =
    let entry = entry_of (lookup header.message_id st.incoming) in
    let gathered =
      collect_into-InBounds max_message_bytes st header payload now (opened entry header now)
        (opened-IsRoomy entry header now within (entry_of-IsRoomy header.message_id st.incoming h))
        h in
    ground (arith, gathered)
