-- ===== src/Reassembler/Track.antt =====
-- The receive-sequence tracking of `Reassembler::handle_data`, over the fields of
-- tight/src/peer.hpp that it keeps: the cursor of the cumulative acknowledgment, the numbers
-- received beyond it, and the numbers missing with the time each gap was seen.
-- The other writer of these fields is Report/Gaps.
pub mod Acked
pub mod Reordered
pub mod Cursor
use damen.Common.{
  ℕ, zero, suc, ◌+◌, ◌-◌, ◌≡◌, List, [], ◌∷◌, Option, none, some, Bool, true, false, ◌==◌, ltb,
  if◌then◌else◌, length,
}
use damen.Common.Bytes.{u32}
use damen.Common.OrdMap.{OrdMap, lookup, emplace, erase}

-- A `std::set` is the map without values.
abbrev pub SeqSet : Type 0
SeqSet = OrdMap (Unit {0})

pub record ReceiveState : Type 0 where
  pub missing_seqs : OrdMap ℕ
  pub recv_seqs : SeqSet
  pub next_expected_seq : ℕ
  pub seq_initialized : Bool

abbrev is_some {ℓ} : {A : Type ℓ} → Option A → Bool
is_some none = false
is_some (some a) = true

unfoldable pub count : ℕ → SeqSet → Bool
count g received = is_some (lookup g received)

-- The loop over the `n` numbers from `g` on that were skipped.
unfoldable pub add_missing : ℕ → ℕ → SeqSet → ℕ → OrdMap ℕ → OrdMap ℕ
add_missing zero g received now missing = missing
add_missing (suc n) g received now missing =
    add_missing n (g + 1) received now (if count g received then missing else emplace g now missing)

-- One round of the loop that moves the cursor.
abbrev pub advance_cursor : ReceiveState → ReceiveState
advance_cursor st = record st {
  recv_seqs = erase st.next_expected_seq st.recv_seqs;
  next_expected_seq = u32 (st.next_expected_seq + 1);
}

-- The loop, on as many rounds as there are numbers received beyond the cursor.
unfoldable pub consume : ℕ → ReceiveState → ReceiveState
consume zero st = st
consume (suc fuel) st =
    let rest = consume fuel (advance_cursor st) in
    if count st.next_expected_seq st.recv_seqs then rest else st

unfoldable pub consume_all : ReceiveState → ReceiveState
consume_all st = consume (length st.recv_seqs) st

-- The two branches for a number when the base is set.
abbrev pub ahead : ReceiveState → ℕ → ℕ → ReceiveState
ahead st seq now = record st {
  missing_seqs =
      add_missing (seq - st.next_expected_seq) st.next_expected_seq st.recv_seqs now
        st.missing_seqs;
  recv_seqs = emplace seq tt st.recv_seqs;
}

abbrev pub behind : ReceiveState → ℕ → ReceiveState
behind st seq = record st { missing_seqs = erase seq st.missing_seqs }

-- The first number sets the base.
unfoldable pub track_numbered : Bool → ReceiveState → ℕ → ℕ → ReceiveState
track_numbered false st seq now = record st {
  next_expected_seq = u32 (seq + 1);
  seq_initialized = true;
}
track_numbered true st seq now =
    if ltb seq st.next_expected_seq
    then consume_all (behind st seq)
    else consume_all (ahead st seq now)

-- Packets without a number take no part.
unfoldable pub track : ReceiveState → ℕ → ℕ → ReceiveState
track st seq now = if seq == 0 then st else track_numbered st.seq_initialized st seq now

-- The packets that came, each with the time it came.
unfoldable pub track_all : ReceiveState → List (ℕ × ℕ) → ReceiveState
track_all st [] = st
track_all st ((seq, now) ∷ arrivals) = track_all (track st seq now) arrivals

-- A peer as it is made.
abbrev pub untracked : ReceiveState
untracked = record {
  missing_seqs = [];
  recv_seqs = [];
  next_expected_seq = 0;
  seq_initialized = false;
}
