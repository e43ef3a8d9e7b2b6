-- ===== src/Reassembler/Track/Acked.antt =====
-- The numbers behind the cursor of `handle_data` in tight/src/reassembler.cpp.
use damen.Common.{
  ℕ, zero, suc, ◌+◌, ◌^◌, ◌≤◌, ◌<◌, ◌≡◌, ◌≢◌, refl, sym, subst, arith, List, [], ◌∷◌, Bool, true,
  some, inl, inr, ◌⊎◌, Bool-cases, Option-cases, length, ltb, ◌==◌, ltb-false→le, ==_ne, dec_lt,
}
use damen.Common.Bytes.{u32}
use damen.Common.OrdMap.{
  lookup, emplace, erase, Ascending, Ascending-weaken, emplace-Ascending, erase_least,
  Ascending-skip, Ascending-empty, length-erase,
}
use damen.Reassembler.Track.{
  SeqSet, ReceiveState, count, advance_cursor, consume, consume_all, ahead, behind, track_numbered,
  track, track_all, untracked,
}

module _ (arrived : ℕ → Type 0) (small : (k : ℕ) → arrived k → k + 1 < 2 ^ 32) where
  abbrev pub EachArrived : SeqSet → Type 0
  EachArrived [] = Unit
  EachArrived ((k, u) ∷ m) = arrived k × EachArrived m

  pub EachArrived-emplace :
      (k : ℕ) (m : SeqSet) → arrived k → EachArrived m → EachArrived (emplace k tt m)
  unfolding emplace
  EachArrived-emplace k [] a h = (a, h)
  EachArrived-emplace k ((j, u) ∷ m) a h = ground (arith, EachArrived-emplace k m)

  pub EachArrived-erase : (k : ℕ) (m : SeqSet) → EachArrived m → EachArrived (erase k m)
  unfolding erase
  EachArrived-erase k [] h = h
  EachArrived-erase k ((j, u) ∷ m) h = ground (arith, EachArrived-erase k m)

  pub EachArrived-lookup :
      (k : ℕ) (u : Unit) (m : SeqSet) → lookup k m ≡ some u → EachArrived m → arrived k
  unfolding lookup
  EachArrived-lookup k u [] e h = ground arith
  EachArrived-lookup k u ((j, w) ∷ m) e h = ground (arith, EachArrived-lookup k u m)

  -- Every number from `first` to below the cursor came, and so did what is kept beyond it.
  pub record Tracked (first : ℕ) (st : ReceiveState) : Type 0 where
    pub covered : (n : ℕ) → first ≤ n → n < st.next_expected_seq → arrived n
    pub above : first < st.next_expected_seq
    pub kept : EachArrived st.recv_seqs
    pub ascending : Ascending (st.next_expected_seq + 1) st.recv_seqs
    pub no_wrap : st.next_expected_seq < 2 ^ 32
    pub on : st.seq_initialized ≡ true

  pub covered_next :
      (first next : ℕ)
      → ((n : ℕ) → first ≤ n → n < next → arrived n)
      → arrived next
      → next + 1 < 2 ^ 32
      → (n : ℕ) → first ≤ n
      → n < u32 (next + 1)
      → arrived n
  covered_next first next c came fits n lo hi = elim (dec_lt n next) [
    | yes below ↦ c n lo below
    | no at_next ↦ subst arrived (omega arith) came
  ]

  -- The loop moves the cursor over numbers that came, and stops where one is missing.
  consume-Tracked :
      (fuel first : ℕ) (st : ReceiveState)
      → length st.recv_seqs ≤ fuel
      → first < st.next_expected_seq
      → ((n : ℕ) → first ≤ n → n < st.next_expected_seq → arrived n)
      → EachArrived st.recv_seqs
      → Ascending st.next_expected_seq st.recv_seqs
      → st.next_expected_seq < 2 ^ 32
      → st.seq_initialized ≡ true
      → Tracked first (consume fuel st)
  unfolding consume count
  consume-Tracked zero first st enough lo c k a w on = record {
    covered = c;
    above = lo;
    kept = k;
    ascending = Ascending-empty (st.next_expected_seq + 1) st.recv_seqs enough;
    no_wrap = w;
    on = on;
  }
  consume-Tracked (suc fuel) first st enough lo c k a w on =
      elim (Option-cases (lookup st.next_expected_seq st.recv_seqs)) [
        | inl missing ↦ rw (missing) (record {
          covered = c;
          above = lo;
          kept = k;
          ascending = Ascending-skip st.next_expected_seq st.recv_seqs missing a;
          no_wrap = w;
          on = on;
        })
        | inr (u, found) ↦
            let came = EachArrived-lookup st.next_expected_seq u st.recv_seqs found k in
            let fits = small st.next_expected_seq came in
            rw (found) (
              consume-Tracked fuel first (advance_cursor st)
                (omega (arith, length-erase st.next_expected_seq st.recv_seqs (λ none_there. cc)))
                (omega arith) (covered_next first st.next_expected_seq c came fits)
                (EachArrived-erase st.next_expected_seq st.recv_seqs k)
                (subst (λ (lo : ℕ). Ascending lo (erase st.next_expected_seq st.recv_seqs))
                  (omega arith) (erase_least st.next_expected_seq st.recv_seqs a))
                (omega arith) on)
      ]

  pub consume_all-Tracked :
      (first : ℕ) (st : ReceiveState)
      → first < st.next_expected_seq
      → ((n : ℕ) → first ≤ n → n < st.next_expected_seq → arrived n)
      → EachArrived st.recv_seqs
      → Ascending st.next_expected_seq st.recv_seqs
      → st.next_expected_seq < 2 ^ 32
      → st.seq_initialized ≡ true
      → Tracked first (consume_all st)
  unfolding consume_all
  consume_all-Tracked first st = consume-Tracked (length st.recv_seqs) first st (omega arith)

  track_numbered-Tracked :
      (first seq now : ℕ) (st : ReceiveState)
      → arrived seq
      → Tracked first st
      → Tracked first (track_numbered true st seq now)
  unfolding track_numbered
  track_numbered-Tracked first seq now st came v =
      elim (Bool-cases (ltb seq st.next_expected_seq)) [
        | inl below ↦ rw (below) (
            consume_all-Tracked first (behind st seq) v.above v.covered v.kept
              (Ascending-weaken (st.next_expected_seq + 1) st.next_expected_seq st.recv_seqs
                (omega arith) v.ascending)
              v.no_wrap v.on)
        | inr from ↦ rw (from) (
            consume_all-Tracked first (ahead st seq now) v.above v.covered
              (EachArrived-emplace seq st.recv_seqs came v.kept)
              (emplace-Ascending st.next_expected_seq seq tt st.recv_seqs (ltb-false→le _ _ from) (
                Ascending-weaken (st.next_expected_seq + 1) st.next_expected_seq st.recv_seqs
                  (omega arith) v.ascending))
              v.no_wrap v.on)
      ]

  pub track-Tracked :
      (first seq now : ℕ) (st : ReceiveState)
      → arrived seq
      → Tracked first st
      → Tracked first (track st seq now)
  unfolding track
  track-Tracked first seq now st came v = elim (Bool-cases (seq == 0)) [
    | inl unnumbered ↦ rw (unnumbered) v
    | inr numbered ↦ rw (numbered) (
        subst (λ (b : Bool). Tracked first (track_numbered b st seq now)) (sym v.on)
          (track_numbered-Tracked first seq now st came v))
  ]

-- A number is among those that came.
abbrev pub Arrived : List (ℕ × ℕ) → ℕ → Type 0
Arrived [] n = ⊥
Arrived ((seq, now) ∷ arrivals) n = (n ≡ seq) ⊎ Arrived arrivals n

-- No number is the last of the 32-bit numbers.
abbrev pub AllSmall : List (ℕ × ℕ) → Type 0
AllSmall [] = Unit
AllSmall ((seq, now) ∷ arrivals) = (seq + 1 < 2 ^ 32) × AllSmall arrivals

pub Arrived-small :
    (arrivals : List (ℕ × ℕ)) (k : ℕ) → AllSmall arrivals → Arrived arrivals k → k + 1 < 2 ^ 32
Arrived-small [] k h a = absurd a
Arrived-small ((seq, now) ∷ arrivals) k h a = elim a [
  | inl here ↦ omega (arith, h.0)
  | inr later ↦ Arrived-small arrivals k h.1 later
]

pub track_all-Tracked :
    (arrived : ℕ → Type 0) (small : (k : ℕ) → arrived k → k + 1 < 2 ^ 32) (first : ℕ)
    (arrivals : List (ℕ × ℕ)) (st : ReceiveState)
    → ((k : ℕ) → Arrived arrivals k → arrived k)
    → Tracked arrived small first st
    → Tracked arrived small first (track_all st arrivals)
unfolding track_all
track_all-Tracked arrived small first [] st among v = v
track_all-Tracked arrived small first ((seq, now) ∷ arrivals) st among v =
    track_all-Tracked arrived small first arrivals (track st seq now)
      (λ k later. among k (inr later))
      (track-Tracked arrived small first seq now st (among seq (inl refl)) v)

-- The state that the first packet leaves.
abbrev pub based_at : ℕ → ReceiveState
based_at first = record untracked { next_expected_seq = u32 (first + 1); seq_initialized = true }

pub track_first : (first start : ℕ) → first ≢ 0 → track untracked first start ≡ based_at first
unfolding track track_numbered
track_first first start numbered = rw (==_ne first 0 numbered) refl

pub based_at-Tracked :
    (arrived : ℕ → Type 0) (small : (k : ℕ) → arrived k → k + 1 < 2 ^ 32) (first : ℕ)
    → arrived first
    → Tracked arrived small first (based_at first)
based_at-Tracked arrived small first came =
    let fits = small first came in
    record {
      covered = λ k above below. subst arrived (omega arith) came;
      above = omega arith;
      kept = tt;
      ascending = tt;
      no_wrap = omega arith;
      on = refl;
    }

-- After the first packet, whatever packets come without a report between them, in whatever order
-- and with whatever repetitions, every number from the first to below the cursor is the number of a
-- packet that came. No number is 2 ^ 32 - 1.
pub track_all-Arrived :
    (first start : ℕ) (arrivals : List (ℕ × ℕ)) (n : ℕ)
    → first ≢ 0
    → AllSmall ((first, start) ∷ arrivals)
    → first ≤ n
    → n < (track_all untracked ((first, start) ∷ arrivals)).next_expected_seq
    → Arrived ((first, start) ∷ arrivals) n
unfolding track_all
track_all-Arrived first start arrivals n numbered small lo hi = tracked.covered n lo (
    subst (λ (st : ReceiveState). n < (track_all st arrivals).next_expected_seq)
      (track_first first start numbered) hi)
  where
    came : ℕ → Type 0
    came = Arrived ((first, start) ∷ arrivals)

    fits : (k : ℕ) → came k → k + 1 < 2 ^ 32
    fits k a = Arrived-small ((first, start) ∷ arrivals) k small a

    tracked : Tracked came fits first (track_all (based_at first) arrivals)
    tracked =
        track_all-Tracked came fits first arrivals (based_at first) (λ k later. inr later)
          (based_at-Tracked came fits first (inl refl))
