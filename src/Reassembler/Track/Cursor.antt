-- ===== src/Reassembler/Track/Cursor.antt =====
-- The number at the cursor of `handle_data` in tight/src/reassembler.cpp.
use damen.Common.{
  ℕ, zero, suc, ◌+◌, ◌^◌, ◌≤◌, ◌<◌, ◌≡◌, ◌≢◌, refl, sym, subst, arith, List, [], ◌∷◌, Bool, true,
  some, inl, inr, ◌⊎◌, Bool-cases, Option-cases, length, ltb, ltb-false→le, ltb→lt, ==_ne, dec_lt,
  ◌∙◌,
}
use damen.Common.OrdMap.{
  lookup, emplace, erase, Ascending, lookup-erase, lookup_below, Ascending-weaken, erase_least,
  emplace-Ascending,
}
use damen.Reassembler.Track.{
  SeqSet, ReceiveState, count, advance_cursor, consume, consume_all, ahead, behind, track_numbered,
  track, track_all, untracked,
}
use damen.Reassembler.Track.Acked.{
  EachArrived, EachArrived-lookup, EachArrived-erase, EachArrived-emplace, Tracked, track-Tracked,
  Arrived, Arrived-small, AllSmall, track_all-Arrived, track_all-Tracked, based_at,
  based_at-Tracked, track_first,
}

-- A number that came is behind the cursor or kept beyond it.
abbrev Noted : ReceiveState → ℕ → Type 0
Noted st k = (k < st.next_expected_seq) ⊎ (lookup k st.recv_seqs ≡ some tt)

emplace_keeps : (k j : ℕ) (m : SeqSet) → lookup k m ≡ some tt → lookup k (emplace j tt m) ≡ some tt
unfolding lookup emplace
emplace_keeps k j [] e = ground arith
emplace_keeps k j ((i, u) ∷ m) e = ground (arith, emplace_keeps k j m)

lookup_emplaced : (k : ℕ) (m : SeqSet) → lookup k (emplace k tt m) ≡ some tt
unfolding lookup emplace
lookup_emplaced k [] = ground arith
lookup_emplaced k ((i, u) ∷ m) = ground (arith, lookup_emplaced k m)

behind-Noted :
    (st : ReceiveState) (seq k : ℕ)
    → seq < st.next_expected_seq
    → Noted st k ⊎ (k ≡ seq)
    → Noted (behind st seq) k
behind-Noted st seq k below n = elim n [ inl before ↦ before | inr same ↦ inl (omega arith) ]

ahead-Noted :
    (st : ReceiveState) (seq now k : ℕ) → Noted st k ⊎ (k ≡ seq) → Noted (ahead st seq now) k
ahead-Noted st seq now k n = elim n [
  | inl before ↦ elim before [
    | inl below ↦ inl below
    | inr there ↦ inr (emplace_keeps k seq st.recv_seqs there)
  ]
  | inr same ↦ inr (
      subst (λ (j : ℕ). lookup j (emplace seq tt st.recv_seqs) ≡ some tt) (sym same)
        (lookup_emplaced seq st.recv_seqs))
]

module _ (arrived : ℕ → Type 0) (small : (k : ℕ) → arrived k → k + 1 < 2 ^ 32) where
  advance_cursor-Noted :
      (st : ReceiveState) (k : ℕ)
      → st.next_expected_seq + 1 < 2 ^ 32
      → Ascending st.next_expected_seq st.recv_seqs
      → Noted st k
      → Noted (advance_cursor st) k
  advance_cursor-Noted st k fits a n = elim n [
    | inl below ↦ inl (omega arith)
    | inr there ↦ elim (dec_lt k (st.next_expected_seq + 1)) [
      | yes at_next ↦ inl (omega arith)
      | no beyond ↦ inr (
          lookup-erase st.next_expected_seq st.next_expected_seq k st.recv_seqs a
          ∙ rw (==_ne st.next_expected_seq k (omega arith)) there)
    ]
  ]

  consume-Noted :
      (fuel : ℕ) (st : ReceiveState) (k : ℕ)
      → EachArrived arrived small st.recv_seqs
      → Ascending st.next_expected_seq st.recv_seqs
      → Noted st k
      → Noted (consume fuel st) k
  unfolding consume count
  consume-Noted zero st k each a n = n
  consume-Noted (suc fuel) st k each a n =
      elim (Option-cases (lookup st.next_expected_seq st.recv_seqs)) [
        | inl missing ↦ rw (missing) n
        | inr (u, found) ↦
            let fits =
              small st.next_expected_seq
                (EachArrived-lookup arrived small st.next_expected_seq u st.recv_seqs found each) in
            rw (found) (
              consume-Noted fuel (advance_cursor st) k
                (EachArrived-erase arrived small st.next_expected_seq st.recv_seqs each)
                (subst (λ (lo : ℕ). Ascending lo (erase st.next_expected_seq st.recv_seqs))
                  (omega arith) (erase_least st.next_expected_seq st.recv_seqs a))
                (advance_cursor-Noted st k fits a n))
      ]

  track_numbered-Noted :
      (first seq now k : ℕ) (st : ReceiveState)
      → arrived seq
      → Tracked arrived small first st
      → Noted st k ⊎ (k ≡ seq)
      → Noted (track_numbered true st seq now) k
  unfolding track_numbered consume_all
  track_numbered-Noted first seq now k st came v n =
      elim (Bool-cases (ltb seq st.next_expected_seq)) [
        | inl below ↦ rw (below) (
            consume-Noted (length st.recv_seqs) (behind st seq) k v.kept weak
              (behind-Noted st seq k (ltb→lt _ _ below) n))
        | inr from ↦ rw (from) (
            consume-Noted (length (emplace seq tt st.recv_seqs)) (ahead st seq now) k
              (EachArrived-emplace arrived small seq st.recv_seqs came v.kept)
              (emplace-Ascending st.next_expected_seq seq tt st.recv_seqs (ltb-false→le _ _ from)
                weak)
              (ahead-Noted st seq now k n))
      ]
    where
      weak : Ascending st.next_expected_seq st.recv_seqs
      weak =
          Ascending-weaken (st.next_expected_seq + 1) st.next_expected_seq st.recv_seqs
            (omega arith) v.ascending

  track-Noted :
      (first seq now k : ℕ) (st : ReceiveState)
      → arrived seq
      → seq ≢ 0
      → Tracked arrived small first st
      → Noted st k ⊎ (k ≡ seq)
      → Noted (track st seq now) k
  unfolding track
  track-Noted first seq now k st came numbered v n = rw (==_ne seq 0 numbered) (
      subst (λ (b : Bool). Noted (track_numbered b st seq now) k) (sym v.on)
        (track_numbered-Noted first seq now k st came v n))

  -- The cursor is never a number that is noted.
  cursor_beyond :
      (first : ℕ) (st : ReceiveState)
      → Tracked arrived small first st
      → Noted st st.next_expected_seq
      → ⊥
  cursor_beyond first st v n = elim n [
    | inl below ↦ absurd (omega arith)
    | inr there ↦
        let gone =
          lookup_below (st.next_expected_seq + 1) st.next_expected_seq st.recv_seqs (omega arith)
            v.ascending in
        cc
  ]

-- Every packet has a number, and none is the last of the 32-bit numbers.
abbrev pub AllCounted : List (ℕ × ℕ) → Type 0
AllCounted [] = Unit
AllCounted ((seq, now) ∷ arrivals) = (seq ≢ 0) × (seq + 1 < 2 ^ 32) × AllCounted arrivals

AllCounted-small : (arrivals : List (ℕ × ℕ)) → AllCounted arrivals → AllSmall arrivals
AllCounted-small [] h = tt
AllCounted-small ((seq, now) ∷ arrivals) h = (h.1, AllCounted-small arrivals h.2)

track_all-Noted :
    (arrived : ℕ → Type 0) (small : (k : ℕ) → arrived k → k + 1 < 2 ^ 32) (first k : ℕ)
    (arrivals : List (ℕ × ℕ)) (st : ReceiveState)
    → ((j : ℕ) → Arrived arrivals j → arrived j)
    → AllCounted arrivals
    → Tracked arrived small first st
    → Noted st k ⊎ Arrived arrivals k
    → Noted (track_all st arrivals) k
unfolding track_all
track_all-Noted arrived small first k [] st among h v n = elim n [
  | inl before ↦ before
  | inr never ↦ absurd never
]
track_all-Noted arrived small first k ((seq, now) ∷ arrivals) st among h v n =
    track_all-Noted arrived small first k arrivals (track st seq now)
      (λ j later. among j (inr later)) h.2 (track-Tracked arrived small first seq now st came v)
      (elim n [
        | inl before ↦ inl (track-Noted arrived small first seq now k st came h.0 v (inl before))
        | inr here_or_later ↦ elim here_or_later [
          | inl here ↦ inl (track-Noted arrived small first seq now k st came h.0 v (inr here))
          | inr later ↦ inr later
        ]
      ])
  where
    came : arrived seq
    came = among seq (inl refl)

cursor_never_came :
    (first start : ℕ) (arrivals : List (ℕ × ℕ))
    → AllCounted ((first, start) ∷ arrivals)
    → ¬ Arrived
        ((first, start) ∷ arrivals)
        (track_all untracked ((first, start) ∷ arrivals)).next_expected_seq
unfolding track_all
cursor_never_came first start arrivals h came = cursor_beyond arrived fits first reached tracked (
    track_all-Noted arrived fits first reached.next_expected_seq arrivals (based_at first)
      (λ k later. inr later) h.2 (based_at-Tracked arrived fits first (inl refl)) noted)
  where
    arrived : ℕ → Type 0
    arrived = Arrived ((first, start) ∷ arrivals)

    fits : (k : ℕ) → arrived k → k + 1 < 2 ^ 32
    fits k a =
        Arrived-small ((first, start) ∷ arrivals) k (AllCounted-small ((first, start) ∷ arrivals) h)
          a

    reached : ReceiveState
    reached = track_all (based_at first) arrivals

    tracked : Tracked arrived fits first reached
    tracked =
        track_all-Tracked arrived fits first arrivals (based_at first) (λ k later. inr later)
          (based_at-Tracked arrived fits first (inl refl))

    noted :
        Noted (based_at first) reached.next_expected_seq
        ⊎ Arrived arrivals reached.next_expected_seq
    noted =
        elim (subst (λ (st : ReceiveState). arrived (track_all st arrivals).next_expected_seq)
          (track_first first start h.0) came) [
            | inl here ↦ let fits_first = h.1 in inl (inl (omega arith))
            | inr later ↦ inr later
          ]

above_first :
    (first start : ℕ) (arrivals : List (ℕ × ℕ))
    → first ≢ 0
    → AllSmall ((first, start) ∷ arrivals)
    → first < (track_all untracked ((first, start) ∷ arrivals)).next_expected_seq
unfolding track_all
above_first first start arrivals numbered small =
    subst (λ (st : ReceiveState). first < (track_all st arrivals).next_expected_seq)
      (sym (track_first first start numbered)) tracked.above
  where
    came : ℕ → Type 0
    came = Arrived ((first, start) ∷ arrivals)

    fits : (k : ℕ) → came k → k + 1 < 2 ^ 32
    fits k a = Arrived-small ((first, start) ∷ arrivals) k small a

    tracked : Tracked came fits first (track_all (based_at first) arrivals)
    tracked =
        track_all-Tracked came fits first arrivals (based_at first) (λ k later. inr later)
          (based_at-Tracked came fits first (inl refl))

-- The cursor that packets alone leave, without a report between them, is the least number above the
-- first that did not come: every number from the first to below it came, and its own did not. No
-- packet has the number 0, which takes no part, nor 2 ^ 32 - 1.
pub cursor_missing :
    (first start : ℕ) (arrivals : List (ℕ × ℕ))
    → AllCounted ((first, start) ∷ arrivals)
    → let cursor = (track_all untracked ((first, start) ∷ arrivals)).next_expected_seq in
      (first < cursor)
      × ((n : ℕ) → first ≤ n → n < cursor → Arrived ((first, start) ∷ arrivals) n)
      × ¬ Arrived ((first, start) ∷ arrivals) cursor
cursor_missing first start arrivals h = (
  above_first first start arrivals h.0 (AllCounted-small ((first, start) ∷ arrivals) h),
  λ n lo hi.
      track_all-Arrived first start arrivals n h.0 (AllCounted-small ((first, start) ∷ arrivals) h)
        lo hi,
  cursor_never_came first start arrivals h,
)
