-- ===== src/Report/Gaps/Passed.antt =====
-- What the cursor of tight/src/reassembler.cpp passes over where reports come between the packets.
use damen.Common.{
  ℕ, zero, suc, ◌+◌, ◌-◌, ◌/◌, ◌^◌, ◌<◌, ◌≡◌, refl, sym, ap, subst, ◌∙◌, arith, List, [], ◌∷◌, Bool,
  true, inl, inr, ◌⊎◌, Bool-cases, length, ltb, leb, ◌==◌, ==_iff, not, ltb-false→le, ◌&&◌, ◌||◌,
  if◌then◌else◌, drop,
}
use damen.Common.Bytes.{u32}
use damen.Common.OrdMap.{OrdMap, emplace, erase, Ascending}
use damen.Reassembler.Track.{
  SeqSet, ReceiveState, count, add_missing, advance_cursor, consume, consume_all, ahead, behind,
  track_numbered, track,
}
use damen.Reassembler.Track.Acked.{Tracked, covered_next, consume_all-Tracked, track-Tracked}
use damen.Report.Gaps.{
  ReportSettings, loss_threshold, give_up_us, skip_gap, without, pass_gaps, at_most_4096,
  report_gaps,
}

-- Whether a report lets the cursor pass over a gap first seen at a time: nothing is sent again on
-- this link, or the gap is older than the loss threshold and not yet given up.
unfoldable pub passes : ReportSettings → ℕ → ℕ → Bool
passes settings now seen =
    not (settings.retransmit && settings.peer_retransmit)
    || (leb ((now - seen) / 1000) (give_up_us settings.report_interval)
        && ltb (loss_threshold settings.sender_rtt_us) ((now - seen) / 1000))

-- A number is missing, and the report passes over it.
abbrev pub PassedOver : ReportSettings → ℕ → List (ℕ × ℕ) → ℕ → Type 0
PassedOver settings now [] n = ⊥
PassedOver settings now ((g, seen) ∷ gaps) n =
    ((n ≡ g) × (passes settings now seen ≡ true)) ⊎ PassedOver settings now gaps n

abbrev pub NoneLast : List (ℕ × ℕ) → Type 0
NoneLast [] = Unit
NoneLast ((g, seen) ∷ gaps) = (g + 1 < 2 ^ 32) × NoneLast gaps

pub PassedOver-small :
    (settings : ReportSettings) (now n : ℕ) (gaps : List (ℕ × ℕ))
    → NoneLast gaps
    → PassedOver settings now gaps n
    → n + 1 < 2 ^ 32
PassedOver-small settings now n [] h p = absurd p
PassedOver-small settings now n ((g, seen) ∷ gaps) h p = elim p [
  | inl here ↦ let e = here.0 in let small = h.0 in omega arith
  | inr later ↦ PassedOver-small settings now n gaps h.1 later
]

NoneLast-emplace :
    (g now : ℕ) (gaps : List (ℕ × ℕ))
    → g + 1 < 2 ^ 32
    → NoneLast gaps
    → NoneLast (emplace g now gaps)
unfolding emplace
NoneLast-emplace g now [] s h = (s, h)
NoneLast-emplace g now ((j, seen) ∷ gaps) s h = ground (arith, NoneLast-emplace g now gaps)

NoneLast-erase : (g : ℕ) (gaps : List (ℕ × ℕ)) → NoneLast gaps → NoneLast (erase g gaps)
unfolding erase
NoneLast-erase g [] h = h
NoneLast-erase g ((j, seen) ∷ gaps) h = ground (arith, NoneLast-erase g gaps)

NoneLast-drop : (n : ℕ) (gaps : List (ℕ × ℕ)) → NoneLast gaps → NoneLast (drop n gaps)
NoneLast-drop zero gaps h = h
NoneLast-drop (suc n) [] h = h
NoneLast-drop (suc n) (gap ∷ gaps) h = NoneLast-drop n gaps h.1

NoneLast-add_missing :
    (n g now : ℕ) (received : SeqSet) (gaps : List (ℕ × ℕ))
    → g + n < 2 ^ 32
    → NoneLast gaps
    → NoneLast (add_missing n g received now gaps)
unfolding add_missing
NoneLast-add_missing zero g now received gaps s h = h
NoneLast-add_missing (suc n) g now received gaps s h =
    NoneLast-add_missing n (g + 1) now received
      (if count g received then gaps else emplace g now gaps) (omega arith)
      (elim (Bool-cases (count g received)) [
        | inl there ↦ rw (there) h
        | inr gone ↦ rw (gone) (NoneLast-emplace g now gaps (omega arith) h)
      ])

-- The loop leaves the gaps as they are.
consume-missing : (fuel : ℕ) (st : ReceiveState) → (consume fuel st).missing_seqs ≡ st.missing_seqs
unfolding consume
consume-missing zero st = refl
consume-missing (suc fuel) st =
    let rest = consume-missing fuel (advance_cursor st) in
    elim (Bool-cases (count st.next_expected_seq st.recv_seqs)) [
      | inl there ↦ rw (there) rest
      | inr gone ↦ rw (gone) refl
    ]

consume_all-missing : (st : ReceiveState) → (consume_all st).missing_seqs ≡ st.missing_seqs
unfolding consume_all
consume_all-missing st = consume-missing (length st.recv_seqs) st

skip_gap-missing : (st : ReceiveState) (g : ℕ) → (skip_gap st g).missing_seqs ≡ st.missing_seqs
unfolding skip_gap
skip_gap-missing st g = elim (Bool-cases (st.seq_initialized && g == st.next_expected_seq)) [
  | inl at ↦
      rw (at)
        (consume_all-missing (record st { next_expected_seq = u32 (st.next_expected_seq + 1) }))
  | inr off ↦ rw (off) refl
]

module _ (accounted : ℕ → Type 0) (small : (k : ℕ) → accounted k → k + 1 < 2 ^ 32) where
  -- The gaps have no part in what is tracked.
  Tracked-gaps :
      (first : ℕ) (st : ReceiveState) (gaps : OrdMap ℕ)
      → Tracked accounted small first st
      → Tracked accounted small first (record st { missing_seqs = gaps })
  Tracked-gaps first st gaps v = record {
    covered = v.covered;
    above = v.above;
    kept = v.kept;
    ascending = v.ascending;
    no_wrap = v.no_wrap;
    on = v.on;
  }

  skip_gap-Tracked :
      (first g : ℕ) (st : ReceiveState)
      → accounted g
      → Tracked accounted small first st
      → Tracked accounted small first (skip_gap st g)
  unfolding skip_gap
  skip_gap-Tracked first g st a v = elim (Bool-cases (g == st.next_expected_seq)) [
    | inl at ↦
        let here : g ≡ st.next_expected_seq = (==_iff g st.next_expected_seq).0 at in
        let fits : st.next_expected_seq + 1 < 2 ^ 32 = omega (arith, small g a) in
        let next : u32 (st.next_expected_seq + 1) ≡ st.next_expected_seq + 1 = omega arith in
        rw (ap (λ b. b && g == st.next_expected_seq) v.on ∙ at) (
          consume_all-Tracked accounted small first
            (record st { next_expected_seq = u32 (st.next_expected_seq + 1) })
            (omega (arith, v.above))
            (covered_next accounted small first st.next_expected_seq v.covered
              (subst accounted here a) fits)
            v.kept (subst (λ (lo : ℕ). Ascending lo st.recv_seqs) (sym next) v.ascending)
            (omega arith) v.on)
    | inr off ↦ rw (ap (λ b. b && g == st.next_expected_seq) v.on ∙ off) v
  ]

  -- What the loop keeps: what is tracked, and that no gap is the last number.
  abbrev pub Sound : ℕ → ReceiveState → Type 0
  Sound first st = Tracked accounted small first st × NoneLast st.missing_seqs

  skip_gap-Sound :
      (first g : ℕ) (st : ReceiveState) → accounted g → Sound first st → Sound first (skip_gap st g)
  skip_gap-Sound first g st a v =
      (skip_gap-Tracked first g st a v.0, subst NoneLast (sym (skip_gap-missing st g)) v.1)

  without-Sound : (first g : ℕ) (st : ReceiveState) → Sound first st → Sound first (without st g)
  without-Sound first g st v =
      (Tracked-gaps first st (erase g st.missing_seqs) v.0, NoneLast-erase g st.missing_seqs v.1)

  pass_gaps-Sound :
      (settings : ReportSettings) (first now : ℕ) (gaps : List (ℕ × ℕ)) (st : ReceiveState)
      → ((n : ℕ) → PassedOver settings now gaps n → accounted n)
      → Sound first st
      → Sound first (pass_gaps settings now gaps st).1
  unfolding pass_gaps passes
  pass_gaps-Sound settings first now [] st among v = v
  pass_gaps-Sound settings first now ((g, seen) ∷ gaps) st among v =
      let later = λ (n : ℕ) (p : PassedOver settings now gaps n). among n (inr p) in
      let elapsed_us = (now - seen) / 1000 in
      elim (Bool-cases (not (settings.retransmit && settings.peer_retransmit))) [
        | inl off ↦
            let a : accounted g = among g (inl (refl, rw (off) refl)) in
            rw (off) (
              pass_gaps-Sound settings first now gaps (without (skip_gap st g) g) later
                (without-Sound first g (skip_gap st g) (skip_gap-Sound first g st a v)))
        | inr on ↦ elim (Bool-cases (ltb (give_up_us settings.report_interval) elapsed_us)) [
          | inl old ↦
              rw (on, old)
                (pass_gaps-Sound settings first now gaps (without st g) later
                  (without-Sound first g st v))
          | inr young ↦ elim (Bool-cases (ltb (loss_threshold settings.sender_rtt_us) elapsed_us)) [
            | inl lost ↦
                let kept : leb elapsed_us (give_up_us settings.report_interval) ≡ true =
                  ground (arith, young) in
                let a : accounted g = among g (inl (refl, rw (on, kept, lost) refl)) in
                rw (on, young, lost)
                  (pass_gaps-Sound settings first now gaps (skip_gap st g) later
                    (skip_gap-Sound first g st a v))
            | inr waits ↦ rw (on, young, waits) (pass_gaps-Sound settings first now gaps st later v)
          ]
        ]
      ]

  pub report_gaps-Sound :
      (settings : ReportSettings) (first now : ℕ) (st : ReceiveState)
      → ((n : ℕ) → PassedOver settings now st.missing_seqs n → accounted n)
      → Sound first st
      → Sound first (report_gaps settings now st).1
  unfolding report_gaps
  report_gaps-Sound settings first now st among v =
      let after = (pass_gaps settings now st.missing_seqs st).1 in
      let s = pass_gaps-Sound settings first now st.missing_seqs st among v in
      (
        Tracked-gaps first after (at_most_4096 after).missing_seqs s.0,
        NoneLast-drop (length after.missing_seqs - 4096) after.missing_seqs s.1,
      )

  track-NoneLast :
      (first seq now : ℕ) (st : ReceiveState)
      → seq + 1 < 2 ^ 32
      → Sound first st
      → NoneLast (track st seq now).missing_seqs
  unfolding track track_numbered
  track-NoneLast first seq now st fits v = elim (Bool-cases (seq == 0)) [
    | inl unnumbered ↦ rw (unnumbered) v.1
    | inr numbered ↦ rw (numbered) (
        subst (λ (b : Bool). NoneLast (track_numbered b st seq now).missing_seqs) (sym v.0.on)
          (elim (Bool-cases (ltb seq st.next_expected_seq)) [
            | inl below ↦ rw (below) (
                subst NoneLast (sym (consume_all-missing (behind st seq)))
                  (NoneLast-erase seq st.missing_seqs v.1))
            | inr from ↦ rw (from) (
                subst NoneLast (sym (consume_all-missing (ahead st seq now))) (
                  NoneLast-add_missing (seq - st.next_expected_seq) st.next_expected_seq now
                    st.recv_seqs st.missing_seqs
                    (omega (arith, ltb-false→le seq st.next_expected_seq from)) v.1))
          ]))
  ]

  pub track-Sound :
      (first seq now : ℕ) (st : ReceiveState)
      → accounted seq
      → Sound first st
      → Sound first (track st seq now)
  track-Sound first seq now st a v = (
    track-Tracked accounted small first seq now st a v.0,
    track-NoneLast first seq now st (small seq a) v,
  )
