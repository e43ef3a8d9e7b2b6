-- ===== src/Report/Pending.antt =====
-- The pending packets after `Report::handle` of tight/src/report.cpp.
use damen.Common.{
  ℕ, ◌+◌, ◌≡◌, refl, sym, ap, ap₂, ◌∙◌, arith, [], ◌∷◌, Option, none, some, Bool, ◌==◌, ltb, leb,
  not, ◌&&◌, ◌||◌, if◌then◌else◌, ==_iff, Bool-cases, inl, inr,
}
use damen.Common.OrdMap.{
  OrdMap, lookup, Ascending, Ascending-weaken, assign-Ascending, lookup_below, lookup-assign,
}
use damen.Report.{
  PendingSend, max_retries, LostSeqs, snapshot, prune, resent, counted, resend_all, apply_report,
}

-- Acknowledged, or sent often enough.
abbrev done : ℕ → LostSeqs → ℕ → PendingSend → Bool
done ack_seq lost seq send = (leb seq ack_seq && not (lost seq)) || leb max_retries send.retries

abbrev kept : ℕ → LostSeqs → ℕ → Option PendingSend → Option PendingSend
kept ack_seq lost seq none = none
kept ack_seq lost seq (some send) = if done ack_seq lost seq send then none else some send

prune-Ascending :
    (lo ack_seq : ℕ) (lost : LostSeqs) (pending : OrdMap PendingSend)
    → Ascending lo pending
    → Ascending lo (prune ack_seq lost pending)
unfolding prune
prune-Ascending lo ack_seq lost [] a = tt
prune-Ascending lo ack_seq lost ((seq, send) ∷ pending) a =
    let rest = prune-Ascending (seq + 1) ack_seq lost pending a.1 in
    elim (Bool-cases (done ack_seq lost seq send)) [
      | inl gone ↦
          rw (gone)
            (Ascending-weaken (seq + 1) lo (prune ack_seq lost pending) (omega (arith, a.0)) rest)
      | inr stays ↦ rw (stays) (a.0, rest)
    ]

lookup-prune :
    (lo ack_seq k : ℕ) (lost : LostSeqs) (pending : OrdMap PendingSend)
    → Ascending lo pending
    → lookup k (prune ack_seq lost pending) ≡ kept ack_seq lost k (lookup k pending)
unfolding prune lookup
lookup-prune lo ack_seq k lost [] a = refl
lookup-prune lo ack_seq k lost ((seq, send) ∷ pending) a =
    let rest = lookup-prune (seq + 1) ack_seq k lost pending a.1 in
    let below = lookup_below (seq + 1) k (prune ack_seq lost pending) in
    let above = prune-Ascending (seq + 1) ack_seq lost pending a.1 in
    elim (Bool-cases (done ack_seq lost seq send)) [
      | inl gone ↦ rw (gone) (elim (Bool-cases (seq == k)) [
        | inl here ↦ rw (here) (
            below (omega (arith, (==_iff seq k).0 here)) above
            ∙ sym (
                ap (λ j. if done ack_seq lost j send then none else some send)
                  (sym ((==_iff seq k).0 here))
                ∙ rw (gone) refl))
        | inr later ↦ rw (later) rest
      ])
      | inr stays ↦ rw (stays) (elim (Bool-cases (seq == k)) [
        | inl here ↦ rw (here) (
            sym (
              ap (λ j. if done ack_seq lost j send then none else some send)
                (sym ((==_iff seq k).0 here))
              ∙ rw (stays) refl))
        | inr later ↦ rw (later) rest
      ])
    ]

-- A packet that is to be sent again.
abbrev copied : LostSeqs → ℕ → Option PendingSend → Option PendingSend
copied lost seq none = none
copied lost seq (some send) = if lost seq && ltb send.retries max_retries then some send else none

snapshot-Ascending :
    (lo : ℕ) (lost : LostSeqs) (pending : OrdMap PendingSend)
    → Ascending lo pending
    → Ascending lo (snapshot lost pending)
unfolding snapshot
snapshot-Ascending lo lost [] a = tt
snapshot-Ascending lo lost ((seq, send) ∷ pending) a =
    let rest = snapshot-Ascending (seq + 1) lost pending a.1 in
    elim (Bool-cases (lost seq && ltb send.retries max_retries)) [
      | inl again ↦ rw (again) (a.0, rest)
      | inr not_again ↦
          rw (not_again)
            (Ascending-weaken (seq + 1) lo (snapshot lost pending) (omega (arith, a.0)) rest)
    ]

lookup-snapshot :
    (lo k : ℕ) (lost : LostSeqs) (pending : OrdMap PendingSend)
    → Ascending lo pending
    → lookup k (snapshot lost pending) ≡ copied lost k (lookup k pending)
unfolding snapshot lookup
lookup-snapshot lo k lost [] a = refl
lookup-snapshot lo k lost ((seq, send) ∷ pending) a =
    let rest = lookup-snapshot (seq + 1) k lost pending a.1 in
    let below = lookup_below (seq + 1) k (snapshot lost pending) in
    let above = snapshot-Ascending (seq + 1) lost pending a.1 in
    elim (Bool-cases (lost seq && ltb send.retries max_retries)) [
      | inl again ↦ rw (again) (elim (Bool-cases (seq == k)) [
        | inl here ↦ rw (here) (
            sym (
              ap (λ j. if lost j && ltb send.retries max_retries then some send else none)
                (sym ((==_iff seq k).0 here))
              ∙ rw (again) refl))
        | inr later ↦ rw (later) rest
      ])
      | inr not_again ↦ rw (not_again) (elim (Bool-cases (seq == k)) [
        | inl here ↦ rw (here) (
            below (omega (arith, (==_iff seq k).0 here)) above
            ∙ sym (
                ap (λ j. if lost j && ltb send.retries max_retries then some send else none)
                  (sym ((==_iff seq k).0 here))
                ∙ rw (not_again) refl))
        | inr later ↦ rw (later) rest
      ])
    ]

-- The effect of the resending on one packet.
abbrev tallied : ℕ → Option PendingSend → Option PendingSend → Option PendingSend
tallied now none send = send
tallied now (some s) none = none
tallied now (some s) (some send) =
    if ltb send.retries max_retries then some (resent now send) else some send

counted-Ascending :
    (now seq : ℕ) (found : Option PendingSend) (pending : OrdMap PendingSend)
    → Ascending 0 pending
    → Ascending 0 (counted now seq found pending)
unfolding counted
counted-Ascending now seq none pending a = a
counted-Ascending now seq (some send) pending a = elim (Bool-cases (ltb send.retries max_retries)) [
  | inl fewer ↦ rw (fewer) (assign-Ascending 0 seq (resent now send) pending (omega arith) a)
  | inr enough ↦ rw (enough) a
]

lookup-counted :
    (now seq k : ℕ) (s : PendingSend) (found : Option PendingSend) (pending : OrdMap PendingSend)
    → Ascending 0 pending
    → lookup seq pending ≡ found
    → lookup k (counted now seq found pending)
      ≡ (if seq == k then tallied now (some s) found else lookup k pending)
unfolding counted
lookup-counted now seq k s none pending a e = elim (Bool-cases (seq == k)) [
  | inl here ↦ rw (here) (ap (λ j. lookup j pending) (sym ((==_iff seq k).0 here)) ∙ e)
  | inr other ↦ rw (other) refl
]
lookup-counted now seq k s (some send) pending a e =
    elim (Bool-cases (ltb send.retries max_retries)) [
      | inl fewer ↦ rw (fewer) (lookup-assign 0 seq k (resent now send) pending a)
      | inr enough ↦ rw (enough) (elim (Bool-cases (seq == k)) [
        | inl here ↦ rw (here) (ap (λ j. lookup j pending) (sym ((==_iff seq k).0 here)) ∙ e)
        | inr other ↦ rw (other) refl
      ])
    ]

lookup-resend_all :
    (lo now k : ℕ) (snap pending : OrdMap PendingSend)
    → Ascending lo snap
    → Ascending 0 pending
    → lookup k (resend_all now snap pending) ≡ tallied now (lookup k snap) (lookup k pending)
unfolding resend_all lookup
lookup-resend_all lo now k [] pending h a = refl
lookup-resend_all lo now k ((seq, s) ∷ snap) pending h a =
    let rest =
      lookup-resend_all (seq + 1) now k snap (counted now seq (lookup seq pending) pending) h.1
        (counted-Ascending now seq (lookup seq pending) pending a) in
    let one = lookup-counted now seq k s (lookup seq pending) pending a refl in
    elim (Bool-cases (seq == k)) [
      | inl here ↦
          let same = (==_iff seq k).0 here in
          rw (here) (
            rest
            ∙ ap (λ t. tallied now t (lookup k (counted now seq (lookup seq pending) pending)))
                (lookup_below (seq + 1) k snap (omega (arith, same)) h.1)
            ∙ one
            ∙ rw (here) (ap (λ j. tallied now (some s) (lookup j pending)) same))
      | inr other ↦ rw (other) (rest ∙ ap (tallied now (lookup k snap)) (one ∙ rw (other) refl))
    ]

-- What a report makes of a pending packet.
abbrev pub settled : ℕ → LostSeqs → ℕ → ℕ → Option PendingSend → Option PendingSend
settled ack_seq lost now k none = none
settled ack_seq lost now k (some send) =
    if leb max_retries send.retries
    then none
    else if lost k
    then some (resent now send)
    else if leb k ack_seq
    then none
    else some send

tallied-settled :
    (ack_seq : ℕ) (lost : LostSeqs) (now k : ℕ) (found : Option PendingSend)
    → tallied now (copied lost k found) (kept ack_seq lost k found)
      ≡ settled ack_seq lost now k found
tallied-settled ack_seq lost now k none = refl
tallied-settled ack_seq lost now k (some send) = ground arith

-- What a report sends of a pending packet.
abbrev pub sent_again : LostSeqs → ℕ → Option PendingSend → Option PendingSend
sent_again lost k none = none
sent_again lost k (some send) =
    if leb max_retries send.retries then none else if lost k then some send else none

copied-sent_again :
    (lost : LostSeqs) (k : ℕ) (found : Option PendingSend)
    → copied lost k found ≡ sent_again lost k found
copied-sent_again lost k none = refl
copied-sent_again lost k (some send) = ground arith

-- After a report, a packet is pending no more if it was sent ten times again already; else, where
-- it is reported lost, it is sent again and counted, acknowledged or not; else it is gone if it is
-- at or below the acknowledged number, and pending as before if it is above. No packet is added.
-- What is sent again is just the pending packets that are reported lost and have a try left, each as
-- it was pending. The pending map is in ascending order.
pub lookup-apply_report :
    (ack_seq : ℕ) (lost : LostSeqs) (now k : ℕ) (pending : OrdMap PendingSend)
    → Ascending 0 pending
    → let (after, sent) = apply_report ack_seq lost now pending in
      (lookup k after ≡ settled ack_seq lost now k (lookup k pending))
      × (lookup k sent ≡ sent_again lost k (lookup k pending))
unfolding apply_report
lookup-apply_report ack_seq lost now k pending a = (
  lookup-resend_all 0 now k (snapshot lost pending) (prune ack_seq lost pending)
        (snapshot-Ascending 0 lost pending a) (prune-Ascending 0 ack_seq lost pending a)
      ∙ ap₂ (tallied now) (lookup-snapshot 0 k lost pending a)
          (lookup-prune 0 ack_seq k lost pending a)
      ∙ tallied-settled ack_seq lost now k (lookup k pending),
  lookup-snapshot 0 k lost pending a ∙ copied-sent_again lost k (lookup k pending),
)
