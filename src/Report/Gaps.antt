-- ===== src/Report/Gaps.antt =====
-- `Report::build_payload` of tight/src/report.cpp up to the late ratio: the gaps that are reported
-- lost, and those that the cursor of the cumulative acknowledgment passes over. Times are
-- nanoseconds.
pub mod Passed
pub mod Events
use damen.Common.{
  ℕ, zero, suc, ◌+◌, ◌-◌, ◌*◌, ◌/◌, List, [], ◌∷◌, ◌++◌, Bool, true, false, ◌==◌, ltb, not, ◌&&◌,
  if◌then◌else◌, length, drop,
}
use damen.Common.Bytes.{u32}
use damen.Common.OrdMap.{OrdMap, erase}
use damen.Reassembler.Track.{ReceiveState, consume_all}
use damen.Report.{max_retries}

-- What the pass over the gaps reads of the peer, and the interval of the reports in nanoseconds.
pub record ReportSettings : Type 0 where
  pub retransmit : Bool
  pub peer_retransmit : Bool
  pub sender_rtt_us : ℕ
  pub report_interval : ℕ

-- 3.5 round trips in microseconds, as 32-bit numbers; 100 ms for a short one.
unfoldable pub loss_threshold : ℕ → ℕ
loss_threshold sender_rtt_us =
    let rtt_threshold = if ltb 0 sender_rtt_us then sender_rtt_us else 10000 in
    if ltb rtt_threshold 10000 then 100000 else u32 (rtt_threshold * 7) / 2

unfoldable pub give_up_us : ℕ → ℕ
give_up_us report_interval = report_interval * (max_retries + 2) / 1000

-- The lambda: the cursor passes over the gap that it stands at.
unfoldable pub skip_gap : ReceiveState → ℕ → ReceiveState
skip_gap st g =
    if st.seq_initialized && g == st.next_expected_seq
    then consume_all (record st { next_expected_seq = u32 (st.next_expected_seq + 1) })
    else st

abbrev pub without : ReceiveState → ℕ → ReceiveState
without st g = record st { missing_seqs = erase g st.missing_seqs }

-- The loop over the gaps from one on: those that are reported lost, in order, and the peer. A gap
-- seen after `now` has a negative age, below every threshold, as the age zero is.
unfoldable pub pass_gaps : ReportSettings → ℕ → List (ℕ × ℕ) → ReceiveState → List ℕ × ReceiveState
unfolding skip_gap loss_threshold give_up_us
pass_gaps settings now [] st = ([], st)
pass_gaps settings now ((g, seen) ∷ gaps) st =
    let elapsed_us = (now - seen) / 1000 in
    let skipped = pass_gaps settings now gaps (without (skip_gap st g) g) in
    let given_up = pass_gaps settings now gaps (without st g) in
    let (lost, after) = pass_gaps settings now gaps (skip_gap st g) in
    let waiting = pass_gaps settings now gaps st in
    if not (settings.retransmit && settings.peer_retransmit)
    then skipped
    else if ltb (give_up_us settings.report_interval) elapsed_us
    then given_up
    else if ltb (loss_threshold settings.sender_rtt_us) elapsed_us
    then (g ∷ lost, after)
    else waiting

-- The first gaps are dropped until 4096 are left.
abbrev pub at_most_4096 : ReceiveState → ReceiveState
at_most_4096 st = record st { missing_seqs = drop (length st.missing_seqs - 4096) st.missing_seqs }

unfoldable pub report_gaps : ReportSettings → ℕ → ReceiveState → List ℕ × ReceiveState
unfolding pass_gaps
report_gaps settings now st =
    let (lost, after) = pass_gaps settings now st.missing_seqs st in (lost, at_most_4096 after)
