-- ===== src/Report/Gaps/Events.antt =====
-- Histories of packets and reports, on the numbers that tight/src/reassembler.cpp and
-- tight/src/report.cpp track together.
use damen.Common.{ℕ, ◌+◌, ◌^◌, ◌<◌, ◌≡◌, List, [], ◌∷◌, ◌⊎◌}
use damen.Reassembler.Track.{ReceiveState, track}
use damen.Report.Gaps.Passed.{PassedOver}
use damen.Report.Gaps.{ReportSettings, report_gaps}

-- What reaches the numbers of a peer: a packet that came, with its time, or the building of a report.
pub data TrackEvent : Type 0 where
  packet_came : ℕ → ℕ → TrackEvent
  report_built : ℕ → TrackEvent

unfoldable pub track_event : ReportSettings → ReceiveState → TrackEvent → ReceiveState
track_event settings st (packet_came seq now) = track st seq now
track_event settings st (report_built now) = (report_gaps settings now st).1

unfoldable pub track_events : ReportSettings → ReceiveState → List TrackEvent → ReceiveState
unfolding track_event
track_events settings st [] = st
track_events settings st (event ∷ events) =
    track_events settings (track_event settings st event) events

-- A number came, or was missing when a report passed over it.
abbrev pub Accounted : ReportSettings → ReceiveState → List TrackEvent → ℕ → Type 0
Accounted settings st [] n = ⊥
Accounted settings st (packet_came seq now ∷ events) n =
    (n ≡ seq) ⊎ Accounted settings (track st seq now) events n
Accounted settings st (report_built now ∷ events) n =
    PassedOver settings now st.missing_seqs n
    ⊎ Accounted settings (report_gaps settings now st).1 events n

-- No packet has the last of the 32-bit numbers.
abbrev pub NoneWraps : List TrackEvent → Type 0
NoneWraps [] = Unit
NoneWraps (packet_came seq now ∷ events) = (seq + 1 < 2 ^ 32) × NoneWraps events
NoneWraps (report_built now ∷ events) = NoneWraps events
