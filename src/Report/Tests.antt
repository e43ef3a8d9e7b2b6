-- ===== src/Report/Tests.antt =====
-- Runs of a report on pending packets, and its property at a concrete state.
use damen.Common.{ℕ, List, true, ◌≡◌, refl, arith, [], ◌∷◌, ◌==◌, ◌||◌}
use damen.Common.OrdMap.{OrdMap, lookup, assign, emplace, erase}
use damen.Wire.Endian.{magic_number, protocol_version}
use damen.Wire.PacketType.{data_packet}
use damen.Wire.Codec.{PacketHeader}
use damen.Report.{PendingSend, LostSeqs, snapshot, prune, counted, resend_all, apply_report}
use damen.Reassembler.Track.{
  count, add_missing, consume, consume_all, track_numbered, track, untracked,
}
use damen.Report.Gaps.{ReportSettings, loss_threshold, give_up_us, skip_gap, pass_gaps, report_gaps}
use damen.Report.Gaps.Events.{TrackEvent, packet_came, report_built}
use damen.Report.Pending.{settled, sent_again, lookup-apply_report}

abbrev sent_header : PacketHeader
sent_header = record {
  magic = magic_number;
  version = protocol_version;
  packet_type = data_packet;
  flags = 1;
  client_id = 7;
  session_id = 1;
  sequence = 4;
  acknowledgment = 0;
  message_id = 3;
  fragment_index = 0;
  fragment_count = 2;
  payload_size = 0;
  reserved = 0;
  tick = 0;
  checksum = 0;
}

abbrev sent_times : ℕ → PendingSend
sent_times retries = record {
  header = sent_header;
  payload = [];
  last_send = 100;
  bytes = 48;
  retries = retries;
}

-- Packets 4 to 7 are pending; 5 is acknowledged, 4 and 7 are lost, and 7 has no try left.
abbrev four_pending : OrdMap PendingSend
four_pending = (4, sent_times 0) ∷ (5, sent_times 0) ∷ (6, sent_times 1) ∷ (7, sent_times 10) ∷ []

abbrev four_and_seven : LostSeqs
four_and_seven seq = seq == 4 || seq == 7

two_left :
    (apply_report 5 four_and_seven 200 four_pending).0
    ≡ (4, record (sent_times 1) { last_send = 200 }) ∷ (6, sent_times 1) ∷ []
unfolding apply_report resend_all counted snapshot prune lookup assign
two_left = refl

lookup-apply_report_example :
    (lookup 4 (apply_report 5 four_and_seven 200 four_pending).0
      ≡ settled 5 four_and_seven 200 4 (lookup 4 four_pending))
    × (lookup 4 (apply_report 5 four_and_seven 200 four_pending).1
        ≡ sent_again four_and_seven 4 (lookup 4 four_pending))
lookup-apply_report_example =
    lookup-apply_report 5 four_and_seven 200 4 four_pending
      (omega arith, (omega arith, (omega arith, (omega arith, tt))))

-- A round trip of 10 ms, and a report each second.
abbrev settings : ReportSettings
settings = record {
  retransmit = true;
  peer_retransmit = true;
  sender_rtt_us = 0;
  report_interval = 1000000000;
}

-- Packet 8 comes after packet 5; 50 ms later both gaps are reported, and passed over.
abbrev two_gaps : List TrackEvent
two_gaps = packet_came 8 20 ∷ report_built 50000020 ∷ []

both_reported : (report_gaps settings 50000020 (track (track untracked 5 10) 8 20)).0 ≡ 6 ∷ 7 ∷ []
unfolding track track_numbered report_gaps pass_gaps skip_gap consume_all consume count add_missing
    lookup emplace erase loss_threshold give_up_us
both_reported = refl
