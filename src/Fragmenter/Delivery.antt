-- ===== src/Fragmenter/Delivery.antt =====
-- The fragmenter of tight/src/fragmenter.cpp and the reassembler, one after the other.
use damen.Common.{ℕ, ◌+◌, List, [], ◌++◌, Option, length, map}
use damen.Common.Bytes.{u16}
use damen.Fec.Code.{Bytes}
use damen.Reassembler.Assembly.{IncomingMessage}
use damen.Reassembler.Assembly.Delivered.{on_wire}
use damen.Fragmenter.{frag_payload_of, spans_of, Fragment, send_data}

abbrev the_empty : Bytes
the_empty = []

abbrev content_of : Fragment → Bytes
content_of f = f.content

abbrev size_of : Fragment → ℕ
size_of f = f.real_size

-- The entry that the fragments sent make: their contents padded on the wire, the sizes and the
-- counts that they carry as 16-bit numbers, and perhaps parities.
abbrev entry_of_parts :
    ℕ → ℕ → List (Option Bytes) → List ℕ → ℕ → ℕ → ℕ → List Bytes → List ℕ → IncomingMessage
entry_of_parts message_id width parities parity_sizes seen total data_count contents sizes =
    record {
      message_id = message_id;
      total_count = total;
      data_count = data_count;
      fragments = on_wire width contents ++ parities;
      sizes = sizes ++ parity_sizes;
      first_seen = seen;
    }

abbrev pub sent_data : ℕ → ℕ → ℕ → Bytes → List Fragment
sent_data message_id mtu parity_count payload =
    let spans = spans_of mtu payload in
    send_data message_id 0 (u16 (length spans + parity_count)) (u16 (length spans)) spans

abbrev pub arrived : ℕ → ℕ → Bytes → List (Option Bytes) → List ℕ → ℕ → IncomingMessage
arrived message_id mtu payload parities parity_sizes seen =
    let sent = sent_data message_id mtu (length parities) payload in
    let count = length (spans_of mtu payload) in
    entry_of_parts message_id (frag_payload_of mtu) parities parity_sizes seen
      (u16 (count + length parities)) (u16 count) (map content_of sent) (map size_of sent)
