-- ===== src/Report.antt =====
-- tight/src/report.cpp: what a report does to the packets that wait for their acknowledgment, the
-- map `m_pending` of tight/src/peer.hpp. The report has been read; its lost numbers are a set.
-- The source gives the mutex up between the pruning and the count of each retry; here a report is
-- one step.
mod Tests
pub mod Gaps
pub mod Pending
use damen.Common.{
  ℕ, ◌+◌, ◌≡◌, List, [], ◌∷◌, Option, none, some, Bool, true, false, ◌==◌, ltb, leb, not, ◌&&◌,
  ◌||◌, if◌then◌else◌,
}
use damen.Common.OrdMap.{OrdMap, lookup, assign}
use damen.Wire.Codec.{PacketHeader}
use damen.Fec.Code.{Bytes}

pub record PendingSend : Type 0 where
  pub header : PacketHeader
  pub payload : Bytes
  pub last_send : ℕ
  pub bytes : ℕ
  pub retries : ℕ

abbrev pub max_retries : ℕ
max_retries = 10

-- The lost numbers, as a test.
abbrev pub LostSeqs : Type 0
LostSeqs = ℕ → Bool

-- The loop that copies what is to be sent again.
unfoldable pub snapshot : LostSeqs → OrdMap PendingSend → OrdMap PendingSend
snapshot lost [] = []
snapshot lost ((seq, send) ∷ pending) =
    let rest = snapshot lost pending in
    if lost seq && ltb send.retries max_retries then (seq, send) ∷ rest else rest

-- The loop that prunes what is acknowledged or has been sent often enough.
unfoldable pub prune : ℕ → LostSeqs → OrdMap PendingSend → OrdMap PendingSend
prune ack_seq lost [] = []
prune ack_seq lost ((seq, send) ∷ pending) =
    let rest = prune ack_seq lost pending in
    if (leb seq ack_seq && not (lost seq)) || leb max_retries send.retries
    then rest
    else (seq, send) ∷ rest

abbrev pub resent : ℕ → PendingSend → PendingSend
resent now send = record send { last_send = now; retries = send.retries + 1 }

-- The count of the retry, where the packet is still there.
unfoldable pub counted : ℕ → ℕ → Option PendingSend → OrdMap PendingSend → OrdMap PendingSend
counted now seq none pending = pending
counted now seq (some send) pending =
    if ltb send.retries max_retries then assign seq (resent now send) pending else pending

unfoldable pub resend_all : ℕ → OrdMap PendingSend → OrdMap PendingSend → OrdMap PendingSend
resend_all now [] pending = pending
resend_all now ((seq, send) ∷ snap) pending =
    resend_all now snap (counted now seq (lookup seq pending) pending)

-- The pending packets after the report, and those that were sent again, in order.
unfoldable pub apply_report :
    ℕ → LostSeqs → ℕ → OrdMap PendingSend → OrdMap PendingSend × OrdMap PendingSend
apply_report ack_seq lost now pending =
    let snap = snapshot lost pending in (resend_all now snap (prune ack_seq lost pending), snap)
