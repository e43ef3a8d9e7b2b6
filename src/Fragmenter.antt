-- ===== src/Fragmenter.antt =====
-- tight/src/fragmenter.cpp: a message is put behind its length, cut into fragments, and protected by
-- parities. The number of parities comes from a formula in floating point; `parity_for` stands for
-- it, at the late ratio of the time, of the number of data fragments.
mod Tests
pub mod Delivery
use damen.Common.{
  ℕ, zero, suc, ◌+◌, ◌-◌, ◌*◌, ◌/◌, ◌%◌, ◌^◌, min, bit_and, List, [], ◌∷◌, ◌++◌, Bool, true, false,
  ◌==◌, ltb, leb, if◌then◌else◌, length, take, drop, get_or,
}
use damen.Common.Bytes.{u16, u32, mem32}
use damen.Wire.Endian.{header_size, to_be32}
use damen.Fec.Code.{Bytes, encode_into}

-- The bytes of a fragment that the MTU leaves.
unfoldable pub frag_payload_of : ℕ → ℕ
frag_payload_of mtu =
    let room = if ltb header_size mtu then mtu - header_size else 64 in
    if leb room 4 then 64 else room

-- The loop that takes the next message number; a second round is enough, since zero comes once in
-- 2 ^ 31 numbers.
unfoldable pub next_message_id : ℕ → ℕ × ℕ
next_message_id msg_id_out =
    let id = msg_id_out % 2 ^ 31 in
    let out = u32 (msg_id_out + 1) in if id == 0 then (out % 2 ^ 31, u32 (out + 1)) else (id, out)

-- The length, and the message.
unfoldable pub full_of : Bytes → Bytes
full_of payload = mem32 (to_be32 (u32 (length payload))) ++ payload

-- The loop over the spans from offset `off` on.
unfoldable pub spans_from : ℕ → ℕ → ℕ → Bytes → List Bytes
spans_from zero off frag_payload full = []
spans_from (suc n) off frag_payload full =
    take (min frag_payload (length full - off)) (drop off full)
    ∷ spans_from n (off + frag_payload) frag_payload full

-- One call of the callback that sends a fragment.
pub record Fragment : Type 0 where
  pub message_id : ℕ
  pub index : ℕ
  pub total_count : ℕ
  pub data_count : ℕ
  pub real_size : ℕ
  pub content : Bytes

unfoldable pub send_data : ℕ → ℕ → ℕ → ℕ → List Bytes → List Fragment
send_data msg_id i cnt d_cnt [] = []
send_data msg_id i cnt d_cnt (span ∷ spans) =
    record {
      message_id = msg_id;
      index = u16 i;
      total_count = cnt;
      data_count = d_cnt;
      real_size = u16 (length span);
      content = span;
    }
    ∷ send_data msg_id (i + 1) cnt d_cnt spans

unfoldable pub send_parities : ℕ → ℕ → ℕ → ℕ → ℕ → ℕ → List Bytes → List Fragment
send_parities zero msg_id i cnt d_cnt width parities = []
send_parities (suc n) msg_id i cnt d_cnt width parities =
    record {
      message_id = msg_id;
      index = u16 i;
      total_count = cnt;
      data_count = d_cnt;
      real_size = u16 width;
      content = take width (get_or parities 0 []);
    }
    ∷ send_parities n msg_id (i + 1) cnt d_cnt width (drop 1 parities)

unfoldable pub data_count_for : ℕ → ℕ → ℕ
data_count_for frag_payload real_total =
    let n = (real_total + frag_payload - 1) / frag_payload in if n == 0 then 1 else n

-- The data fragments of a message.
unfoldable pub spans_of : ℕ → Bytes → List Bytes
spans_of mtu payload =
    let width = frag_payload_of mtu in
    let full = full_of payload in spans_from (data_count_for width (length full)) 0 width full

-- The fragments sent, in order, and the next message number; `buffers` is what the parity buffers
-- hold from the call before.
unfoldable pub fragment_and_send : (ℕ → ℕ) → ℕ → Bytes → ℕ → List Bytes → List Fragment × ℕ
fragment_and_send parity_for mtu payload msg_id_out buffers =
    let width = frag_payload_of mtu in
    let spans = spans_of mtu payload in
    let data_count = length spans in
    let parity_count = parity_for data_count in
    let (msg_id, out) = next_message_id msg_id_out in
    let parities = encode_into spans parity_count width buffers in
    let cnt = u16 (data_count + parity_count) in
    let d_cnt = u16 data_count in
    (
      send_data msg_id 0 cnt d_cnt spans
          ++ send_parities parity_count msg_id data_count cnt d_cnt width parities,
      out,
    )
