-- ===== src/Gateway/Board/Sessions.antt =====
-- `SessionManager` of gateway/gateway_session.hpp.
pub mod Kept
use damen.Common.{
  ℕ, zero, suc, ◌+◌, ◌/◌, ◌%◌, List, [], ◌∷◌, ◌++◌, Option, none, some, Bool, true, false, ltb,
  if◌then◌else◌,
}
use damen.Common.Bytes.{u64}
use damen.Fec.Code.{Bytes}
use damen.Gateway.Board.{
  ConvaiStatus, idle, DeviceState, BlackboardEntry, DataBoard, same_bytes, entry_or_blank,
  find_device, with_device, mark_changed,
}

-- `std::to_string` of a 64-bit number, which has at most 20 digits.
unfoldable pub to_string : ℕ → ℕ → Bytes
to_string zero n = []
to_string (suc fuel) n =
    let rest = to_string fuel (n / 10) in
    if ltb n 10 then (48 + n) ∷ [] else rest ++ ((48 + n % 10) ∷ [])

-- "-".
abbrev dash : Bytes
dash = 45 ∷ []

unfoldable pub generate_session_id : ℕ → ℕ → Bytes → Bytes
unfolding to_string
generate_session_id this now id = id ++ dash ++ to_string 20 now ++ dash ++ to_string 20 this

-- "device:" and the name.
abbrev pub device_key : Bytes → Bytes
device_key id = (100 ∷ 101 ∷ 118 ∷ 105 ∷ 99 ∷ 101 ∷ 58 ∷ []) ++ id

abbrev on_state : (DeviceState → DeviceState) → BlackboardEntry → BlackboardEntry
on_state f entry = record entry { state = f entry.state }

abbrev and_dirty : BlackboardEntry → BlackboardEntry
and_dirty entry = record entry { dirty = true }

abbrev pub entry_of : Bytes → DataBoard → BlackboardEntry
entry_of id board = entry_or_blank id (find_device id board.devices)

abbrev pub session_opened : ℕ → Bytes → Bytes → BlackboardEntry → BlackboardEntry
session_opened now session id = on_state (λ ds. record ds {
  device_id = id;
  session_id = session;
  connected = true;
  last_activity_ms = now;
})

abbrev pub activated : ℕ → BlackboardEntry → BlackboardEntry
activated now entry =
    and_dirty
      (on_state (λ ds. record ds { connected = true; status = idle; last_activity_ms = now }) entry)

-- The clock is read twice, for the name of the session and for the time of the activity.
unfoldable pub create_session : ℕ → ℕ → ℕ → Bytes → DataBoard → Bytes × DataBoard
unfolding generate_session_id with_device mark_changed
create_session this named now id board =
    let session = generate_session_id this named id in
    (session, mark_changed (device_key id) (with_device id (session_opened now session id) board))

unfoldable pub activate_session : ℕ → Bytes → Bytes → DataBoard → Bool × DataBoard
unfolding same_bytes find_device with_device
activate_session now id session board =
    if same_bytes (entry_of id board).state.session_id session
    then (true, with_device id (activated now) board)
    else (false, with_device id (λ entry. entry) board)

abbrev pub closed : ℕ → BlackboardEntry → BlackboardEntry
closed now = on_state (λ ds. record ds { connected = false; status = idle; last_activity_ms = now })

unfoldable pub close_session : ℕ → Bytes → DataBoard → DataBoard
unfolding with_device mark_changed
close_session now id board = mark_changed (device_key id) (with_device id (closed now) board)

abbrev pub with_status : ℕ → ConvaiStatus → BlackboardEntry → BlackboardEntry
with_status now status entry =
    and_dirty (on_state (λ ds. record ds { status = status; last_activity_ms = now }) entry)

unfoldable pub update_status : ℕ → ConvaiStatus → Bytes → DataBoard → DataBoard
unfolding with_device
update_status now status id board = with_device id (with_status now status) board

abbrev pub with_bytes_in : ℕ → ℕ → BlackboardEntry → BlackboardEntry
with_bytes_in now bytes =
    on_state (λ ds. record ds { bytes_in = u64 (ds.bytes_in + bytes); last_activity_ms = now })

unfoldable pub record_bytes_in : ℕ → ℕ → Bytes → DataBoard → DataBoard
unfolding with_device
record_bytes_in now bytes id board = with_device id (with_bytes_in now bytes) board

abbrev pub with_bytes_out : ℕ → ℕ → BlackboardEntry → BlackboardEntry
with_bytes_out now bytes =
    on_state (λ ds. record ds { bytes_out = u64 (ds.bytes_out + bytes); last_activity_ms = now })

unfoldable pub record_bytes_out : ℕ → ℕ → Bytes → DataBoard → DataBoard
unfolding with_device
record_bytes_out now bytes id board = with_device id (with_bytes_out now bytes) board

abbrev pub with_message : BlackboardEntry → BlackboardEntry
with_message = on_state (λ ds. record ds { message_count = u64 (ds.message_count + 1) })

unfoldable pub record_message : Bytes → DataBoard → DataBoard
unfolding with_device
record_message id board = with_device id with_message board

unfoldable pub is_connected : Bytes → DataBoard → Bool × DataBoard
unfolding find_device with_device
is_connected id board = ((entry_of id board).state.connected, with_device id (λ entry. entry) board)

unfoldable pub device_state : Bytes → DataBoard → Option DeviceState × DataBoard
unfolding find_device with_device
device_state id board = (some (entry_of id board).state, with_device id (λ entry. entry) board)
