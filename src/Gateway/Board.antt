-- ===== src/Gateway/Board.antt =====
-- gateway/gateway_blackboard.hpp and gateway/gateway_session.hpp: the state of the devices and the
-- sessions. A string is the list of its bytes and a map an association list, whose order is not
-- looked at. The entries of sessions downstream and of the metrics are left out. The time is an argument of each call, and so is the address of the session manager.
pub mod Sessions
mod Tests
use damen.Common.{
  ℕ, zero, suc, ◌+◌, ◌/◌, ◌%◌, List, [], ◌∷◌, ◌++◌, Option, none, some, Bool, true, false, ◌==◌,
  ltb, ◌&&◌, ◌||◌, if◌then◌else◌,
}
use damen.Common.Bytes.{u64}
use damen.Fec.Code.{Bytes}

pub data ConvaiStatus : Type 0 where
  idle : ConvaiStatus
  listening : ConvaiStatus
  thinking : ConvaiStatus
  answering : ConvaiStatus
  interrupted : ConvaiStatus
  answer_finished : ConvaiStatus

pub record DeviceState : Type 0 where
  pub device_id : Bytes
  pub session_id : Bytes
  pub peer_id : Bytes
  pub jwt : Bytes
  pub connected : Bool
  pub authenticated : Bool
  pub status : ConvaiStatus
  pub bytes_in : ℕ
  pub bytes_out : ℕ
  pub message_count : ℕ
  pub last_activity_ms : ℕ
  pub audio_duration_ms : ℕ

pub record BlackboardEntry : Type 0 where
  pub state : DeviceState
  pub dirty : Bool

pub record DataBoard : Type 0 where
  pub devices : List (Bytes × BlackboardEntry)
  pub changed_keys : List Bytes

-- The equality of strings.
unfoldable pub same_bytes : Bytes → Bytes → Bool
same_bytes [] [] = true
same_bytes (x ∷ xs) (y ∷ ys) = x == y && same_bytes xs ys
same_bytes _ _ = false

abbrev pub blank_entry : Bytes → BlackboardEntry
blank_entry id = record {
  state = record {
    device_id = id;
    session_id = [];
    peer_id = [];
    jwt = [];
    connected = false;
    authenticated = false;
    status = idle;
    bytes_in = 0;
    bytes_out = 0;
    message_count = 0;
    last_activity_ms = 0;
    audio_duration_ms = 0;
  };
  dirty = false;
}

unfoldable pub find_device : Bytes → List (Bytes × BlackboardEntry) → Option BlackboardEntry
unfolding same_bytes
find_device id [] = none
find_device id ((key, entry) ∷ devices) =
    if same_bytes key id then some entry else find_device id devices

-- The entry of a device, which is made where there is none.
abbrev pub entry_or_blank : Bytes → Option BlackboardEntry → BlackboardEntry
entry_or_blank id none = blank_entry id
entry_or_blank id (some entry) = entry

unfoldable pub put_device :
    Bytes → BlackboardEntry → List (Bytes × BlackboardEntry) → List (Bytes × BlackboardEntry)
unfolding same_bytes
put_device id entry [] = (id, entry) ∷ []
put_device id entry ((key, old) ∷ devices) =
    let rest = put_device id entry devices in
    if same_bytes key id then (key, entry) ∷ devices else (key, old) ∷ rest

-- `device`, and what the caller makes of the entry through the pointer.
unfoldable pub with_device : Bytes → (BlackboardEntry → BlackboardEntry) → DataBoard → DataBoard
unfolding find_device put_device
with_device id f board = record board {
  devices = put_device id (f (entry_or_blank id (find_device id board.devices))) board.devices;
}

unfoldable pub remove_device :
    Bytes → List (Bytes × BlackboardEntry) → List (Bytes × BlackboardEntry)
unfolding same_bytes
remove_device id [] = []
remove_device id ((key, entry) ∷ devices) =
    let rest = remove_device id devices in
    if same_bytes key id then devices else (key, entry) ∷ rest

unfoldable pub insert_key : Bytes → List Bytes → List Bytes
unfolding same_bytes
insert_key key [] = key ∷ []
insert_key key (k ∷ keys) =
    let rest = insert_key key keys in if same_bytes k key then k ∷ keys else k ∷ rest

unfoldable pub mark_changed : Bytes → DataBoard → DataBoard
unfolding insert_key
mark_changed key board = record board { changed_keys = insert_key key board.changed_keys }

unfoldable pub take_changed_keys : DataBoard → List Bytes × DataBoard
take_changed_keys board = (board.changed_keys, record board { changed_keys = [] })
