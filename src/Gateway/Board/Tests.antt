-- ===== src/Gateway/Board/Tests.antt =====
-- Sessions of two devices, and the property of Kept on one.
use damen.Common.{ℕ, ◌≡◌, refl, ap, arith, List, [], ◌∷◌, true, false}
use damen.Fec.Code.{Bytes}
use damen.Gateway.Board.{listening, DataBoard, take_changed_keys}
use damen.Gateway.Board.Sessions.{
  create_session, activate_session, close_session, update_status, record_bytes_in, is_connected,
  generate_session_id,
}
use damen.Gateway.Board.Sessions.Kept.{
  IsActive, SessionCall, create_call, close_session_call, status_call, bytes_in_call, session_calls,
  activate_session-create_session,
}

-- "a" and "b".
abbrev device_a : Bytes
device_a = 97 ∷ []

abbrev device_b : Bytes
device_b = 98 ∷ []

abbrev no_devices : DataBoard
no_devices = record { devices = []; changed_keys = [] }

-- The first device sends, the second makes a session, and the first is closed.
abbrev some_calls : List (Bytes × SessionCall)
some_calls =
    (device_a, bytes_in_call 12 300)
    ∷ (device_b, create_call 9 13 13)
    ∷ (device_a, status_call 14 listening)
    ∷ (device_a, close_session_call 15)
    ∷ []

-- "a-105-9".
session_name : generate_session_id 9 105 device_a ≡ 97 ∷ 45 ∷ 49 ∷ 48 ∷ 53 ∷ 45 ∷ 57 ∷ []
unfolding generate_session_id
session_name = refl

closed_after :
    (is_connected device_a
      (session_calls some_calls (create_session 9 10 11 device_a no_devices).1)).0
    ≡ false
unfolding session_calls is_connected create_session close_session update_status record_bytes_in
closed_after = refl

-- Another name is refused.
refused_other :
    (activate_session 16 device_a device_b (create_session 9 10 11 device_a no_devices).1).0 ≡ false
unfolding activate_session create_session
refused_other = refl

changed_once :
    (take_changed_keys (close_session 12 device_a (create_session 9 10 11 device_a no_devices).1)).0
    ≡ (100 ∷ 101 ∷ 118 ∷ 105 ∷ 99 ∷ 101 ∷ 58 ∷ 97 ∷ []) ∷ []
unfolding take_changed_keys close_session create_session
changed_once = refl

abbrev first_byte : Bytes → ℕ
first_byte [] = 0
first_byte (b ∷ bytes) = b

b_is_not_a : ¬ (device_b ≡ device_a)
b_is_not_a e = omega (arith, ap first_byte e)

not_created : ¬ (◌≡◌ {A = ℕ} 0 1)
not_created e = omega (arith, e)

abbrev made_a : DataBoard
made_a = (create_session 9 10 11 device_a no_devices).1

abbrev name_a : Bytes
name_a = (create_session 9 10 11 device_a no_devices).0

activate_session-create_session_example :
    ((activate_session 16 device_a name_a (session_calls some_calls made_a)).0 ≡ true)
    × IsActive device_a name_a 16
        (activate_session 16 device_a name_a (session_calls some_calls made_a)).1
activate_session-create_session_example =
    activate_session-create_session 9 10 11 16 device_a no_devices some_calls
      (not_created, (b_is_not_a, (not_created, (not_created, tt))))
