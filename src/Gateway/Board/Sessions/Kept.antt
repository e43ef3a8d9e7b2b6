-- ===== src/Gateway/Board/Sessions/Kept.antt =====
-- The entry of a device through the calls of gateway/gateway_session.hpp.
use damen.Common.{
  ℕ, ◌≡◌, refl, sym, ap, ap₂, ◌∙◌, arith, List, [], ◌∷◌, some, Bool, true, false, ◌==◌, ==_iff,
  ==_self, if◌then◌else◌, Bool-cases, inl, inr,
}
use damen.Fec.Code.{Bytes}
use damen.Gateway.Board.{
  ConvaiStatus, idle, BlackboardEntry, DataBoard, same_bytes, entry_or_blank, find_device,
  put_device, with_device, mark_changed,
}
use damen.Gateway.Board.Sessions.{
  entry_of, session_opened, activated, closed, with_status, with_bytes_in, with_bytes_out,
  with_message, generate_session_id, create_session, activate_session, close_session, update_status,
  record_bytes_in, record_bytes_out, record_message, is_connected, device_state,
}

same_bytes_self : (xs : Bytes) → same_bytes xs xs ≡ true
unfolding same_bytes
same_bytes_self [] = refl
same_bytes_self (x ∷ xs) = rw (==_self x, same_bytes_self xs) refl

abbrev as_bit : Bool → ℕ
as_bit true = 1
as_bit false = 0

true_false : {A : Type 0} → true ≡ false → A
true_false e = absurd (omega (arith, ap as_bit e))

same_bytes→eq : (xs ys : Bytes) → same_bytes xs ys ≡ true → xs ≡ ys
unfolding same_bytes
same_bytes→eq [] [] h = refl
same_bytes→eq [] (y ∷ ys) h = ground arith
same_bytes→eq (x ∷ xs) [] h = ground arith
same_bytes→eq (x ∷ xs) (y ∷ ys) h = elim (Bool-cases (x == y)) [
  | inl e ↦ ap₂ ◌∷◌ ((==_iff x y).0 e) (same_bytes→eq xs ys (sym (rw (e) refl) ∙ h))
  | inr e ↦ true_false (sym h ∙ rw (e) refl)
]

-- A device that is not the one created for.
other_device : (id k : Bytes) → ¬ (id ≡ k) → same_bytes id k ≡ false
other_device id k apart = elim (Bool-cases (same_bytes id k)) [
  | inl y ↦ absurd (apart (same_bytes→eq id k y))
  | inr n ↦ n
]

find-put :
    (k id : Bytes) (entry : BlackboardEntry) (devices : List (Bytes × BlackboardEntry))
    → find_device k (put_device id entry devices)
      ≡ (if same_bytes id k then some entry else find_device k devices)
unfolding find_device put_device
find-put k id entry [] = refl
find-put k id entry ((key, old) ∷ devices) =
    let rest = find-put k id entry devices in
    elim (Bool-cases (same_bytes key id)) [
      | inl here ↦
          let e = ap (λ t. same_bytes t k) (same_bytes→eq key id here) in
          rw (here) (elim (Bool-cases (same_bytes id k)) [
            | inl y ↦ rw (e ∙ y, y) refl
            | inr n ↦ rw (e ∙ n, n) refl
          ])
      | inr other ↦ rw (other) (elim (Bool-cases (same_bytes id k)) [
        | inl y ↦
            rw (sym (ap (same_bytes key) (same_bytes→eq id k y)) ∙ other, y) (rest ∙ rw (y) refl)
        | inr n ↦ rw (n) (ap (λ t. if same_bytes key k then some old else t) (rest ∙ rw (n) refl))
      ])
    ]

-- What a call makes of one entry, and leaves of the others.
found :
    (k id : Bytes) (f : BlackboardEntry → BlackboardEntry) (board : DataBoard)
    → find_device k (with_device id f board).devices
      ≡ (if same_bytes id k then some (f (entry_of id board)) else find_device k board.devices)
unfolding with_device
found k id f board = find-put k id (f (entry_of id board)) board.devices

found_self :
    (k : Bytes) (f : BlackboardEntry → BlackboardEntry) (board : DataBoard)
    → find_device k (with_device k f board).devices ≡ some (f (entry_of k board))
found_self k f board =
    found k k f board
    ∙ ap (λ t. if t then some (f (entry_of k board)) else find_device k board.devices)
        (same_bytes_self k)

pub data SessionCall : Type 0 where
  create_call : ℕ → ℕ → ℕ → SessionCall
  activate_call : ℕ → Bytes → SessionCall
  close_session_call : ℕ → SessionCall
  status_call : ℕ → ConvaiStatus → SessionCall
  bytes_in_call : ℕ → ℕ → SessionCall
  bytes_out_call : ℕ → ℕ → SessionCall
  message_call : SessionCall
  is_connected_call : SessionCall
  state_call : SessionCall

-- A call on a device; what it answers is left out.
unfoldable pub session_call : SessionCall → Bytes → DataBoard → DataBoard
session_call (create_call this named now) id board = (create_session this named now id board).1
session_call (activate_call now session) id board = (activate_session now id session board).1
session_call (close_session_call now) id board = close_session now id board
session_call (status_call now status) id board = update_status now status id board
session_call (bytes_in_call now bytes) id board = record_bytes_in now bytes id board
session_call (bytes_out_call now bytes) id board = record_bytes_out now bytes id board
session_call message_call id board = record_message id board
session_call is_connected_call id board = (is_connected id board).1
session_call state_call id board = (device_state id board).1

unfoldable pub session_calls : List (Bytes × SessionCall) → DataBoard → DataBoard
unfolding session_call
session_calls [] board = board
session_calls ((id, call) ∷ calls) board = session_calls calls (session_call call id board)

-- The device has an entry with this session.
abbrev pub HasSession : Bytes → Bytes → DataBoard → Type 0
HasSession k session board =
    (entry : BlackboardEntry) × (find_device k board.devices ≡ some entry)
    × (entry.state.session_id ≡ session)

abbrev pub Creates : Bytes → SessionCall → Bytes → Type 0
Creates id (create_call this named now) k = id ≡ k
Creates id _ k = ◌≡◌ {A = ℕ} 0 1

abbrev pub NoneCreates : List (Bytes × SessionCall) → Bytes → Type 0
NoneCreates [] k = Unit {0}
NoneCreates ((id, call) ∷ calls) k = ¬ (Creates id call k) × NoneCreates calls k

-- A change of an entry that keeps its session.
with_device-HasSession :
    (k id session : Bytes) (f : BlackboardEntry → BlackboardEntry) (board : DataBoard)
    → ((entry : BlackboardEntry) → (f entry).state.session_id ≡ entry.state.session_id)
    → HasSession k session board
    → HasSession k session (with_device id f board)
with_device-HasSession k id session f board same h = elim (Bool-cases (same_bytes id k)) [
  | inl here ↦
      let e = same_bytes→eq id k here in
      (
        f (entry_of id board),
        found k id f board ∙ rw (here) refl,
        same (entry_of id board)
            ∙ ap (λ t. (entry_or_blank id (find_device t board.devices)).state.session_id) e
            ∙ ap (λ t. (entry_or_blank id t).state.session_id) h.1
            ∙ h.2,
      )
  | inr other ↦ (h.0, found k id f board ∙ rw (other) h.1, h.2)
]

if-HasSession :
    (t : Bool) (k session : Bytes) (x y : DataBoard)
    → HasSession k session x
    → HasSession k session y
    → HasSession k session (if◌then◌else◌ {A = Bool × DataBoard} t (true, x) (false, y)).1
if-HasSession true k session x y hx hy = hx
if-HasSession false k session x y hx hy = hy

-- A call that creates no session for the device keeps the one it has.
session_call-HasSession :
    (call : SessionCall) (id k session : Bytes) (board : DataBoard)
    → ¬ (Creates id call k)
    → HasSession k session board
    → HasSession k session (session_call call id board)
unfolding session_call create_session activate_session close_session update_status record_bytes_in
    record_bytes_out record_message is_connected device_state mark_changed
session_call-HasSession (create_call this named now) id k session board apart h = (
  h.0,
  found k id (session_opened now (generate_session_id this named id) id) board
      ∙ ap
          (λ t.
            if t
            then some
                (session_opened now (generate_session_id this named id) id (entry_of id board))
            else find_device k board.devices)
          (other_device id k apart)
      ∙ h.1,
  h.2,
)
session_call-HasSession (activate_call now asked) id k session board apart h =
    if-HasSession (same_bytes (entry_of id board).state.session_id asked) k session
      (with_device id (activated now) board) (with_device id (λ entry. entry) board)
      (with_device-HasSession k id session (activated now) board (λ _. refl) h)
      (with_device-HasSession k id session (λ entry. entry) board (λ _. refl) h)
session_call-HasSession (close_session_call now) id k session board apart h =
    with_device-HasSession k id session (closed now) board (λ _. refl) h
session_call-HasSession (status_call now status) id k session board apart h =
    with_device-HasSession k id session (with_status now status) board (λ _. refl) h
session_call-HasSession (bytes_in_call now bytes) id k session board apart h =
    with_device-HasSession k id session (with_bytes_in now bytes) board (λ _. refl) h
session_call-HasSession (bytes_out_call now bytes) id k session board apart h =
    with_device-HasSession k id session (with_bytes_out now bytes) board (λ _. refl) h
session_call-HasSession message_call id k session board apart h =
    with_device-HasSession k id session with_message board (λ _. refl) h
session_call-HasSession is_connected_call id k session board apart h =
    with_device-HasSession k id session (λ entry. entry) board (λ _. refl) h
session_call-HasSession state_call id k session board apart h =
    with_device-HasSession k id session (λ entry. entry) board (λ _. refl) h

session_calls-HasSession :
    (calls : List (Bytes × SessionCall)) (k session : Bytes) (board : DataBoard)
    → NoneCreates calls k
    → HasSession k session board
    → HasSession k session (session_calls calls board)
unfolding session_calls
session_calls-HasSession [] k session board none_of h = h
session_calls-HasSession ((id, call) ∷ calls) k session board none_of h =
    session_calls-HasSession calls k session (session_call call id board) none_of.1
      (session_call-HasSession call id k session board none_of.0 h)

create_session-HasSession :
    (this named now : ℕ) (k : Bytes) (board : DataBoard)
    → HasSession k
        (create_session this named now k board).0
        (create_session this named now k board).1
unfolding create_session mark_changed
create_session-HasSession this named now k board = (
  session_opened now (generate_session_id this named k) k (entry_of k board),
  found_self k (session_opened now (generate_session_id this named k) k) board,
  refl,
)

-- The entry of the device is in this session, connected and idle, last used at this time, and
-- marked as changed.
pub record IsActive (k session : Bytes) (now : ℕ) (board : DataBoard) : Type 0 where
  pub entry : BlackboardEntry
  pub has_entry : find_device k board.devices ≡ some entry
  pub in_session : entry.state.session_id ≡ session
  pub connected : entry.state.connected ≡ true
  pub idles : entry.state.status ≡ idle
  pub used : entry.state.last_activity_ms ≡ now
  pub marked : entry.dirty ≡ true

activate_session-HasSession :
    (now : ℕ) (k session : Bytes) (board : DataBoard)
    → HasSession k session board
    → ((activate_session now k session board).0 ≡ true)
      × IsActive k session now (activate_session now k session board).1
unfolding activate_session
activate_session-HasSession now k session board h =
    let e =
      ap (λ t. same_bytes (entry_or_blank k t).state.session_id session) h.1
      ∙ ap (λ t. same_bytes t session) h.2
      ∙ same_bytes_self session in
    rw (e) (
      refl,
      record {
        entry = activated now (entry_of k board);
        has_entry = found_self k (activated now) board;
        in_session = ap (λ t. (entry_or_blank k t).state.session_id) h.1 ∙ h.2;
        connected = refl;
        idles = refl;
        used = refl;
        marked = refl;
      },
    )

-- A session that was created is activated by its name after any calls of the session manager
-- that create none for the device, whatever they do to it and to the other devices and whatever
-- the clock says, on a board of any devices: the answer is true, and the device is then connected
-- and idle in that session, last used at the time of the call, and marked as changed.
pub activate_session-create_session :
    (this named now later : ℕ) (k : Bytes) (board : DataBoard) (calls : List (Bytes × SessionCall))
    → NoneCreates calls k
    → let (session, made) = create_session this named now k board in
      let (answer, after) = activate_session later k session (session_calls calls made) in
      (answer ≡ true) × IsActive k session later after
activate_session-create_session this named now later k board calls none_of =
    let (session, made) = create_session this named now k board in
    activate_session-HasSession later k session (session_calls calls made) (
      session_calls-HasSession calls k session made none_of
        (create_session-HasSession this named now k board))
