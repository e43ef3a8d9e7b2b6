-- ===== src/Gateway/Channel/History.antt =====
-- Histories of calls of gateway/gateway_channel.hpp, in the order in which they get the mutex.
use damen.Common.{ℕ, ◌≡◌, refl, ap, ◌∙◌, List, [], ◌∷◌, Option, none, some, true, false}
use damen.Queue.{Outcome}
use damen.Queue.Spec.{Bounded, spec_push, spec_try_push, spec_take, spec_poll}
use damen.Gateway.Channel.{
  CopyChannel, new_channel, send, try_send, recv, try_recv, swap_out, close_channel,
}
use damen.Gateway.Channel.Sent.{Carries, new_channel-Carries, send-Replies, try_send-Replies}
use damen.Gateway.Channel.Received.{recv-Replies, try_recv-Replies, swap_out-Swapped}

pub data ChannelCall {ℓ} (T : Type ℓ) : Type ℓ where
  send_call : T → ChannelCall T
  try_send_call : T → ChannelCall T
  recv_call : ChannelCall T
  try_recv_call : ChannelCall T
  swap_out_call : ChannelCall T
  close_channel_call : ChannelCall T

pub data Reply {ℓ} (T : Type ℓ) : Type ℓ where
  of_send : Outcome (Unit {0}) → Reply T
  of_recv : Outcome T → Reply T
  of_batch : List T → Reply T
  of_close_channel : Reply T

module _ {ℓ} {T : Type ℓ} where
  abbrev reply_of {κ} :
      {R : Type κ} → (R → Reply T) → Option (R × CopyChannel T) → Option (Reply T × CopyChannel T)
  reply_of f none = none
  reply_of f (some (out, ch)) = some (f out, ch)

  unfoldable pub channel_call : ChannelCall T → CopyChannel T → Option (Reply T × CopyChannel T)
  channel_call (send_call x) ch = reply_of of_send (send x ch)
  channel_call (try_send_call x) ch = reply_of of_send (try_send x ch)
  channel_call recv_call ch = reply_of of_recv (recv ch)
  channel_call try_recv_call ch = reply_of of_recv (try_recv ch)
  channel_call swap_out_call ch = reply_of of_batch (swap_out ch)
  channel_call close_channel_call ch = some (of_close_channel, close_channel ch)

  unfoldable pub spec_channel_call : ChannelCall T → Bounded T → Reply T × Bounded T
  spec_channel_call (send_call x) b = let r = spec_push x b in (of_send r.0, r.1)
  spec_channel_call (try_send_call x) b = let r = spec_try_push x b in (of_send r.0, r.1)
  spec_channel_call recv_call b = let r = spec_take b in (of_recv r.0, r.1)
  spec_channel_call try_recv_call b = let r = spec_poll b in (of_recv r.0, r.1)
  spec_channel_call swap_out_call b = (of_batch b.items, record b { items = [] })
  spec_channel_call close_channel_call b = (of_close_channel, record b { closed = true })

  abbrev replied :
      Reply T → Option (List (Reply T) × CopyChannel T) → Option (List (Reply T) × CopyChannel T)
  replied reply none = none
  replied reply (some (replies, ch)) = some (reply ∷ replies, ch)

  abbrev and_then :
      (CopyChannel T → Option (List (Reply T) × CopyChannel T))
      → Option (Reply T × CopyChannel T)
      → Option (List (Reply T) × CopyChannel T)
  and_then rest none = none
  and_then rest (some (reply, ch)) = replied reply (rest ch)

  unfoldable pub run_channel :
      List (ChannelCall T) → CopyChannel T → Option (List (Reply T) × CopyChannel T)
  unfolding channel_call
  run_channel [] ch = some ([], ch)
  run_channel (c ∷ calls) ch = and_then (run_channel calls) (channel_call c ch)

  unfoldable pub spec_channel : List (ChannelCall T) → Bounded T → List (Reply T) × Bounded T
  unfolding spec_channel_call
  spec_channel [] b = ([], b)
  spec_channel (c ∷ calls) b =
      let r = spec_channel_call c b in let rest = spec_channel calls r.1 in (r.0 ∷ rest.0, rest.1)

  abbrev CalledOn : Option (Reply T × CopyChannel T) → Reply T × Bounded T → Type ℓ
  CalledOn got want = (after : CopyChannel T) × (got ≡ some (want.0, after)) × Carries after want.1

  channel_call-CalledOn :
      (c : ChannelCall T) (ch : CopyChannel T) (b : Bounded T)
      → Carries ch b
      → CalledOn (channel_call c ch) (spec_channel_call c b)
  unfolding channel_call spec_channel_call close_channel
  channel_call-CalledOn (send_call x) ch b r =
      let a = send-Replies x ch b r in (a.0, ap (reply_of of_send) a.1, a.2)
  channel_call-CalledOn (try_send_call x) ch b r =
      let a = try_send-Replies x ch b r in (a.0, ap (reply_of of_send) a.1, a.2)
  channel_call-CalledOn recv_call ch b r =
      let a = recv-Replies ch b r in (a.0, ap (reply_of of_recv) a.1, a.2)
  channel_call-CalledOn try_recv_call ch b r =
      let a = try_recv-Replies ch b r in (a.0, ap (reply_of of_recv) a.1, a.2)
  channel_call-CalledOn swap_out_call ch b r =
      let a = swap_out-Swapped ch b r in (a.0, ap (reply_of of_batch) a.1, a.2)
  channel_call-CalledOn close_channel_call ch b r = (
    record ch { closed = true },
    refl,
    record {
      used = r.used;
      items_there = r.items_there;
      linked = r.linked;
      distinct = r.distinct;
      below = r.below;
      nothing_else = r.nothing_else;
      tail_there = r.tail_there;
      counted = r.counted;
      same_capacity = r.same_capacity;
      same_closed = refl;
    },
  )

  run_channel-Carries :
      (calls : List (ChannelCall T)) (ch : CopyChannel T) (b : Bounded T)
      → Carries ch b
      → (after : CopyChannel T) × (run_channel calls ch ≡ some ((spec_channel calls b).0, after))
        × Carries after (spec_channel calls b).1
  unfolding run_channel spec_channel
  run_channel-Carries [] ch b r = (ch, refl, r)
  run_channel-Carries (c ∷ calls) ch b r =
      let first = channel_call-CalledOn c ch b r in
      let rest = run_channel-Carries calls first.0 (spec_channel_call c b).1 first.2 in
      (
        rest.0,
        ap (and_then (run_channel calls)) first.1 ∙ ap (replied (spec_channel_call c b).0) rest.1,
        rest.2,
      )

  abbrev pub empty_channel : ℕ → Bounded T
  empty_channel capacity = record { items = []; capacity = capacity; closed = false }

  -- Every history of calls on a new channel of any capacity answers call by call as a bounded
  -- first-in first-out queue does that can also be emptied in one batch, never uses memory that is
  -- not allocated, and leaves no other nodes than those of the items and the one before them.
  pub run_channel-spec_channel :
      (capacity : ℕ) (calls : List (ChannelCall T))
      → (after : CopyChannel T) × (run_channel calls (new_channel capacity)
          ≡ some ((spec_channel calls (empty_channel capacity)).0, after))
        × Carries after (spec_channel calls (empty_channel capacity)).1
  run_channel-spec_channel capacity calls =
      run_channel-Carries calls (new_channel capacity) (empty_channel capacity)
        (new_channel-Carries capacity)
