-- ===== src/Gateway/Channel.antt =====
-- gateway/gateway_channel.hpp: a channel as nodes in a heap, with a node before the first item. A value
-- that was moved out of a node, or that a node was made with, is `none`. Every call holds the mutex;
-- the two overloads of `send` do the same, and where the source waits the outcome is `waits`.
pub mod Sent
pub mod Received
pub mod History
use damen.Common.{
  ℕ, zero, suc, ◌+◌, ◌-◌, List, [], ◌∷◌, ◌++◌, Option, none, some, Bool, true, false, ◌==◌, ltb,
  leb, ◌&&◌, if◌then◌else◌, not, ◌||◌,
}
use damen.Queue.{Node, Heap, Outcome, refused, waits, finished, write, reading, drain_list}

pub record CopyChannel {ℓ} (T : Type ℓ) : Type ℓ where
  pub heap : Heap T
  pub fresh : ℕ
  pub capacity : ℕ
  pub count : ℕ
  pub head : ℕ
  pub tail : ℕ
  pub closed : Bool

module _ {ℓ} {T : Type ℓ} where
  unfoldable pub new_channel : ℕ → CopyChannel T
  unfolding write
  new_channel capacity = record {
    heap = write (λ a. none) 1 (some (record { item = none; next = 0 }));
    fresh = 2;
    capacity = capacity;
    count = 0;
    head = 1;
    tail = 1;
    closed = false;
  }

  -- `new Node{item, nullptr}`, before the mutex is taken, and its deletion where it is not sent.
  unfoldable pub new_node : T → CopyChannel T → CopyChannel T
  unfolding write
  new_node x ch = record ch {
    heap = write ch.heap ch.fresh (some (record { item = some x; next = 0 }));
    fresh = ch.fresh + 1;
  }

  unfoldable pub drop_node : ℕ → CopyChannel T → CopyChannel T
  unfolding write
  drop_node a ch = record ch { heap = write ch.heap a none }

  unfoldable pub attach : ℕ → CopyChannel T → Option (CopyChannel T)
  unfolding write
  attach a ch = reading (ch.heap ch.tail) (λ last. some (record ch {
    heap = write ch.heap ch.tail (some (record last { next = a }));
    tail = a;
    count = ch.count + 1;
  }))

  abbrev pub attached : Option (CopyChannel T) → Option (Outcome (Unit {0}) × CopyChannel T)
  attached none = none
  attached (some ch) = some (finished tt, ch)

  abbrev pub channel_full : CopyChannel T → Bool
  channel_full ch = ltb 0 ch.capacity && leb ch.capacity ch.count

  -- A `send` that waits keeps its node; it is tried again as a whole, so the node is given back.
  unfoldable pub send : T → CopyChannel T → Option (Outcome (Unit {0}) × CopyChannel T)
  unfolding new_node drop_node attach
  send x ch =
      if ch.closed
      then some (refused, drop_node ch.fresh (new_node x ch))
      else if channel_full ch
      then some (waits, drop_node ch.fresh (new_node x ch))
      else attached (attach ch.fresh (new_node x ch))

  unfoldable pub try_send : T → CopyChannel T → Option (Outcome (Unit {0}) × CopyChannel T)
  unfolding new_node drop_node attach
  try_send x ch =
      if ch.closed
      then some (refused, drop_node ch.fresh (new_node x ch))
      else if channel_full ch
      then some (refused, drop_node ch.fresh (new_node x ch))
      else attached (attach ch.fresh (new_node x ch))

  -- The first node is deleted and the one after it, whose item was moved out, takes its place.
  unfoldable pub shifted : ℕ → ℕ → CopyChannel T → CopyChannel T
  unfolding write
  shifted current next ch = record ch {
    heap = write (write ch.heap current (some (record { item = none; next = next }))) ch.head none;
    head = current;
    count = ch.count - 1;
  }

  abbrev pub received : ℕ → ℕ → Option T → CopyChannel T → Option (Outcome T × CopyChannel T)
  received current next none ch = none
  received current next (some x) ch = some (finished x, shifted current next ch)

  -- The node after the first one is read, and gives its item.
  unfoldable pub receive : ℕ → CopyChannel T → Option (Outcome T × CopyChannel T)
  unfolding shifted
  receive new_head ch =
      reading (ch.heap new_head) (λ node. received new_head node.next node.item ch)

  unfoldable pub recv : CopyChannel T → Option (Outcome T × CopyChannel T)
  unfolding receive
  recv ch = reading (ch.heap ch.head) (λ first.
      if not (not (first.next == 0) || ch.closed)
      then some (waits, ch)
      else if ch.closed && first.next == 0
      then some (refused, ch)
      else receive first.next ch)

  unfoldable pub try_recv : CopyChannel T → Option (Outcome T × CopyChannel T)
  unfolding receive
  try_recv ch =
      reading (ch.heap ch.head)
        (λ first. if first.next == 0 then some (refused, ch) else receive first.next ch)

  -- One round of the loop of `swap_out`: the item, the node after, and the channel.
  abbrev pub swapped : ℕ → ℕ → Option T → CopyChannel T → Option (T × (ℕ × CopyChannel T))
  swapped current next none ch = none
  swapped current next (some x) ch = some (x, (next, shifted current next ch))

  abbrev pub batch_with : T → Option (List T × CopyChannel T) → Option (List T × CopyChannel T)
  batch_with x none = none
  batch_with x (some (batch, ch)) = some (x ∷ batch, ch)

  abbrev pub and_more :
      (ℕ → CopyChannel T → Option (List T × CopyChannel T))
      → Option (T × (ℕ × CopyChannel T))
      → Option (List T × CopyChannel T)
  and_more rest none = none
  and_more rest (some (x, (next, ch))) = batch_with x (rest next ch)

  unfoldable pub swap_loop : ℕ → ℕ → CopyChannel T → Option (List T × CopyChannel T)
  unfolding shifted
  swap_loop zero current ch = none
  swap_loop (suc fuel) current ch =
      if current == 0
      then some ([], ch)
      else and_more (swap_loop fuel)
          (reading (ch.heap current) (λ node. swapped current node.next node.item ch))

  -- There are as many rounds as items, and one that ends the loop.
  unfoldable pub swap_out : CopyChannel T → Option (List T × CopyChannel T)
  unfolding swap_loop
  swap_out ch = reading (ch.heap ch.head) (λ first. swap_loop (ch.count + 1) first.next ch)

  unfoldable pub close_channel : CopyChannel T → CopyChannel T
  close_channel ch = record ch { closed = true }
