-- ===== src/Queue.antt =====
-- tight/include/tight/blocking_queue.hpp: the queue as nodes in a heap, with the list of nodes kept for
-- use again. An address is a number, 0 the null pointer; `none` is a use of memory that is not
-- allocated. Every call holds the mutex, so a call is one step from the moment it has the lock: where
-- the source waits, the outcome is `waits` and the call is tried again when it is woken.
pub mod Chain
pub mod Spec
pub mod Obtain
pub mod Put
pub mod Take
pub mod Refine
pub mod History
pub mod Destroy
mod Tests
use damen.Common.{
  ℕ, zero, suc, ◌+◌, ◌-◌, Option, none, some, Bool, true, false, ◌==◌, ltb, leb, not, ◌&&◌, ◌||◌,
  if◌then◌else◌,
}

-- What a call comes to: it is refused, it waits, or it is done.
pub data Outcome {κ} (R : Type κ) : Type κ where
  refused : Outcome R
  waits : Outcome R
  finished : R → Outcome R

module _ {ℓ} (T : Type ℓ) where
  pub record Node : Type ℓ where
    pub item : Option T
    pub next : ℕ

  abbrev pub Heap : Type ℓ
  Heap = ℕ → Option Node

  pub record Queue : Type ℓ where
    pub heap : Heap
    pub fresh : ℕ
    pub capacity : ℕ
    pub size : ℕ
    pub head : ℕ
    pub tail : ℕ
    pub free_nodes : ℕ
    pub free_count : ℕ
    pub closed : Bool

module _ {ℓ} {T : Type ℓ} where
  unfoldable pub write : Heap T → ℕ → Option (Node T) → Heap T
  write heap a v b = if b == a then v else heap b

  abbrev pub new_queue : ℕ → Queue T
  new_queue capacity = record {
    heap = λ a. none;
    fresh = 1;
    capacity = capacity;
    size = 0;
    head = 0;
    tail = 0;
    free_nodes = 0;
    free_count = 0;
    closed = false;
  }

  -- What follows a read of a node; a node that is not there is undefined behaviour.
  abbrev pub reading {κ} : {R : Type κ} → Option (Node T) → (Node T → Option R) → Option R
  reading none f = none
  reading (some node) f = f node

  -- A node of the list of kept ones, or a new one.
  unfoldable pub obtain_node : Queue T → Option (ℕ × Queue T)
  obtain_node q =
      if q.free_nodes == 0
      then some (
        q.fresh,
        record q {
          heap = write q.heap q.fresh (some (record { item = none; next = 0 }));
          fresh = q.fresh + 1;
        },
      )
      else reading (q.heap q.free_nodes) (λ node. some (
        q.free_nodes,
        record q {
          heap = write q.heap q.free_nodes (some (record node { next = 0 }));
          free_nodes = node.next;
          free_count = q.free_count - 1;
        },
      ))

  unfoldable pub recycle_node : ℕ → Queue T → Option (Queue T)
  recycle_node a q = reading (q.heap a) (λ node.
      if ltb q.free_count 64
      then some (record q {
        heap = write q.heap a (some (record { item = none; next = q.free_nodes }));
        free_nodes = a;
        free_count = q.free_count + 1;
      })
      else some (record q { heap = write q.heap a none }))

  unfoldable pub link_tail : ℕ → Queue T → Option (Queue T)
  link_tail a q =
      if q.tail == 0
      then some (record q { head = a; tail = a; size = q.size + 1 })
      else reading (q.heap q.tail) (λ last. some (record q {
        heap = write q.heap q.tail (some (record last { next = a }));
        tail = a;
        size = q.size + 1;
      }))

  -- The item that is moved out, and the queue.
  abbrev pub moved_out : Option T → Option (Queue T) → Option (T × Queue T)
  moved_out (some x) (some q) = some (x, q)
  moved_out _ _ = none

  unfoldable pub unlink_head : Queue T → Option (T × Queue T)
  unfolding recycle_node
  unlink_head q = reading (q.heap q.head) (λ node. moved_out node.item (
      recycle_node q.head (record q {
        head = node.next;
        tail = if node.next == 0 then 0 else q.tail;
        size = q.size - 1;
      })))

  -- The end of `push` and of `try_push`: a node, its item, its place.
  abbrev pub emplaced : T → Option (ℕ × Queue T) → Option (Queue T)
  emplaced x none = none
  emplaced x (some (a, q)) = reading (q.heap a) (λ node.
      link_tail a (record q { heap = write q.heap a (some (record node { item = some x })) }))

  unfoldable pub enqueue : T → Queue T → Option (Queue T)
  unfolding obtain_node link_tail
  enqueue x q = emplaced x (obtain_node q)

  abbrev pub is_full : Queue T → Bool
  is_full q = ltb 0 q.capacity && leb q.capacity q.size

  -- The answer of a call that puts an item in, and one that takes an item out.
  abbrev pub put_in : Option (Queue T) → Option (Outcome (Unit {0}) × Queue T)
  put_in none = none
  put_in (some after) = some (finished tt, after)

  abbrev pub taken_out : Option (T × Queue T) → Option (Outcome T × Queue T)
  taken_out none = none
  taken_out (some (x, after)) = some (finished x, after)

  unfoldable pub push : T → Queue T → Option (Outcome (Unit {0}) × Queue T)
  unfolding enqueue
  push x q =
      if q.closed
      then some (refused, q)
      else if is_full q
      then some (waits, q)
      else put_in (enqueue x q)

  unfoldable pub try_push : T → Queue T → Option (Outcome (Unit {0}) × Queue T)
  unfolding enqueue
  try_push x q = if q.closed || is_full q then some (refused, q) else put_in (enqueue x q)

  unfoldable pub take_one : Queue T → Option (Outcome T × Queue T)
  unfolding unlink_head
  take_one q =
      if not (ltb 0 q.size || q.closed)
      then some (waits, q)
      else if q.closed && q.size == 0
      then some (refused, q)
      else taken_out (unlink_head q)

  -- `take_for` after the wait: either its condition holds or the time is over.
  unfoldable pub take_for : Queue T → Option (Outcome T × Queue T)
  unfolding unlink_head
  take_for q =
      let ok = ltb 0 q.size || q.closed in
      if not ok || (q.closed && q.size == 0) then some (refused, q) else taken_out (unlink_head q)

  unfoldable pub poll : Queue T → Option (Outcome T × Queue T)
  unfolding unlink_head
  poll q = if q.size == 0 then some (refused, q) else taken_out (unlink_head q)

  unfoldable pub close : Queue T → Queue T
  close q = record q { closed = true }

  -- `drain_list`: the nodes of a chain are deleted one after the other.
  unfoldable pub drain_list : ℕ → ℕ → Heap T → Option (Heap T)
  drain_list zero p heap = none
  drain_list (suc fuel) p heap =
      if p == 0
      then some heap
      else reading (heap p) (λ node. drain_list fuel node.next (write heap p none))

  abbrev pub then_drain : ℕ → ℕ → Option (Heap T) → Option (Heap T)
  then_drain fuel p none = none
  then_drain fuel p (some heap) = drain_list fuel p heap

  -- The destructor; a chain of `n` nodes takes `n + 1` rounds.
  unfoldable pub destroy : Queue T → Option (Heap T)
  unfolding drain_list close
  destroy q =
      let shut = close q in
      then_drain (shut.free_count + 1) shut.free_nodes
        (drain_list (shut.size + 1) shut.head shut.heap)
