-- ===== src/Queue/Spec.antt =====
-- What tight/include/tight/blocking_queue.hpp promises: a bounded first-in first-out queue that can be
-- closed; and the heaps that represent one.
use damen.Common.{
  ℕ, ◌≤◌, ◌<◌, ◌≡◌, List, [], ◌∷◌, ◌++◌, map, none, some, Bool, ltb, leb, ◌&&◌, ◌||◌, if◌then◌else◌,
  length,
}
use damen.Queue.{Heap, Queue, Outcome, refused, waits, finished}
use damen.Queue.Chain.{NotIn, Distinct, Below, Cells, addresses, contents, Linked, last_of}

pub record Bounded {ℓ} (T : Type ℓ) : Type ℓ where
  pub items : List T
  pub capacity : ℕ
  pub closed : Bool

module _ {ℓ} {T : Type ℓ} where
  abbrev pub at_capacity : Bounded T → Bool
  at_capacity b = ltb 0 b.capacity && leb b.capacity (length b.items)

  abbrev pub added : T → Bounded T → Bounded T
  added x b = record b { items = b.items ++ (x ∷ []) }

  unfoldable pub spec_push : T → Bounded T → Outcome (Unit {0}) × Bounded T
  spec_push x b =
      if b.closed
      then (refused, b)
      else if at_capacity b
      then (waits, b)
      else (finished tt, added x b)

  unfoldable pub spec_try_push : T → Bounded T → Outcome (Unit {0}) × Bounded T
  spec_try_push x b = if b.closed || at_capacity b then (refused, b) else (finished tt, added x b)

  -- The oldest item, or an answer for an empty queue.
  abbrev pub oldest : Outcome T → Bounded T → List T → Outcome T × Bounded T
  oldest empty b [] = (empty, b)
  oldest empty b (x ∷ items) = (finished x, record b { items = items })

  unfoldable pub spec_take : Bounded T → Outcome T × Bounded T
  spec_take b = oldest (if b.closed then refused else waits) b b.items

  unfoldable pub spec_poll : Bounded T → Outcome T × Bounded T
  spec_poll b = oldest refused b b.items

  abbrev pub last_address : Cells T → ℕ
  last_address [] = 0
  last_address (c ∷ cells) = (last_of c cells).0

  abbrev pub NothingElse : Heap T → List ℕ → Type ℓ
  NothingElse heap xs = (a : ℕ) → NotIn a xs → heap a ≡ none

  -- The nodes in the queue and the nodes that are kept are two chains with no address in common,
  -- below the next new address, and all the nodes there are; the items stand in the first chain in order; the counts are right,
  -- and at most 64 nodes are kept.
  pub record Represents (q : Queue T) (b : Bounded T) : Type ℓ where
    pub used : Cells T
    pub kept : Cells T
    pub items_there : contents used ≡ map some b.items
    pub used_linked : Linked q.heap q.head used
    pub kept_linked : Linked q.heap q.free_nodes kept
    pub distinct : Distinct (addresses used ++ addresses kept)
    pub below : Below q.fresh (addresses used ++ addresses kept)
    pub nothing_else : NothingElse q.heap (addresses used ++ addresses kept)
    pub not_null : 0 < q.fresh
    pub tail_there : q.tail ≡ last_address used
    pub sized : q.size ≡ length b.items
    pub counted : q.free_count ≡ length kept
    pub few : q.free_count ≤ 64
    pub same_capacity : q.capacity ≡ b.capacity
    pub same_closed : q.closed ≡ b.closed
