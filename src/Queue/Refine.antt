-- ===== src/Queue/Refine.antt =====
-- The calls of tight/include/tight/blocking_queue.hpp against the bounded queue they promise.
use damen.Common.{
  ℕ, suc, ◌≡◌, refl, sym, ap, ap₂, subst, ◌∙◌, arith, List, [], ◌∷◌, Option, some, Bool, true,
  false, ◌==◌, ltb, leb, not, ◌&&◌, ◌||◌, if◌then◌else◌, length,
}
use damen.Queue.{
  Queue, Outcome, refused, waits, finished, is_full, put_in, taken_out, enqueue, unlink_head, push,
  try_push, take_one, take_for, poll,
}
use damen.Queue.Spec.{
  Bounded, at_capacity, added, spec_push, spec_try_push, spec_take, spec_poll, oldest, Represents,
}
use damen.Queue.Put.{enqueue-Represents}
use damen.Queue.Take.{unlink_head-Represents}

module _ {ℓ} {T : Type ℓ} where
  -- A call on the heap answers as the call on the bounded queue does, with no use of memory that is
  -- not there, and leaves a heap that represents what that call leaves.
  abbrev pub Answers {κ} :
      {R : Type κ} → Option (Outcome R × Queue T) → Outcome R × Bounded T → Type (ℓ ⊔ κ)
  Answers got want = (after : Queue T) × (got ≡ some (want.0, after)) × Represents after want.1

  full_same : (q : Queue T) (b : Bounded T) → Represents q b → is_full q ≡ at_capacity b
  full_same q b r = ap₂ (λ c n. ltb 0 c && leb c n) r.same_capacity r.sized

  choice {κ} :
      {R : Type κ} (s : Bool) (g1 g2 : Option (Outcome R × Queue T)) (w1 w2 : Outcome R × Bounded T)
      → Answers g1 w1
      → Answers g2 w2
      → Answers (if s then g1 else g2) (if s then w1 else w2)
  choice true g1 g2 w1 w2 h k = h
  choice false g1 g2 w1 w2 h k = k

  put :
      (x : T) (q : Queue T) (b : Bounded T)
      → Represents q b
      → Answers (put_in (enqueue x q)) (finished tt, added x b)
  put x q b r = let next = enqueue-Represents x q b r in (next.0, ap put_in next.1, next.2)

  pub push-Answers :
      (x : T) (q : Queue T) (b : Bounded T) → Represents q b → Answers (push x q) (spec_push x b)
  unfolding push spec_push
  push-Answers x q b r =
      subst (Answers (push x q))
        (ap₂ (λ s t. if s then (refused, b) else if t then (waits, b) else (finished tt, added x b))
          r.same_closed (full_same q b r))
        (choice q.closed (some (refused, q))
          (if is_full q then some (waits, q) else put_in (enqueue x q)) (refused, b)
          (if is_full q then (waits, b) else (finished tt, added x b)) (q, refl, r)
          (choice (is_full q) (some (waits, q)) (put_in (enqueue x q)) (waits, b)
            (finished tt, added x b) (q, refl, r) (put x q b r)))

  pub try_push-Answers :
      (x : T) (q : Queue T) (b : Bounded T)
      → Represents q b
      → Answers (try_push x q) (spec_try_push x b)
  unfolding try_push spec_try_push
  try_push-Answers x q b r =
      subst (Answers (try_push x q))
        (ap₂ (λ s t. if s || t then (refused, b) else (finished tt, added x b)) r.same_closed
          (full_same q b r))
        (choice (q.closed || is_full q) (some (refused, q)) (put_in (enqueue x q)) (refused, b)
          (finished tt, added x b) (q, refl, r) (put x q b r))

  -- The tests of a call that takes an item, on the size and the flag.
  abbrev take_tests : Queue T → ℕ → Bool → Option (Outcome T × Queue T)
  take_tests q n c =
      if not (ltb 0 n || c)
      then some (waits, q)
      else if c && n == 0
      then some (refused, q)
      else taken_out (unlink_head q)

  abbrev take_for_tests : Queue T → ℕ → Bool → Option (Outcome T × Queue T)
  take_for_tests q n c =
      if not (ltb 0 n || c) || (c && n == 0) then some (refused, q) else taken_out (unlink_head q)

  take_nothing :
      (q : Queue T) (b : Bounded T) (c : Bool)
      → Represents q b
      → Answers (take_tests q 0 c) (if c then refused else waits, b)
  take_nothing q b true r = (q, refl, r)
  take_nothing q b false r = (q, refl, r)

  take_for_nothing :
      (q : Queue T) (b : Bounded T) (c : Bool)
      → Represents q b
      → Answers (take_for_tests q 0 c) (refused, b)
  take_for_nothing q b true r = (q, refl, r)
  take_for_nothing q b false r = (q, refl, r)

  take_first : (q : Queue T) (n : ℕ) (c : Bool) → take_tests q (suc n) c ≡ taken_out (unlink_head q)
  take_first q n true = ground arith
  take_first q n false = ground arith

  take_for_first :
      (q : Queue T) (n : ℕ) (c : Bool) → take_for_tests q (suc n) c ≡ taken_out (unlink_head q)
  take_for_first q n true = ground arith
  take_for_first q n false = ground arith

  taken :
      (q : Queue T) (b : Bounded T) (x : T) (items : List T) (got : Option (Outcome T × Queue T))
      → Represents q b
      → b.items ≡ x ∷ items
      → got ≡ taken_out (unlink_head q)
      → Answers got (finished x, record b { items = items })
  taken q b x items got r e p =
      let next = unlink_head-Represents q b x items r e in (next.0, p ∙ ap taken_out next.1, next.2)

  pub take_one-Answers :
      (q : Queue T) (b : Bounded T) → Represents q b → Answers (take_one q) (spec_take b)
  unfolding take_one spec_take
  take_one-Answers q b r = by_items b.items refl
    where
      by_items :
          (items : List T)
          → b.items ≡ items
          → Answers (take_one q) (oldest (if b.closed then refused else waits) b items)
      by_items [] e =
          subst (λ n. Answers (take_tests q n q.closed) (if b.closed then refused else waits, b))
            (sym (r.sized ∙ ap length e))
            (subst (λ c. Answers (take_tests q 0 q.closed) (if c then refused else waits, b))
              r.same_closed (take_nothing q b q.closed r))
      by_items (x ∷ items) e = taken q b x items (take_one q) r e (
          ap (λ n. take_tests q n q.closed) (r.sized ∙ ap length e)
          ∙ take_first q (length items) q.closed)

  pub take_for-Answers :
      (q : Queue T) (b : Bounded T) → Represents q b → Answers (take_for q) (spec_poll b)
  unfolding take_for spec_poll
  take_for-Answers q b r = by_items b.items refl
    where
      by_items : (items : List T) → b.items ≡ items → Answers (take_for q) (oldest refused b items)
      by_items [] e =
          subst (λ n. Answers (take_for_tests q n q.closed) (refused, b))
            (sym (r.sized ∙ ap length e)) (take_for_nothing q b q.closed r)
      by_items (x ∷ items) e = taken q b x items (take_for q) r e (
          ap (λ n. take_for_tests q n q.closed) (r.sized ∙ ap length e)
          ∙ take_for_first q (length items) q.closed)

  pub poll-Answers : (q : Queue T) (b : Bounded T) → Represents q b → Answers (poll q) (spec_poll b)
  unfolding poll spec_poll
  poll-Answers q b r = by_items b.items refl
    where
      by_items : (items : List T) → b.items ≡ items → Answers (poll q) (oldest refused b items)
      by_items [] e =
          subst
            (λ n.
              Answers (if n == 0 then some (refused, q) else taken_out (unlink_head q))
                (refused, b))
            (sym (r.sized ∙ ap length e)) (q, refl, r)
      by_items (x ∷ items) e = taken q b x items (poll q) r e (
          ap (λ n. if n == 0 then some (refused, q) else taken_out (unlink_head q))
            (r.sized ∙ ap length e)
          ∙ ground arith)
