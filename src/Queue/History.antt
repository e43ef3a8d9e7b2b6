-- ===== src/Queue/History.antt =====
-- Histories of calls of tight/include/tight/blocking_queue.hpp, in the order in which they get the mutex.
use damen.Common.{ℕ, ◌≡◌, refl, ap, ◌∙◌, arith, List, [], ◌∷◌, Option, none, some, true, false}
use damen.Queue.{Queue, new_queue, Outcome, push, try_push, take_one, take_for, poll, close}
use damen.Queue.Spec.{Bounded, spec_push, spec_try_push, spec_take, spec_poll, Represents}
use damen.Queue.Refine.{
  push-Answers, try_push-Answers, take_one-Answers, take_for-Answers, poll-Answers,
}

pub data Call {ℓ} (T : Type ℓ) : Type ℓ where
  push_call : T → Call T
  try_push_call : T → Call T
  take_call : Call T
  take_for_call : Call T
  poll_call : Call T
  close_call : Call T

-- What a call answers: one that puts an item in, one that takes an item out, and `close`.
pub data Answer {ℓ} (T : Type ℓ) : Type ℓ where
  of_put : Outcome (Unit {0}) → Answer T
  of_take : Outcome T → Answer T
  of_close : Answer T

module _ {ℓ} {T : Type ℓ} where
  abbrev pub empty_queue : ℕ → Bounded T
  empty_queue capacity = record { items = []; capacity = capacity; closed = false }

  abbrev answer_of {κ} :
      {R : Type κ} {Q : Type ℓ}
      → (Outcome R → Answer T)
      → Option (Outcome R × Q)
      → Option (Answer T × Q)
  answer_of f none = none
  answer_of f (some (out, q)) = some (f out, q)

  unfoldable pub call : Call T → Queue T → Option (Answer T × Queue T)
  call (push_call x) q = answer_of of_put (push x q)
  call (try_push_call x) q = answer_of of_put (try_push x q)
  call take_call q = answer_of of_take (take_one q)
  call take_for_call q = answer_of of_take (take_for q)
  call poll_call q = answer_of of_take (poll q)
  call close_call q = some (of_close, close q)

  unfoldable pub spec_call : Call T → Bounded T → Answer T × Bounded T
  spec_call (push_call x) b = let r = spec_push x b in (of_put r.0, r.1)
  spec_call (try_push_call x) b = let r = spec_try_push x b in (of_put r.0, r.1)
  spec_call take_call b = let r = spec_take b in (of_take r.0, r.1)
  spec_call take_for_call b = let r = spec_poll b in (of_take r.0, r.1)
  spec_call poll_call b = let r = spec_poll b in (of_take r.0, r.1)
  spec_call close_call b = (of_close, record b { closed = true })

  abbrev consed : Answer T → Option (List (Answer T) × Queue T) → Option (List (Answer T) × Queue T)
  consed answer none = none
  consed answer (some (answers, q)) = some (answer ∷ answers, q)

  -- The calls of a history, and the answers in order.
  abbrev after_call :
      (Queue T → Option (List (Answer T) × Queue T))
      → Option (Answer T × Queue T)
      → Option (List (Answer T) × Queue T)
  after_call rest none = none
  after_call rest (some (answer, q)) = consed answer (rest q)

  unfoldable pub run_calls : List (Call T) → Queue T → Option (List (Answer T) × Queue T)
  unfolding call
  run_calls [] q = some ([], q)
  run_calls (c ∷ calls) q = after_call (run_calls calls) (call c q)

  unfoldable pub spec_calls : List (Call T) → Bounded T → List (Answer T) × Bounded T
  unfolding spec_call
  spec_calls [] b = ([], b)
  spec_calls (c ∷ calls) b =
      let r = spec_call c b in let rest = spec_calls calls r.1 in (r.0 ∷ rest.0, rest.1)

  new_queue-Represents : (capacity : ℕ) → Represents (new_queue capacity) (empty_queue capacity)
  new_queue-Represents capacity = record {
    used = [];
    kept = [];
    items_there = refl;
    used_linked = (refl, tt);
    kept_linked = (refl, tt);
    distinct = tt;
    below = tt;
    nothing_else = λ a n. refl;
    not_null = omega arith;
    tail_there = refl;
    sized = refl;
    counted = refl;
    few = omega arith;
    same_capacity = refl;
    same_closed = refl;
  }

  close-Represents :
      (q : Queue T) (b : Bounded T)
      → Represents q b
      → Represents (close q) (record b { closed = true })
  unfolding close
  close-Represents q b r = record {
    used = r.used;
    kept = r.kept;
    items_there = r.items_there;
    used_linked = r.used_linked;
    kept_linked = r.kept_linked;
    distinct = r.distinct;
    below = r.below;
    nothing_else = r.nothing_else;
    not_null = r.not_null;
    tail_there = r.tail_there;
    sized = r.sized;
    counted = r.counted;
    few = r.few;
    same_capacity = r.same_capacity;
    same_closed = refl;
  }

  abbrev Called : Option (Answer T × Queue T) → Answer T × Bounded T → Type ℓ
  Called got want = (after : Queue T) × (got ≡ some (want.0, after)) × Represents after want.1

  call-Called :
      (c : Call T) (q : Queue T) (b : Bounded T)
      → Represents q b
      → Called (call c q) (spec_call c b)
  unfolding call spec_call
  call-Called (push_call x) q b r =
      let a = push-Answers x q b r in (a.0, ap (answer_of of_put) a.1, a.2)
  call-Called (try_push_call x) q b r =
      let a = try_push-Answers x q b r in (a.0, ap (answer_of of_put) a.1, a.2)
  call-Called take_call q b r =
      let a = take_one-Answers q b r in (a.0, ap (answer_of of_take) a.1, a.2)
  call-Called take_for_call q b r =
      let a = take_for-Answers q b r in (a.0, ap (answer_of of_take) a.1, a.2)
  call-Called poll_call q b r = let a = poll-Answers q b r in (a.0, ap (answer_of of_take) a.1, a.2)
  call-Called close_call q b r = (close q, refl, close-Represents q b r)

  run_calls-Represents :
      (calls : List (Call T)) (q : Queue T) (b : Bounded T)
      → Represents q b
      → (after : Queue T) × (run_calls calls q ≡ some ((spec_calls calls b).0, after))
        × Represents after (spec_calls calls b).1
  unfolding run_calls spec_calls
  run_calls-Represents [] q b r = (q, refl, r)
  run_calls-Represents (c ∷ calls) q b r =
      let first = call-Called c q b r in
      let rest = run_calls-Represents calls first.0 (spec_call c b).1 first.2 in
      (
        rest.0,
        ap (after_call (run_calls calls)) first.1 ∙ ap (consed (spec_call c b).0) rest.1,
        rest.2,
      )

  -- Every history of calls on a new queue of any capacity answers call by call as the bounded
  -- first-in first-out queue does, never uses memory that is not allocated, and leaves a heap that
  -- represents what the bounded queue holds, with at most 64 nodes kept for later.
  pub run_calls-spec_calls :
      (capacity : ℕ) (calls : List (Call T))
      → (after : Queue T) × (run_calls calls (new_queue capacity)
          ≡ some ((spec_calls calls (empty_queue capacity)).0, after))
        × Represents after (spec_calls calls (empty_queue capacity)).1
  run_calls-spec_calls capacity calls =
      run_calls-Represents calls (new_queue capacity) (empty_queue capacity)
        (new_queue-Represents capacity)
