-- ===== src/Queue/Tests.antt =====
-- Histories of a queue of two, and its properties on one.
use damen.Common.{ℕ, ◌≡◌, refl, List, [], ◌∷◌, Option, none, some}
use damen.Queue.{
  Queue, Heap, new_queue, refused, waits, finished, destroy, push, write, try_push, take_one, close,
  poll, take_for,
}
use damen.Queue.Spec.{Represents}
use damen.Queue.History.{
  Call, push_call, try_push_call, take_call, take_for_call, poll_call, close_call, Answer, of_put,
  of_take, of_close, empty_queue, run_calls, spec_calls, run_calls-spec_calls,
}
use damen.Queue.Destroy.{destroy-run_calls}

-- A third item waits, is put in after one is taken, and a closed queue gives out what is left.
abbrev full_then_closed : List (Call ℕ)
full_then_closed =
    push_call 5
    ∷ push_call 6
    ∷ push_call 7
    ∷ try_push_call 8
    ∷ take_call
    ∷ push_call 7
    ∷ close_call
    ∷ push_call 9
    ∷ poll_call
    ∷ take_call
    ∷ take_call
    ∷ take_for_call
    ∷ []

abbrev their_answers : List (Answer ℕ)
their_answers =
    of_put (finished tt)
    ∷ of_put (finished tt)
    ∷ of_put waits
    ∷ of_put refused
    ∷ of_take (finished 5)
    ∷ of_put (finished tt)
    ∷ of_close
    ∷ of_put refused
    ∷ of_take (finished 6)
    ∷ of_take (finished 7)
    ∷ of_take refused
    ∷ of_take refused
    ∷ []

abbrev answers_of : Option (List (Answer ℕ) × Queue ℕ) → Option (List (Answer ℕ))
answers_of none = none
answers_of (some (answers, q)) = some answers

answers_in_order : answers_of (run_calls full_then_closed (new_queue 2)) ≡ some their_answers
unfolding run_calls push write try_push take_one close poll take_for
answers_in_order = refl

run_calls-spec_calls_example :
    (after : Queue ℕ) × (run_calls full_then_closed (new_queue 2)
      ≡ some ((spec_calls full_then_closed (empty_queue 2)).0, after))
    × Represents after (spec_calls full_then_closed (empty_queue 2)).1
run_calls-spec_calls_example = run_calls-spec_calls 2 full_then_closed

destroy-run_calls_example :
    (answers : List (Answer ℕ)) × (q : Queue ℕ) × (after : Heap ℕ) × (run_calls full_then_closed
        (new_queue 2)
      ≡ some (answers, q))
    × (destroy q ≡ some after)
    × ((a : ℕ) → after a ≡ none)
destroy-run_calls_example = destroy-run_calls 2 full_then_closed
