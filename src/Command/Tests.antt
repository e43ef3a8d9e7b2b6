-- ===== src/Command/Tests.antt =====
-- Runs of the command channel, and each of its properties at a concrete state.
use damen.Common.{ℕ, ◌-◌, ◌≤◌, ◌≡◌, refl, arith, List, [], ◌∷◌, true}
use damen.Common.OrdMap.{lookup, emplace, erase}
use damen.Command.{
  CommandState, Event, packet, flush, wait_ns, drain, drain_locked, expire_held, expire_locked,
  accept, handle, flush_expired, reset, step, run,
}
use damen.Command.Drain.{Delivers}
use damen.Command.History.{run-Delivers}
use damen.Command.Expiry.{flush_second_gap}

abbrev waiting : CommandState ℕ
waiting = record { seq_out = 9; next_expected = 5; initialized = true; held = []; gap_since = 1000 }

abbrev own_number : ℕ → ℕ
own_number payload = payload

-- Packets 5, 8 and 7, a repetition of 7, packet 6 just in time, and packet 10, which only the
-- expiry delivers, before packet 9 comes too late. Times are in nanoseconds, and the RTT is 10 us.
abbrev history : List (Event ℕ)
history =
    packet 5 5 10 0
    ∷ packet 8 8 10 1000
    ∷ packet 7 7 10 2000
    ∷ packet 7 7 10 3000
    ∷ packet 6 6 10 4000
    ∷ packet 10 10 10 5000
    ∷ flush 10 34000
    ∷ flush 10 35000
    ∷ packet 9 9 10 36000
    ∷ []

run-history : (run (reset waiting) history).0 ≡ 5 ∷ 6 ∷ 7 ∷ 8 ∷ 10 ∷ []
unfolding run step handle accept flush_expired expire_locked expire_held drain_locked drain wait_ns
    reset lookup emplace erase
run-history = refl

run-Delivers_example :
    Delivers own_number 0
      (run (reset waiting) history).0
      (run (reset waiting) history).1.next_expected
run-Delivers_example = run-Delivers own_number waiting history (
  (refl, omega arith),
  (
    (refl, omega arith),
    (
      (refl, omega arith),
      (
        (refl, omega arith),
        ((refl, omega arith), ((refl, omega arith), (tt, (tt, ((refl, omega arith), tt))))),
      ),
    ),
  ),
)

wait_over : wait_ns 10 ≤ 31000 - 1000
unfolding wait_ns
wait_over = omega arith

flush_second_gap_example :
    flush_expired (record waiting { held = (7, 70) ∷ (9, 90) ∷ [] }) 10 31000
    ≡ (70 ∷ [], record waiting { next_expected = 8; held = (9, 90) ∷ []; gap_since = 31000 })
flush_second_gap_example =
    flush_second_gap waiting 7 9 70 90 [] 10 31000 (omega arith) (omega arith) (omega arith, tt)
      wait_over
