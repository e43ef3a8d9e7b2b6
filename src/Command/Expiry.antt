-- ===== src/Command/Expiry.antt =====
-- `handle` and `flush_expired` of tight/src/command.cpp around a gap in the numbers.
use damen.Common.{
  ℕ, zero, suc, ◌+◌, ◌-◌, ◌^◌, ◌≤◌, ◌<◌, ◌≡◌, refl, ap, ◌∙◌, arith, List, [], ◌∷◌, none, true,
  length, le→ltb,
}
use damen.Common.Bytes.{u32}
use damen.Common.OrdMap.{OrdMap, lookup, lookup_head, erase_head, Ascending, lookup_below}
use damen.Command.{
  CommandState, Delivery, drain, drain_locked, wait_ns, restart_wait, expire_held, expire_locked,
  accept, handle, flush_expired,
}

module _ {ℓ} {A : Type ℓ} where
  -- Payloads under consecutive numbers.
  abbrev pub numbered : ℕ → List A → OrdMap A
  numbered k [] = []
  numbered k (a ∷ xs) = (k, a) ∷ numbered (k + 1) xs

  length-numbered : (k : ℕ) (xs : List A) → length (numbered k xs) ≡ length xs
  length-numbered k [] = refl
  length-numbered k (a ∷ xs) = ap suc (length-numbered (k + 1) xs)

  abbrev pub with_held : CommandState A → ℕ → OrdMap A → CommandState A
  with_held st k m = record st { next_expected = k; held = m }

  -- The loop takes the next packet where it is held first.
  drain_first :
      (fuel k : ℕ) (a : A) (m : OrdMap A) (st : CommandState A)
      → let (out, after) = drain fuel (with_held st (u32 (k + 1)) m) in
        drain (suc fuel) (with_held st k ((k, a) ∷ m)) ≡ (a ∷ out, after)
  unfolding drain
  drain_first fuel k a m st = rw (lookup_head k a m, drain) (rw (erase_head k a m))

  abbrev push : A → Delivery A → Delivery A
  push a d = (a ∷ d.0, d.1)

  drain-nil :
      (fuel k : ℕ) (st : CommandState A) → drain fuel (with_held st k []) ≡ ([], with_held st k [])
  unfolding drain lookup
  drain-nil zero k st = refl
  drain-nil (suc fuel) k st = refl

  -- It stops where the next number is not held.
  drain-missing :
      (fuel k : ℕ) (m : OrdMap A) (st : CommandState A)
      → lookup k m ≡ none
      → drain fuel (with_held st k m) ≡ ([], with_held st k m)
  unfolding drain
  drain-missing zero k m st e = refl
  drain-missing (suc fuel) k m st e = rw (e, drain)

  -- A packet below the expected number changes nothing and delivers nothing: it was delivered or
  -- skipped before.
  pub handle_late :
      (st : CommandState A) (seq : ℕ) (payload : A) (rtt_us now : ℕ)
      → st.initialized ≡ true
      → seq < st.next_expected
      → handle st seq payload rtt_us now ≡ ([], st)
  unfolding handle accept
  handle_late st seq payload rtt_us now on late = ground arith

  -- When the wait is over and a second gap stands behind the first packet held, one packet is
  -- delivered, and the others wait anew from now.
  pub flush_second_gap :
      (st : CommandState A) (k j : ℕ) (a b : A) (m : OrdMap A) (rtt_us now : ℕ)
      → k + 1 < j
      → j < 2 ^ 32
      → Ascending j ((j, b) ∷ m)
      → wait_ns rtt_us ≤ now - st.gap_since
      → flush_expired (record st { held = (k, a) ∷ (j, b) ∷ m }) rtt_us now
        ≡ (a ∷ [], record st { next_expected = k + 1; held = (j, b) ∷ m; gap_since = now })
  unfolding flush_expired expire_locked expire_held drain_locked
  flush_second_gap st k j a b m rtt_us now gap w asc over =
      rw (le→ltb _ _ over) (ap restarted drained)
    where
      restarted : Delivery A → Delivery A
      restarted d = (d.0, restart_wait d.1.held now d.1)

      drained :
          drain (suc (suc (length m))) (with_held st k ((k, a) ∷ (j, b) ∷ m))
          ≡ (a ∷ [], with_held st (k + 1) ((j, b) ∷ m))
      drained =
          drain_first (suc (length m)) k a ((j, b) ∷ m) st
          ∙ ap (λ n. push a (drain (suc (length m)) (with_held st n ((j, b) ∷ m)))) (omega arith)
          ∙ ap (push a) (
              drain-missing (suc (length m)) (k + 1) ((j, b) ∷ m) st
                (lookup_below j (k + 1) ((j, b) ∷ m) gap asc))
