-- ===== src/Command/History.antt =====
-- Histories of the command channel of tight/src/command.cpp.
use damen.Common.{
  ℕ, ◌+◌, ◌^◌, ◌<◌, ◌≡◌, refl, sym, subst, arith, List, [], ◌∷◌, Bool, true, false, Bool-cases, inl,
  inr, ◌==◌,
}
use damen.Common.OrdMap.{Ascending}
use damen.Command.{
  CommandState, first_packet, accept, handle, flush_expired, reset, Event, packet, flush, step, run,
}
use damen.Command.Drain.{Delivers, IsOrdered, Delivers-append}
use damen.Command.Order.{Stepped, unchanged, Delivers-weaken, expire_locked-Stepped, accept-Stepped}

module _ {ℓ} {A : Type ℓ} (tag : A → ℕ) where
  -- A packet whose payload carries its number, which is not the last 32-bit number.
  abbrev pub IsNumbered : Event A → Type 0
  IsNumbered (packet seq payload rtt_us now) = (tag payload ≡ seq) × (seq + 1 < 2 ^ 32)
  IsNumbered (flush rtt_us now) = Unit

  abbrev pub AllNumbered : List (Event A) → Type 0
  AllNumbered [] = Unit
  AllNumbered (e ∷ es) = IsNumbered e × AllNumbered es

  first_packet-Stepped :
      (b : Bool) (st : CommandState A) (seq : ℕ) (payload : A) (rtt_us now : ℕ)
      → tag payload ≡ seq
      → seq + 1 < 2 ^ 32
      → st.initialized ≡ b
      → IsOrdered tag st
      → Stepped tag st (accept (first_packet b st seq) seq payload rtt_us now)
  first_packet-Stepped true st seq payload rtt_us now e h on v =
      accept-Stepped tag st seq payload rtt_us now e h on v
  first_packet-Stepped false st seq payload rtt_us now e h off v =
      let r =
        accept-Stepped tag (first_packet false st seq) seq payload rtt_us now e h refl started in
      record {
        delivers =
            Delivers-weaken tag seq st.next_expected _ _ (omega (arith, (v.fresh off).0))
              r.delivers;
        ordered = r.ordered;
      }
    where
      started : IsOrdered tag (first_packet false st seq)
      started = record {
        ascending = subst (Ascending (seq + 1)) (sym (v.fresh off).1) tt;
        tagged = v.tagged;
        no_wrap = omega arith;
        fresh = λ on. cc;
      }

  handle-Stepped :
      (st : CommandState A) (seq : ℕ) (payload : A) (rtt_us now : ℕ)
      → tag payload ≡ seq
      → seq + 1 < 2 ^ 32
      → IsOrdered tag st
      → Stepped tag st (handle st seq payload rtt_us now)
  unfolding handle
  handle-Stepped st seq payload rtt_us now e h v = elim (Bool-cases (seq == 0)) [
    | inl unnumbered ↦ rw unnumbered (unchanged tag st v)
    | inr numbered ↦
        rw numbered (first_packet-Stepped st.initialized st seq payload rtt_us now e h refl v)
  ]

  -- Any call.
  step-Stepped :
      (st : CommandState A) (e : Event A)
      → IsNumbered e
      → IsOrdered tag st
      → Stepped tag st (step st e)
  unfolding step flush_expired
  step-Stepped st (packet seq payload rtt_us now) n v =
      handle-Stepped st seq payload rtt_us now n.0 n.1 v
  step-Stepped st (flush rtt_us now) n v = expire_locked-Stepped tag st rtt_us now v

  run-Stepped :
      (es : List (Event A)) (st : CommandState A)
      → AllNumbered es
      → IsOrdered tag st
      → Stepped tag st (run st es)
  unfolding run
  run-Stepped [] st n v = unchanged tag st v
  run-Stepped (e ∷ es) st n v =
      let first = step-Stepped st e n.0 v in
      let later = run-Stepped es (step st e).1 n.1 first.ordered in
      record {
        delivers = Delivers-append tag st.next_expected _ _ _ _ first.delivers later.delivers;
        ordered = later.ordered;
      }

  -- From a channel just reset, whatever packets arrive, in whatever order, with whatever delays and
  -- repetitions, and whenever the expiry is run: the commands delivered carry strictly ascending
  -- numbers, all below the number that is then expected. The packets' payloads carry their numbers,
  -- and no number is 2 ^ 32 - 1.
  pub run-Delivers :
      (st : CommandState A) (es : List (Event A))
      → AllNumbered es
      → let (out, after) = run (reset st) es in Delivers tag 0 out after.next_expected
  unfolding reset
  run-Delivers st es n = (run-Stepped es (reset st) n fresh).delivers
    where
      fresh : IsOrdered tag (reset st)
      fresh = record {
        ascending = tt;
        tagged = tt;
        no_wrap = omega arith;
        fresh = λ off. (refl, refl);
      }
