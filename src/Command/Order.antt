-- ===== src/Command/Order.antt =====
-- One call on the command channel of tight/src/command.cpp, and the order of the numbers.
use damen.Common.{
  ℕ, ◌+◌, ◌-◌, ◌%◌, ◌^◌, ◌≤◌, ◌<◌, ◌≡◌, refl, sym, subst, arith, List, [], ◌∷◌, true, Bool-cases,
  inl, inr, length, ltb, ◌==◌, ltb-false→le, ==_iff, ==_false→ne,
}
use damen.Common.OrdMap.{OrdMap, Ascending, emplace-Ascending}
use damen.Command.{
  CommandState, Delivery, drain_locked, wait_ns, restart_wait, expire_held, expire_locked, hold,
  accept,
}
use damen.Command.Drain.{Delivers, Tagged, IsOrdered, Drained, Tagged-emplace, drain-Drained}

module _ {ℓ} {A : Type ℓ} (tag : A → ℕ) where
  -- What a call delivers starts at the number that was expected, and ends below the one that is.
  pub record Stepped (st : CommandState A) (d : Delivery A) : Type ℓ where
    pub delivers : Delivers tag st.next_expected d.0 d.1.next_expected
    pub ordered : IsOrdered tag d.1

  pub unchanged : (st : CommandState A) → IsOrdered tag st → Stepped st ([], st)
  unchanged st v = record { delivers = omega arith; ordered = v }

  pub Delivers-weaken :
      (lo lo' hi : ℕ) (out : List A) → lo' ≤ lo → Delivers tag lo out hi → Delivers tag lo' out hi
  Delivers-weaken lo lo' hi [] h d = omega arith
  Delivers-weaken lo lo' hi (a ∷ out) h d = (omega arith, d.1)

  Drained-IsOrdered :
      (st : CommandState A) (d : Delivery A)
      → st.initialized ≡ true
      → Drained tag st d
      → IsOrdered tag d.1
  Drained-IsOrdered st d on r = record {
    ascending = r.ascending;
    tagged = r.tagged;
    no_wrap = r.no_wrap;
    fresh = λ off. cc (r.same);
  }

  restart_wait-IsOrdered :
      (m : OrdMap A) (now : ℕ) (st : CommandState A)
      → IsOrdered tag st
      → IsOrdered tag (restart_wait m now st)
        × (◌≡◌ {A = ℕ} (restart_wait m now st).next_expected st.next_expected)
  restart_wait-IsOrdered [] now st v = (v, refl)
  restart_wait-IsOrdered ((k, a) ∷ m) now st v = (
    record { ascending = v.ascending; tagged = v.tagged; no_wrap = v.no_wrap; fresh = v.fresh },
    refl,
  )

  drain_locked-Drained :
      (st : CommandState A)
      → Ascending st.next_expected st.held
      → Tagged tag st.held
      → st.next_expected < 2 ^ 32
      → Drained tag st (drain_locked st)
  unfolding drain_locked
  drain_locked-Drained st = drain-Drained tag (length st.held) st (omega arith)

  -- An ordered channel that holds a packet has had a first one.
  holding_initialized :
      (st : CommandState A) (k : ℕ) (a : A) (m : OrdMap A)
      → IsOrdered tag st
      → st.held ≡ (k, a) ∷ m
      → st.initialized ≡ true
  holding_initialized st k a m v e = elim (Bool-cases st.initialized) [
    | inl on ↦ on
    | inr off ↦ cc ((v.fresh off).1)
  ]

  restarted :
      (st st' : CommandState A) (d : Delivery A) (now : ℕ)
      → st.next_expected ≤ st'.next_expected
      → st'.initialized ≡ true
      → Drained tag st' d
      → Stepped st (d.0, restart_wait d.1.held now d.1)
  restarted st st' d now h on r =
      let (ordered, same_next) =
        restart_wait-IsOrdered d.1.held now d.1 (Drained-IsOrdered st' d on r) in
      record {
        delivers =
            subst (λ (hi : ℕ). Delivers tag st.next_expected d.0 hi) (sym same_next)
              (Delivers-weaken st'.next_expected st.next_expected d.1.next_expected d.0 h
                r.delivers);
        ordered = ordered;
      }

  expire_held-Stepped :
      (m : OrdMap A) (st : CommandState A) (rtt_us now : ℕ)
      → st.held ≡ m
      → IsOrdered tag st
      → Stepped st (expire_held m st rtt_us now)
  unfolding expire_held
  expire_held-Stepped [] st rtt_us now e v = unchanged st v
  expire_held-Stepped ((k, a) ∷ m) st rtt_us now e v =
      elim (Bool-cases (ltb (now - st.gap_since) (wait_ns rtt_us))) [
        | inl wait ↦ rw wait (unchanged st v)
        | inr over ↦ rw over (
            restarted st skipped (drain_locked skipped) now (omega (arith, beyond.0))
              (holding_initialized st k a m v e)
              (drain_locked-Drained skipped (subst (Ascending k) (sym e) (omega arith, beyond.1))
                v.tagged (omega (arith, numbered.1))))
      ]
    where
      skipped : CommandState A
      skipped = record st { next_expected = k }

      beyond : Ascending (st.next_expected + 1) ((k, a) ∷ m)
      beyond = subst (Ascending (st.next_expected + 1)) e v.ascending

      numbered : Tagged tag ((k, a) ∷ m)
      numbered = subst (Tagged tag) e v.tagged

  pub expire_locked-Stepped :
      (st : CommandState A) (rtt_us now : ℕ)
      → IsOrdered tag st
      → Stepped st (expire_locked st rtt_us now)
  unfolding expire_locked
  expire_locked-Stepped st rtt_us now v = expire_held-Stepped st.held st rtt_us now refl v

  hold-IsOrdered :
      (st : CommandState A) (seq : ℕ) (payload : A) (now : ℕ)
      → tag payload ≡ seq
      → seq + 1 < 2 ^ 32
      → st.next_expected < seq
      → st.initialized ≡ true
      → IsOrdered tag st
      → IsOrdered tag (hold st seq payload now)
  hold-IsOrdered st seq payload now e h beyond on v = record {
    ascending =
        emplace-Ascending (st.next_expected + 1) seq payload st.held (omega arith) v.ascending;
    tagged = Tagged-emplace tag seq payload st.held e h v.tagged;
    no_wrap = v.no_wrap;
    fresh = λ off. cc on;
  }

  next_packet :
      (st : CommandState A) (seq : ℕ) (payload : A)
      → tag payload ≡ seq
      → seq + 1 < 2 ^ 32
      → seq ≡ st.next_expected
      → st.initialized ≡ true
      → IsOrdered tag st
      → let (out, drained) =
          drain_locked (record st { next_expected = (st.next_expected + 1) % 2 ^ 32 }) in
        Stepped st (payload ∷ out, drained)
  next_packet st seq payload e h at on v = record {
    delivers = (
      omega arith,
      subst (λ (lo : ℕ). Delivers tag lo (drain_locked st').0 (drain_locked st').1.next_expected)
          (omega arith) drained.delivers,
    );
    ordered = Drained-IsOrdered st' (drain_locked st') on drained;
  }
    where
      st' : CommandState A
      st' = record st { next_expected = (st.next_expected + 1) % 2 ^ 32 }

      drained : Drained tag st' (drain_locked st')
      drained =
          drain_locked-Drained st'
            (subst (λ (lo : ℕ). Ascending lo st.held) (omega arith) v.ascending) v.tagged
            (omega arith)

  pub accept-Stepped :
      (st : CommandState A) (seq : ℕ) (payload : A) (rtt_us now : ℕ)
      → tag payload ≡ seq
      → seq + 1 < 2 ^ 32
      → st.initialized ≡ true
      → IsOrdered tag st
      → Stepped st (accept st seq payload rtt_us now)
  unfolding accept
  accept-Stepped st seq payload rtt_us now e h on v = elim (Bool-cases (ltb seq st.next_expected)) [
    | inl late ↦ rw late (unchanged st v)
    | inr on_time ↦ elim (Bool-cases (seq == st.next_expected)) [
      | inl at ↦
          rw (on_time, at)
            (next_packet st seq payload e h ((==_iff seq st.next_expected).0 at) on v)
      | inr ahead ↦
          rw (on_time, ahead)
            (let r = expire_locked-Stepped (hold st seq payload now) rtt_us now (
                hold-IsOrdered st seq payload now e h
                  (omega (arith, ltb-false→le _ _ on_time, ==_false→ne _ _ ahead)) on v) in
              record { delivers = r.delivers; ordered = r.ordered })
    ]
  ]
