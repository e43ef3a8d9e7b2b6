-- ===== src/Command/Drain.antt =====
-- The loop of `drain_locked` in tight/src/command.cpp: the order of what it delivers, and where it
-- stops.
use damen.Common.{
  ℕ, zero, suc, ◌+◌, ◌^◌, ◌≤◌, ◌<◌, ◌≡◌, refl, subst, arith, List, [], ◌∷◌, ◌++◌, some, false,
  Option-cases, inl, inr, length,
}
use damen.Common.OrdMap.{
  OrdMap, lookup, emplace, erase, Ascending, Ascending-skip, Ascending-empty, erase_least,
  length-erase,
}
use damen.Command.{CommandState, Delivery, advance, drain}

-- `tag` reads the sequence number that a sender put into a payload.
module _ {ℓ} {A : Type ℓ} (tag : A → ℕ) where
  -- The deliveries' numbers ascend strictly, from `lo` at least to below `hi`.
  abbrev pub Delivers : ℕ → List A → ℕ → Type 0
  Delivers lo [] hi = lo ≤ hi
  Delivers lo (a ∷ out) hi = (lo ≤ tag a) × Delivers (tag a + 1) out hi

  -- Every packet held carries its number, which is no wrap-around away.
  abbrev pub Tagged : OrdMap A → Type 0
  Tagged [] = Unit
  Tagged ((k, a) ∷ m) = (tag a ≡ k) × (k + 1 < 2 ^ 32) × Tagged m

  -- The invariant of the channel: what is held lies beyond the next number, in order.
  pub record IsOrdered (st : CommandState A) : Type ℓ where
    pub ascending : Ascending (st.next_expected + 1) st.held
    pub tagged : Tagged st.held
    pub no_wrap : st.next_expected < 2 ^ 32
    pub fresh : st.initialized ≡ false → (st.next_expected ≡ 0) × (st.held ≡ [])

  pub Delivers-append :
      (lo mid hi : ℕ) (xs ys : List A)
      → Delivers lo xs mid
      → Delivers mid ys hi
      → Delivers lo (xs ++ ys) hi
  Delivers-append lo mid hi [] [] h k = omega arith
  Delivers-append lo mid hi [] (y ∷ ys) h k = (omega arith, k.1)
  Delivers-append lo mid hi (x ∷ xs) ys h k = (h.0, Delivers-append (tag x + 1) mid hi xs ys h.1 k)

  Tagged-erase : (k : ℕ) (m : OrdMap A) → Tagged m → Tagged (erase k m)
  unfolding erase
  Tagged-erase k [] t = tt
  Tagged-erase k ((j, a) ∷ m) t = ground (arith, Tagged-erase k m)

  pub Tagged-emplace :
      (k : ℕ) (a : A) (m : OrdMap A)
      → tag a ≡ k
      → k + 1 < 2 ^ 32
      → Tagged m
      → Tagged (emplace k a m)
  unfolding emplace
  Tagged-emplace k a [] e h t = (e, h, tt)
  Tagged-emplace k a ((j, b) ∷ m) e h t = ground (arith, Tagged-emplace k a m)

  Tagged-lookup :
      (k : ℕ) (a : A) (m : OrdMap A)
      → Tagged m
      → lookup k m ≡ some a
      → (tag a ≡ k) × (k + 1 < 2 ^ 32)
  unfolding lookup
  Tagged-lookup k a [] t e = ground arith
  Tagged-lookup k a ((j, b) ∷ m) t e = ground (arith, Tagged-lookup k a m)

  -- What a drain from `lo` leaves: the deliveries start at `lo`, and what is still held waits for a
  -- number that is missing.
  pub record Drained (st : CommandState A) (d : Delivery A) : Type ℓ where
    pub delivers : Delivers st.next_expected d.0 d.1.next_expected
    pub ascending : Ascending (d.1.next_expected + 1) d.1.held
    pub tagged : Tagged d.1.held
    pub no_wrap : d.1.next_expected < 2 ^ 32
    pub same : d.1.initialized ≡ st.initialized

  Drained-cons :
      (st : CommandState A) (payload : A) (d : Delivery A)
      → tag payload ≡ st.next_expected
      → st.next_expected + 1 < 2 ^ 32
      → Drained (advance st) d
      → Drained st (payload ∷ d.0, d.1)
  Drained-cons st payload d e h r = record {
    delivers = (
      omega arith,
      subst (λ (lo : ℕ). Delivers lo d.0 d.1.next_expected) (omega arith) r.delivers,
    );
    ascending = r.ascending;
    tagged = r.tagged;
    no_wrap = r.no_wrap;
    same = r.same;
  }

  advance-Ascending :
      (st : CommandState A)
      → st.next_expected + 1 < 2 ^ 32
      → Ascending st.next_expected st.held
      → Ascending (advance st).next_expected (advance st).held
  advance-Ascending st h a =
      subst (λ (lo : ℕ). Ascending lo (erase st.next_expected st.held)) (omega arith)
        (erase_least st.next_expected st.held a)

  length-advance :
      (st : CommandState A) (payload : A)
      → lookup st.next_expected st.held ≡ some payload
      → suc (length (advance st).held) ≡ length st.held
  length-advance st payload found = length-erase st.next_expected st.held (λ missing. cc)

  pub drain-Drained :
      (fuel : ℕ) (st : CommandState A)
      → length st.held ≤ fuel
      → Ascending st.next_expected st.held
      → Tagged st.held
      → st.next_expected < 2 ^ 32
      → Drained st (drain fuel st)
  unfolding drain
  drain-Drained zero st enough a t n = record {
    delivers = omega arith;
    ascending = Ascending-empty (st.next_expected + 1) st.held enough;
    tagged = t;
    no_wrap = n;
    same = refl;
  }
  drain-Drained (suc fuel) st enough a t n = elim (Option-cases (lookup st.next_expected st.held)) [
    | inl missing ↦
        rw (missing, drain)
          (record {
            delivers = omega arith;
            ascending = Ascending-skip st.next_expected st.held missing a;
            tagged = t;
            no_wrap = n;
            same = refl;
          })
    | inr (payload, found) ↦
        let (numbered, small) = Tagged-lookup st.next_expected payload st.held t found in
        rw (found, drain)
          (Drained-cons st payload (drain fuel (advance st)) numbered small (
            drain-Drained fuel (advance st) (omega (arith, length-advance st payload found))
              (advance-Ascending st small a) (Tagged-erase st.next_expected st.held t)
              (omega arith)))
  ]
