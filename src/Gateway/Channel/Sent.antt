-- ===== src/Gateway/Channel/Sent.antt =====
-- The calls that send, of gateway/gateway_channel.hpp, against the bounded queue they promise.
use damen.Common.{
  ℕ, ◌+◌, ◌≡◌, refl, sym, ap, ap₂, subst, ◌∙◌, arith, List, [], ◌∷◌, ◌++◌, map, append-nil, Option,
  none, some, Bool, true, false, ltb, leb, ◌&&◌, ◌||◌, if◌then◌else◌, length, length-append,
  ℕ_discrete,
}
use damen.Queue.{Node, Outcome, refused, waits, finished, write, reading}
use damen.Queue.Chain.{
  NotIn, Distinct, Below, NotIn-split, Distinct-insert, Below-insert, Below-suc, Below-NotIn, Cells,
  addresses, contents, addresses-append, contents-append, Linked, write-same, write-other,
  write-Linked, last_of, last_of-Linked, last_of-NotIn, Linked-append,
}
use damen.Queue.Spec.{Bounded, NothingElse, at_capacity, added, spec_push, spec_try_push}
use damen.Gateway.Channel.{
  CopyChannel, new_channel, new_node, drop_node, attach, attached, channel_full, send, try_send,
}

module _ {ℓ} {T : Type ℓ} where
  -- The first node holds no item; the nodes after it hold the items in order; they are all the nodes
  -- there are.
  pub record Carries (ch : CopyChannel T) (b : Bounded T) : Type ℓ where
    pub used : Cells T
    pub items_there : contents used ≡ map some b.items
    pub linked : Linked ch.heap ch.head ((ch.head, none) ∷ used)
    pub distinct : Distinct (ch.head ∷ addresses used)
    pub below : Below ch.fresh (ch.head ∷ addresses used)
    pub nothing_else : NothingElse ch.heap (ch.head ∷ addresses used)
    pub tail_there : ch.tail ≡ (last_of (ch.head, none) used).0
    pub counted : ch.count ≡ length b.items
    pub same_capacity : ch.capacity ≡ b.capacity
    pub same_closed : ch.closed ≡ b.closed

  abbrev pub Replies {κ} :
      {R : Type κ} → Option (Outcome R × CopyChannel T) → Outcome R × Bounded T → Type (ℓ ⊔ κ)
  Replies got want = (after : CopyChannel T) × (got ≡ some (want.0, after)) × Carries after want.1

  pub new_channel-Carries :
      (capacity : ℕ)
      → Carries
          (new_channel {T = T} capacity)
          (record { items = []; capacity = capacity; closed = false })
  unfolding new_channel
  new_channel-Carries capacity = record {
    used = [];
    items_there = refl;
    linked = (
      refl,
      omega arith,
      0,
      write-same (λ x. none) 1 (some (record { item = none; next = 0 })),
      (refl, tt),
    );
    distinct = (tt, tt);
    below = (omega arith, tt);
    nothing_else = λ a n.
        write-other (λ x. none) 1 a (some (record { item = none; next = 0 })) (λ e. n.0 (sym e));
    tail_there = refl;
    counted = refl;
    same_capacity = refl;
    same_closed = refl;
  }

  -- A node that is made and deleted.
  dropped :
      (x : T) (ch : CopyChannel T) (b : Bounded T)
      → Carries ch b
      → Carries (drop_node ch.fresh (new_node x ch)) b
  unfolding drop_node new_node
  dropped x ch b r =
      let v : Option (Node T) = some (record { item = some x; next = 0 }) in
      let apart = Below-NotIn ch.fresh (ch.head ∷ addresses r.used) r.below in
      record {
        used = r.used;
        items_there = r.items_there;
        linked =
            write-Linked (write ch.heap ch.fresh v) ch.head ch.fresh none ((ch.head, none) ∷ r.used)
              apart
              (write-Linked ch.heap ch.head ch.fresh v ((ch.head, none) ∷ r.used) apart r.linked);
        distinct = r.distinct;
        below = Below-suc ch.fresh (ch.head ∷ addresses r.used) r.below;
        nothing_else = λ a n. elim (ℕ_discrete a ch.fresh) [
          | yes here ↦
              ap (write (write ch.heap ch.fresh v) ch.fresh none) here
              ∙ write-same (write ch.heap ch.fresh v) ch.fresh none
          | no away ↦
              write-other (write ch.heap ch.fresh v) ch.fresh a none away
              ∙ write-other ch.heap ch.fresh a v away
              ∙ r.nothing_else a n
        ];
        tail_there = r.tail_there;
        counted = r.counted;
        same_capacity = r.same_capacity;
        same_closed = r.same_closed;
      }

  map-some-append : (xs : List T) (x : T) → map some xs ++ (some x ∷ []) ≡ map some (xs ++ (x ∷ []))
  map-some-append [] x = refl
  map-some-append (y ∷ xs) x = ap (◌∷◌ (some y)) (map-some-append xs x)

  last_of-append :
      (c : ℕ × Option T) (cells : Cells T) (a : ℕ) (item : Option T)
      → a ≡ (last_of c (cells ++ ((a, item) ∷ []))).0
  last_of-append c [] a item = refl
  last_of-append c (d ∷ cells) a item = last_of-append d cells a item

  put :
      (x : T) (ch : CopyChannel T) (b : Bounded T)
      → Carries ch b
      → Replies (attached (attach ch.fresh (new_node x ch))) (finished tt, added x b)
  unfolding attach new_node
  put x ch b r =
      let v : Option (Node T) = some (record { item = some x; next = 0 }) in
      let c : ℕ × Option T = (ch.head, none) in
      let a = ch.fresh in
      let made = write ch.heap a v in
      let apart = Below-NotIn a (addresses (c ∷ r.used)) r.below in
      let linked = write-Linked ch.heap ch.head a v (c ∷ r.used) apart r.linked in
      let last = last_of c r.used in
      let last_node = last_of-Linked made ch.head c r.used linked in
      let w : Option (Node T) = some (record { item = last.1; next = a }) in
      let moved = addresses-append (c ∷ r.used) ((a, some x) ∷ []) in
      let whole : addresses (c ∷ r.used) ≡ addresses (c ∷ r.used) ++ [] =
        sym (append-nil (addresses (c ∷ r.used))) in
      (
        record (new_node x ch) { heap = write made last.0 w; tail = a; count = ch.count + 1 },
        ap attached (
            ap
              (λ o. reading o (λ node. some (record (new_node x ch) {
                heap = write made ch.tail (some (record node { next = a }));
                tail = a;
                count = ch.count + 1;
              })))
              (ap made r.tail_there ∙ last_node.1)
            ∙ ap
                (λ p. some (record (new_node x ch) {
                  heap = write made p w;
                  tail = a;
                  count = ch.count + 1;
                }))
                r.tail_there),
        record {
          used = r.used ++ ((a, some x) ∷ []);
          items_there =
              contents-append r.used ((a, some x) ∷ [])
              ∙ ap (λ t. t ++ (some x ∷ [])) r.items_there
              ∙ map-some-append b.items x;
          linked =
              Linked-append made ch.head a (some x) c r.used linked r.distinct apart
                (omega (arith, r.below.0)) (write-same ch.heap a v);
          distinct = subst Distinct (sym moved) (
              Distinct-insert a (addresses (c ∷ r.used)) [] (subst (NotIn a) whole apart)
                (subst Distinct whole r.distinct));
          below = subst (Below (a + 1)) (sym moved) (
              Below-insert (a + 1) a (addresses (c ∷ r.used)) [] (omega arith)
                (subst (Below (a + 1)) whole (Below-suc a (addresses (c ∷ r.used)) r.below)));
          nothing_else = subst (NothingElse (write made last.0 w)) (sym moved) (λ p n.
              let parts = NotIn-split p (addresses (c ∷ r.used)) (a ∷ []) n in
              write-other made last.0 p w (last_of-NotIn p c r.used parts.0)
              ∙ write-other ch.heap a p v (λ z. parts.1.0 (sym z))
              ∙ r.nothing_else p parts.0);
          tail_there = last_of-append c r.used a (some x);
          counted = omega (arith, r.counted, length-append b.items (x ∷ []));
          same_capacity = r.same_capacity;
          same_closed = r.same_closed;
        },
      )

  choice {κ} :
      {R : Type κ} (s : Bool) (g1 g2 : Option (Outcome R × CopyChannel T))
      (w1 w2 : Outcome R × Bounded T)
      → Replies g1 w1
      → Replies g2 w2
      → Replies (if s then g1 else g2) (if s then w1 else w2)
  choice true g1 g2 w1 w2 h k = h
  choice false g1 g2 w1 w2 h k = k

  full_same : (ch : CopyChannel T) (b : Bounded T) → Carries ch b → channel_full ch ≡ at_capacity b
  full_same ch b r = ap₂ (λ c n. ltb 0 c && leb c n) r.same_capacity r.counted

  pub send-Replies :
      (x : T) (ch : CopyChannel T) (b : Bounded T)
      → Carries ch b
      → Replies (send x ch) (spec_push x b)
  unfolding send spec_push
  send-Replies x ch b r =
      let back = drop_node ch.fresh (new_node x ch) in
      let sent = attached (attach ch.fresh (new_node x ch)) in
      subst (Replies (send x ch))
        (ap₂ (λ s t. if s then (refused, b) else if t then (waits, b) else (finished tt, added x b))
          r.same_closed (full_same ch b r))
        (choice ch.closed (some (refused, back))
          (if channel_full ch then some (waits, back) else sent) (refused, b)
          (if channel_full ch then (waits, b) else (finished tt, added x b))
          (back, refl, dropped x ch b r)
          (choice (channel_full ch) (some (waits, back)) sent (waits, b) (finished tt, added x b)
            (back, refl, dropped x ch b r) (put x ch b r)))

  try_same :
      (s t : Bool) (b : Bounded T) (w : Outcome (Unit {0}) × Bounded T)
      → (if s then (refused, b) else if t then (refused, b) else w)
        ≡ (if s || t then (refused, b) else w)
  try_same true t b w = refl
  try_same false true b w = refl
  try_same false false b w = refl

  pub try_send-Replies :
      (x : T) (ch : CopyChannel T) (b : Bounded T)
      → Carries ch b
      → Replies (try_send x ch) (spec_try_push x b)
  unfolding try_send spec_try_push
  try_send-Replies x ch b r =
      let back = drop_node ch.fresh (new_node x ch) in
      let sent = attached (attach ch.fresh (new_node x ch)) in
      subst (Replies (try_send x ch))
        (try_same ch.closed (channel_full ch) b (finished tt, added x b)
          ∙ ap₂ (λ s t. if s || t then (refused, b) else (finished tt, added x b)) r.same_closed
              (full_same ch b r))
        (choice ch.closed (some (refused, back))
          (if channel_full ch then some (refused, back) else sent) (refused, b)
          (if channel_full ch then (refused, b) else (finished tt, added x b))
          (back, refl, dropped x ch b r)
          (choice (channel_full ch) (some (refused, back)) sent (refused, b)
            (finished tt, added x b) (back, refl, dropped x ch b r) (put x ch b r)))
