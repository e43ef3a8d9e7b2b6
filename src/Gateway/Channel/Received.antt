-- ===== src/Gateway/Channel/Received.antt =====
-- The calls that receive, of gateway/gateway_channel.hpp, against the bounded queue they promise.
use damen.Common.{
  ℕ, zero, suc, ◌+◌, ◌<◌, ◌≡◌, ◌≢◌, refl, sym, ap, subst, ◌∙◌, arith, List, [], ◌∷◌, map, Option,
  none, some, Bool, true, false, ◌==◌, ==_iff, ==_ne, not, ◌&&◌, ◌||◌, if◌then◌else◌, length, drop,
  ℕ_discrete,
}
use damen.Queue.{Node, Outcome, refused, waits, finished, write, reading}
use damen.Queue.Chain.{
  NotIn, Distinct, Below, Cells, addresses, contents, Linked, write-same, write-other, write-Linked,
  last_of,
}
use damen.Queue.Spec.{Bounded, NothingElse, oldest, spec_take, spec_poll}
use damen.Gateway.Channel.{
  CopyChannel, shifted, received, receive, recv, try_recv, swapped, batch_with, and_more, swap_loop,
  swap_out,
}
use damen.Gateway.Channel.Sent.{Carries, Replies}

module _ {ℓ} {T : Type ℓ} where
  last_of-address :
      (c d : ℕ × Option T) (cells : Cells T) → c.0 ≡ d.0 → (last_of c cells).0 ≡ (last_of d cells).0
  last_of-address c d [] e = e
  last_of-address c d (f ∷ cells) e = refl

  -- The node of the oldest item, and the channel without it.
  record Front (ch : CopyChannel T) (b : Bounded T) (x : T) (items : List T) : Type ℓ where
    current : ℕ
    next : ℕ
    first : ch.heap ch.head ≡ some (record { item = none; next = current })
    second : ch.heap current ≡ some (record { item = some x; next = next })
    not_null : 0 < current
    moved_on : (shifted current next ch).heap current ≡ some (record { item = none; next = next })
    after : Carries (shifted current next ch) (record b { items = items })

  shifted-Front :
      (ch : CopyChannel T) (b : Bounded T) (x : T) (items : List T) (r : Carries ch b)
      → b.items ≡ x ∷ items
      → (c : ℕ × Option T) (cells : Cells T) → r.used ≡ c ∷ cells
      → Front ch b x items
  unfolding shifted
  shifted-Front ch b x items r e c cells u =
      let linked = subst (λ k. Linked ch.heap ch.head ((ch.head, none) ∷ k)) u r.linked in
      let distinct = subst (λ k. Distinct (ch.head ∷ addresses k)) u r.distinct in
      let below = subst (λ k. Below ch.fresh (ch.head ∷ addresses k)) u r.below in
      let nothing_else =
        subst (λ k. NothingElse ch.heap (ch.head ∷ addresses k)) u r.nothing_else in
      let both : c.1 ∷ contents cells ≡ some x ∷ map some items =
        ap contents (sym u) ∙ r.items_there ∙ ap (map some) e in
      let here : linked.2 ≡ c.0 = linked.4.0 in
      let v : Option (Node T) = some (record { item = none; next = linked.4.2 }) in
      let away : linked.2 ≢ ch.head = λ z. distinct.0.0 (sym here ∙ z) in
      let not_after = subst (λ p. NotIn p (addresses cells)) (sym here) distinct.1.0 in
      let moved =
        write-other (write ch.heap linked.2 v) ch.head linked.2 none away
        ∙ write-same ch.heap linked.2 v in
      record {
        current = linked.2;
        next = linked.4.2;
        first = linked.3;
        second =
            ap ch.heap here
            ∙ linked.4.3
            ∙ ap (λ i. some (record { item = i; next = linked.4.2 })) (first_same both);
        not_null = subst (λ p. 0 < p) (sym here) linked.4.1;
        moved_on = moved;
        after = record {
          used = cells;
          items_there = ap (drop 1) both;
          linked = (
            refl,
            subst (λ p. 0 < p) (sym here) linked.4.1,
            linked.4.2,
            moved,
            write-Linked (write ch.heap linked.2 v) linked.4.2 ch.head none cells distinct.0.1
                (write-Linked ch.heap linked.4.2 linked.2 v cells not_after linked.4.4),
          );
          distinct = (not_after, distinct.1.1);
          below = (subst (λ p. p < ch.fresh) (sym here) below.1.0, below.1.1);
          nothing_else = λ p n. elim (ℕ_discrete p ch.head) [
            | yes there ↦
                ap (write (write ch.heap linked.2 v) ch.head none) there
                ∙ write-same (write ch.heap linked.2 v) ch.head none
            | no elsewhere ↦
                write-other (write ch.heap linked.2 v) ch.head p none elsewhere
                ∙ write-other ch.heap linked.2 p v (λ z. n.0 (sym z))
                ∙ nothing_else p (λ z. elsewhere (sym z), (λ z. n.0 (here ∙ z), n.1))
          ];
          tail_there =
              r.tail_there
              ∙ ap (λ k. (last_of (ch.head, none) k).0) u
              ∙ last_of-address c (linked.2, none) cells (sym here);
          counted = omega (arith, r.counted, ap length e);
          same_capacity = r.same_capacity;
          same_closed = r.same_closed;
        };
      }
    where
      first_same : {i j : Option T} {xs ys : List (Option T)} → i ∷ xs ≡ j ∷ ys → i ≡ j
      first_same p = cc

  front :
      (ch : CopyChannel T) (b : Bounded T) (x : T) (items : List T)
      → Carries ch b
      → b.items ≡ x ∷ items
      → Front ch b x items
  front ch b x items r e = by_used r.used refl
    where
      by_used : (cells : Cells T) → r.used ≡ cells → Front ch b x items
      by_used [] u =
          absurd (omega (arith, ap length (ap contents (sym u) ∙ r.items_there ∙ ap (map some) e)))
      by_used (c ∷ cells) u = shifted-Front ch b x items r e c cells u

  -- An empty channel has its one node.
  alone :
      (ch : CopyChannel T) (b : Bounded T)
      → Carries ch b
      → b.items ≡ []
      → ch.heap ch.head ≡ some (record { item = none; next = 0 })
  alone ch b r e = by_used r.used refl
    where
      by_used :
          (cells : Cells T)
          → r.used ≡ cells
          → ch.heap ch.head ≡ some (record { item = none; next = 0 })
      by_used [] u =
          let linked = subst (λ k. Linked ch.heap ch.head ((ch.head, none) ∷ k)) u r.linked in
          linked.3 ∙ ap (λ n. some (record { item = none; next = n })) linked.4.0
      by_used (c ∷ cells) u =
          absurd (omega (arith, ap length (ap contents (sym u) ∙ r.items_there ∙ ap (map some) e)))

  received_first :
      (ch : CopyChannel T) (b : Bounded T) (x : T) (items : List T) (f : Front ch b x items)
      → receive f.current ch ≡ some (finished x, shifted f.current f.next ch)
  unfolding receive
  received_first ch b x items f =
      ap (λ o. reading o (λ node. received f.current node.next node.item ch)) f.second

  abbrev recv_tests : CopyChannel T → Bool → ℕ → Option (Outcome T × CopyChannel T)
  recv_tests ch closed next =
      if not (not (next == 0) || closed)
      then some (waits, ch)
      else if closed && next == 0
      then some (refused, ch)
      else receive next ch

  recv_nothing :
      (ch : CopyChannel T) (b : Bounded T) (closed : Bool)
      → Carries ch b
      → Replies (recv_tests ch closed 0) (if closed then refused else waits, b)
  recv_nothing ch b true r = (ch, refl, r)
  recv_nothing ch b false r = (ch, refl, r)

  recv_something :
      (ch : CopyChannel T) (closed : Bool) (next : ℕ)
      → (next == 0) ≡ false
      → recv_tests ch closed next ≡ receive next ch
  recv_something ch true next e = rw (e) refl
  recv_something ch false next e = rw (e) refl

  pub recv-Replies :
      (ch : CopyChannel T) (b : Bounded T) → Carries ch b → Replies (recv ch) (spec_take b)
  unfolding recv spec_take
  recv-Replies ch b r = by_items b.items refl
    where
      by_items :
          (items : List T)
          → b.items ≡ items
          → Replies (recv ch) (oldest (if b.closed then refused else waits) b items)
      by_items [] e =
          subst
            (λ o.
              Replies (reading o (λ node. recv_tests ch ch.closed node.next))
                (if b.closed then refused else waits, b))
            (sym (alone ch b r e))
            (subst (λ c. Replies (recv_tests ch ch.closed 0) (if c then refused else waits, b))
              r.same_closed (recv_nothing ch b ch.closed r))
      by_items (x ∷ items) e =
          let f = front ch b x items r e in
          (
            shifted f.current f.next ch,
            ap (λ o. reading o (λ node. recv_tests ch ch.closed node.next)) f.first
                ∙ recv_something ch ch.closed f.current
                    (==_ne f.current 0 (λ z. omega (arith, z, f.not_null)))
                ∙ received_first ch b x items f,
            f.after,
          )

  pub try_recv-Replies :
      (ch : CopyChannel T) (b : Bounded T) → Carries ch b → Replies (try_recv ch) (spec_poll b)
  unfolding try_recv spec_poll
  try_recv-Replies ch b r = by_items b.items refl
    where
      by_items : (items : List T) → b.items ≡ items → Replies (try_recv ch) (oldest refused b items)
      by_items [] e = (
        ch,
        ap
            (λ o.
              reading o
                (λ node. if node.next == 0 then some (refused, ch) else receive node.next ch))
            (alone ch b r e),
        r,
      )
      by_items (x ∷ items) e =
          let f = front ch b x items r e in
          (
            shifted f.current f.next ch,
            ap
                  (λ o.
                    reading o
                      (λ node. if node.next == 0 then some (refused, ch) else receive node.next ch))
                  f.first
                ∙ ap (λ t. if t then some (refused, ch) else receive f.current ch)
                    (==_ne f.current 0 (λ z. omega (arith, z, f.not_null)))
                ∙ received_first ch b x items f,
            f.after,
          )

  -- What `swap_out` leaves and gives.
  abbrev Swapped : Option (List T × CopyChannel T) → Bounded T → List T → Type ℓ
  Swapped got b items =
      (after : CopyChannel T) × (got ≡ some (items, after))
      × Carries after (record b { items = [] })

  abbrev emptied : ℕ → Option (Node T)
  emptied n = some (record { item = none; next = n })

  same_next : {m n : ℕ} → emptied m ≡ emptied n → m ≡ n
  same_next q = cc

  swap_loop-Swapped :
      (fuel current : ℕ) (ch : CopyChannel T) (b : Bounded T) (items : List T)
      → length items < fuel
      → Carries ch b
      → b.items ≡ items
      → ch.heap ch.head ≡ some (record { item = none; next = current })
      → Swapped (swap_loop fuel current ch) b items
  unfolding swap_loop
  swap_loop-Swapped zero current ch b items h r e p = absurd (omega arith)
  swap_loop-Swapped (suc fuel) current ch b [] h r e p =
      let nothing : current ≡ 0 = same_next (sym p ∙ alone ch b r e) in
      (
        ch,
        rw ((==_iff current 0).1 nothing) refl,
        subst (λ items. Carries ch (record b { items = items })) e r,
      )
  swap_loop-Swapped (suc fuel) current ch b (x ∷ items) h r e p =
      let f = front ch b x items r e in
      let here : current ≡ f.current = same_next (sym p ∙ f.first) in
      let rest =
        swap_loop-Swapped fuel f.next (shifted f.current f.next ch) (record b { items = items })
          items (omega arith) f.after refl f.moved_on in
      (
        rest.0,
        rw (==_ne current 0 (λ z. omega (arith, z, here, f.not_null))) (
            ap
              (λ m.
                and_more (swap_loop fuel)
                  (reading (ch.heap m) (λ node. swapped m node.next node.item ch)))
              here
            ∙ ap
                (λ o.
                  and_more (swap_loop fuel)
                    (reading o (λ node. swapped f.current node.next node.item ch)))
                f.second
            ∙ ap (batch_with x) rest.1),
        rest.2,
      )

  pub swap_out-Swapped :
      (ch : CopyChannel T) (b : Bounded T) → Carries ch b → Swapped (swap_out ch) b b.items
  unfolding swap_out
  swap_out-Swapped ch b r = by_items b.items refl
    where
      by_items : (items : List T) → b.items ≡ items → Swapped (swap_out ch) b items
      by_items [] e =
          let rest =
            swap_loop-Swapped (ch.count + 1) 0 ch b [] (omega arith) r e (alone ch b r e) in
          (
            rest.0,
            ap (λ o. reading o (λ node. swap_loop (ch.count + 1) node.next ch)) (alone ch b r e)
                ∙ rest.1,
            rest.2,
          )
      by_items (x ∷ items) e =
          let f = front ch b x items r e in
          let rest =
            swap_loop-Swapped (ch.count + 1) f.current ch b (x ∷ items)
              (omega (arith, r.counted, ap length e)) r e f.first in
          (
            rest.0,
            ap (λ o. reading o (λ node. swap_loop (ch.count + 1) node.next ch)) f.first ∙ rest.1,
            rest.2,
          )
