-- ===== src/Queue/Take.antt =====
-- `unlink_head_locked` and `recycle_node_locked` of tight/include/tight/blocking_queue.hpp.
use damen.Common.{
  ℕ, suc, ◌+◌, ◌-◌, ◌≤◌, ◌<◌, ◌≡◌, refl, sym, ap, subst, ◌∙◌, arith, List, [], ◌∷◌, ◌++◌, map,
  Option, none, some, true, false, ℕ_discrete, ◌==◌, ==_iff, ==_ne, ltb, ltb→lt, Bool-cases, inl,
  inr, if◌then◌else◌, length, drop,
}
use damen.Queue.{Node, Queue, write, reading, recycle_node, moved_out, unlink_head}
use damen.Queue.Chain.{
  NotIn, NotIn-middle, write-other, Distinct, Below, NotIn-split, Distinct-insert, Below-insert,
  Cells, addresses, contents, Linked, write-same, write-Linked,
}
use damen.Queue.Spec.{NothingElse, Bounded, last_address, Represents}

module _ {ℓ} {T : Type ℓ} where
  -- The queue without its first node, before the node is put by.
  abbrev unlinked : Queue T → ℕ → Queue T
  unlinked q next = record q {
    head = next;
    tail = if next == 0 then 0 else q.tail;
    size = q.size - 1;
  }

  abbrev pub Shortened : Queue T → Bounded T → T → List T → Type ℓ
  Shortened q b x items =
      (after : Queue T) × (unlink_head q ≡ some (x, after))
      × Represents after (record b { items = items })

  new_tail :
      (q : Queue T) (c : ℕ × Option T) (cells : Cells T) (next : ℕ)
      → Linked q.heap next cells
      → q.tail ≡ last_address (c ∷ cells)
      → (if next == 0 then 0 else q.tail) ≡ last_address cells
  new_tail q c [] next l e = rw ((==_iff next 0).1 l.0) refl
  new_tail q c (d ∷ cells) next l e = rw (==_ne next 0 (λ z. omega (arith, z, l.0, l.1))) e

  moved :
      (q q2 : Queue T) (x : T) (next : ℕ)
      → q.heap q.head ≡ some (record { item = some x; next = next })
      → recycle_node q.head (unlinked q next) ≡ some q2
      → unlink_head q ≡ some (x, q2)
  unfolding unlink_head
  moved q q2 x next e p =
      ap (λ o. reading o (λ node. moved_out node.item (recycle_node q.head (unlinked q node.next))))
        e
      ∙ ap (moved_out (some x)) p

  module _ (q : Queue T) (b : Bounded T) (x : T) (items : List T) (c : ℕ × Option T)
      (cells kept : Cells T) where
    record Headed : Type ℓ where
      next : ℕ
      first : q.heap q.head ≡ some (record { item = some x; next = next })
      not_null : 0 < q.head
      items_there : contents cells ≡ map some items
      used_linked : Linked q.heap next cells
      kept_linked : Linked q.heap q.free_nodes kept
      apart : NotIn q.head (addresses cells ++ addresses kept)
      distinct : Distinct (addresses cells ++ addresses kept)
      inside : q.head < q.fresh
      below : Below q.fresh (addresses cells ++ addresses kept)
      nothing_else : NothingElse q.heap (c.0 ∷ (addresses cells ++ addresses kept))
      same_address : q.head ≡ c.0
      fresh_not_null : 0 < q.fresh
      tail_there : q.tail ≡ last_address (c ∷ cells)
      sized : q.size ≡ suc (length items)
      counted : q.free_count ≡ length kept
      few : q.free_count ≤ 64
      same_capacity : q.capacity ≡ b.capacity
      same_closed : q.closed ≡ b.closed

    -- The node is kept for later.
    put_by : Headed → ltb q.free_count 64 ≡ true → Shortened q b x items
    unfolding recycle_node
    put_by r fewer =
        let v : Option (Node T) = some (record { item = none; next = q.free_nodes }) in
        let split = NotIn-split q.head (addresses cells) (addresses kept) r.apart in
        let after : Queue T = record (unlinked q r.next) {
          heap = write q.heap q.head v;
          free_nodes = q.head;
          free_count = q.free_count + 1;
        } in
        (
          after,
          moved q after x r.next r.first (
              ap
                (λ o. reading o (λ node.
                  if ltb q.free_count 64
                  then some after
                  else some (record (unlinked q r.next) { heap = write q.heap q.head none })))
                r.first
              ∙ rw (fewer) refl),
          record {
            used = cells;
            kept = (q.head, none) ∷ kept;
            items_there = r.items_there;
            used_linked = write-Linked q.heap r.next q.head v cells split.0 r.used_linked;
            kept_linked = (
              refl,
              r.not_null,
              q.free_nodes,
              write-same q.heap q.head v,
              write-Linked q.heap q.free_nodes q.head v kept split.1 r.kept_linked,
            );
            distinct = Distinct-insert q.head (addresses cells) (addresses kept) r.apart r.distinct;
            below = Below-insert q.fresh q.head (addresses cells) (addresses kept) r.inside r.below;
            nothing_else = λ p n.
                let parts = NotIn-middle p q.head (addresses cells) (addresses kept) n in
                write-other q.heap q.head p v (λ z. parts.0 (sym z))
                ∙ r.nothing_else p (λ z. parts.0 (r.same_address ∙ z), parts.1);
            not_null = r.fresh_not_null;
            tail_there = new_tail q c cells r.next r.used_linked r.tail_there;
            sized = omega (arith, r.sized);
            counted = omega (arith, r.counted);
            few = omega (arith, ltb→lt q.free_count 64 fewer);
            same_capacity = r.same_capacity;
            same_closed = r.same_closed;
          },
        )

    -- The node is deleted.
    deleted : Headed → ltb q.free_count 64 ≡ false → Shortened q b x items
    unfolding recycle_node
    deleted r enough =
        let split = NotIn-split q.head (addresses cells) (addresses kept) r.apart in
        let after : Queue T = record (unlinked q r.next) { heap = write q.heap q.head none } in
        (
          after,
          moved q after x r.next r.first (
              ap
                (λ o. reading o (λ node.
                  if ltb q.free_count 64
                  then some (record (unlinked q r.next) {
                    heap = write q.heap q.head (some (record { item = none; next = q.free_nodes }));
                    free_nodes = q.head;
                    free_count = q.free_count + 1;
                  })
                  else some after))
                r.first
              ∙ rw (enough) refl),
          record {
            used = cells;
            kept = kept;
            items_there = r.items_there;
            used_linked = write-Linked q.heap r.next q.head none cells split.0 r.used_linked;
            kept_linked = write-Linked q.heap q.free_nodes q.head none kept split.1 r.kept_linked;
            distinct = r.distinct;
            below = r.below;
            nothing_else = λ p n. elim (ℕ_discrete p q.head) [
              | yes here ↦ ap (write q.heap q.head none) here ∙ write-same q.heap q.head none
              | no away ↦
                  write-other q.heap q.head p none away
                  ∙ r.nothing_else p (λ z. away (sym (r.same_address ∙ z)), n)
            ];
            not_null = r.fresh_not_null;
            tail_there = new_tail q c cells r.next r.used_linked r.tail_there;
            sized = omega (arith, r.sized);
            counted = r.counted;
            few = r.few;
            same_capacity = r.same_capacity;
            same_closed = r.same_closed;
          },
        )

    shorten : Headed → Shortened q b x items
    shorten r = elim (Bool-cases (ltb q.free_count 64)) [
      | inl fewer ↦ put_by r fewer
      | inr enough ↦ deleted r enough
    ]

  headed :
      (q : Queue T) (b : Bounded T) (x : T) (items : List T) (r : Represents q b)
      → b.items ≡ x ∷ items
      → (c : ℕ × Option T) (cells : Cells T) → r.used ≡ c ∷ cells
      → Headed q b x items c cells r.kept
  headed q b x items r e c cells u =
      let linked = subst (Linked q.heap q.head) u r.used_linked in
      let distinct = subst (λ k. Distinct (addresses k ++ addresses r.kept)) u r.distinct in
      let below = subst (λ k. Below q.fresh (addresses k ++ addresses r.kept)) u r.below in
      let both : c.1 ∷ contents cells ≡ some x ∷ map some items =
        ap contents (sym u) ∙ r.items_there ∙ ap (map some) e in
      record {
        next = linked.2;
        first =
            ap q.heap linked.0
            ∙ linked.3
            ∙ ap (λ i. some (record { item = i; next = linked.2 })) (first_same both);
        not_null = subst (λ p. 0 < p) (sym linked.0) linked.1;
        items_there = ap (drop 1) both;
        used_linked = linked.4;
        kept_linked = r.kept_linked;
        apart =
            subst (λ p. NotIn p (addresses cells ++ addresses r.kept)) (sym linked.0) distinct.0;
        distinct = distinct.1;
        inside = subst (λ p. p < q.fresh) (sym linked.0) below.0;
        below = below.1;
        nothing_else =
            subst (λ k. NothingElse q.heap (addresses k ++ addresses r.kept)) u r.nothing_else;
        same_address = linked.0;
        fresh_not_null = r.not_null;
        tail_there = r.tail_there ∙ ap last_address u;
        sized = r.sized ∙ ap length e;
        counted = r.counted;
        few = r.few;
        same_capacity = r.same_capacity;
        same_closed = r.same_closed;
      }
    where
      first_same : {i j : Option T} {xs ys : List (Option T)} → i ∷ xs ≡ j ∷ ys → i ≡ j
      first_same p = cc

  -- The oldest item is taken out.
  pub unlink_head-Represents :
      (q : Queue T) (b : Bounded T) (x : T) (items : List T)
      → Represents q b
      → b.items ≡ x ∷ items
      → Shortened q b x items
  unlink_head-Represents q b x items r e = by_used r.used refl
    where
      by_used : (cells : Cells T) → r.used ≡ cells → Shortened q b x items
      by_used [] u =
          absurd (omega (arith, ap length (ap contents (sym u) ∙ r.items_there ∙ ap (map some) e)))
      by_used (c ∷ cells) u = shorten q b x items c cells r.kept (headed q b x items r e c cells u)
