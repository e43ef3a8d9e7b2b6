-- ===== src/Queue/Put.antt =====
-- `link_tail` of tight/include/tight/blocking_queue.hpp, and an item put in.
use damen.Common.{
  ℕ, ◌+◌, ◌≤◌, ◌<◌, ◌≡◌, refl, sym, ap, ap₂, subst, ◌∙◌, arith, List, [], ◌∷◌, ◌++◌, map,
  append_assoc, Option, some, Bool, ==_iff, ==_ne, length, length-append,
}
use damen.Queue.{Node, Queue, write, reading, link_tail, emplaced, enqueue}
use damen.Queue.Chain.{
  NotIn-middle, last_of-NotIn, Distinct, Distinct-first, last_of-apart, Below, NotIn-split,
  Distinct-middle, Cells, addresses, contents, addresses-append, contents-append, Linked,
  write-same, write-other, write-Linked, last_of, last_of-Linked, Linked-append,
}
use damen.Queue.Spec.{NothingElse, Bounded, added, last_address, Represents}
use damen.Queue.Obtain.{obtain}

module _ {ℓ} {T : Type ℓ} where
  -- A node with its item that is to be linked in.
  record Ready (q : Queue T) (a : ℕ) (x : T) (used kept : Cells T) (items : List T) : Type ℓ where
    items_there : contents used ≡ map some items
    not_null : 0 < a
    node : q.heap a ≡ some (record { item = some x; next = 0 })
    used_linked : Linked q.heap q.head used
    kept_linked : Linked q.heap q.free_nodes kept
    distinct : Distinct (addresses used ++ (a ∷ addresses kept))
    below : Below q.fresh (addresses used ++ (a ∷ addresses kept))
    nothing_else : NothingElse q.heap (addresses used ++ (a ∷ addresses kept))
    fresh_not_null : 0 < q.fresh
    tail_there : q.tail ≡ last_address used
    sized : q.size ≡ length items
    counted : q.free_count ≡ length kept
    few : q.free_count ≤ 64

  abbrev Linking : Queue T → ℕ → T → List T → Type ℓ
  Linking q a x items =
      (after : Queue T) × (link_tail a q ≡ some after)
      × Represents after
          (record { items = items ++ (x ∷ []); capacity = q.capacity; closed = q.closed })

  regrouped :
      (used kept : Cells T) (a : ℕ) (item : Option T)
      → addresses used ++ (a ∷ addresses kept)
        ≡ addresses (used ++ ((a, item) ∷ [])) ++ addresses kept
  regrouped used kept a item =
      sym (append_assoc (addresses used) (a ∷ []) (addresses kept))
      ∙ ap (λ t. t ++ addresses kept) (sym (addresses-append used ((a, item) ∷ [])))

  map-some-append : (xs : List T) (x : T) → map some xs ++ (some x ∷ []) ≡ map some (xs ++ (x ∷ []))
  map-some-append [] x = refl
  map-some-append (y ∷ xs) x = ap (◌∷◌ (some y)) (map-some-append xs x)

  last_address-append :
      (c : ℕ × Option T) (cells : Cells T) (a : ℕ) (item : Option T)
      → a ≡ (last_of c (cells ++ ((a, item) ∷ []))).0
  last_address-append c [] a item = refl
  last_address-append c (d ∷ cells) a item = last_address-append d cells a item

  link_first :
      (q : Queue T) (a : ℕ) (x : T) (kept : Cells T) (items : List T)
      → Ready q a x [] kept items
      → Linking q a x items
  unfolding link_tail
  link_first q a x kept items r = (
    record q { head = a; tail = a; size = q.size + 1 },
    rw ((==_iff q.tail 0).1 r.tail_there) refl,
    record {
      used = (a, some x) ∷ [];
      kept = kept;
      items_there = ap (λ t. t ++ (some x ∷ [])) r.items_there ∙ map-some-append items x;
      used_linked = (refl, r.not_null, 0, r.node, (refl, tt));
      kept_linked = r.kept_linked;
      distinct = r.distinct;
      below = r.below;
      nothing_else = r.nothing_else;
      not_null = r.fresh_not_null;
      tail_there = refl;
      sized = omega (arith, r.sized, length-append items (x ∷ []));
      counted = r.counted;
      few = r.few;
      same_capacity = refl;
      same_closed = refl;
    },
  )

  link_next :
      (q : Queue T) (a : ℕ) (x : T) (c : ℕ × Option T) (cells kept : Cells T) (items : List T)
      → Ready q a x (c ∷ cells) kept items
      → Linking q a x items
  unfolding link_tail
  link_next q a x c cells kept items r =
      let last = last_of c cells in
      let last_node = last_of-Linked q.heap q.head c cells r.used_linked in
      let parts = Distinct-middle a (addresses (c ∷ cells)) (addresses kept) r.distinct in
      let apart = NotIn-split a (addresses (c ∷ cells)) (addresses kept) parts.0 in
      let v : Option (Node T) = some (record { item = last.1; next = a }) in
      (
        record q { heap = write q.heap last.0 v; tail = a; size = q.size + 1 },
        rw (==_ne q.tail 0 (λ z. omega (arith, z, r.tail_there, last_node.0))) (
            ap
              (λ o. reading o (λ node. some (record q {
                heap = write q.heap q.tail (some (record node { next = a }));
                tail = a;
                size = q.size + 1;
              })))
              (ap q.heap r.tail_there ∙ last_node.1)
            ∙ ap (λ p. some (record q { heap = write q.heap p v; tail = a; size = q.size + 1 }))
                r.tail_there),
        record {
          used = (c ∷ cells) ++ ((a, some x) ∷ []);
          kept = kept;
          items_there =
              contents-append (c ∷ cells) ((a, some x) ∷ [])
              ∙ ap (λ t. t ++ (some x ∷ [])) r.items_there
              ∙ map-some-append items x;
          used_linked =
              Linked-append q.heap q.head a (some x) c cells r.used_linked
                (Distinct-first (addresses (c ∷ cells)) (addresses kept) parts.1) apart.0 r.not_null
                r.node;
          kept_linked =
              write-Linked q.heap q.free_nodes last.0 v kept
                (last_of-apart c cells (addresses kept) parts.1) r.kept_linked;
          distinct = subst Distinct (regrouped (c ∷ cells) kept a (some x)) r.distinct;
          below = subst (Below q.fresh) (regrouped (c ∷ cells) kept a (some x)) r.below;
          nothing_else =
              subst (NothingElse (write q.heap last.0 v)) (regrouped (c ∷ cells) kept a (some x))
                (λ p n.
                  write-other q.heap last.0 p v (λ z.
                    last_of-NotIn p c cells
                      (NotIn-split p (addresses (c ∷ cells)) (a ∷ addresses kept) n).0 z)
                  ∙ r.nothing_else p n);
          not_null = r.fresh_not_null;
          tail_there = last_address-append c cells a (some x);
          sized = omega (arith, r.sized, length-append items (x ∷ []));
          counted = r.counted;
          few = r.few;
          same_capacity = refl;
          same_closed = refl;
        },
      )

  link :
      (q : Queue T) (a : ℕ) (x : T) (used kept : Cells T) (items : List T)
      → Ready q a x used kept items
      → Linking q a x items
  link q a x [] kept items r = link_first q a x kept items r
  link q a x (c ∷ cells) kept items r = link_next q a x c cells kept items r

  -- An item is put in at the end.
  pub enqueue-Represents :
      (x : T) (q : Queue T) (b : Bounded T)
      → Represents q b
      → (after : Queue T) × (enqueue x q ≡ some after) × Represents after (added x b)
  unfolding enqueue
  enqueue-Represents x q b r =
      let o = obtain q b r in
      let v : Option (Node T) = some (record { item = some x; next = 0 }) in
      let q2 : Queue T = record o.after { heap = write o.after.heap o.a v } in
      let parts = Distinct-middle o.a (addresses r.used) (addresses o.kept) o.distinct in
      let apart = NotIn-split o.a (addresses r.used) (addresses o.kept) parts.0 in
      let linked = link q2 o.a x r.used o.kept b.items (record {
        items_there = r.items_there;
        not_null = o.not_null;
        node = write-same o.after.heap o.a v;
        used_linked =
            write-Linked o.after.heap q2.head o.a v r.used apart.0
              (subst (λ p. Linked o.after.heap p r.used) (sym o.same_head) o.used_linked);
        kept_linked = write-Linked o.after.heap q2.free_nodes o.a v o.kept apart.1 o.kept_linked;
        distinct = o.distinct;
        below = o.below;
        nothing_else = λ p n.
            write-other o.after.heap o.a p v
              (λ z. (NotIn-middle p o.a (addresses r.used) (addresses o.kept) n).0 (sym z))
            ∙ o.nothing_else p n;
        fresh_not_null = o.fresh_not_null;
        tail_there = o.same_tail ∙ r.tail_there;
        sized = o.same_size ∙ r.sized;
        counted = o.counted;
        few = o.few;
      }) in
      (
        linked.0,
        ap (emplaced x) o.obtained
            ∙ ap
                (λ t. reading t (λ node. link_tail o.a (record o.after {
                  heap = write o.after.heap o.a (some (record node { item = some x }));
                })))
                o.node
            ∙ linked.1,
        subst
            (λ (s : ℕ × Bool).
              Represents linked.0
                (record { items = b.items ++ (x ∷ []); capacity = s.0; closed = s.1 }))
            (ap₂ (λ m n. (m, n)) (o.same_capacity ∙ r.same_capacity)
              (o.same_closed ∙ r.same_closed))
            linked.2,
      )
