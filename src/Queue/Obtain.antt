-- ===== src/Queue/Obtain.antt =====
-- The node that `obtain_node_locked` of tight/include/tight/blocking_queue.hpp hands out.
use damen.Common.{
  ℕ, ◌+◌, ◌-◌, ◌≤◌, ◌<◌, ◌≡◌, refl, sym, ap, subst, ◌∙◌, arith, [], ◌∷◌, ◌++◌, Option, none, some,
  ==_iff, ==_ne, length,
}
use damen.Queue.{Node, Queue, write, reading, obtain_node}
use damen.Queue.Chain.{
  NotIn-middle, Distinct, Below, NotIn-split, Distinct-middle, Distinct-insert, Below-insert,
  Below-suc, Below-NotIn, Cells, addresses, Linked, write-same, write-other, write-Linked,
}
use damen.Queue.Spec.{NothingElse, Bounded, Represents}

module _ {ℓ} {T : Type ℓ} where
  -- A node was handed out that is in neither chain.
  pub record Obtained (q : Queue T) (used : Cells T) : Type ℓ where
    pub a : ℕ
    pub after : Queue T
    pub kept : Cells T
    pub old : Option T
    pub obtained : obtain_node q ≡ some (a, after)
    pub not_null : 0 < a
    pub node : after.heap a ≡ some (record { item = old; next = 0 })
    pub used_linked : Linked after.heap q.head used
    pub kept_linked : Linked after.heap after.free_nodes kept
    pub distinct : Distinct (addresses used ++ (a ∷ addresses kept))
    pub below : Below after.fresh (addresses used ++ (a ∷ addresses kept))
    pub nothing_else : NothingElse after.heap (addresses used ++ (a ∷ addresses kept))
    pub fresh_not_null : 0 < after.fresh
    pub counted : after.free_count ≡ length kept
    pub few : after.free_count ≤ 64
    pub same_head : after.head ≡ q.head
    pub same_tail : after.tail ≡ q.tail
    pub same_size : after.size ≡ q.size
    pub same_capacity : after.capacity ≡ q.capacity
    pub same_closed : after.closed ≡ q.closed

  obtain_new : (q : Queue T) (b : Bounded T) (r : Represents q b) → r.kept ≡ [] → Obtained q r.used
  unfolding obtain_node
  obtain_new q b r e =
      let kept_linked = subst (Linked q.heap q.free_nodes) e r.kept_linked in
      let below = subst (λ k. Below q.fresh (addresses r.used ++ k)) (ap addresses e) r.below in
      let others =
        subst (λ k. NothingElse q.heap (addresses r.used ++ k)) (ap addresses e) r.nothing_else in
      let apart = Below-NotIn q.fresh (addresses r.used ++ []) below in
      let distinct = subst (λ k. Distinct (addresses r.used ++ k)) (ap addresses e) r.distinct in
      let v : Option (Node T) = some (record { item = none; next = 0 }) in
      record {
        a = q.fresh;
        after = record q { heap = write q.heap q.fresh v; fresh = q.fresh + 1 };
        kept = [];
        old = none;
        obtained = rw ((==_iff q.free_nodes 0).1 kept_linked.0) refl;
        not_null = r.not_null;
        node = write-same q.heap q.fresh v;
        used_linked =
            write-Linked q.heap q.head q.fresh v r.used
              (NotIn-split q.fresh (addresses r.used) [] apart).0 r.used_linked;
        kept_linked = kept_linked;
        distinct = Distinct-insert q.fresh (addresses r.used) [] apart distinct;
        below =
            Below-insert (q.fresh + 1) q.fresh (addresses r.used) [] (omega arith)
              (Below-suc q.fresh (addresses r.used ++ []) below);
        nothing_else = λ a n.
            let parts = NotIn-middle a q.fresh (addresses r.used) [] n in
            write-other q.heap q.fresh a v (λ z. parts.0 (sym z)) ∙ others a parts.1;
        fresh_not_null = omega arith;
        counted = r.counted ∙ ap length e;
        few = r.few;
        same_head = refl;
        same_tail = refl;
        same_size = refl;
        same_capacity = refl;
        same_closed = refl;
      }

  obtain_kept :
      (q : Queue T) (b : Bounded T) (r : Represents q b) (c : ℕ × Option T) (cells : Cells T)
      → r.kept ≡ c ∷ cells
      → Obtained q r.used
  unfolding obtain_node
  obtain_kept q b r c cells e =
      let linked = subst (Linked q.heap q.free_nodes) e r.kept_linked in
      let parts =
        Distinct-middle c.0 (addresses r.used) (addresses cells)
          (subst (λ k. Distinct (addresses r.used ++ addresses k)) e r.distinct) in
      let others =
        subst (λ k. NothingElse q.heap (addresses r.used ++ addresses k)) e r.nothing_else in
      let apart = NotIn-split c.0 (addresses r.used) (addresses cells) parts.0 in
      let v : Option (Node T) = some (record { item = c.1; next = 0 }) in
      record {
        a = c.0;
        after = record q {
          heap = write q.heap c.0 v;
          free_nodes = linked.2;
          free_count = q.free_count - 1;
        };
        kept = cells;
        old = c.1;
        obtained = rw (==_ne q.free_nodes 0 (λ z. omega (arith, z, linked.0, linked.1))) (
            ap
              (λ o. reading o (λ node. some (
                q.free_nodes,
                record q {
                  heap = write q.heap q.free_nodes (some (record node { next = 0 }));
                  free_nodes = node.next;
                  free_count = q.free_count - 1;
                },
              )))
              (ap q.heap linked.0 ∙ linked.3)
            ∙ ap
                (λ p. some (
                  p,
                  record q {
                    heap = write q.heap p v;
                    free_nodes = linked.2;
                    free_count = q.free_count - 1;
                  },
                ))
                linked.0);
        not_null = linked.1;
        node = write-same q.heap c.0 v;
        used_linked = write-Linked q.heap q.head c.0 v r.used apart.0 r.used_linked;
        kept_linked = write-Linked q.heap linked.2 c.0 v cells apart.1 linked.4;
        distinct = subst (λ k. Distinct (addresses r.used ++ addresses k)) e r.distinct;
        below = subst (λ k. Below q.fresh (addresses r.used ++ addresses k)) e r.below;
        nothing_else = λ a n.
            let parts = NotIn-middle a c.0 (addresses r.used) (addresses cells) n in
            write-other q.heap c.0 a v (λ z. parts.0 (sym z)) ∙ others a n;
        fresh_not_null = r.not_null;
        counted = omega (arith, r.counted, ap length e);
        few = omega (arith, r.few);
        same_head = refl;
        same_tail = refl;
        same_size = refl;
        same_capacity = refl;
        same_closed = refl;
      }

  -- Whatever the heap, a call has a node to use.
  pub obtain : (q : Queue T) (b : Bounded T) (r : Represents q b) → Obtained q r.used
  obtain q b r = by_kept r.kept refl
    where
      by_kept : (cells : Cells T) → r.kept ≡ cells → Obtained q r.used
      by_kept [] e = obtain_new q b r e
      by_kept (c ∷ cells) e = obtain_kept q b r c cells e
