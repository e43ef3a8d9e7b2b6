-- ===== src/Queue/Destroy.antt =====
-- The destructor of tight/include/tight/blocking_queue.hpp.
use damen.Common.{
  ℕ, zero, suc, ◌+◌, ◌<◌, ◌≡◌, refl, sym, ap, ◌∙◌, arith, List, [], ◌∷◌, ◌++◌, none, some,
  ℕ_discrete, ==_iff, ==_ne, length, length-map,
}
use damen.Queue.{Heap, Queue, new_queue, write, reading, drain_list, then_drain, destroy, close}
use damen.Queue.Chain.{
  NotIn, Distinct, Distinct-first, Distinct-second, Distinct-middle, NotIn-split, Cells, addresses,
  contents, Linked, write-same, write-other, write-Linked,
}
use damen.Queue.Spec.{Bounded, NothingElse, Represents}
use damen.Queue.History.{Call, Answer, empty_queue, run_calls, spec_calls, run_calls-spec_calls}

module _ {ℓ} {T : Type ℓ} where
  -- The nodes at these addresses are deleted.
  abbrev pub Deleted : Heap T → List ℕ → Type ℓ
  Deleted heap [] = Unit {ℓ}
  Deleted heap (a ∷ xs) = (heap a ≡ none) × Deleted heap xs

  abbrev Elsewhere : Heap T → Heap T → List ℕ → Type ℓ
  Elsewhere before after xs = (a : ℕ) → NotIn a xs → after a ≡ before a

  Deleted-append :
      (heap : Heap T) (xs ys : List ℕ) → Deleted heap xs → Deleted heap ys → Deleted heap (xs ++ ys)
  Deleted-append heap [] ys h k = k
  Deleted-append heap (x ∷ xs) ys h k = (h.0, Deleted-append heap xs ys h.1 k)

  drain_list-Deleted :
      (fuel p : ℕ) (heap : Heap T) (cells : Cells T)
      → length cells < fuel
      → Linked heap p cells
      → Distinct (addresses cells)
      → (after : Heap T) × (drain_list fuel p heap ≡ some after)
        × Deleted after (addresses cells)
        × Elsewhere heap after (addresses cells)
  unfolding drain_list
  drain_list-Deleted zero p heap cells h l d = absurd (omega arith)
  drain_list-Deleted (suc fuel) p heap [] h l d =
      (heap, rw ((==_iff p 0).1 l.0) refl, tt, λ a n. refl)
  drain_list-Deleted (suc fuel) p heap (c ∷ cells) h l d =
      let emptied = write heap c.0 none in
      let rest =
        drain_list-Deleted fuel l.2 emptied cells (omega arith)
          (write-Linked heap l.2 c.0 none cells d.0 l.4) d.1 in
      (
        rest.0,
        rw (==_ne p 0 (λ z. omega (arith, z, l.0, l.1))) (
            ap (λ o. reading o (λ node. drain_list fuel node.next (write heap p none)))
              (ap heap l.0 ∙ l.3)
            ∙ ap (λ a. drain_list fuel l.2 (write heap a none)) l.0
            ∙ rest.1),
        (rest.3 c.0 d.0 ∙ write-same heap c.0 none, rest.2),
        λ a n. rest.3 a n.1 ∙ write-other heap c.0 a none (λ e. n.0 (sym e)),
      )

  Linked-Elsewhere :
      (before after : Heap T) (p : ℕ) (cells : Cells T) (xs : List ℕ)
      → Elsewhere before after xs
      → Distinct (xs ++ addresses cells)
      → Linked before p cells
      → Linked after p cells
  Linked-Elsewhere before after p [] xs same d l = l
  Linked-Elsewhere before after p (c ∷ cells) xs same d l =
      let parts = Distinct-middle c.0 xs (addresses cells) d in
      (
        l.0,
        l.1,
        l.2,
        same c.0 (NotIn-split c.0 xs (addresses cells) parts.0).0 ∙ l.3,
        Linked-Elsewhere before after l.2 cells xs same parts.1 l.4,
      )

  length-contents : (cells : Cells T) → length (contents cells) ≡ length cells
  length-contents [] = refl
  length-contents (c ∷ cells) = ap suc (length-contents cells)

  Deleted-Elsewhere :
      (before after : Heap T) (xs ys : List ℕ)
      → Elsewhere before after ys
      → Distinct (xs ++ ys)
      → Deleted before xs
      → Deleted after xs
  Deleted-Elsewhere before after [] ys same d h = tt
  Deleted-Elsewhere before after (x ∷ xs) ys same d h =
      (same x (NotIn-split x xs ys d.0).1 ∙ h.0, Deleted-Elsewhere before after xs ys same d.1 h.1)

  -- A heap in which the listed nodes are deleted and nothing else is.
  everywhere :
      (heap : Heap T) (xs : List ℕ)
      → Deleted heap xs
      → NothingElse heap xs
      → (a : ℕ) → heap a ≡ none
  everywhere heap [] h n a = n a tt
  everywhere heap (x ∷ xs) h n a =
      everywhere heap xs h.1
        (λ p o. elim (ℕ_discrete p x) [
          | yes here ↦ ap heap here ∙ h.0
          | no away ↦ n p (λ z. away (sym z), o)
        ])
        a

  destroy-Represents :
      (q : Queue T) (b : Bounded T)
      → Represents q b
      → (after : Heap T) × (destroy q ≡ some after) × ((a : ℕ) → after a ≡ none)
  unfolding destroy close
  destroy-Represents q b r =
      let sized =
        r.sized
        ∙ sym (length-map some b.items)
        ∙ ap length (sym r.items_there)
        ∙ length-contents r.used in
      let first =
        drain_list-Deleted (q.size + 1) q.head q.heap r.used (omega (arith, sized)) r.used_linked
          (Distinct-first (addresses r.used) (addresses r.kept) r.distinct) in
      let second =
        drain_list-Deleted (q.free_count + 1) q.free_nodes first.0 r.kept (omega (arith, r.counted))
          (Linked-Elsewhere q.heap first.0 q.free_nodes r.kept (addresses r.used) first.3 r.distinct
            r.kept_linked)
          (Distinct-second (addresses r.used) (addresses r.kept) r.distinct) in
      (
        second.0,
        ap (then_drain (q.free_count + 1) q.free_nodes) first.1 ∙ second.1,
        everywhere second.0 (addresses r.used ++ addresses r.kept)
            (Deleted-append second.0 (addresses r.used) (addresses r.kept)
              (Deleted-Elsewhere first.0 second.0 (addresses r.used) (addresses r.kept) second.3
                r.distinct first.2)
              second.2)
            (λ a n.
              let parts = NotIn-split a (addresses r.used) (addresses r.kept) n in
              second.3 a parts.1 ∙ first.3 a parts.0 ∙ r.nothing_else a n),
      )

  -- After any history of calls on a new queue the destructor ends, touches only nodes that are
  -- there, and leaves no node allocated, neither of the items left nor of those kept for later.
  pub destroy-run_calls :
      (capacity : ℕ) (calls : List (Call T))
      → (answers : List (Answer T)) × (q : Queue T) × (after : Heap T) × (run_calls calls
            (new_queue capacity)
          ≡ some (answers, q))
        × (destroy q ≡ some after)
        × ((a : ℕ) → after a ≡ none)
  destroy-run_calls capacity calls =
      let run = run_calls-spec_calls capacity calls in
      let gone = destroy-Represents run.0 (spec_calls calls (empty_queue capacity)).1 run.2 in
      ((spec_calls calls (empty_queue capacity)).0, run.0, gone.0, run.1, gone.1, gone.2)
