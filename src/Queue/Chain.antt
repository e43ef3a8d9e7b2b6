-- ===== src/Queue/Chain.antt =====
-- Chains of nodes in the heap of tight/include/tight/blocking_queue.hpp, and their addresses.
use damen.Common.{
  ℕ, ◌+◌, ◌<◌, ◌≡◌, ◌≢◌, refl, sym, ap, ◌∙◌, arith, List, [], ◌∷◌, ◌++◌, Option, some, ==_self,
  ==_ne,
}
use damen.Queue.{Node, Heap, write}

-- An address that is not in a list, lists of different addresses, addresses below a bound.
abbrev pub NotIn : ℕ → List ℕ → Type 0
NotIn b [] = Unit {0}
NotIn b (a ∷ xs) = (a ≢ b) × NotIn b xs

abbrev pub Distinct : List ℕ → Type 0
Distinct [] = Unit {0}
Distinct (a ∷ xs) = NotIn a xs × Distinct xs

abbrev pub Below : ℕ → List ℕ → Type 0
Below n [] = Unit {0}
Below n (a ∷ xs) = (a < n) × Below n xs

pub NotIn-split : (b : ℕ) (xs ys : List ℕ) → NotIn b (xs ++ ys) → NotIn b xs × NotIn b ys
NotIn-split b [] ys h = (tt, h)
NotIn-split b (x ∷ xs) ys h = let rest = NotIn-split b xs ys h.1 in ((h.0, rest.0), rest.1)

pub NotIn-middle :
    (b f : ℕ) (xs ys : List ℕ) → NotIn b (xs ++ (f ∷ ys)) → (f ≢ b) × NotIn b (xs ++ ys)
NotIn-middle b f [] ys h = h
NotIn-middle b f (x ∷ xs) ys h = let rest = NotIn-middle b f xs ys h.1 in (rest.0, (h.0, rest.1))

pub NotIn-insert :
    (b f : ℕ) (xs ys : List ℕ) → f ≢ b → NotIn b (xs ++ ys) → NotIn b (xs ++ (f ∷ ys))
NotIn-insert b f [] ys d h = (d, h)
NotIn-insert b f (x ∷ xs) ys d h = (h.0, NotIn-insert b f xs ys d h.1)

pub Distinct-middle :
    (f : ℕ) (xs ys : List ℕ) → Distinct (xs ++ (f ∷ ys)) → NotIn f (xs ++ ys) × Distinct (xs ++ ys)
Distinct-middle f [] ys h = h
Distinct-middle f (x ∷ xs) ys h =
    let rest = Distinct-middle f xs ys h.1 in
    let apart = NotIn-middle x f xs ys h.0 in ((λ e. apart.0 (sym e), rest.0), (apart.1, rest.1))

pub Distinct-insert :
    (f : ℕ) (xs ys : List ℕ) → NotIn f (xs ++ ys) → Distinct (xs ++ ys) → Distinct (xs ++ (f ∷ ys))
Distinct-insert f [] ys n h = (n, h)
Distinct-insert f (x ∷ xs) ys n h =
    (NotIn-insert x f xs ys (λ e. n.0 (sym e)) h.0, Distinct-insert f xs ys n.1 h.1)

pub Below-insert :
    (n f : ℕ) (xs ys : List ℕ) → f < n → Below n (xs ++ ys) → Below n (xs ++ (f ∷ ys))
Below-insert n f [] ys k h = (k, h)
Below-insert n f (x ∷ xs) ys k h = (h.0, Below-insert n f xs ys k h.1)

pub Below-suc : (n : ℕ) (xs : List ℕ) → Below n xs → Below (n + 1) xs
Below-suc n [] h = tt
Below-suc n (x ∷ xs) h = (omega (arith, h.0), Below-suc n xs h.1)

pub Below-NotIn : (n : ℕ) (xs : List ℕ) → Below n xs → NotIn n xs
Below-NotIn n [] h = tt
Below-NotIn n (x ∷ xs) h = (λ e. omega (arith, e, h.0), Below-NotIn n xs h.1)

pub Distinct-first : (xs ys : List ℕ) → Distinct (xs ++ ys) → Distinct xs
Distinct-first [] ys h = tt
Distinct-first (x ∷ xs) ys h = ((NotIn-split x xs ys h.0).0, Distinct-first xs ys h.1)

pub Distinct-second : (xs ys : List ℕ) → Distinct (xs ++ ys) → Distinct ys
Distinct-second [] ys h = h
Distinct-second (x ∷ xs) ys h = Distinct-second xs ys h.1

abbrev pub Cells {ℓ} : Type ℓ → Type ℓ
Cells T = List (ℕ × Option T)

module _ {ℓ} {T : Type ℓ} where
  abbrev pub addresses : Cells T → List ℕ
  addresses [] = []
  addresses ((a, item) ∷ cells) = a ∷ addresses cells

  abbrev pub contents : Cells T → List (Option T)
  contents [] = []
  contents ((a, item) ∷ cells) = item ∷ contents cells

  pub addresses-append :
      (cells more : Cells T) → addresses (cells ++ more) ≡ addresses cells ++ addresses more
  addresses-append [] more = refl
  addresses-append ((a, item) ∷ cells) more = ap (◌∷◌ a) (addresses-append cells more)

  pub contents-append :
      (cells more : Cells T) → contents (cells ++ more) ≡ contents cells ++ contents more
  contents-append [] more = refl
  contents-append ((a, item) ∷ cells) more = ap (◌∷◌ item) (contents-append cells more)

  -- The nodes that begin at `p`, with their items, to the null pointer.
  abbrev pub Linked : Heap T → ℕ → Cells T → Type ℓ
  Linked heap p [] = (p ≡ 0) × Unit {ℓ}
  Linked heap p ((a, item) ∷ cells) =
      (p ≡ a)
      × (0 < a)
      × (next : ℕ) × (heap a ≡ some (record { item = item; next = next }))
      × Linked heap next cells

  pub write-same : (heap : Heap T) (a : ℕ) (v : Option (Node T)) → write heap a v a ≡ v
  unfolding write
  write-same heap a v = rw (==_self a) refl

  pub write-other :
      (heap : Heap T) (a b : ℕ) (v : Option (Node T)) → b ≢ a → write heap a v b ≡ heap b
  unfolding write
  write-other heap a b v h = rw (==_ne b a h) refl

  -- A write elsewhere leaves a chain as it is.
  pub write-Linked :
      (heap : Heap T) (p b : ℕ) (v : Option (Node T)) (cells : Cells T)
      → NotIn b (addresses cells)
      → Linked heap p cells
      → Linked (write heap b v) p cells
  write-Linked heap p b v [] o l = l
  write-Linked heap p b v ((a, item) ∷ cells) o l =
      (l.0, l.1, l.2, write-other heap b a v o.0 ∙ l.3, write-Linked heap l.2 b v cells o.1 l.4)

  -- The last node of a chain with a node.
  abbrev pub last_of : ℕ × Option T → Cells T → ℕ × Option T
  last_of c [] = c
  last_of c (d ∷ cells) = last_of d cells

  pub last_of-Linked :
      (heap : Heap T) (p : ℕ) (c : ℕ × Option T) (cells : Cells T)
      → Linked heap p (c ∷ cells)
      → (0 < (last_of c cells).0)
        × (heap (last_of c cells).0 ≡ some (record { item = (last_of c cells).1; next = 0 }))
  last_of-Linked heap p c [] l = (l.1, l.3 ∙ ap (λ n. some (record { item = c.1; next = n })) l.4.0)
  last_of-Linked heap p c (d ∷ cells) l = last_of-Linked heap l.2 d cells l.4

  pub last_of-NotIn :
      (a : ℕ) (d : ℕ × Option T) (cells : Cells T)
      → NotIn a (addresses (d ∷ cells))
      → a ≢ (last_of d cells).0
  last_of-NotIn a d [] h = λ e. h.0 (sym e)
  last_of-NotIn a d (e ∷ cells) h = last_of-NotIn a e cells h.1

  pub last_of-apart :
      (c : ℕ × Option T) (cells : Cells T) (ys : List ℕ)
      → Distinct (addresses (c ∷ cells) ++ ys)
      → NotIn (last_of c cells).0 ys
  last_of-apart c [] ys h = h.0
  last_of-apart c (d ∷ cells) ys h = last_of-apart d cells ys h.1

  -- A node is hung on the last one.
  pub Linked-append :
      (heap : Heap T) (p b : ℕ) (item : Option T) (c : ℕ × Option T) (cells : Cells T)
      → Linked heap p (c ∷ cells)
      → Distinct (addresses (c ∷ cells))
      → NotIn b (addresses (c ∷ cells))
      → 0 < b
      → heap b ≡ some (record { item = item; next = 0 })
      → Linked
          (write heap (last_of c cells).0 (some (record { item = (last_of c cells).1; next = b })))
          p
          ((c ∷ cells) ++ ((b, item) ∷ []))
  Linked-append heap p b item c [] l d n pos e = (
    l.0,
    l.1,
    b,
    write-same heap c.0 (some (record { item = c.1; next = b })),
    (
      refl,
      pos,
      0,
      write-other heap c.0 b (some (record { item = c.1; next = b })) (λ q. n.0 (sym q)) ∙ e,
      (refl, tt),
    ),
  )
  Linked-append heap p b item c (next_c ∷ cells) l d n pos e = (
    l.0,
    l.1,
    l.2,
    write-other heap (last_of next_c cells).0 c.0
          (some (record { item = (last_of next_c cells).1; next = b }))
          (last_of-NotIn c.0 next_c cells d.0)
        ∙ l.3,
    Linked-append heap l.2 b item next_c cells l.4 d.1 n.1 pos e,
  )
