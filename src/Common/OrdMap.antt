-- ===== src/Common/OrdMap.antt =====
-- `std::map<std::uint32_t, V>` as the list of its entries in key order.
use Prim.Native.Nat.{ℕ, suc, ◌+◌, ◌≤◌, ◌<◌}
use mathlib.Core.Path.{◌≡◌, refl}
use mathlib.Core.Logic.{◌≢◌}
use mathlib.Core.List.{List, [], ◌∷◌}
use mathlib.Core.Option.{Option, none, some}
use native.Mathlib.Omega.{arith}
use damen.Common.Tests.{ltb, ◌==◌, if◌then◌else◌}
use damen.Common.Lists.{length}

abbrev pub OrdMap {ℓ} : Type ℓ → Type ℓ
OrdMap V = List (ℕ × V)

module _ {ℓ} {V : Type ℓ} where
  unfoldable pub lookup : ℕ → OrdMap V → Option V
  lookup k [] = none
  lookup k ((j, v) ∷ m) = if j == k then some v else lookup k m

  -- `emplace`: an entry that is there stays.
  unfoldable pub emplace : ℕ → V → OrdMap V → OrdMap V
  emplace k v [] = (k, v) ∷ []
  emplace k v ((j, w) ∷ m) =
      if ltb k j
      then (k, v) ∷ (j, w) ∷ m
      else (if k == j then (j, w) ∷ m else (j, w) ∷ emplace k v m)

  -- `m[k] = v`: an entry that is there is replaced.
  unfoldable pub assign : ℕ → V → OrdMap V → OrdMap V
  assign k v [] = (k, v) ∷ []
  assign k v ((j, w) ∷ m) =
      if ltb k j
      then (k, v) ∷ (j, w) ∷ m
      else (if k == j then (k, v) ∷ m else (j, w) ∷ assign k v m)

  unfoldable pub erase : ℕ → OrdMap V → OrdMap V
  erase k [] = []
  erase k ((j, v) ∷ m) = if j == k then m else (j, v) ∷ erase k m

  -- The keys ascend, from `lo` at least.
  abbrev pub Ascending : ℕ → OrdMap V → Type 0
  Ascending lo [] = Unit
  Ascending lo ((k, v) ∷ m) = (lo ≤ k) × Ascending (k + 1) m

  pub Ascending-weaken : (lo lo' : ℕ) (m : OrdMap V) → lo' ≤ lo → Ascending lo m → Ascending lo' m
  Ascending-weaken lo lo' [] h a = tt
  Ascending-weaken lo lo' ((k, v) ∷ m) h a = (omega arith, a.1)

  pub emplace-Ascending :
      (lo k : ℕ) (v : V) (m : OrdMap V) → lo ≤ k → Ascending lo m → Ascending lo (emplace k v m)
  unfolding emplace
  emplace-Ascending lo k v [] h a = (h, tt)
  emplace-Ascending lo k v ((j, w) ∷ m) h a = ground (arith, emplace-Ascending (j + 1) k v m)

  pub assign-Ascending :
      (lo k : ℕ) (v : V) (m : OrdMap V) → lo ≤ k → Ascending lo m → Ascending lo (assign k v m)
  unfolding assign
  assign-Ascending lo k v [] h a = (h, tt)
  assign-Ascending lo k v ((j, w) ∷ m) h a = ground (arith, assign-Ascending (j + 1) k v m)

  pub erase-Ascending : (lo k : ℕ) (m : OrdMap V) → Ascending lo m → Ascending lo (erase k m)
  unfolding erase
  erase-Ascending lo k [] a = tt
  erase-Ascending lo k ((j, w) ∷ m) a =
      ground (arith, erase-Ascending (j + 1) k m, Ascending-weaken (j + 1) lo m)

  pub lookup_head : (k : ℕ) (v : V) (m : OrdMap V) → lookup k ((k, v) ∷ m) ≡ some v
  unfolding lookup
  lookup_head k v m = ground arith

  pub erase_head : (k : ℕ) (v : V) (m : OrdMap V) → erase k ((k, v) ∷ m) ≡ m
  unfolding erase
  erase_head k v m = ground arith

  -- No entry stands below the bound.
  pub lookup_below : (lo k : ℕ) (m : OrdMap V) → k < lo → Ascending lo m → lookup k m ≡ none
  unfolding lookup
  lookup_below lo k [] h a = refl
  lookup_below lo k ((j, w) ∷ m) h a = ground (arith, lookup_below (j + 1) k m)

  pub lookup-emplace :
      (lo k j : ℕ) (v : V) (m : OrdMap V)
      → Ascending lo m
      → lookup k m ≡ none
      → lookup j (emplace k v m) ≡ (if k == j then some v else lookup j m)
  unfolding lookup emplace
  lookup-emplace lo k j v [] a e = refl
  lookup-emplace lo k j v ((i, w) ∷ m) a e = ground (arith, lookup-emplace (i + 1) k j v m)

  pub lookup-assign :
      (lo k j : ℕ) (v : V) (m : OrdMap V)
      → Ascending lo m
      → lookup j (assign k v m) ≡ (if k == j then some v else lookup j m)
  unfolding lookup assign
  lookup-assign lo k j v [] a = refl
  lookup-assign lo k j v ((i, w) ∷ m) a = ground (arith, lookup-assign (i + 1) k j v m)

  pub lookup-erase :
      (lo k j : ℕ) (m : OrdMap V)
      → Ascending lo m
      → lookup j (erase k m) ≡ (if k == j then none else lookup j m)
  unfolding lookup erase
  lookup-erase lo k j [] a = ground arith
  lookup-erase lo k j ((i, w) ∷ m) a =
      ground (arith, lookup-erase (i + 1) k j m, lookup_below (i + 1) i m)

  -- The least key that is possible, taken out or not there.
  pub erase_least : (lo : ℕ) (m : OrdMap V) → Ascending lo m → Ascending (lo + 1) (erase lo m)
  unfolding erase
  erase_least lo [] a = tt
  erase_least lo ((j, w) ∷ m) a =
      ground (arith, Ascending-weaken (j + 1) (lo + 1) m, erase_above lo j m)
    where
      erase_above :
          (k j : ℕ) (m : OrdMap V) → k ≤ j → Ascending (j + 1) m → Ascending (j + 1) (erase k m)
      erase_above k j m h a = erase-Ascending (j + 1) k m a

  pub Ascending-skip :
      (lo : ℕ) (m : OrdMap V) → lookup lo m ≡ none → Ascending lo m → Ascending (lo + 1) m
  unfolding lookup
  Ascending-skip lo [] e a = tt
  Ascending-skip lo ((j, w) ∷ m) e a = ground arith

  pub Ascending-empty : (lo : ℕ) (m : OrdMap V) → length m ≤ 0 → Ascending lo m
  Ascending-empty lo [] h = tt
  Ascending-empty lo ((k, v) ∷ m) h = absurd (omega arith)

  -- Erasing an entry that is there leaves one fewer.
  pub length-erase :
      (k : ℕ) (m : OrdMap V) → lookup k m ≢ none → suc (length (erase k m)) ≡ length m
  unfolding lookup erase
  length-erase k [] h = absurd (h refl)
  length-erase k ((j, w) ∷ m) h = ground (arith, length-erase k m)
