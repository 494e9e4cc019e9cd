-- ===== src/Base/Sort.antt =====
-- `sort.Slice` of Go's standard library, for an order on keys that are read through pointers.
pub mod Laws
pub mod Panics
use mathlib.Core.Bool.{Bool, true, false}
use mathlib.Core.Option.{Option, none, some}
use mathlib.Core.List.{List, [], ◌∷◌, reverse}

-- `less(i, j)` as the callers write it, `key(i) < key(j)`: a nil pointer on either side panics,
-- which is `none`.
abbrev pub less_by {ℓ κ} :
    {A : Type ℓ} {K : Type κ} → (A → Option K) → (K → K → Bool) → A → A → Option Bool
less_by key lt a b = elim (key a) [
  | none ↦ none
  | some x ↦ elim (key b) [ none ↦ none | some y ↦ some (lt x y) ]
]

abbrev pub map_some {ℓ κ} : {A : Type ℓ} {B : Type κ} → (A → B) → Option A → Option B
map_some f none = none
map_some f (some a) = some (f a)

module _ {ℓ} {A : Type ℓ} where
  -- One comparison of `x` with its left neighbour `y`: `moved` is where `x` ends if it moves on.
  unfoldable pub place : A → A → List A → Option Bool → Option (List A) → Option (List A)
  place x y ys none moved = none
  place x y ys (some true) moved = map_some (λ zs. y ∷ zs) moved
  place x y ys (some false) moved = some (x ∷ y ∷ ys)

module _ {ℓ} {A : Type ℓ} (less : A → A → Option Bool) where
  -- An element stands next on the right of the sorted elements, the rightmost of them first: it
  -- moves to the left past each that it is less than.
  unfoldable pub sink : A → List A → Option (List A)
  unfolding place
  sink x [] = some (x ∷ [])
  sink x (y ∷ ys) = place x y ys (less x y) (sink x ys)

  -- The elements of `rest` join the sorted ones in turn.
  unfoldable pub insertion_sort : (rest sorted : List A) → Option (List A)
  insertion_sort [] sorted = some (reverse sorted)
  insertion_sort (x ∷ rest) sorted = elim (sink x sorted) [
    | none ↦ none
    | some sorted' ↦ insertion_sort rest sorted'
  ]

-- The sorted slice, or `none` where a comparison panics. Slices of at most 12 elements are sorted
-- by insertion in the standard library too; of longer ones only what the theorems say, a sorted
-- permutation, is the standard library's.
unfoldable pub sort_slice {ℓ} : {A : Type ℓ} → (A → A → Option Bool) → List A → Option (List A)
unfolding sink insertion_sort
sort_slice less items = insertion_sort less items []
