-- ===== src/Base/Sort/Panics.antt =====
-- `sort_slice` where an element lacks its key.
use mathlib.Core.Path.{◌≡◌, refl, subst}
use mathlib.Core.Bool.{Bool, true, false}
use mathlib.Core.Logic.{◌⊎◌, inl, inr}
use mathlib.Core.Option.{Option, none, some}
use mathlib.Core.List.{List, [], ◌∷◌, Perm}
use mathlib.Core.List.Perm
use native.Mathlib.Omega.{arith}
use opi_nvidia_bridge.Base.Tests.{Bool-cases, Option-cases}
use opi_nvidia_bridge.Base.Lists.{All}
use opi_nvidia_bridge.Base.Sort.{less_by, sink, insertion_sort, sort_slice}
use opi_nvidia_bridge.Base.Sort.Laws.{
  HasKey, IsStrictOrder, IsAscending, sink-total, sort_slice_sorts,
}

-- No two elements.
abbrev pub IsShort {ℓ} : {A : Type ℓ} → List A → Type 0
IsShort [] = Unit
IsShort (_ ∷ []) = Unit
IsShort (_ ∷ _ ∷ _) = ⊥

module _ {ℓ κ} {A : Type ℓ} {K : Type κ} (key : A → Option K) (lt : K → K → Bool) where
  abbrev pub lacks_key : List A → Bool
  lacks_key [] = false
  lacks_key (a ∷ l) = let rest = lacks_key l in elim (key a) [ none ↦ true | some _ ↦ rest ]

  sink-none :
      (a b : A) (l : List A)
      → (key a ≡ none) ⊎ (key b ≡ none)
      → sink (less_by key lt) a (b ∷ l) ≡ none
  unfolding sink
  sink-none a b l h = ground arith

  sink-cons :
      (a b : A) (l m : List A)
      → sink (less_by key lt) a (b ∷ l) ≡ some m
      → (c : A) × (m' : List A) × (m ≡ c ∷ m')
  unfolding sink
  sink-cons a b l m h = ground arith

  insertion_sort-none :
      (rest : List A) (b : A) (sorted : List A)
      → All (HasKey key) (b ∷ sorted)
      → lacks_key rest ≡ true
      → insertion_sort (less_by key lt) rest (b ∷ sorted) ≡ none
  unfolding insertion_sort
  insertion_sort-none [] b sorted ks h = cc
  insertion_sort-none (a ∷ rest) b sorted ks h = elim (Option-cases (key a)) [
    | inl e ↦ rw (sink-none a b sorted (inl e), insertion_sort)
    | inr ka ↦
        let (m, e, km, _) = sink-total key lt a (b ∷ sorted) ka ks in
        let (c, m', e') = sink-cons a b sorted m e in
        rw (e, insertion_sort, e')
          (insertion_sort-none rest c m' (subst (All (HasKey key)) e' km) (ground (arith, ka.1)))
  ]

  -- With two or more elements, one without a key makes the sort panic.
  pub sort_slice_panics :
      (a b : A) (l : List A)
      → lacks_key (a ∷ b ∷ l) ≡ true
      → sort_slice (less_by key lt) (a ∷ b ∷ l) ≡ none
  unfolding sort_slice
  sort_slice_panics a b l h = elim (Option-cases (key a)) [
    | inl e ↦ rw (sink-none b a [] (inr e), insertion_sort)
    | inr (x, e) ↦ insertion_sort-none (b ∷ l) a [] ((x, e), tt) (ground (arith, e))
  ]

  lacks_key-false : (items : List A) → lacks_key items ≡ false → All (HasKey key) items
  lacks_key-false [] h = tt
  lacks_key-false (a ∷ l) h = elim (Option-cases (key a)) [
    | inl e ↦ ground (arith, e)
    | inr (x, e) ↦ ((x, e), lacks_key-false l (ground (arith, e)))
  ]

  -- What the sort does to any elements.
  pub sort_slice_cases :
      (items : List A)
      → IsStrictOrder lt
      → ((a b : A) × (l : List A) × (items ≡ a ∷ b ∷ l)
          × (lacks_key items ≡ true)
          × (sort_slice (less_by key lt) items ≡ none))
        ⊎ ((out : List A) × (sort_slice (less_by key lt) items ≡ some out)
            × (IsShort items ⊎ All (HasKey key) items)
            × Perm out items
            × IsAscending key lt out)
  unfolding sort_slice insertion_sort sink
  sort_slice_cases [] order = inr ([], refl, inl tt, Perm.rfl, tt)
  sort_slice_cases (a ∷ []) order = inr (a ∷ [], refl, inl tt, Perm.rfl, (tt, tt))
  sort_slice_cases (a ∷ b ∷ l) order = elim (Bool-cases (lacks_key (a ∷ b ∷ l))) [
    | inl h ↦ inl (a, b, l, refl, h, sort_slice_panics a b l h)
    | inr h ↦
        let ks = lacks_key-false (a ∷ b ∷ l) h in
        let (out, e, perm, asc) = sort_slice_sorts key lt (a ∷ b ∷ l) order ks in
        inr (out, e, inr ks, perm, asc)
  ]

  pub All-lacks_key : (items : List A) → All (HasKey key) items → lacks_key items ≡ false
  All-lacks_key [] h = refl
  All-lacks_key (a ∷ l) ((x, e), h) = ground (arith, e, All-lacks_key l h)
