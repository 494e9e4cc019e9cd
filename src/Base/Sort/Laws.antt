-- ===== src/Base/Sort/Laws.antt =====
-- `sort_slice` of elements that all have a key gives an ascending permutation.
use mathlib.Core.Path.{◌≡◌, refl, subst}
use mathlib.Core.Bool.{Bool, true, false}
use mathlib.Core.Logic.{inl, inr}
use mathlib.Core.Option.{Option, none, some}
use mathlib.Core.List.{
  List, [], ◌∷◌, ◌++◌, reverse, Perm, perm_middle, append-nil, reverse-cons, reverse_perm,
}
use mathlib.Core.List.Perm
use native.Mathlib.Omega.{arith}
use opi_nvidia_bridge.Base.Tests.{Bool-cases}
use opi_nvidia_bridge.Base.Lists.{All}
use opi_nvidia_bridge.Base.Sort.{less_by, place, sink, insertion_sort, sort_slice}

-- The order of the keys: `lt` is asymmetric, and its negation is transitive.
pub record IsStrictOrder {ℓ} {K : Type ℓ} (lt : K → K → Bool) : Type ℓ where
  pub asym : (x y : K) → lt x y ≡ true → lt y x ≡ false
  pub not-lt-trans : (x y z : K) → lt y x ≡ false → lt z y ≡ false → lt z x ≡ false

abbrev pub HasKey {ℓ κ} : {A : Type ℓ} {K : Type κ} → (A → Option K) → A → Type κ
HasKey {K} key a = (x : K) × (key a ≡ some x)

module _ {ℓ κ} {A : Type ℓ} {K : Type κ} (key : A → Option K) (lt : K → K → Bool) where
  less-some :
      (a b : A) (x y : K) → key a ≡ some x → key b ≡ some y → less_by key lt a b ≡ some (lt x y)
  less-some a b x y p q = ground arith

  pub sink-total :
      (a : A) (l : List A)
      → HasKey key a
      → All (HasKey key) l
      → (m : List A) × (sink (less_by key lt) a l ≡ some m) × All (HasKey key) m × Perm m (a ∷ l)
  unfolding sink
  sink-total a [] ka kl = (a ∷ [], refl, (ka, tt), Perm.rfl)
  sink-total a (b ∷ l) (x, p) ((y, q), kl) =
      let (m, e, km, pm) = sink-total a l (x, p) kl in
      elim (Bool-cases (lt x y)) [
        | inl h ↦
            (b ∷ m, ground (arith, e), ((y, q), km), Perm.trans (Perm.cons b pm) (Perm.swap a b l))
        | inr h ↦ (a ∷ b ∷ l, ground arith, ((x, p), ((y, q), kl)), Perm.rfl)
      ]

  insertion_sort-total :
      (rest sorted : List A)
      → All (HasKey key) rest
      → All (HasKey key) sorted
      → (out : List A) × (insertion_sort (less_by key lt) rest sorted ≡ some out)
        × Perm out (rest ++ sorted)
  unfolding insertion_sort
  insertion_sort-total [] sorted kr ks = (reverse sorted, refl, reverse_perm sorted)
  insertion_sort-total (a ∷ rest) sorted (ka, kr) ks =
      let (m, e, km, pm) = sink-total a sorted ka ks in
      let (out, e', p) = insertion_sort-total rest m kr km in
      (
        out,
        rw (e, insertion_sort) e',
        Perm.trans p (Perm.trans (Perm.append Perm.rfl pm) (perm_middle rest sorted)),
      )

  -- `a` may stand before `b`: the key of `b` is not less than that of `a`.
  abbrev pub Before : A → A → Type κ
  Before a b = (x y : K) → key a ≡ some x → key b ≡ some y → lt y x ≡ false

  abbrev pub IsAscending : List A → Type κ
  IsAscending [] = Unit
  IsAscending (a ∷ l) = All (Before a) l × IsAscending l

  -- The sorted elements are held with the last one first.
  abbrev IsDescending : List A → Type κ
  IsDescending [] = Unit
  IsDescending (a ∷ l) = All (λ b. Before b a) l × IsDescending l

  -- What holds of all elements of the result, if there is one.
  abbrev Ends {μ} : (List A → Type μ) → Option (List A) → Type μ
  Ends P none = Unit
  Ends P (some m) = P m

  module _ (P : A → Type κ) (a b : A) (l : List A) where
    All-place :
        (o : Option Bool) (r : Option (List A))
        → P a
        → P b
        → All P l
        → Ends (All P) r
        → Ends (All P) (place a b l o r)
    unfolding place
    All-place none r pa pb pl h = tt
    All-place (some true) none pa pb pl h = tt
    All-place (some true) (some m) pa pb pl h = (pb, h)
    All-place (some false) r pa pb pl h = (pa, (pb, pl))

  All-sink :
      (P : A → Type κ) (a : A) (l : List A)
      → P a
      → All P l
      → Ends (All P) (sink (less_by key lt) a l)
  unfolding sink
  All-sink P a [] pa pl = (pa, tt)
  All-sink P a (b ∷ l) pa (pb, pl) =
      All-place P a b l (less_by key lt a b) (sink (less_by key lt) a l) pa pb pl
        (All-sink P a l pa pl)

  All-imp : (P Q : A → Type κ) (l : List A) → ((c : A) → P c → Q c) → All P l → All Q l
  All-imp P Q [] f h = tt
  All-imp P Q (c ∷ l) f (p, h) = (f c p, All-imp P Q l f h)

  module _ (a b : A) (l : List A) where
    IsDescending-place :
        (o : Option Bool) (r : Option (List A))
        → (o ≡ some true → Ends (All (λ c. Before c b)) r)
        → (o ≡ some false → All (λ c. Before c a) (b ∷ l))
        → IsDescending (b ∷ l)
        → Ends IsDescending r
        → Ends IsDescending (place a b l o r)
    unfolding place
    IsDescending-place none r up down d k = tt
    IsDescending-place (some true) none up down d k = tt
    IsDescending-place (some true) (some m) up down d k = (up refl, k)
    IsDescending-place (some false) r up down d k = (down refl, d)

  module _ (order : IsStrictOrder lt) where
    Before-of_less : (a b : A) → less_by key lt a b ≡ some true → Before a b
    Before-of_less a b h x y p q = order.asym x y (ground arith)

    Before-trans : (a b c : A) → HasKey key b → Before a b → Before b c → Before a c
    Before-trans a b c (y, q) ab bc x z p r = order.not-lt-trans x y z (ab x y p q) (bc y z q r)

    Before-of_not_less : (a b : A) → less_by key lt a b ≡ some false → Before b a
    Before-of_not_less a b h y x q p = ground arith

    IsDescending-sink :
        (a : A) (l : List A)
        → All (HasKey key) l
        → IsDescending l
        → Ends IsDescending (sink (less_by key lt) a l)
    unfolding sink
    IsDescending-sink a [] kl d = (tt, tt)
    IsDescending-sink a (b ∷ l) (kb, kl) (db, d) =
        IsDescending-place a b l (less_by key lt a b) (sink (less_by key lt) a l)
          (λ h. All-sink (λ c. Before c b) a l (Before-of_less a b h) db)
          (λ h.
            let ba = Before-of_not_less a b h in
            (ba, All-imp _ _ l (λ c cb. Before-trans c b a kb cb ba) db))
          (db, d) (IsDescending-sink a l kl d)

    -- Sorting keeps an ascending prefix, which it holds in reverse.
    insertion_sort-IsDescending :
        (rest sorted : List A)
        → All (HasKey key) rest
        → All (HasKey key) sorted
        → IsDescending sorted
        → (m : List A) × (insertion_sort (less_by key lt) rest sorted ≡ some (reverse m))
          × IsDescending m
    unfolding insertion_sort
    insertion_sort-IsDescending [] sorted kr ks d = (sorted, refl, d)
    insertion_sort-IsDescending (a ∷ rest) sorted (ka, kr) ks d =
        let (l, e, kl, _) = sink-total a sorted ka ks in
        let dl : IsDescending l = subst (Ends IsDescending) e (IsDescending-sink a sorted ks d) in
        let (m, e', dm) = insertion_sort-IsDescending rest l kr kl dl in
        (m, rw (e, insertion_sort) e', dm)

  All-append : (P : A → Type κ) (l m : List A) → All P l → All P m → All P (l ++ m)
  All-append P [] m h k = k
  All-append P (c ∷ l) m (p, h) k = (p, All-append P l m h k)

  All-reverse : (P : A → Type κ) (l : List A) → All P l → All P (reverse l)
  All-reverse P [] h = tt
  All-reverse P (c ∷ l) (p, h) =
      rw reverse-cons (All-append P (reverse l) (c ∷ []) (All-reverse P l h) (p, tt))

  IsAscending-snoc :
      (l : List A) (c : A) → IsAscending l → All (λ b. Before b c) l → IsAscending (l ++ c ∷ [])
  IsAscending-snoc [] c h k = (tt, tt)
  IsAscending-snoc (b ∷ l) c (below, h) (bc, k) =
      (All-append (Before b) l (c ∷ []) below (bc, tt), IsAscending-snoc l c h k)

  IsAscending-reverse : (l : List A) → IsDescending l → IsAscending (reverse l)
  IsAscending-reverse [] h = tt
  IsAscending-reverse (c ∷ l) (above, h) = rw reverse-cons (
      IsAscending-snoc (reverse l) c (IsAscending-reverse l h)
        (All-reverse (λ b. Before b c) l above))

  -- If every element has a key, the sort returns an ascending permutation of the elements.
  pub sort_slice_sorts :
      (items : List A)
      → IsStrictOrder lt
      → All (HasKey key) items
      → (out : List A) × (sort_slice (less_by key lt) items ≡ some out)
        × Perm out items
        × IsAscending out
  unfolding sort_slice
  sort_slice_sorts items order ks =
      let (out, e, p) = insertion_sort-total items [] ks tt in
      let (m, e', d) = insertion_sort-IsDescending order items [] ks tt tt in
      (
        reverse m,
        e',
        subst (λ l. Perm l items) (cc (e, e')) (rw append-nil at p),
        IsAscending-reverse m d,
      )
