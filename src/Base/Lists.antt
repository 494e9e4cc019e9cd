-- ===== src/Base/Lists.antt =====
-- Lists measured by native numbers, and predicates on their elements by recursion.
use Prim.Native.Nat.{ℕ, zero, suc}
use Prim.Native.Char.{code}
use Prim.Native.String.{String}
use mathlib.Core.Path.{sym, subst}
use mathlib.Core.List.{List, [], ◌∷◌, Memᴰ}

module _ {ℓ} {A : Type ℓ} where
  abbrev pub length : List A → ℕ
  length [] = 0
  length (x ∷ xs) = suc (length xs)

  abbrev pub take : ℕ → List A → List A
  take zero xs = []
  take (suc n) [] = []
  take (suc n) (x ∷ xs) = x ∷ take n xs

  abbrev pub drop : ℕ → List A → List A
  drop zero xs = xs
  drop (suc n) [] = []
  drop (suc n) (x ∷ xs) = drop n xs

abbrev pub All {ℓ κ} : {A : Type ℓ} → (A → Type κ) → List A → Type κ
All P [] = Unit
All P (x ∷ xs) = P x × All P xs

-- What holds of all elements holds of one.
pub All-at {ℓ κ} : {A : Type ℓ} (P : A → Type κ) {x : A} (xs : List A) → All P xs → Memᴰ x xs → P x
All-at P [] h m = elim m [ ]
All-at P (y ∷ xs) (p, h) (Memᴰ.head e) = subst P (sym e) p
All-at P (y ∷ xs) (p, h) (Memᴰ.tail m) = All-at P xs h m

-- The code points of a text, which a Go regular expression walks.
abbrev pub codes : String → List ℕ
codes String.[] = []
codes (String.◌∷◌ c s) = code c ∷ codes s
