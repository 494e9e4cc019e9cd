-- ===== src/Base/Maps.antt =====
-- Go's `map[string]V` as an association list. No handler depends on the order of the entries.
use Prim.Native.String.{String}
use mathlib.Core.Path.{◌≡◌}
use mathlib.Core.Option.{Option, none, some}
use mathlib.Core.List.{List, [], ◌∷◌}
use native.Mathlib.Omega.{arith}
use opi_nvidia_bridge.Base.Tests.{str_eq, str_eq_iff, if◌then◌else◌}

abbrev pub Assoc {ℓ} : Type ℓ → Type ℓ
Assoc V = List (String × V)

module _ {ℓ} {V : Type ℓ} where
  -- `v, ok := m[k]`
  unfoldable pub lookup : String → Assoc V → Option V
  lookup k [] = none
  lookup k ((j, v) ∷ m) = if str_eq j k then some v else lookup k m

  -- `delete(m, k)`
  unfoldable pub erase : String → Assoc V → Assoc V
  erase k [] = []
  erase k ((j, v) ∷ m) = let rest = erase k m in if str_eq j k then rest else (j, v) ∷ rest

  -- `m[k] = v`
  unfoldable pub insert : String → V → Assoc V → Assoc V
  unfolding erase
  insert k v m = (k, v) ∷ erase k m

  pub lookup-erase :
      (k j : String) (m : Assoc V)
      → lookup j (erase k m) ≡ (if str_eq k j then none else lookup j m)
  unfolding lookup erase
  lookup-erase k j [] = ground arith
  lookup-erase k j ((i, v) ∷ m) =
      ground (arith, lookup-erase k j m, str_eq_iff i k, str_eq_iff i j, str_eq_iff k j)

  pub lookup-insert :
      (k j : String) (v : V) (m : Assoc V)
      → lookup j (insert k v m) ≡ (if str_eq k j then some v else lookup j m)
  unfolding lookup insert
  lookup-insert k j v m = ground (arith, lookup-erase k j m)
