-- ===== src/Base/Order.antt =====
-- The orders by which the handlers sort are strict orders.
use Prim.Native.String.{String, [], ◌∷◌}
use Prim.Native.String.compare
use mathlib.Core.Path.{◌≡◌}
use mathlib.Core.Bool.{true, false}
use native.Mathlib.Omega.{arith}
use opi_nvidia_bridge.Base.Tests.{str_lt}
use opi_nvidia_bridge.Base.Int.{ltb_ℤ}
use opi_nvidia_bridge.Base.Sort.Laws.{IsStrictOrder}

pub ltb_ℤ-IsStrictOrder : IsStrictOrder ltb_ℤ
ltb_ℤ-IsStrictOrder = record {
  asym = λ x y h. ground arith;
  not-lt-trans = λ x y z h k. ground arith;
}

str_lt-asym : (s t : String) → str_lt s t ≡ true → str_lt t s ≡ false
unfolding str_lt
str_lt-asym [] [] h = ground (arith, compare.nil-nil)
str_lt-asym [] (d ∷ t) h = ground (arith, compare.cons-nil d t)
str_lt-asym (c ∷ s) [] h = ground (arith, compare.cons-nil c s)
str_lt-asym (c ∷ s) (d ∷ t) h =
    ground (arith, compare.cons-cons c d s t, compare.cons-cons d c t s, str_lt-asym s t)

str_lt-not-lt_trans :
    (s t u : String) → str_lt t s ≡ false → str_lt u t ≡ false → str_lt u s ≡ false
unfolding str_lt
str_lt-not-lt_trans [] t [] h k = ground (arith, compare.nil-nil)
str_lt-not-lt_trans [] t (d ∷ u) h k = ground (arith, compare.cons-nil d u)
str_lt-not-lt_trans (c ∷ s) [] u h k = ground (arith, compare.nil-cons c s)
str_lt-not-lt_trans (c ∷ s) (d ∷ t) [] h k = ground (arith, compare.nil-cons d t)
str_lt-not-lt_trans (c ∷ s) (d ∷ t) (e ∷ u) h k = ground (
  arith,
  compare.cons-cons d c t s,
  compare.cons-cons e d u t,
  compare.cons-cons e c u s,
  str_lt-not-lt_trans s t u,
)

pub str_lt-IsStrictOrder : IsStrictOrder str_lt
str_lt-IsStrictOrder = record { asym = str_lt-asym; not-lt-trans = str_lt-not-lt_trans }
