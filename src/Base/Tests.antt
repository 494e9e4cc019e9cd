-- ===== src/Base/Tests.antt =====
-- Boolean tests on numbers and texts, and the conditional.
use Prim.Native.Nat.{ℕ, ◌<◌, compare, Ordering}
use Prim.Native.String.{String, compare as compare_text}
use mathlib.Core.Path.{◌≡◌, refl}
use mathlib.Core.Logic.{◌↔◌, ◌⊎◌, inl, inr}
use mathlib.Core.Bool.{Bool, true, false, ◌&&◌}
use mathlib.Core.Option.{Option, none, some}
use native.Mathlib.Omega.{arith}
use text.Mathlib.Text
use text.Mathlib.TextEquality
use text.Mathlib.TextPositions

abbrev pub ltb : ℕ → ℕ → Bool
ltb a b = elim (compare a b) [ Ordering.lt ↦ true | _ ↦ false ]

abbrev pub leb : ℕ → ℕ → Bool
leb a b = elim (compare a b) [ Ordering.gt ↦ false | _ ↦ true ]

infix 50 ◌==◌
abbrev pub ◌==◌ : ℕ → ℕ → Bool
a == b = elim (compare a b) [ Ordering.eq ↦ true | _ ↦ false ]

pub ltb→lt : (a b : ℕ) → ltb a b ≡ true → a < b
ltb→lt a b h = ground arith

-- Go's `==` on strings, shut: `str_eq_iff` says what it decides.
unfoldable pub str_eq : String → String → Bool
str_eq s t = Text.◌==◌ s t

pub str_eq_iff : (s t : String) → (str_eq s t ≡ true) ↔ (s ≡ t)
unfolding str_eq
str_eq_iff s t = TextEquality.eq_iff s t

pub str_eq_refl : (s : String) → str_eq s s ≡ true
unfolding str_eq
str_eq_refl s = TextPositions.eq_refl s

-- Go's `<` on strings: bytes of UTF-8 in lexicographic order, which is that of the code points.
unfoldable pub str_lt : String → String → Bool
str_lt s t = elim (compare_text s t) [ Ordering.lt ↦ true | _ ↦ false ]

infix 1 if◌then◌else◌
abbrev pub if◌then◌else◌ {ℓ} : {A : Type ℓ} → Bool → A → A → A
if true then x else y = x
if false then x else y = y

-- To split on a computed value and keep the equation.
pub Bool-cases : (b : Bool) → (b ≡ true) ⊎ (b ≡ false)
Bool-cases true = inl refl
Bool-cases false = inr refl

pub Option-cases {ℓ} : {A : Type ℓ} (o : Option A) → (o ≡ none) ⊎ ((a : A) × (o ≡ some a))
Option-cases none = inl refl
Option-cases (some a) = inr (a, refl)

-- A field behind a pointer, `p.field`: `none` where the pointer is nil.
abbrev pub read {ℓ κ} : {A : Type ℓ} {B : Type κ} → Option A → (A → Option B) → Option B
read none f = none
read (some a) f = f a

-- Whether something was found.
abbrev pub is_some {ℓ} : {A : Type ℓ} → Option A → Bool
is_some none = false
is_some (some a) = true

pub both_true : (b c : Bool) → b && c ≡ true → (b ≡ true) × (c ≡ true)
both_true true c e = (refl, e)
both_true false c e = absurd (cc e)
