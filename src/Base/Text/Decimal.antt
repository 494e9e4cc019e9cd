-- ===== src/Base/Text/Decimal.antt =====
-- Reading a formatted number gives the number back.
use Prim.Native.Nat.{ℕ, zero, suc, ◌+◌, ◌-◌, ◌*◌, ◌/◌, ◌%◌, ◌^◌, ◌≤◌, ◌<◌}
use Prim.Native.Char.{Char, code}
use Prim.Native.String.{String, ◌++◌ as ◌<>◌}
use Prim.Native.String.append
use mathlib.Core.Path.{◌≡◌, refl, ◌∙◌, ap, subst}
use mathlib.Core.Logic.{inl, inr}
use native.Mathlib.Nat.{pow-suc}
use native.Mathlib.Omega.{arith}
use opi_nvidia_bridge.Base.Int.{ℤ, pos, negsuc, sub_ℕ, IsInt64}
use opi_nvidia_bridge.Base.Tests.{◌==◌, ltb, ltb→lt, Bool-cases, if◌then◌else◌}
use opi_nvidia_bridge.Base.Text.{digit_char, format_digits, format_int}

-- The value of a text of digits that follow a number.
unfoldable pub read_digits : ℕ → String → ℕ
read_digits acc String.[] = acc
read_digits acc (String.◌∷◌ c s) = read_digits (acc * 10 + (code c - 48)) s

code-digit_char : (d : ℕ) → d < 10 → code (digit_char d) ≡ 48 + d
unfolding digit_char
code-digit_char zero h = refl
code-digit_char (suc zero) h = refl
code-digit_char (suc (suc zero)) h = refl
code-digit_char (suc (suc (suc zero))) h = refl
code-digit_char (suc (suc (suc (suc zero)))) h = refl
code-digit_char (suc (suc (suc (suc (suc zero))))) h = refl
code-digit_char (suc (suc (suc (suc (suc (suc zero)))))) h = refl
code-digit_char (suc (suc (suc (suc (suc (suc (suc zero))))))) h = refl
code-digit_char (suc (suc (suc (suc (suc (suc (suc (suc zero)))))))) h = refl
code-digit_char (suc (suc (suc (suc (suc (suc (suc (suc (suc zero))))))))) h = refl
code-digit_char _ h = absurd (omega arith)

read-format_digits :
    (fuel n : ℕ) (tail : String)
    → n < 10 ^ fuel
    → read_digits 0 (format_digits fuel n tail) ≡ read_digits n tail
unfolding format_digits read_digits
read-format_digits zero n tail h = ap (λ m. read_digits m tail) (omega arith)
read-format_digits (suc fuel) n tail h = elim (Bool-cases (ltb n 10)) [
  | inl e ↦
      rw e (ap (λ m. read_digits m tail) (omega (arith, code-digit_char (n % 10), ltb→lt n 10 e)))
  | inr e ↦ rw e (
      read-format_digits fuel (n / 10) _ (omega (arith, pow-suc 10 fuel))
      ∙ ap (λ m. read_digits m tail) (omega (arith, code-digit_char (n % 10))))
]

-- A formatted number begins with a digit, not with a sign.
format_digits-cons :
    (fuel n : ℕ) (tail : String)
    → (c : Char) × (s : String) × (format_digits (suc fuel) n tail ≡ String.◌∷◌ c s) × (48 ≤ code c)
unfolding format_digits
format_digits-cons zero n tail =
    (digit_char (n % 10), tail, ground arith, omega (arith, code-digit_char (n % 10)))
format_digits-cons (suc fuel) n tail = elim (Bool-cases (ltb n 10)) [
  | inl e ↦ (digit_char (n % 10), tail, rw e, omega (arith, code-digit_char (n % 10)))
  | inr e ↦
      let (c, s, p, h) = format_digits-cons fuel (n / 10) (String.◌∷◌ (digit_char (n % 10)) tail) in
      (c, s, rw e p, h)
]

-- The integer that a text with an optional sign writes down.
pub read_int : String → ℤ
unfolding read_digits
read_int String.[] = pos 0
read_int (String.◌∷◌ c s) =
    if code c == b'-' then sub_ℕ 0 (read_digits 0 s) else pos (read_digits 0 (String.◌∷◌ c s))

read_int_unsigned :
    (c : Char) (s : String)
    → 48 ≤ code c
    → read_int (String.◌∷◌ c s) ≡ pos (read_digits 0 (String.◌∷◌ c s))
unfolding read_int
read_int_unsigned c s h = ground arith

read_int_signed : (s : String) → read_int ("-" <> s) ≡ sub_ℕ 0 (read_digits 0 s)
unfolding read_int
read_int_signed s = rw (append.cons "-" "" s, append.nil s)

read_format : (n : ℕ) → n < 10 ^ 20 → read_digits 0 (format_digits 20 n "") ≡ n
unfolding read_digits
read_format n h = read-format_digits 20 n "" h

-- An `int64` is read back from its decimal text.
pub read_int-format_int : (z : ℤ) → IsInt64 z → read_int (format_int z) ≡ z
unfolding format_int
read_int-format_int (pos n) h =
    let (c, s, p, d) = format_digits-cons 19 n "" in
    rw p (
      read_int_unsigned c s d
      ∙ ap pos (subst (λ t. read_digits 0 t ≡ n) p (read_format n (omega arith))))
read_int-format_int (negsuc n) h =
    read_int_signed (format_digits 20 (suc n) "")
    ∙ rw (read_format (suc n) (omega arith)) (ground arith)
