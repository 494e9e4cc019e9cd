-- ===== src/Base/Text.antt =====
-- `strconv.FormatInt(n, 10)` and `path.Base` of Go's standard library.
pub mod Decimal
use Prim.Native.Nat.{ℕ, zero, suc, ◌/◌, ◌%◌}
use Prim.Native.Char.{Char, code}
use Prim.Native.String
use Prim.Native.String.{String, ◌++◌ as ◌<>◌}
use mathlib.Core.Bool.{Bool, true, false}
use opi_nvidia_bridge.Base.Tests.{◌==◌, str_eq, ltb, if◌then◌else◌}
use opi_nvidia_bridge.Base.Int.{ℤ, pos, negsuc}

unfoldable pub digit_char : ℕ → Char
digit_char zero = "0"
digit_char (suc zero) = "1"
digit_char (suc (suc zero)) = "2"
digit_char (suc (suc (suc zero))) = "3"
digit_char (suc (suc (suc (suc zero)))) = "4"
digit_char (suc (suc (suc (suc (suc zero))))) = "5"
digit_char (suc (suc (suc (suc (suc (suc zero)))))) = "6"
digit_char (suc (suc (suc (suc (suc (suc (suc zero))))))) = "7"
digit_char (suc (suc (suc (suc (suc (suc (suc (suc zero)))))))) = "8"
digit_char _ = "9"

-- The digits of `n` before `tail`, the last one first, on fuel.
unfoldable pub format_digits : ℕ → ℕ → String → String
unfolding digit_char
format_digits zero n tail = tail
format_digits (suc fuel) n tail =
    let text = String.◌∷◌ (digit_char (n % 10)) tail in
    let rest = format_digits fuel (n / 10) text in if ltb n 10 then text else rest

-- A number below 2 ^ 64 has at most 20 digits.
unfoldable pub format_int : ℤ → String
unfolding format_digits
format_int (pos n) = format_digits 20 n ""
format_int (negsuc n) = "-" <> format_digits 20 (suc n) ""

-- The text has a slash in it.
abbrev pub has_slash : String → Bool
has_slash String.[] = false
has_slash (String.◌∷◌ c s) = if code c == b'/' then true else has_slash s

-- The last element of a path that is not empty, from the current one and the last one before it.
unfoldable pub last_element : String → String → String → String
unfolding str_eq
last_element String.[] current last = if str_eq current "" then last else current
last_element (String.◌∷◌ c s) current last =
    last_element s (if code c == b'/' then "" else current <> String.◌∷◌ c "")
      (if code c == b'/' then (if str_eq current "" then last else current) else last)

-- `path.Base`: "." for the empty path, "/" for one of slashes alone.
unfoldable pub path_base : String → String
unfolding last_element
path_base path =
    let last = last_element path "" "" in
    if str_eq path "" then "." else if str_eq last "" then "/" else last
