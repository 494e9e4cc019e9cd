-- ===== src/Regexp.antt =====
-- The part of Go's package `regexp` that the bridge uses: whether a whole text matches an anchored
-- pattern of character classes, concatenation, counted repetition and `+`.
pub mod Derivative
use opi_nvidia_bridge.Base.{
  ℕ, zero, suc, String, ◌≡◌, Bool, true, false, ◌&&◌, ◌||◌, List, [], ◌∷◌, ◌++◌, leb, codes,
  if◌then◌else◌,
}

-- The ranges of a class, each with its two ends: `[a-zA-Z0-9]`.
abbrev pub Ranges : Type 0
Ranges = List (ℕ × ℕ)

pub data Regex : Type 0 where
  nothing empty : Regex
  class : Ranges → Regex
  seq alt : Regex → Regex → Regex
  star : Regex → Regex

unfoldable pub in_class : ℕ → Ranges → Bool
in_class c [] = false
in_class c ((lo, hi) ∷ rs) = (leb lo c && leb c hi) || in_class c rs

abbrev pub plus : Regex → Regex
plus r = seq r (star r)

abbrev pub repeat : ℕ → Regex → Regex
repeat zero r = empty
repeat (suc n) r = seq r (repeat n r)

-- A literal text.
abbrev pub literal : List ℕ → Regex
literal [] = empty
literal (c ∷ cs) = seq (class ((c, c) ∷ [])) (literal cs)

-- The texts of a pattern: what `^r$` means.
pub data Matches : Regex → List ℕ → Type 0 where
  nil : {s : List ℕ} → s ≡ [] → Matches empty s
  one :
      {rs : Ranges} {s : List ℕ} (c : ℕ) → in_class c rs ≡ true → s ≡ c ∷ [] → Matches (class rs) s
  join :
      {a b : Regex} {s : List ℕ} (u v : List ℕ)
      → s ≡ u ++ v
      → Matches a u
      → Matches b v
      → Matches (seq a b) s
  left : {a b : Regex} {s : List ℕ} → Matches a s → Matches (alt a b) s
  right : {a b : Regex} {s : List ℕ} → Matches b s → Matches (alt a b) s
  stop : {a : Regex} {s : List ℕ} → s ≡ [] → Matches (star a) s
  more :
      {a : Regex} {s : List ℕ} (u v : List ℕ)
      → s ≡ u ++ v
      → Matches a u
      → Matches (star a) v
      → Matches (star a) s

-- Whether the empty text matches.
unfoldable pub nullable : Regex → Bool
nullable nothing = false
nullable empty = true
nullable (class _) = false
nullable (seq a b) = nullable a && nullable b
nullable (alt a b) = nullable a || nullable b
nullable (star _) = true

-- What must follow `c` in a match that begins with it.
unfoldable pub derivative : ℕ → Regex → Regex
unfolding nullable in_class
derivative c nothing = nothing
derivative c empty = nothing
derivative c (class rs) = if in_class c rs then empty else nothing
derivative c (seq a b) =
    let first = seq (derivative c a) b in
    let second = derivative c b in if nullable a then alt first second else first
derivative c (alt a b) = alt (derivative c a) (derivative c b)
derivative c (star a) = seq (derivative c a) (star a)

unfoldable pub matches : Regex → List ℕ → Bool
unfolding nullable derivative
matches r [] = nullable r
matches r (c ∷ s) = matches (derivative c r) s

-- `regexp.MustCompile("^r$").MatchString(text)`
unfoldable pub match_string : Regex → String → Bool
unfolding matches
match_string r text = matches r (codes text)
