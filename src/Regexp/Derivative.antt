-- ===== src/Regexp/Derivative.antt =====
-- The matcher decides the texts of a pattern.
use opi_nvidia_bridge.Base.{
  ℕ, ◌≡◌, refl, subst, ◌↔◌, ◌⊎◌, true, List, [], ◌∷◌, ◌++◌, arith, Bool-cases, inl, inr,
}
use opi_nvidia_bridge.Regexp.{
  Regex, nothing, empty, class, seq, alt, star, in_class, Matches, nil, one, join, left, right,
  stop, more, nullable, derivative, matches,
}

nullable_sound : (r : Regex) → nullable r ≡ true → Matches r []
unfolding nullable
nullable_sound nothing h = cc
nullable_sound empty h = nil refl
nullable_sound (class rs) h = cc
nullable_sound (seq a b) h =
    join [] [] refl (nullable_sound a (ground arith)) (nullable_sound b (ground arith))
nullable_sound (alt a b) h = elim (Bool-cases (nullable a)) [
  | inl e ↦ left (nullable_sound a e)
  | inr e ↦ right (nullable_sound b (ground arith))
]
nullable_sound (star a) h = stop refl

nullable_complete : {r : Regex} {s : List ℕ} → Matches r s → s ≡ [] → nullable r ≡ true
unfolding nullable
nullable_complete (nil p) e = refl
nullable_complete (one c h p) e = cc (p, e)
nullable_complete (join [] [] p m n) e =
    ground (arith, nullable_complete m refl, nullable_complete n refl)
nullable_complete (join [] (d ∷ v) p m n) e = cc (p, e)
nullable_complete (join (d ∷ u) v p m n) e = cc (p, e)
nullable_complete (left m) e = ground (arith, nullable_complete m e)
nullable_complete (right m) e = ground (arith, nullable_complete m e)
nullable_complete (stop p) e = refl
nullable_complete (more u v p m n) e = refl

nothing_inv : {s : List ℕ} → Matches nothing s → ⊥
nothing_inv m = elim m [ ]

empty_inv : {s : List ℕ} → Matches empty s → s ≡ []
empty_inv (nil p) = p

seq_inv :
    {a b : Regex} {s : List ℕ}
    → Matches (seq a b) s
    → (u : List ℕ) × (v : List ℕ) × (s ≡ u ++ v) × Matches a u × Matches b v
seq_inv (join u v p m n) = (u, v, p, m, n)

alt_inv : {a b : Regex} {s : List ℕ} → Matches (alt a b) s → Matches a s ⊎ Matches b s
alt_inv (left m) = inl m
alt_inv (right m) = inr m

join_cons :
    {a b : Regex} {s : List ℕ} (c : ℕ) (u v : List ℕ)
    → s ≡ u ++ v
    → Matches a (c ∷ u)
    → Matches b v
    → Matches (seq a b) (c ∷ s)
join_cons c u v p m n = join (c ∷ u) v (cc p) m n

-- A match of the derivative is a match that begins with the character, and the other way round.
derivative_sound : (c : ℕ) (r : Regex) {s : List ℕ} → Matches (derivative c r) s → Matches r (c ∷ s)
unfolding derivative
derivative_sound c nothing m = absurd (nothing_inv m)
derivative_sound c empty m = absurd (nothing_inv m)
derivative_sound c (class rs) m = elim (Bool-cases (in_class c rs)) [
  | inl h ↦ one c h (cc (empty_inv (rw h at m)))
  | inr h ↦ absurd (nothing_inv (rw h at m))
]
derivative_sound c (seq a b) m = elim (Bool-cases (nullable a)) [
  | inl h ↦ elim (alt_inv (rw h at m)) [
    | inl l ↦ let (u, v, p, x, y) = seq_inv l in join_cons c u v p (derivative_sound c a x) y
    | inr l ↦ join [] _ refl (nullable_sound a h) (derivative_sound c b l)
  ]
  | inr h ↦
      let (u, v, p, x, y) = seq_inv (rw h at m) in join_cons c u v p (derivative_sound c a x) y
]
derivative_sound c (alt a b) m = elim (alt_inv m) [
  | inl l ↦ left (derivative_sound c a l)
  | inr l ↦ right (derivative_sound c b l)
]
derivative_sound c (star a) m =
    let (u, v, p, x, y) = seq_inv m in more (c ∷ u) v (cc p) (derivative_sound c a x) y

derivative_complete :
    (c : ℕ) {r : Regex} {s t : List ℕ} → Matches r t → t ≡ c ∷ s → Matches (derivative c r) s
unfolding derivative
derivative_complete c (nil p) e = cc (p, e)
derivative_complete c (one {rs = rs} d h p) e =
    let h' : in_class c rs ≡ true = subst (λ x. in_class x rs ≡ true) (cc (p, e)) h in
    rw h' (nil (cc (p, e)))
derivative_complete c (join [] v p m n) e =
    rw (nullable_complete m refl) (right (derivative_complete c n (cc (p, e))))
derivative_complete c (join {a = a} (d ∷ u) v p m n) e =
    let first = join u v (cc (p, e)) (derivative_complete c m (cc (p, e))) n in
    elim (Bool-cases (nullable a)) [ inl h ↦ rw h (left first) | inr h ↦ rw h first ]
derivative_complete c (left m) e = left (derivative_complete c m e)
derivative_complete c (right m) e = right (derivative_complete c m e)
derivative_complete c (stop p) e = cc (p, e)
derivative_complete c (more [] v p m n) e = derivative_complete c n (cc (p, e))
derivative_complete c (more (d ∷ u) v p m n) e =
    join u v (cc (p, e)) (derivative_complete c m (cc (p, e))) n

-- The matcher accepts a text exactly when the text matches the pattern.
pub matches_iff : (r : Regex) (s : List ℕ) → (matches r s ≡ true) ↔ Matches r s
unfolding matches
matches_iff r [] = (nullable_sound r, λ m. nullable_complete m refl)
matches_iff r (c ∷ s) =
    let (to, from) = matches_iff (derivative c r) s in
    (λ h. derivative_sound c r (to h), λ m. from (derivative_complete c m refl))
