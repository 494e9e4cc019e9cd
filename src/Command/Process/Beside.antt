-- ===== src/Command/Process/Beside.antt =====
-- What the panic of a goroutine leaves of the part beside it, for cmd/main.go.
use opi_nvidia_bridge.Base.{
  ℕ, suc, ltb, ◌≤◌, ◌≡◌, refl, ap, ◌⊎◌, inl, inr, Bool-cases, true, subst, Option, none, some, List,
  [], ◌∷◌, ◌++◌, length, arith,
}
use opi_nvidia_bridge.Exec.{Result, ok, err, panic}
use opi_nvidia_bridge.Externals.{Externals}
use opi_nvidia_bridge.Command.{System, Event, Process}
use opi_nvidia_bridge.Command.Process.{earliest, beside}

module _ {ℓ} {A : Type ℓ} where
  -- Nothing is missing, or just as many as were asked for are there.
  pub earliest-cases :
      (n : ℕ) (events : List A)
      → (lost : List A) × (lost ++ earliest n events ≡ events)
        × (length (earliest n events) ≤ n)
        × ((lost ≡ []) ⊎ (length (earliest n events) ≡ n))
  unfolding earliest
  earliest-cases n [] = ([], refl, ground arith, inl refl)
  earliest-cases n (e ∷ events) = elim (Bool-cases (ltb n (length (e ∷ events)))) [
    | inl more ↦
        let (lost, all, few, exact) = earliest-cases n events in
        rw more
          (e ∷ lost, ap (λ l. e ∷ l) all, few, inr (reached n e events lost more all few exact))
    | inr less ↦ rw less ([], refl, ground (arith, less), inl refl)
  ]
    where
      reached :
          (n : ℕ) (e : A) (events lost : List A)
          → ltb n (length (e ∷ events)) ≡ true
          → lost ++ earliest n events ≡ events
          → length (earliest n events) ≤ n
          → (lost ≡ []) ⊎ (length (earliest n events) ≡ n)
          → length (earliest n events) ≡ n
      reached n e events lost more all few (inr exact) = exact
      reached n e events lost more all few (inl none_lost) =
          let same = subst (λ l. l ++ earliest n events ≡ events) none_lost all in
          ground (arith, ap length same, few, more)

  -- What began with an event still does.
  pub earliest-first :
      (n : ℕ) (events : List A) (e : A)
      → (after : List A) × (earliest (suc n) (events ++ e ∷ []) ≡ after ++ e ∷ [])
  unfolding earliest
  earliest-first n [] e = ([], ground arith)
  earliest-first n (x ∷ events) e =
      elim (Bool-cases (ltb (suc n) (length (x ∷ events ++ e ∷ [])))) [
        | inl more ↦ let (after, same) = earliest-first n events e in (after, rw more same)
        | inr less ↦ (x ∷ events, rw less refl)
      ]

module _ {E : Externals} (Y : System E) (goroutine : Process Y (Unit {0})) (schedule : Option ℕ)
    (m : Process Y (Unit {0})) (events : List (Event Y)) where
  -- The goroutine does not panic, or not before the part ends.
  abbrev pub IsHarmless : Type 0
  IsHarmless = (¬ ((goroutine []).0 ≡ panic)) ⊎ (schedule ≡ none)

  pub beside-cases :
      (IsHarmless × (beside Y goroutine schedule m events ≡ m events))
      ⊎ ((n : ℕ) × (schedule ≡ some n)
          × ((goroutine []).0 ≡ panic)
          × (beside Y goroutine schedule m events ≡ (panic, earliest (suc n) (m []).1 ++ events)))
  unfolding beside
  beside-cases = split schedule refl (goroutine []).0 refl
    where
      split :
          (o : Option ℕ)
          → schedule ≡ o
          → (r : Result (Unit {0})) → (goroutine []).0 ≡ r
          → (IsHarmless × (beside Y goroutine schedule m events ≡ m events))
            ⊎ ((n : ℕ) × (schedule ≡ some n)
                × ((goroutine []).0 ≡ panic)
                × (beside Y goroutine schedule m events
                    ≡ (panic, earliest (suc n) (m []).1 ++ events)))
      split none hs r hr = inl (inr hs, rw hs refl)
      split (some n) hs (ok x) hr = inl (inl (λ p. cc (p, hr)), rw (hs, beside, hr) refl)
      split (some n) hs (err e) hr = inl (inl (λ p. cc (p, hr)), rw (hs, beside, hr) refl)
      split (some n) hs panic hr = inr (n, hs, hr, rw (hs, beside, hr) refl)
