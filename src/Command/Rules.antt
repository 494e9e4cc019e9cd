-- ===== src/Command/Rules.antt =====
-- Rules for the parts of the process, and what a deferred call leaves.
use opi_nvidia_bridge.Base.{◌≡◌, refl, subst, Option, none, some, List, ◌∷◌, ◌⊎◌, inl, inr}
use opi_nvidia_bridge.Error.{Error}
use opi_nvidia_bridge.Exec.{Result, ok, panic, Exec, lift, ◌>>=◌, ◌>>◌}
use opi_nvidia_bridge.Exec.Rules.{Ends, lift_rule}
use opi_nvidia_bridge.Externals.{Externals, Answer, value, failure}
use opi_nvidia_bridge.Command.{System, Event, emit, panic_on, or_panic, finally}

module _ {ℓ κ μ} {S : Type ℓ} {B : Type κ} {Q : Result B × S → Type μ} where
  pub panic_on_rule :
      (o : Option Error) (k : Exec S B) (s : S)
      → (o ≡ none → Ends Q (k s))
      → ((e : Error) → o ≡ some e → Ends Q (panic, s))
      → Ends Q ((panic_on o >> k) s)
  unfolding ◌>>=◌ panic_on
  panic_on_rule none k s h p = h refl
  panic_on_rule (some e) k s h p = p e refl

  pub or_panic_rule {ν} :
      {A : Type ν} (a : Answer A) (f : A → Exec S B) (s : S)
      → ((x : A) → a ≡ value x → Ends Q (f x s))
      → ((e : Error) → a ≡ failure e → Ends Q (panic, s))
      → Ends Q ((or_panic a >>= f) s)
  unfolding ◌>>=◌ or_panic
  or_panic_rule (value x) f s h p = h x refl
  or_panic_rule (failure e) f s h p = p e refl

  pub lift_ok_rule {ν} :
      {A : Type ν} (r : Result A) (f : A → Exec S B) (s : S) (a : A)
      → r ≡ ok a
      → Ends Q (f a s)
      → Ends Q ((lift r >>= f) s)
  lift_ok_rule {A} r f s a e h =
      lift_rule r f s (λ a' e'. same_value a' e') (λ x e'. cc (e, e')) (λ e'. cc (e, e'))
    where
      same_value : (a' : A) → r ≡ ok a' → Ends Q (f a' s)
      same_value a' e' = let same : a ≡ a' = cc (e, e') in subst (λ x. Ends Q (f x s)) same h

module _ {μ} {E : Externals} (Y : System E) {B : Type 0}
    {Q : Result B × List (Event Y) → Type μ} where
  pub emit_rule :
      (e : Event Y) (k : Exec (List (Event Y)) B) (s : List (Event Y))
      → Ends Q (k (e ∷ s))
      → Ends Q ((emit Y e >> k) s)
  unfolding ◌>>=◌
  emit_rule e k s h = h

-- A call that panics on an error.
pub panic_on-cases {ℓ} :
    {S : Type ℓ} (o : Option Error) (s : S)
    → ((o ≡ none) × (panic_on o s ≡ (ok tt, s)))
      ⊎ ((e : Error) × (o ≡ some e) × (panic_on o s ≡ (panic, s)))
unfolding panic_on
panic_on-cases none s = inl (refl, refl)
panic_on-cases (some e) s = inr (e, refl, refl)

-- A part with a deferred call succeeds where both do, and the call is made however it ends.
pub finally-panic_on {ℓ κ} :
    {S : Type ℓ} {A : Type κ} (m : Exec S A) (f : S → S) (o : Option Error) (s : S)
    → let (r, t) = finally m (λ u. panic_on o (f u)) s in
      (t ≡ f (m s).1) × (((r ≡ panic) × (e : Error) × (o ≡ some e)) ⊎ ((r ≡ (m s).0) × (o ≡ none)))
unfolding finally panic_on
finally-panic_on m f none s = (refl, inr (refl, refl))
finally-panic_on m f (some e) s = (refl, inl (refl, e, refl))
