-- ===== src/Exec/Rules.antt =====
-- Rules for what a method ends with: `Q` speaks of the result and the state. A rule reduces it, for
-- a method that begins with a call, to what each outcome of the call leads to.
use opi_nvidia_bridge.Base.{◌≡◌, refl, sym, subst, ◌∙◌, Bool, true, false, Option, none, some}
use opi_nvidia_bridge.Error.{Error}
use opi_nvidia_bridge.Exec.{
  Result, ok, err, panic, Exec, lift, deref, check, require, continue, ◌>>=◌, ◌>>◌,
}

pub record Ends {ℓ κ μ} {S : Type ℓ} {B : Type κ} (Q : Result B × S → Type μ) (o : Result B × S)
    : Type μ where
  pub holds : Q o

pub done {ℓ κ μ} :
    {S : Type ℓ} {B : Type κ} {Q : Result B × S → Type μ} {o : Result B × S} → Q o → Ends Q o
done h = record { holds = h }

pub some-inj {ℓ} : {A : Type ℓ} {a b : A} → some a ≡ some b → a ≡ b
some-inj p = cc p

pub ok-inj {ℓ} : {A : Type ℓ} {a b : A} → ok a ≡ ok b → a ≡ b
ok-inj p = cc p

module _ {ℓ κ μ} {S : Type ℓ} {B : Type κ} {Q : Result B × S → Type μ} where
  continue_rule {ν} :
      {A : Type ν} (r : Result A) (f : A → Exec S B) (s : S)
      → ((a : A) → r ≡ ok a → Ends Q (f a s))
      → ((e : Error) → r ≡ err e → Ends Q (err e, s))
      → (r ≡ panic → Ends Q (panic, s))
      → Ends Q (continue r f s)
  continue_rule (ok a) f s h k l = h a refl
  continue_rule (err e) f s h k l = k e refl
  continue_rule panic f s h k l = l refl

  -- Any method, by its result.
  pub bind_rule {ν} :
      {A : Type ν} (m : Exec S A) (f : A → Exec S B) (s : S)
      → ((a : A) → (m s).0 ≡ ok a → Ends Q (f a (m s).1))
      → ((e : Error) → (m s).0 ≡ err e → Ends Q (err e, (m s).1))
      → ((m s).0 ≡ panic → Ends Q (panic, (m s).1))
      → Ends Q ((m >>= f) s)
  unfolding ◌>>=◌
  bind_rule m f s = continue_rule (m s).0 f (m s).1

  -- The same where what follows a failure does not matter.
  pub step_rule {ν} :
      {A : Type ν} (m : Exec S A) (f : A → Exec S B) (s : S)
      → ((a : A) → (m s).0 ≡ ok a → Ends Q (f a (m s).1))
      → ((r : Result B) → Ends Q (r, (m s).1))
      → Ends Q ((m >>= f) s)
  step_rule m f s h k = bind_rule m f s h (λ e _. k (err e)) (λ _. k panic)

  pub deref_rule {ν} :
      {A : Type ν} (p : Option A) (f : A → Exec S B) (s : S)
      → ((a : A) → p ≡ some a → Ends Q (f a s))
      → (p ≡ none → Ends Q (panic, s))
      → Ends Q ((deref p >>= f) s)
  unfolding ◌>>=◌
  deref_rule none f s h k = k refl
  deref_rule (some a) f s h k = h a refl

  -- A pointer of which the target is known.
  pub known_rule {ν} :
      {A : Type ν} (p : Option A) (f : A → Exec S B) (s : S) (a : A)
      → p ≡ some a
      → Ends Q (f a s)
      → Ends Q ((deref p >>= f) s)
  unfolding ◌>>=◌
  known_rule p f s a e h =
      deref_rule p f s (λ a' e'. subst (λ x. Ends Q (f x s)) (some-inj (sym e ∙ e')) h)
        (λ e'. cc (e, e'))

  pub check_rule :
      (o : Option Error) (k : Exec S B) (s : S)
      → (o ≡ none → Ends Q (k s))
      → ((e : Error) → o ≡ some e → Ends Q (err e, s))
      → Ends Q ((check o >> k) s)
  unfolding ◌>>=◌
  check_rule none n s h l = h refl
  check_rule (some e) n s h l = l e refl

  pub require_rule :
      (b : Bool) (e : Error) (k : Exec S B) (s : S)
      → (b ≡ true → Ends Q (k s))
      → (b ≡ false → Ends Q (err e, s))
      → Ends Q ((require b e >> k) s)
  unfolding ◌>>=◌
  require_rule true e n s h l = h refl
  require_rule false e n s h l = l refl

  pub lift_rule {ν} :
      {A : Type ν} (r : Result A) (f : A → Exec S B) (s : S)
      → ((a : A) → r ≡ ok a → Ends Q (f a s))
      → ((e : Error) → r ≡ err e → Ends Q (err e, s))
      → (r ≡ panic → Ends Q (panic, s))
      → Ends Q ((lift r >>= f) s)
  unfolding ◌>>=◌
  lift_rule r f s = continue_rule r f s

module _ {ℓ μ} {S : Type ℓ} {Q : Result (Unit {0}) × S → Type μ} where
  -- A check that ends a method.
  pub check_last :
      (o : Option Error) (s : S) → ((r : Result (Unit {0})) → Ends Q (r, s)) → Ends Q (check o s)
  unfolding check
  check_last none s h = h (ok tt)
  check_last (some e) s h = h (err e)

  -- The same where what follows the check reads its outcome.
  pub check_end :
      (o : Option Error) (s : S)
      → (o ≡ none → Ends Q (ok tt, s))
      → ((e : Error) → o ≡ some e → Ends Q (err e, s))
      → Ends Q (check o s)
  unfolding check
  check_end none s h k = h refl
  check_end (some e) s h k = k e refl

  pub require_last :
      (b : Bool) (e : Error) (s : S)
      → ((r : Result (Unit {0})) → Ends Q (r, s))
      → Ends Q (require b e s)
  unfolding require
  require_last true e s h = h (ok tt)
  require_last false e s h = h (err e)

-- Two checks, one after the other, do not change the state.
pub checks-same {ℓ} : {S : Type ℓ} (a b : Option Error) (s : S) → ((check a >> check b) s).1 ≡ s
checks-same {S} a b s = ends.holds
  where
    ends : Ends (λ (r, t). t ≡ s) ((check a >> check b) s)
    ends = check_rule _ _ _ (λ _. check_last _ _ (λ _. done refl)) (λ _ _. done refl)
