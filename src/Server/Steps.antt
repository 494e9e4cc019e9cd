-- ===== src/Server/Steps.antt =====
-- Rules for a method that begins with a call to the store, the device or a generator, in terms of
-- how the state after the call compares to the state before it.
use opi_nvidia_bridge.Base.{
  true, false, String, ◌≡◌, refl, sym, subst, Option, some, true, Bool, arith, [], ◌∷◌, ◌++◌, inl,
  inr, str_eq_refl,
}
use opi_nvidia_bridge.Api.Messages.{Kind, Message}
use opi_nvidia_bridge.Models.{Rpc, Reply}
use opi_nvidia_bridge.Error.{Error}
use opi_nvidia_bridge.Exec.{Result, ok, err, panic, deref, require, ◌>>=◌, ◌>>◌}
use opi_nvidia_bridge.Exec.Rules.{Ends, bind_rule, deref_rule, require_rule}
use opi_nvidia_bridge.Externals.{Externals, value, failure, Answer-cases}
use opi_nvidia_bridge.Externals.Laws.{IsStore}
use opi_nvidia_bridge.Server.{
  State, Method, answered, store_get, store_set, store_delete, rpc, new_system_generated,
}
use opi_nvidia_bridge.Server.Rules.{answered-value, answered-failure, answered-not-panic}
use opi_nvidia_bridge.Server.Outcomes.{
  Fails, Untouched, OnlyRead, OnlyRead-generated, OnlyRead-store_get, Stored, Removed,
}

pub Fails-err {ℓ} : {A : Type ℓ} (e : Error) → Fails {A = A} (err e)
Fails-err e a p = cc p

pub Fails-panic {ℓ} : {A : Type ℓ} → Fails {A = A} panic
Fails-panic a p = cc p

module _ {μ} (E : Externals) {B : Type 0} {Q : Result B × State E → Type μ} where
  -- A method that does not change the state, as a validator.
  pub same_rule :
      {A : Type 0} (m : Method E A) (f : A → Method E B) (s : State E)
      → (m s).1 ≡ s
      → ((a : A) → (m s).0 ≡ ok a → Ends Q (f a s))
      → ((r : Result B) → Fails r → Ends Q (r, s))
      → Ends Q ((m >>= f) s)
  same_rule m f s same h k =
      bind_rule m f s (λ a p. subst (λ t. Ends Q (f a t)) (sym same) (h a p))
        (λ e _. subst (λ t. Ends Q (err e, t)) (sym same) (k (err e) (Fails-err e)))
        (λ _. subst (λ t. Ends Q (panic, t)) (sym same) (k panic Fails-panic))

  pub generated_rule :
      (f : String → Method E B) (s : State E)
      → ((id : String) (t : State E)
          → (E.new_system_generated s.entropy).0 ≡ id
          → OnlyRead E s t
          → Ends Q (f id t))
      → Ends Q ((new_system_generated E >>= f) s)
  unfolding ◌>>=◌ new_system_generated
  generated_rule f s h = h _ _ refl (OnlyRead-generated E s _)

  -- A pointer that may be nil, and a condition: both fail in the state in which they are reached.
  pub pointer_rule :
      {A : Type 0} (p : Option A) (f : A → Method E B) (s : State E)
      → ((a : A) → p ≡ some a → Ends Q (f a s))
      → ((r : Result B) → Fails r → Ends Q (r, s))
      → Ends Q ((deref p >>= f) s)
  pointer_rule p f s h k = deref_rule p f s h (λ _. k panic Fails-panic)

  pub condition_rule :
      (b : Bool) (e : Error) (n : Method E B) (s : State E)
      → (b ≡ true → Ends Q (n s))
      → ((r : Result B) → Fails r → Ends Q (r, s))
      → Ends Q ((require b e >> n) s)
  condition_rule b e n s h k = require_rule b e n s h (λ _. k (err e) (Fails-err e))

  pub rpc_rule :
      (c : Rpc) (f : Reply c → Method E B) (s : State E)
      → ((a : Reply c) (t : State E)
          → (E.call c s.device).0 ≡ value a
          → t.device ≡ (E.call c s.device).1
          → Untouched E s t
          → t.calls ≡ s.calls ++ c ∷ []
          → Ends Q (f a t))
      → ((r : Result B) (t : State E) → Fails r → Untouched E s t → Ends Q (r, t))
      → Ends Q ((rpc E c >>= f) s)
  unfolding ◌>>=◌ rpc
  rpc_rule c f s h k =
      bind_rule (rpc E c) f s (λ a p. h a _ (answered-value _ a p) refl same refl)
        (λ e _. k (err e) _ (Fails-err e) same) (λ _. k panic _ Fails-panic same)
    where
      same : Untouched E s (rpc E c s).1
      same = record { same_server = refl; same_store = λ j key. refl }

  -- The same for a property that tells an error from a panic: a call never panics.
  pub rpc_err_rule :
      (c : Rpc) (f : Reply c → Method E B) (s : State E)
      → ((a : Reply c) (t : State E)
          → (E.call c s.device).0 ≡ value a
          → t.device ≡ (E.call c s.device).1
          → Untouched E s t
          → t.calls ≡ s.calls ++ c ∷ []
          → Ends Q (f a t))
      → ((e : Error) (t : State E) → Untouched E s t → Ends Q (err e, t))
      → Ends Q ((rpc E c >>= f) s)
  unfolding ◌>>=◌ rpc
  rpc_err_rule c f s h k =
      bind_rule (rpc E c) f s (λ a p. h a _ (answered-value _ a p) refl same refl)
        (λ e _. k e _ same) (λ p. elim (answered-not-panic (E.call c s.device).0 p) [ ])
    where
      same : Untouched E s (rpc E c s).1
      same = record { same_server = refl; same_store = λ j key. refl }

module _ {μ} (E : Externals) (L : IsStore E) {B : Type 0} {Q : Result B × State E → Type μ} where
  pub store_get_rule :
      (k : Kind) (key : String) (f : Option (Message k) → Method E B) (s : State E)
      → ((found : Option (Message k)) (t : State E)
          → (E.get k key s.db).0 ≡ value found
          → E.holds k s.db key ≡ found
          → OnlyRead E s t
          → Ends Q (f found t))
      → ((r : Result B) (t : State E) → Fails r → OnlyRead E s t → Ends Q (r, t))
      → Ends Q ((store_get E k key >>= f) s)
  unfolding ◌>>=◌ store_get
  store_get_rule k key f s h n =
      bind_rule (store_get E k key) f s
        (λ found p.
          h found _ (answered-value _ found p)
            (sym (L.get-value k key s.db found (answered-value _ found p))) read)
        (λ e _. n (err e) _ (Fails-err e) read) (λ _. n panic _ Fails-panic read)
    where
      read : OnlyRead E s (store_get E k key s).1
      read = OnlyRead-store_get E L k key s

  -- The same for a property that tells an error from a panic: a read never panics, and its error is
  -- the one that the store answers.
  pub store_get_answer_rule :
      (k : Kind) (key : String) (f : Option (Message k) → Method E B) (s : State E)
      → ((found : Option (Message k)) (t : State E)
          → E.holds k s.db key ≡ found
          → OnlyRead E s t
          → Ends Q (f found t))
      → ((e : Error) (t : State E)
          → (E.get k key s.db).0 ≡ failure e
          → OnlyRead E s t
          → Ends Q (err e, t))
      → Ends Q ((store_get E k key >>= f) s)
  unfolding ◌>>=◌ store_get
  store_get_answer_rule k key f s h n =
      bind_rule (store_get E k key) f s
        (λ found p. h found _ (sym (L.get-value k key s.db found (answered-value _ found p))) read)
        (λ e p. n e _ (answered-failure _ e p) read)
        (λ p. elim (answered-not-panic (E.get k key s.db).0 p) [ ])
    where
      read : OnlyRead E s (store_get E k key s).1
      read = OnlyRead-store_get E L k key s

  pub store_get_err_rule :
      (k : Kind) (key : String) (f : Option (Message k) → Method E B) (s : State E)
      → ((found : Option (Message k)) (t : State E)
          → E.holds k s.db key ≡ found
          → OnlyRead E s t
          → Ends Q (f found t))
      → ((e : Error) (t : State E) → OnlyRead E s t → Ends Q (err e, t))
      → Ends Q ((store_get E k key >>= f) s)
  store_get_err_rule k key f s h n = store_get_answer_rule k key f s h (λ e t _ o. n e t o)

  -- A write, after which only the state of the store differs.
  pub store_set_rule :
      (k : Kind) (key : String) (m : Message k) (f : Unit {0} → Method E B) (s : State E)
      → ((t : State E)
          → Stored E k key m s t
          → t.server ≡ s.server
          → t.calls ≡ s.calls
          → Ends Q (f tt t))
      → ((r : Result B) (t : State E)
          → Fails r
          → Untouched E s t
          → t.calls ≡ s.calls
          → Ends Q (r, t))
      → Ends Q ((store_set E k key m >>= f) s)
  unfolding ◌>>=◌ store_set
  store_set_rule k key m f s h n =
      bind_rule (store_set E k key m) f s (λ _ p. h _ (stored (answered-value _ tt p)) refl refl)
        (λ e p. n (err e) _ (Fails-err e) (same e (answered-failure _ e p)) refl)
        (λ p. elim (answered-not-panic (E.set k key m s.db).0 p) [ ])
    where
      stored : (E.set k key m s.db).0 ≡ value tt → Stored E k key m s (store_set E k key m s).1
      stored p = record {
        held = ground (arith, L.holds-set k key key m s.db p, str_eq_refl key);
        others = λ j other ne. L.holds-set_ne k j key other m s.db ne;
      }

      same :
          (e : Error) → (E.set k key m s.db).0 ≡ failure e → Untouched E s (store_set E k key m s).1
      same e p = record {
        same_server = refl;
        same_store = λ j other. L.holds-set_failure k j key other m s.db e p;
      }

module _ {μ} (E : Externals) (L : IsStore E) {Q : Result (Unit {0}) × State E → Type μ} where
  -- A removal, with which a method ends.
  pub store_delete_last :
      (key : String) (s : State E)
      → ((t : State E)
          → Removed E key s t
          → t.server ≡ s.server
          → t.calls ≡ s.calls
          → Ends Q (ok tt, t))
      → ((r : Result (Unit {0})) (t : State E)
          → Fails r
          → Untouched E s t
          → t.calls ≡ s.calls
          → Ends Q (r, t))
      → Ends Q (store_delete E key s)
  unfolding store_delete
  store_delete_last key s h n = elim (Answer-cases (E.delete key s.db).0) [
    | inl (tt, p) ↦ subst (λ a. Ends Q (answered a, t)) (sym p) (h t (removed p) refl refl)
    | inr (e, p) ↦
        subst (λ a. Ends Q (answered a, t)) (sym p) (n (err e) t (Fails-err e) (same e p) refl)
  ]
    where
      t : State E
      t = (store_delete E key s).1

      removed : (E.delete key s.db).0 ≡ value tt → Removed E key s t
      removed p = record {
        gone = λ j. ground (arith, L.holds-delete j key key s.db p, str_eq_refl key);
        others = λ j other ne. ground (arith, L.holds-delete j key other s.db p, ne);
      }

      same : (e : Error) → (E.delete key s.db).0 ≡ failure e → Untouched E s t
      same e p = record {
        same_server = refl;
        same_store = λ j other. L.holds-delete_failure j key other s.db e p;
      }

module _ {μ} (E : Externals) {Q : Result (Unit {0}) × State E → Type μ} where
  -- A condition with which a method ends.
  pub condition_last :
      (b : Bool) (e : Error) (s : State E)
      → (b ≡ true → Ends Q (ok tt, s))
      → ((r : Result (Unit {0})) → Fails r → Ends Q (r, s))
      → Ends Q (require b e s)
  unfolding require
  condition_last true e s h k = h refl
  condition_last false e s h k = k (err e) (Fails-err e)
