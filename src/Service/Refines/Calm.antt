-- ===== src/Service/Refines/Calm.antt =====
-- Where what the service of pkg/frontend keeps is well formed, its handlers find no nil pointer in it:
-- the rules for that.
pub mod Deletes
pub mod Creates
pub mod Children
pub mod Blks
pub mod Gets
use opi_nvidia_bridge.Base.{
  String, ◌≡◌, refl, sym, subst, ◌∙◌, Bool, true, false, Option, none, some, is_some,
}
use opi_nvidia_bridge.Api.Messages.{
  Kind, Message, NvmeSubsystem, NvmeController, NvmeNamespace, nvme_subsystem, nvme_controller,
  nvme_namespace,
}
use opi_nvidia_bridge.Api.Requests.{DeleteRequest, GetRequest}
use opi_nvidia_bridge.Models.{Rpc, Reply, subsystem_nvme_list, controller_list}
use opi_nvidia_bridge.Error.{Error}
use opi_nvidia_bridge.Exec.{Result, ok, err, panic, check, deref, require, ◌>>=◌, ◌>>◌}
use opi_nvidia_bridge.Exec.Rules.{
  Ends, done, bind_rule, check_rule, deref_rule, require_rule, known_rule, check_end,
}
use opi_nvidia_bridge.Externals.{Externals}
use opi_nvidia_bridge.Externals.Laws.{
  PlainId, IsStore, IdsPlain, subsystem_name, controller_name, namespace_name,
}
use opi_nvidia_bridge.Server.{State, Method, store_delete, rpc, store_get}
use opi_nvidia_bridge.Server.Rules.{answered-not-panic, get_server_rule, set_server_rule}
use opi_nvidia_bridge.Server.Outcomes.{Untouched, Untouched-refl, Untouched-trans}
use opi_nvidia_bridge.Server.Steps.{rpc_err_rule, store_get_err_rule}
use opi_nvidia_bridge.Subsystem.Delete as Subsystems
use opi_nvidia_bridge.Subsystem.Delete.{delete_nvme_subsystem}
use opi_nvidia_bridge.Subsystem.Validate.{validate_delete, validate_get}
use opi_nvidia_bridge.Subsystem.Validate.Same.{validate_delete-same, validate_get-same}
use opi_nvidia_bridge.Service.Formed.{IsFormed}
use opi_nvidia_bridge.Service.Refines.{IsName, held}
use opi_nvidia_bridge.Service.Refines.Kept.{KeepsFormed}

module _ (E : Externals) where
  abbrev pub Calm {ℓ} : {A : Type ℓ} → Result A × State E → Type ℓ
  Calm (r, t) = ¬ (r ≡ panic)

  pub err-Calm : {A : Type 0} (e : Error) (t : State E) → Ends (Calm {A = A}) (err e, t)
  err-Calm e t = done (λ p. cc p)

  pub require-Calm : (b : Bool) (e : Error) (t : State E) → Ends Calm (require b e t)
  unfolding require
  require-Calm true e t = done (λ p. cc p)
  require-Calm false e t = done (λ p. cc p)

  pub store_delete-Calm : (key : String) (t : State E) → Ends Calm (store_delete E key t)
  unfolding store_delete
  store_delete-Calm key t = done (answered-not-panic (E.delete key t.db).0)

  -- The two checks of a validator.
  pub checks-Calm : (a b : Option Error) (t : State E) → Ends Calm ((check a >> check b) t)
  checks-Calm a b t =
      check_rule _ _ _ (λ _. check_end _ _ (λ _. done (λ p. cc p)) (λ e _. err-Calm e t))
        (λ e _. err-Calm e t)

  -- A call that ends with a condition and a deletion from the store.
  pub removal-Calm :
      (b : Bool) (e : Error) (key : String) (t : State E)
      → Ends Calm ((require b e >> store_delete E key) t)
  removal-Calm b e key t = require_rule _ _ _ _ (λ _. store_delete-Calm key t) (λ _. err-Calm e t)

  -- A validator, which changes nothing and does not panic.
  pub validator_rule :
      {A B : Type 0} (m : Method E A) (f : A → Method E B) (s : State E)
      → (m s).1 ≡ s
      → Ends Calm (m s)
      → ((a : A) → Ends Calm (f a s))
      → Ends Calm ((m >>= f) s)
  validator_rule m f s same calm h =
      bind_rule m f s (λ a _. subst (λ t. Ends Calm (f a t)) (sym same) (h a)) (λ e _. err-Calm e _)
        (λ p. absurd (calm.holds p))

  -- A pointer that was just found not to be nil.
  pub present_rule :
      {A B : Type 0} (p : Option A) (e : Error) (f : A → Method E B) (t : State E)
      → ((a : A) → p ≡ some a → Ends Calm (f a t))
      → Ends Calm ((require (is_some p) e >> (deref p >>= f)) t)
  present_rule p e f t h =
      require_rule _ _ _ _ (λ is. deref_rule p f t h (λ nil. absurd (cc (nil, is))))
        (λ _. err-Calm _ _)

module _ (E : Externals) (L : IsStore E) (s : State E) (kept : KeepsFormed E s) where
  -- What is read under a name of its kind is well formed.
  pub kept_rule :
      {B : Type 0} (k : Kind) (key : String) (f : Option (Message k) → Method E B) (t : State E)
      → held E s k key ≡ E.holds k s.db key
      → IsName E k key
      → Untouched E s t
      → ((found : Option (Message k)) (t' : State E)
          → ((m : Message k) → found ≡ some m → IsFormed k m)
          → Untouched E s t'
          → Ends (Calm E) (f found t'))
      → Ends (Calm E) ((store_get E k key >>= f) t)
  kept_rule k key f t at i u h =
      store_get_err_rule E L k key f t
        (λ found t' hf o.
          h found t' (λ m e. (kept k key m i (at ∙ sym (u.same_store k key) ∙ hf ∙ e)).1)
            (Untouched-trans E u o.untouched))
        (λ e t' _. err-Calm E e t')

  -- The subsystem that a name tells, read in a state that holds the same.
  pub parent_rule :
      IdsPlain E
      → {B : Type 0} (name : String) (f : Option NvmeSubsystem → Method E B) (t : State E)
      → Untouched E s t
      → ((found : Option NvmeSubsystem) (t' : State E)
          → ((m : NvmeSubsystem) → found ≡ some m → IsFormed nvme_subsystem m)
          → Untouched E s t'
          → Ends (Calm E) (f found t'))
      → Ends (Calm E) (
          (store_get E nvme_subsystem
                (E.resource_id_to_subsystem_name (E.get_subsystem_id_from_nvme_name name))
              >>= f)
            t)
  parent_rule P name f t u h =
      kept_rule nvme_subsystem _ f t refl
        ((E.get_subsystem_id_from_nvme_name name, P.subsystem_id name), refl) u h
