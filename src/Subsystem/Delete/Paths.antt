-- ===== src/Subsystem/Delete/Paths.antt =====
-- The paths of `DeleteNvmeSubsystem` of pkg/frontend/nvme_subsystem.go, one after the other.
use opi_nvidia_bridge.Base.{
  ◌≡◌, refl, ap, ◌∙◌, true, Option, none, some, [], ◌∷◌, ◌++◌, ◌⊎◌, inl, inr,
}
use opi_nvidia_bridge.Api.Messages.{NvmeSubsystem, NvmeSubsystemSpec, nvme_subsystem}
use opi_nvidia_bridge.Api.Requests.{DeleteRequest}
use opi_nvidia_bridge.Exec.{Result, ok}
use opi_nvidia_bridge.Exec.Rules.{Ends, done}
use opi_nvidia_bridge.Externals.{Externals, value}
use opi_nvidia_bridge.Externals.Laws.{IsStore}
use opi_nvidia_bridge.Server.{State}
use opi_nvidia_bridge.Server.Rules.{get_server_rule, set_server_rule}
use opi_nvidia_bridge.Server.Outcomes.{
  Fails, Untouched, Untouched-refl, Untouched-trans, OnlyRead, Removed,
}
use opi_nvidia_bridge.Server.Steps.{
  same_rule, pointer_rule, condition_rule, condition_last, rpc_rule, store_get_rule,
  store_delete_last,
}
use opi_nvidia_bridge.Subsystem.Delete.{delete_found, or_missing, delete_nvme_subsystem}
use opi_nvidia_bridge.Subsystem.Delete.Outcome.{
  delete_call, unregistering, SameStore, Deleted, DeletesFound, Deleted-from, Deletes, fails,
  missing, deletes,
}
use opi_nvidia_bridge.Subsystem.Validate.Same.{validate_delete-same}

module _ (E : Externals) (L : IsStore E) where
  -- The end: the map is written, then the store.
  deleted :
      (subsystem : NvmeSubsystem) (spec : NvmeSubsystemSpec) (s t u : State E)
      (r : Result (Unit {0}))
      → subsystem.spec ≡ some spec
      → (E.call (delete_call spec) s.device).0 ≡ value true
      → Untouched E s t
      → t.calls ≡ s.calls ++ delete_call spec ∷ []
      → u.server ≡ unregistering spec.nqn t.server
      → u.calls ≡ t.calls
      → ((r ≡ ok tt) × Removed E subsystem.name t u) ⊎ (Fails r × SameStore E t u)
      → Deleted E s subsystem r u
  deleted subsystem spec s t u r hs he un hc sv cl st = record {
    spec = spec;
    spec_eq = hs;
    answered = he;
    calls = cl ∙ hc;
    server = sv ∙ ap (unregistering spec.nqn) un.same_server;
    stored = elim st [
      | inl (p, rm) ↦ inl (
        p,
        record {
          gone = rm.gone;
          others = λ j other ne. rm.others j other ne ∙ un.same_store j other;
        },
      )
      | inr (f, same) ↦ inr (f, λ j key. same j key ∙ un.same_store j key)
    ];
  }

  delete_found-DeletesFound :
      (subsystem : NvmeSubsystem) (s : State E)
      → Ends (DeletesFound E s subsystem) (delete_found E subsystem s)
  unfolding delete_found
  delete_found-DeletesFound subsystem s =
      pointer_rule E _ _ _
        (λ spec hs.
          rpc_rule E (delete_call spec) _ _
            (λ answer t he _ u hc.
              condition_rule E _ _ _ _
                (λ ha. get_server_rule E _ _ (
                  set_server_rule E _ _ _ (
                    store_delete_last E L _ _
                      (λ t' rm sv cl. done (
                        inr (
                          deleted subsystem spec s t t' _ hs (he ∙ ap value ha) u hc sv cl
                            (inl (refl, record { gone = rm.gone; others = rm.others })))))
                      (λ r t' f u' cl. done (
                        inr (
                          deleted subsystem spec s t t' r hs (he ∙ ap value ha) u hc u'.same_server
                            cl (inr (f, u'.same_store))))))))
                (λ r f. done (inl (f, u))))
            (λ r t f u. done (inl (f, u))))
        (λ r f. done (inl (f, Untouched-refl E s)))

  or_missing-Deletes :
      (req : DeleteRequest) (s t : State E) (found : Option NvmeSubsystem)
      → OnlyRead E s t
      → E.holds nvme_subsystem s.db req.name ≡ found
      → Ends (λ (r, t). Deletes E s req r t) (or_missing E req found t)
  or_missing-Deletes req s t none o hf =
      condition_last E _ _ _ (λ allowed. done (missing hf allowed refl o))
        (λ r f. done (fails f o.untouched))
  or_missing-Deletes req s t (some subsystem) o hf =
      done (from (delete_found-DeletesFound subsystem t).holds)
    where
      from :
          {r : Result (Unit {0})} {u : State E}
          → DeletesFound E t subsystem (r, u)
          → Deletes E s req r u
      from (inl (f, u)) = fails f (Untouched-trans E o.untouched u)
      from (inr a) = deletes subsystem hf (Deleted-from E _ _ _ _ _ o a)

  -- If the store behaves as a store, DeleteNvmeSubsystem ends in one of three ways: it fails, with
  -- the maps and the store as they were; it succeeds without calling the device, where nothing is
  -- stored under the name and the request allows that; or the device was called once and has
  -- deleted the NQN of the stored subsystem, that NQN is no longer registered, and either the
  -- subsystem is gone from the store, with the rest as it was, or the method fails and the store is
  -- as it was, the subsystem included.
  pub delete_nvme_subsystem-Deletes :
      (req : DeleteRequest) (s : State E)
      → let (r, t) = delete_nvme_subsystem E req s in Deletes E s req r t
  unfolding delete_nvme_subsystem
  delete_nvme_subsystem-Deletes req s = ends.holds
    where
      ends : Ends (λ (r, t). Deletes E s req r t) (delete_nvme_subsystem E req s)
      ends =
          same_rule E _ _ _ (validate_delete-same E s req)
            (λ _ _.
              store_get_rule E L nvme_subsystem _ _ _
                (λ found t _ hf o. or_missing-Deletes req s t found o hf)
                (λ r t f o. done (fails f o.untouched)))
            (λ r f. done (fails f (Untouched-refl E s)))
