-- ===== src/Namespace/Delete/Paths.antt =====
-- The paths of `DeleteNvmeNamespace` of pkg/frontend/nvme_namespace.go, one after the other.
use opi_nvidia_bridge.Base.{String, ◌≡◌, refl, ◌∙◌, ap, Option, none, some, inl, inr}
use opi_nvidia_bridge.Api.Messages.{NvmeNamespace, NvmeSubsystem, nvme_namespace, nvme_subsystem}
use opi_nvidia_bridge.Api.Requests.{DeleteRequest}
use opi_nvidia_bridge.Exec.{Result}
use opi_nvidia_bridge.Exec.Rules.{Ends, done}
use opi_nvidia_bridge.Externals.{Externals, value}
use opi_nvidia_bridge.Externals.Laws.{IsStore}
use opi_nvidia_bridge.Server.{State}
use opi_nvidia_bridge.Server.Outcomes.{
  Untouched-refl, Untouched-trans, OnlyRead, OnlyRead-trans, Removed-from,
}
use opi_nvidia_bridge.Server.Steps.{
  same_rule, pointer_rule, condition_rule, rpc_rule, store_get_rule, store_delete_last,
  condition_last,
}
use opi_nvidia_bridge.Namespace.Delete.{detach, delete_found, or_missing, delete_nvme_namespace}
use opi_nvidia_bridge.Namespace.Validate.Same.{validate_delete-same}
use opi_nvidia_bridge.Namespace.Delete.Outcome.{
  detach_call, Detaches, Detached-from, Deletes, fails, missing, detaches,
}

module _ (E : Externals) (L : IsStore E) where
  detach-Detaches :
      (name : String) (namespace : NvmeNamespace) (subsystem : NvmeSubsystem) (s : State E)
      → Ends (Detaches E s namespace subsystem) (detach E name namespace subsystem s)
  unfolding detach
  detach-Detaches name namespace subsystem s =
      pointer_rule E _ _ _
        (λ spec hn.
          pointer_rule E _ _ _
            (λ ss hs.
              rpc_rule E (detach_call spec ss) _ _
                (λ answer t he _ u hcalls.
                  condition_rule E _ _ _ _
                    (λ ha.
                      store_delete_last E L _ _
                        (λ t' rm sv cl. done (
                          inr (record {
                            spec = spec;
                            spec_eq = hn;
                            subsystem_spec = ss;
                            subsystem_spec_eq = hs;
                            answered = he ∙ ap value ha;
                            calls = cl ∙ hcalls;
                            server = sv ∙ u.same_server;
                            stored = inl (refl, Removed-from E u rm);
                          })))
                        (λ r t' f u' cl. done (
                          inr (record {
                            spec = spec;
                            spec_eq = hn;
                            subsystem_spec = ss;
                            subsystem_spec_eq = hs;
                            answered = he ∙ ap value ha;
                            calls = cl ∙ hcalls;
                            server = u'.same_server ∙ u.same_server;
                            stored = inr (f, Untouched-trans E u u');
                          }))))
                    (λ r f. done (inl (f, u))))
                (λ r t f u. done (inl (f, u))))
            (λ r f. done (inl (f, Untouched-refl E s))))
        (λ r f. done (inl (f, Untouched-refl E s)))

module _ (E : Externals) (L : IsStore E) where
  delete_found-Deletes :
      (req : DeleteRequest) (s t : State E) (namespace : NvmeNamespace)
      → OnlyRead E s t
      → E.holds nvme_namespace s.db req.name ≡ some namespace
      → Ends (λ (r, t). Deletes E req s r t) (delete_found E req.name namespace t)
  unfolding delete_found
  delete_found-Deletes req s t namespace o hc =
      store_get_rule E L nvme_subsystem parent _ _
        (λ found t' _ hf o'.
          condition_rule E _ _ _ _
            (λ _.
              pointer_rule E _ _ _
                (λ subsystem hs. done (
                  from subsystem t' (OnlyRead-trans E o o')
                    (cc (o.untouched.same_store nvme_subsystem parent))
                    (detach-Detaches E L req.name namespace subsystem t').holds))
                (λ r f. done (fails f (OnlyRead-trans E o o').untouched)))
            (λ r f. done (fails f (OnlyRead-trans E o o').untouched)))
        (λ r t' f o'. done (fails f (OnlyRead-trans E o o').untouched))
    where
      parent : String
      parent = E.resource_id_to_subsystem_name (E.get_subsystem_id_from_nvme_name req.name)

      from :
          (subsystem : NvmeSubsystem) (t' : State E) {r : Result (Unit {0})} {u : State E}
          → OnlyRead E s t'
          → E.holds nvme_subsystem s.db parent ≡ some subsystem
          → Detaches E t' namespace subsystem (r, u)
          → Deletes E req s r u
      from subsystem t' o' hs (inl (f, u)) = fails f (Untouched-trans E o'.untouched u)
      from subsystem t' o' hs (inr a) =
          detaches namespace subsystem hc hs (Detached-from E _ _ _ _ _ _ o' a)

  or_missing-Deletes :
      (req : DeleteRequest) (s t : State E) (found : Option NvmeNamespace)
      → OnlyRead E s t
      → E.holds nvme_namespace s.db req.name ≡ found
      → Ends (λ (r, t). Deletes E req s r t) (or_missing E req found t)
  or_missing-Deletes req s t none o hc =
      condition_last E _ _ _ (λ allowed. done (missing hc allowed refl o))
        (λ r f. done (fails f o.untouched))
  or_missing-Deletes req s t (some namespace) o hc = delete_found-Deletes req s t namespace o hc

  -- If the store behaves as a store, DeleteNvmeNamespace ends in one of three ways: it fails, with
  -- the maps and the store as they were; it succeeds without calling the device, where nothing is
  -- stored under the name and the request allows that; or the device was called once and has
  -- detached the stored identifier from the subsystem that the name tells, and either the namespace
  -- is gone from the store, with the rest as it was, or the method fails and the store is as it
  -- was.
  pub delete_nvme_namespace-Deletes :
      (req : DeleteRequest) (s : State E)
      → let (r, t) = delete_nvme_namespace E req s in Deletes E req s r t
  unfolding delete_nvme_namespace
  delete_nvme_namespace-Deletes req s = ends.holds
    where
      ends : Ends (λ (r, t). Deletes E req s r t) (delete_nvme_namespace E req s)
      ends =
          same_rule E _ _ _ (validate_delete-same E s req)
            (λ _ _.
              store_get_rule E L nvme_namespace _ _ _
                (λ found t _ hf o. or_missing-Deletes req s t found o hf)
                (λ r t f o. done (fails f o.untouched)))
            (λ r f. done (fails f (Untouched-refl E s)))
