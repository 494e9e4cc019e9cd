-- ===== src/Service/Refines/Calm/Gets.antt =====
-- That the get handlers of pkg/frontend for what is in the store find no nil pointer.
use opi_nvidia_bridge.Api.Requests.{GetRequest}
use opi_nvidia_bridge.Base.{ℤ, String, ◌≡◌, refl, Option, none, some}
use opi_nvidia_bridge.Api.Messages.{
  NvmeSubsystem, NvmeController, NvmeNamespace, nvme_subsystem, nvme_controller, nvme_namespace,
}
use opi_nvidia_bridge.Models.{subsystem_nvme_list, controller_list}
use opi_nvidia_bridge.Namespace.Queries.Finding.{list_call}
use opi_nvidia_bridge.Exec.Rules.{Ends, done, known_rule}
use opi_nvidia_bridge.Externals.{Externals}
use opi_nvidia_bridge.Externals.Laws.{
  PlainId, IsStore, IdsPlain, subsystem_name, controller_name, namespace_name,
}
use opi_nvidia_bridge.Server.{State}
use opi_nvidia_bridge.Server.Outcomes.{Untouched-refl}
use opi_nvidia_bridge.Server.Steps.{rpc_err_rule}
use opi_nvidia_bridge.Service.Refines.Kept.{KeepsFormed}
use opi_nvidia_bridge.Service.Refines.Calm.{
  Calm, err-Calm, checks-Calm, validator_rule, present_rule, kept_rule, parent_rule,
}
use opi_nvidia_bridge.Subsystem.Queries as SubsystemQueries
use opi_nvidia_bridge.Subsystem.Queries.{get_nvme_subsystem}
use opi_nvidia_bridge.Subsystem.Validate as SubsystemChecks
use opi_nvidia_bridge.Subsystem.Validate.Same as SubsystemSame
use opi_nvidia_bridge.Controller.Queries as ControllerQueries
use opi_nvidia_bridge.Controller.Queries.{get_nvme_controller}
use opi_nvidia_bridge.Controller.Validate as ControllerChecks
use opi_nvidia_bridge.Controller.Validate.Same as ControllerSame
use opi_nvidia_bridge.Namespace.Queries as NamespaceQueries
use opi_nvidia_bridge.Namespace.Queries.{get_nvme_namespace}
use opi_nvidia_bridge.Namespace.Validate as NamespaceChecks
use opi_nvidia_bridge.Namespace.Validate.Same as NamespaceSame

module _ (E : Externals) where
  subsystem_end :
      (nqn : String) (found : Option NvmeSubsystem) (t : State E)
      → Ends (Calm E) (SubsystemQueries.or_not_listed E nqn found t)
  subsystem_end nqn none t = err-Calm E _ t
  subsystem_end nqn (some m) t = done (λ p. cc p)

  controller_end :
      (id : ℤ) (found : Option NvmeController) (t : State E)
      → Ends (Calm E) (ControllerQueries.or_not_listed E id found t)
  controller_end id none t = err-Calm E _ t
  controller_end id (some m) t = done (λ p. cc p)

  namespace_end :
      (nsid : ℤ) (found : Option NvmeNamespace) (t : State E)
      → Ends (Calm E) (NamespaceQueries.or_not_listed E nsid found t)
  namespace_end nsid none t = err-Calm E _ t
  namespace_end nsid (some m) t = done (λ p. cc p)

module _ (E : Externals) (L : IsStore E) (P : IdsPlain E) (s : State E) (kept : KeepsFormed E s)
    (req : GetRequest) where
  pub get_nvme_subsystem-Calm :
      (i : PlainId) → req.name ≡ subsystem_name E i → Ends (Calm E) (get_nvme_subsystem E req s)
  unfolding get_nvme_subsystem SubsystemChecks.validate_get
  get_nvme_subsystem-Calm i hn =
      validator_rule E _ _ s (SubsystemSame.validate_get-same E s req) (checks-Calm E _ _ s) (λ _.
        kept_rule E L s kept nvme_subsystem req.name _ s refl (i, hn) (Untouched-refl E s)
          (λ found t formed _. present_rule E _ _ _ t (λ m hm.
            let (spec, hs, _) = formed m hm in
            rpc_err_rule E subsystem_nvme_list _ _
              (λ result t' _ _ _ _. known_rule _ _ _ spec hs (subsystem_end E spec.nqn _ t'))
              (λ e t' _. err-Calm E e t'))))

  pub get_nvme_controller-Calm :
      (i : PlainId) (j : String)
      → req.name ≡ controller_name E i j
      → Ends (Calm E) (get_nvme_controller E req s)
  unfolding get_nvme_controller ControllerChecks.validate_get
  get_nvme_controller-Calm i j hn =
      validator_rule E _ _ s (ControllerSame.validate_get-same E s req) (checks-Calm E _ _ s) (λ _.
        kept_rule E L s kept nvme_controller req.name _ s refl (i, j, hn) (Untouched-refl E s)
          (λ found t formed _. present_rule E _ _ _ t (λ m hm.
            let (spec, id, hs, hid, _) = formed m hm in
            rpc_err_rule E controller_list _ _
              (λ result t' _ _ _ _.
                known_rule _ _ _ spec hs (known_rule _ _ _ id hid (controller_end E id _ t')))
              (λ e t' _. err-Calm E e t'))))

  pub get_nvme_namespace-Calm :
      (i : PlainId) (j : String)
      → req.name ≡ namespace_name E i j
      → Ends (Calm E) (get_nvme_namespace E req s)
  unfolding get_nvme_namespace NamespaceChecks.validate_get
  get_nvme_namespace-Calm i j hn =
      validator_rule E _ _ s (NamespaceSame.validate_get-same E s req) (checks-Calm E _ _ s) (λ _.
        kept_rule E L s kept nvme_namespace req.name _ s refl (i, j, hn) (Untouched-refl E s)
          (λ found t formed u. present_rule E _ _ _ t (λ m hm.
            let (spec, hs) = formed m hm in
            parent_rule E L s kept P req.name _ t u (λ found' t' parent_formed _.
              present_rule E _ _ _ t' (λ subsystem hf.
                let (subsystem_spec, hss, _) = parent_formed subsystem hf in
                known_rule _ _ _ subsystem_spec hss (
                  rpc_err_rule E (list_call subsystem_spec) _ _
                    (λ result t'' _ _ _ _.
                      known_rule _ _ _ spec hs (namespace_end E spec.host_nsid _ t''))
                    (λ e t'' _. err-Calm E e t'')))))))
