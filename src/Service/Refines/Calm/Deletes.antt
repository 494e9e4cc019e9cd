-- ===== src/Service/Refines/Calm/Deletes.antt =====
-- That the delete handlers of pkg/frontend for what is in the store find no nil pointer.
use opi_nvidia_bridge.Api.Requests.{DeleteRequest}
use opi_nvidia_bridge.Base.{String, ◌≡◌, refl, Option, none, some}
use opi_nvidia_bridge.Api.Messages.{
  NvmeSubsystem, NvmeController, NvmeNamespace, nvme_subsystem, nvme_controller, nvme_namespace,
}
use opi_nvidia_bridge.Exec.Rules.{Ends, require_rule, known_rule}
use opi_nvidia_bridge.Externals.{Externals}
use opi_nvidia_bridge.Externals.Laws.{
  PlainId, IsStore, IdsPlain, subsystem_name, controller_name, namespace_name,
}
use opi_nvidia_bridge.Server.{State}
use opi_nvidia_bridge.Server.Rules.{get_server_rule, set_server_rule}
use opi_nvidia_bridge.Server.Outcomes.{Untouched, Untouched-refl}
use opi_nvidia_bridge.Server.Steps.{rpc_err_rule}
use opi_nvidia_bridge.Service.Formed.{IsFormed}
use opi_nvidia_bridge.Service.Refines.Kept.{KeepsFormed}
use opi_nvidia_bridge.Service.Refines.Calm.{
  Calm, err-Calm, require-Calm, store_delete-Calm, checks-Calm, removal-Calm, validator_rule,
  present_rule, kept_rule, parent_rule,
}
use opi_nvidia_bridge.Subsystem.Delete.Outcome as SubsystemOutcome
use opi_nvidia_bridge.Subsystem.Delete as SubsystemDeletion
use opi_nvidia_bridge.Subsystem.Delete.{delete_nvme_subsystem}
use opi_nvidia_bridge.Subsystem.Validate as SubsystemChecks
use opi_nvidia_bridge.Subsystem.Validate.Same as SubsystemSame
use opi_nvidia_bridge.Controller.Delete.Outcome as ControllerOutcome
use opi_nvidia_bridge.Controller.Delete as ControllerDeletion
use opi_nvidia_bridge.Controller.Delete.{delete_nvme_controller}
use opi_nvidia_bridge.Controller.Validate as ControllerChecks
use opi_nvidia_bridge.Controller.Validate.Same as ControllerSame
use opi_nvidia_bridge.Namespace.Delete.Outcome as NamespaceOutcome
use opi_nvidia_bridge.Namespace.Delete as NamespaceDeletion
use opi_nvidia_bridge.Namespace.Delete.{delete_nvme_namespace}
use opi_nvidia_bridge.Namespace.Validate as NamespaceChecks
use opi_nvidia_bridge.Namespace.Validate.Same as NamespaceSame

module _ (E : Externals) (L : IsStore E) (P : IdsPlain E) (s : State E)
    (kept : KeepsFormed E s) where
  pub delete_nvme_subsystem-Calm :
      (req : DeleteRequest) (i : PlainId)
      → req.name ≡ subsystem_name E i
      → Ends (Calm E) (delete_nvme_subsystem E req s)
  unfolding delete_nvme_subsystem SubsystemChecks.validate_delete SubsystemDeletion.delete_found
  delete_nvme_subsystem-Calm req i hn =
      validator_rule E _ _ s (SubsystemSame.validate_delete-same E s req) (checks-Calm E _ _ s)
        (λ _.
          kept_rule E L s kept nvme_subsystem req.name _ s refl (i, hn) (Untouched-refl E s)
            (λ found t formed _. found_Calm found t formed))
    where
      found_Calm :
          (found : Option NvmeSubsystem) (t : State E)
          → ((m : NvmeSubsystem) → found ≡ some m → IsFormed nvme_subsystem m)
          → Ends (Calm E) (SubsystemDeletion.or_missing E req found t)
      found_Calm none t formed = require-Calm E _ _ t
      found_Calm (some m) t formed =
          let (spec, hs, _) = formed m refl in
          known_rule _ _ _ spec hs (
            rpc_err_rule E (SubsystemOutcome.delete_call spec) _ _
              (λ deleted t' _ _ _ _.
                require_rule _ _ _ _
                  (λ _. get_server_rule E _ _ (set_server_rule E _ _ _ (store_delete-Calm E _ _)))
                  (λ _. err-Calm E _ _))
              (λ e t' _. err-Calm E e t'))

  pub delete_nvme_controller-Calm :
      (req : DeleteRequest) (i : PlainId) (j : String)
      → req.name ≡ controller_name E i j
      → Ends (Calm E) (delete_nvme_controller E req s)
  unfolding delete_nvme_controller ControllerChecks.validate_delete ControllerDeletion.delete_found
      ControllerDeletion.detach
  delete_nvme_controller-Calm req i j hn =
      validator_rule E _ _ s (ControllerSame.validate_delete-same E s req) (checks-Calm E _ _ s)
        (λ _.
          kept_rule E L s kept nvme_controller req.name _ s refl (i, j, hn) (Untouched-refl E s)
            (λ found t formed u. found_Calm found t formed u))
    where
      found_Calm :
          (found : Option NvmeController) (t : State E)
          → ((m : NvmeController) → found ≡ some m → IsFormed nvme_controller m)
          → Untouched E s t
          → Ends (Calm E) (ControllerDeletion.or_missing E req found t)
      found_Calm none t formed u = require-Calm E _ _ t
      found_Calm (some m) t formed u =
          let (spec, id, hs, hid, _) = formed m refl in
          parent_rule E L s kept P req.name _ t u (λ found t' parent_formed _.
            present_rule E _ _ _ t' (λ subsystem hf.
              let (subsystem_spec, hss, _) = parent_formed subsystem hf in
              known_rule _ _ _ subsystem_spec hss (
                known_rule _ _ _ spec hs (
                  known_rule _ _ _ id hid (
                    rpc_err_rule E (ControllerOutcome.delete_call subsystem_spec id) _ _
                      (λ deleted t'' _ _ _ _. removal-Calm E _ _ _ t'')
                      (λ e t'' _. err-Calm E e t''))))))

  pub delete_nvme_namespace-Calm :
      (req : DeleteRequest) (i : PlainId) (j : String)
      → req.name ≡ namespace_name E i j
      → Ends (Calm E) (delete_nvme_namespace E req s)
  unfolding delete_nvme_namespace NamespaceChecks.validate_delete NamespaceDeletion.delete_found
      NamespaceDeletion.detach
  delete_nvme_namespace-Calm req i j hn =
      validator_rule E _ _ s (NamespaceSame.validate_delete-same E s req) (checks-Calm E _ _ s)
        (λ _.
          kept_rule E L s kept nvme_namespace req.name _ s refl (i, j, hn) (Untouched-refl E s)
            (λ found t formed u. found_Calm found t formed u))
    where
      found_Calm :
          (found : Option NvmeNamespace) (t : State E)
          → ((m : NvmeNamespace) → found ≡ some m → IsFormed nvme_namespace m)
          → Untouched E s t
          → Ends (Calm E) (NamespaceDeletion.or_missing E req found t)
      found_Calm none t formed u = require-Calm E _ _ t
      found_Calm (some m) t formed u =
          let (spec, hs) = formed m refl in
          parent_rule E L s kept P req.name _ t u (λ found t' parent_formed _.
            present_rule E _ _ _ t' (λ subsystem hf.
              let (subsystem_spec, hss, _) = parent_formed subsystem hf in
              known_rule _ _ _ spec hs (
                known_rule _ _ _ subsystem_spec hss (
                  rpc_err_rule E (NamespaceOutcome.detach_call spec subsystem_spec) _ _
                    (λ deleted t'' _ _ _ _. removal-Calm E _ _ _ t'')
                    (λ e t'' _. err-Calm E e t'')))))
