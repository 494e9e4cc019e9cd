-- ===== src/Service/Refines/Calm/Children.antt =====
-- That `CreateNvmeController` and `CreateNvmeNamespace` of pkg/frontend find no nil pointer in what is
-- kept, where the request has its own pointers set.
use opi_nvidia_bridge.Base.{◌≡◌, refl, ap, ◌∙◌, Option, none, some}
use opi_nvidia_bridge.Api.Messages.{
  NvmeSubsystem, NvmeSubsystemSpec, NvmeController, NvmeControllerSpec, NvmeNamespace,
  NvmeNamespaceSpec, nvme_subsystem, nvme_controller, nvme_namespace,
}
use opi_nvidia_bridge.Api.Requests.{CreateChildRequest}
use opi_nvidia_bridge.Exec.Rules.{Ends, done, check_rule, known_rule, require_rule}
use opi_nvidia_bridge.Externals.{Externals}
use opi_nvidia_bridge.Externals.Laws.{PlainId, IsStore, ClonesFaithfully, subsystem_name}
use opi_nvidia_bridge.Server.{State}
use opi_nvidia_bridge.Server.Outcomes.{Untouched, Untouched-trans}
use opi_nvidia_bridge.Server.Steps.{generated_rule, rpc_err_rule, store_get_err_rule}
use opi_nvidia_bridge.Controller.Create as ControllerCreation
use opi_nvidia_bridge.Controller.Create.{create_nvme_controller}
use opi_nvidia_bridge.Controller.Create.Outcome as ControllerOutcome
use opi_nvidia_bridge.Controller.Validate as ControllerChecks
use opi_nvidia_bridge.Controller.Validate.Same as ControllerSame
use opi_nvidia_bridge.Namespace.Create as NamespaceCreation
use opi_nvidia_bridge.Namespace.Create.{create_nvme_namespace}
use opi_nvidia_bridge.Namespace.Create.Outcome as NamespaceOutcome
use opi_nvidia_bridge.Namespace.Validate as NamespaceChecks
use opi_nvidia_bridge.Namespace.Validate.Same as NamespaceSame
use opi_nvidia_bridge.Service.Refines.Kept.{KeepsFormed}
use opi_nvidia_bridge.Service.Refines.Calm.{
  Calm, err-Calm, checks-Calm, validator_rule, present_rule, kept_rule,
}
use opi_nvidia_bridge.Service.Refines.Calm.Creates.{kept_end}

module _ (E : Externals) where
  controller_checks :
      (req : CreateChildRequest nvme_controller) (m : NvmeController) (spec : NvmeControllerSpec)
      (t : State E)
      → req.resource ≡ some m
      → m.spec ≡ some spec
      → Ends (Calm E) (ControllerChecks.validate_create E req t)
  unfolding ControllerChecks.validate_create
  controller_checks req m spec t hr hs =
      check_rule _ _ t
        (λ _.
          check_rule _ _ t
            (λ _. known_rule _ _ t m hr (known_rule _ _ t spec hs (checks-Calm E _ _ t)))
            (λ e _. err-Calm E e t))
        (λ e _. err-Calm E e t)

  namespace_checks :
      (req : CreateChildRequest nvme_namespace) (t : State E)
      → Ends (Calm E) (NamespaceChecks.validate_create E req t)
  unfolding NamespaceChecks.validate_create
  namespace_checks req t = check_rule _ _ t (λ _. checks-Calm E _ _ t) (λ e _. err-Calm E e t)

module _ (E : Externals) (L : IsStore E) (C : ClonesFaithfully E) (s : State E)
    (kept : KeepsFormed E s) where
  attach_controller :
      (n : NvmeController) (spec : NvmeControllerSpec) (subsystem : NvmeSubsystem)
      (subsystem_spec : NvmeSubsystemSpec) (t : State E)
      → n.spec ≡ some spec
      → subsystem.spec ≡ some subsystem_spec
      → Ends (Calm E) (ControllerCreation.attach E n subsystem t)
  unfolding ControllerCreation.attach
  attach_controller n spec subsystem subsystem_spec t hs hss = known_rule _ _ t subsystem_spec hss (
      rpc_err_rule E (ControllerOutcome.create_call n subsystem_spec) _ _
        (λ result t' _ _ _ _.
          require_rule _ _ _ _
            (λ _.
              known_rule _ _ t' spec
                (ap (λ (x : NvmeController). x.spec) (C.clone_eq nvme_controller n) ∙ hs)
                (kept_end E nvme_controller _ _ _ t'))
            (λ _. err-Calm E _ t'))
        (λ e t' _. err-Calm E e t'))

  pub create_nvme_controller-Calm :
      (req : CreateChildRequest nvme_controller) (i : PlainId) (m : NvmeController)
      (spec : NvmeControllerSpec)
      → req.parent ≡ subsystem_name E i
      → req.resource ≡ some m
      → m.spec ≡ some spec
      → Ends (Calm E) (create_nvme_controller E req s)
  unfolding create_nvme_controller ControllerCreation.create_new
  create_nvme_controller-Calm req i m spec hp hr hs =
      validator_rule E _ _ s (ControllerSame.validate_create-same E s req)
        (controller_checks E req m spec s hr hs)
        (λ _. generated_rule E _ _ (λ id t _ o. known_rule _ _ t m hr (
          store_get_err_rule E L nvme_controller _ _ _
            (λ found t' _ o'.
              found_Calm found t' (ControllerOutcome.named E req id m) hs
                (Untouched-trans E o.untouched o'.untouched))
            (λ e t' _. err-Calm E e t'))))
    where
      found_Calm :
          (found : Option NvmeController) (t : State E) (n : NvmeController)
          → n.spec ≡ some spec
          → Untouched E s t
          → Ends (Calm E) (ControllerCreation.or_create E req.parent n found t)
      found_Calm (some existing) t n hs u = done (λ p. cc p)
      found_Calm none t n hs u =
          kept_rule E L s kept nvme_subsystem req.parent _ t refl (i, hp) u
            (λ parent t' formed _. present_rule E _ _ _ t' (λ subsystem hm.
              let (subsystem_spec, hss, _) = formed subsystem hm in
              attach_controller n spec subsystem subsystem_spec t' hs hss))

  attach_namespace :
      (n : NvmeNamespace) (spec : NvmeNamespaceSpec) (subsystem : NvmeSubsystem)
      (subsystem_spec : NvmeSubsystemSpec) (t : State E)
      → n.spec ≡ some spec
      → subsystem.spec ≡ some subsystem_spec
      → Ends (Calm E) (NamespaceCreation.attach E n subsystem t)
  unfolding NamespaceCreation.attach
  attach_namespace n spec subsystem subsystem_spec t hs hss = known_rule _ _ t spec hs (
      known_rule _ _ t subsystem_spec hss (
        rpc_err_rule E (NamespaceOutcome.attach_call spec subsystem_spec) _ _
          (λ attached t' _ _ _ _.
            require_rule _ _ _ _ (λ _. kept_end E nvme_namespace _ _ _ t') (λ _. err-Calm E _ t'))
          (λ e t' _. err-Calm E e t')))

  pub create_nvme_namespace-Calm :
      (req : CreateChildRequest nvme_namespace) (i : PlainId) (m : NvmeNamespace)
      (spec : NvmeNamespaceSpec)
      → req.parent ≡ subsystem_name E i
      → req.resource ≡ some m
      → m.spec ≡ some spec
      → Ends (Calm E) (create_nvme_namespace E req s)
  unfolding create_nvme_namespace NamespaceCreation.create_new
  create_nvme_namespace-Calm req i m spec hp hr hs =
      validator_rule E _ _ s (NamespaceSame.validate_create-same E s req) (namespace_checks E req s)
        (λ _. generated_rule E _ _ (λ id t _ o. known_rule _ _ t m hr (
          store_get_err_rule E L nvme_namespace _ _ _
            (λ found t' _ o'.
              found_Calm found t' (NamespaceOutcome.named E req id m) hs
                (Untouched-trans E o.untouched o'.untouched))
            (λ e t' _. err-Calm E e t'))))
    where
      found_Calm :
          (found : Option NvmeNamespace) (t : State E) (n : NvmeNamespace)
          → n.spec ≡ some spec
          → Untouched E s t
          → Ends (Calm E) (NamespaceCreation.or_create E req.parent n found t)
      found_Calm (some existing) t n hs u = done (λ p. cc p)
      found_Calm none t n hs u =
          kept_rule E L s kept nvme_subsystem req.parent _ t refl (i, hp) u
            (λ parent t' formed _. present_rule E _ _ _ t' (λ subsystem hm.
              let (subsystem_spec, hss, _) = formed subsystem hm in
              attach_namespace n spec subsystem subsystem_spec t' hs hss))
