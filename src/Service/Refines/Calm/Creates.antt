-- ===== src/Service/Refines/Calm/Creates.antt =====
-- That `CreateNvmeSubsystem` of pkg/frontend/nvme_subsystem.go finds no nil pointer, where the request has
-- its own pointers set.
use opi_nvidia_bridge.Base.{String, ◌≡◌, Option, none, some}
use opi_nvidia_bridge.Api.Messages.{Kind, Message, NvmeSubsystem, NvmeSubsystemSpec, nvme_subsystem}
use opi_nvidia_bridge.Api.Requests.{CreateRequest}
use opi_nvidia_bridge.Models.{spdk_get_version}
use opi_nvidia_bridge.Exec.{pure, ◌>>◌}
use opi_nvidia_bridge.Exec.Rules.{
  Ends, done, bind_rule, check_rule, check_end, known_rule, require_rule,
}
use opi_nvidia_bridge.Externals.{Externals}
use opi_nvidia_bridge.Externals.Laws.{IsStore}
use opi_nvidia_bridge.Server.{State, store_set}
use opi_nvidia_bridge.Server.Rules.{answered-not-panic, get_server_rule, set_server_rule}
use opi_nvidia_bridge.Server.Steps.{generated_rule, rpc_err_rule, store_get_err_rule}
use opi_nvidia_bridge.Subsystem.Create as SubsystemCreation
use opi_nvidia_bridge.Subsystem.Create.{create_nvme_subsystem}
use opi_nvidia_bridge.Subsystem.Create.Outcome as SubsystemOutcome
use opi_nvidia_bridge.Subsystem.Validate as SubsystemChecks
use opi_nvidia_bridge.Subsystem.Validate.Same as SubsystemSame
use opi_nvidia_bridge.Service.Refines.Calm.{Calm, err-Calm, validator_rule}

module _ (E : Externals) where
  -- The end of a create: the store takes the object or fails.
  pub kept_end :
      (k : Kind) (key : String) (m answer : Message k) (t : State E)
      → Ends (Calm E) ((store_set E k key m >> pure answer) t)
  unfolding store_set
  kept_end k key m answer t =
      bind_rule (store_set E k key m) (λ _. pure answer) t (λ _ _. done (λ p. cc p))
        (λ e _. err-Calm E e _) (λ p. absurd (answered-not-panic (E.set k key m t.db).0 p))

  subsystem_checks :
      (req : CreateRequest nvme_subsystem) (m : NvmeSubsystem) (spec : NvmeSubsystemSpec)
      (t : State E)
      → req.resource ≡ some m
      → m.spec ≡ some spec
      → Ends (Calm E) (SubsystemChecks.validate_create E req t)
  unfolding SubsystemChecks.validate_create
  subsystem_checks req m spec t hr hs =
      check_rule _ _ t
        (λ _.
          check_rule _ _ t
            (λ _. known_rule _ _ t m hr (
              known_rule _ _ t spec hs
                (check_end _ _ (λ _. done (λ p. cc p)) (λ e _. err-Calm E e t))))
            (λ e _. err-Calm E e t))
        (λ e _. err-Calm E e t)

module _ (E : Externals) (L : IsStore E) (s : State E) where
  pub create_nvme_subsystem-Calm :
      (req : CreateRequest nvme_subsystem) (m : NvmeSubsystem) (spec : NvmeSubsystemSpec)
      → req.resource ≡ some m
      → m.spec ≡ some spec
      → Ends (Calm E) (create_nvme_subsystem E req s)
  unfolding create_nvme_subsystem SubsystemCreation.create_new SubsystemCreation.save
  create_nvme_subsystem-Calm req m spec hr hs =
      validator_rule E _ _ s (SubsystemSame.validate_create-same E s req)
        (subsystem_checks E req m spec s hr hs)
        (λ _. generated_rule E _ _ (λ id t _ _. known_rule _ _ t m hr (
          store_get_err_rule E L nvme_subsystem _ _ _
            (λ found t' _ _. found_Calm found t' (SubsystemOutcome.named E req id m) hs)
            (λ e t' _. err-Calm E e t'))))
    where
      found_Calm :
          (found : Option NvmeSubsystem) (t : State E) (n : NvmeSubsystem)
          → n.spec ≡ some spec
          → Ends (Calm E) (SubsystemCreation.or_create E n found t)
      found_Calm (some existing) t n hs = done (λ p. cc p)
      found_Calm none t n hs = known_rule _ _ t spec hs (
          get_server_rule E _ _ (
            require_rule _ _ _ _
              (λ _.
                rpc_err_rule E (SubsystemOutcome.create_call spec) _ _
                  (λ created t' _ _ _ _.
                    require_rule _ _ _ _
                      (λ _.
                        rpc_err_rule E spdk_get_version _ _
                          (λ version t'' _ _ _ _.
                            get_server_rule E _ _
                              (set_server_rule E _ _ _ (kept_end E nvme_subsystem _ _ _ _)))
                          (λ e t'' _. err-Calm E e t''))
                      (λ _. err-Calm E _ t'))
                  (λ e t' _. err-Calm E e t'))
              (λ _. err-Calm E _ t)))
