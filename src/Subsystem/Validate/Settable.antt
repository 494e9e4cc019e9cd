-- ===== src/Subsystem/Validate/Settable.antt =====
-- The identifier that `CreateNvmeSubsystem` of pkg/frontend/nvme_subsystem.go uses.
use opi_nvidia_bridge.Base.{String, ◌≡◌, subst, false, none, str_eq, if◌then◌else◌, arith}
use opi_nvidia_bridge.Base.Text.{has_slash}
use opi_nvidia_bridge.Api.Messages.{nvme_subsystem}
use opi_nvidia_bridge.Api.Requests.{CreateRequest}
use opi_nvidia_bridge.Exec.{ok}
use opi_nvidia_bridge.Exec.Rules.{Ends, done, check_rule, deref_rule, check_last}
use opi_nvidia_bridge.Externals.{Externals}
use opi_nvidia_bridge.Externals.Laws.{IdsPlain}
use opi_nvidia_bridge.Server.{State}
use opi_nvidia_bridge.Subsystem.Validate.{validate_create}

module _ (E : Externals) where
  -- The client gave no identifier, or one that it may set.
  abbrev pub IsSettable : CreateRequest nvme_subsystem → Type 0
  IsSettable req =
      (if str_eq req.resource_id "" then none else E.validate_user_settable req.resource_id) ≡ none

  -- The identifier was generated.
  abbrev pub IsGenerated : String → Type 0
  IsGenerated id = (entropy : E.Entropy) × ((E.new_system_generated entropy).0 ≡ id)

  pub validate_create-IsSettable :
      (s : State E) (req : CreateRequest nvme_subsystem) (u : Unit {0})
      → (validate_create E req s).0 ≡ ok u
      → IsSettable req
  unfolding validate_create
  validate_create-IsSettable s req u = ends.holds
    where
      ends : Ends (λ (r, t). r ≡ ok u → IsSettable req) (validate_create E req s)
      ends =
          check_rule _ _ _
            (λ _.
              check_rule _ _ _
                (λ settable.
                  deref_rule _ _ _
                    (λ _ _.
                      deref_rule _ _ _ (λ _ _. check_last _ _ (λ _. done (λ _. settable)))
                        (λ _. done (λ c. cc c)))
                    (λ _. done (λ c. cc c)))
                (λ _ _. done (λ c. cc c)))
            (λ _ _. done (λ c. cc c))

  -- The identifier that is used has no slash.
  pub plain_id :
      IdsPlain E
      → (req : CreateRequest nvme_subsystem) (id : String) → IsGenerated id
      → IsSettable req
      → has_slash (if str_eq req.resource_id "" then id else req.resource_id) ≡ false
  plain_id P req id (entropy, generated) settable = ground (
    arith,
    subst (λ x. has_slash x ≡ false) generated (P.generated entropy),
    P.settable req.resource_id,
    settable,
  )
