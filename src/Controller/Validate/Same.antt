-- ===== src/Controller/Validate/Same.antt =====
-- The validators of pkg/frontend/nvme_controller_validate.go and the state.
use opi_nvidia_bridge.Base.{◌≡◌, refl}
use opi_nvidia_bridge.Api.Messages.{nvme_controller}
use opi_nvidia_bridge.Api.Requests.{CreateChildRequest, DeleteRequest, GetRequest}
use opi_nvidia_bridge.Exec.Rules.{Ends, done, check_rule, deref_rule, check_last, checks-same}
use opi_nvidia_bridge.Externals.{Externals}
use opi_nvidia_bridge.Server.{State}
use opi_nvidia_bridge.Controller.Validate.{validate_create, validate_delete, validate_get}

module _ (E : Externals) (s : State E) where
  pub validate_create-same :
      (req : CreateChildRequest nvme_controller) → (validate_create E req s).1 ≡ s
  unfolding validate_create
  validate_create-same req = ends.holds
    where
      ends : Ends (λ (r, t). t ≡ s) (validate_create E req s)
      ends =
          check_rule _ _ _
            (λ _.
              check_rule _ _ _
                (λ _.
                  deref_rule _ _ _
                    (λ _ _.
                      deref_rule _ _ _
                        (λ _ _.
                          check_rule _ _ _ (λ _. check_last _ _ (λ _. done refl))
                            (λ _ _. done refl))
                        (λ _. done refl))
                    (λ _. done refl))
                (λ _ _. done refl))
            (λ _ _. done refl)

  pub validate_delete-same : (req : DeleteRequest) → (validate_delete E req s).1 ≡ s
  unfolding validate_delete
  validate_delete-same req = checks-same _ _ s

  pub validate_get-same : (req : GetRequest) → (validate_get E req s).1 ≡ s
  unfolding validate_get
  validate_get-same req = checks-same _ _ s
