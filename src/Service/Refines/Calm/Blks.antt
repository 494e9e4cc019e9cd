-- ===== src/Service/Refines/Calm/Blks.antt =====
-- When the create, delete and get handlers of pkg/frontend/virtio.go panic: a create does where the
-- request has no controller, endpoint or physical function.
use opi_nvidia_bridge.Base.{ℤ, String, ◌≡◌, Option, none, some}
use opi_nvidia_bridge.Api.Messages.{VirtioBlk, PciEndpoint, virtio_blk}
use opi_nvidia_bridge.Api.Requests.{CreateRequest, DeleteRequest, GetRequest}
use opi_nvidia_bridge.Models.{controller_list}
use opi_nvidia_bridge.Exec.Rules.{Ends, done, known_rule, require_rule}
use opi_nvidia_bridge.Externals.{Externals}
use opi_nvidia_bridge.Server.{State, set_server}
use opi_nvidia_bridge.Server.Rules.{get_server_rule, set_server_rule}
use opi_nvidia_bridge.Server.Steps.{generated_rule, rpc_err_rule}
use opi_nvidia_bridge.Virtio.Create as Creation
use opi_nvidia_bridge.Virtio.Create.{create_virtio_blk}
use opi_nvidia_bridge.Virtio.Create.Paths as CreationPaths
use opi_nvidia_bridge.Virtio.Delete as Deletion
use opi_nvidia_bridge.Virtio.Delete.{delete_virtio_blk}
use opi_nvidia_bridge.Virtio.Delete.Paths as DeletionPaths
use opi_nvidia_bridge.Virtio.Queries as Queries
use opi_nvidia_bridge.Virtio.Queries.{get_virtio_blk}
use opi_nvidia_bridge.Virtio.Validate.{validate_create, validate_delete, validate_get}
use opi_nvidia_bridge.Virtio.Validate.Same.{
  validate_create-same, validate_delete-same, validate_get-same,
}
use opi_nvidia_bridge.Service.Refines.Calm.{
  Calm, err-Calm, require-Calm, checks-Calm, validator_rule,
}

module _ (E : Externals) (s : State E) where
  pub create_virtio_blk-Calm :
      (req : CreateRequest virtio_blk) (blk : VirtioBlk) (endpoint : PciEndpoint) (pf : ℤ)
      → req.resource ≡ some blk
      → blk.pcie_id ≡ some endpoint
      → endpoint.physical_function ≡ some pf
      → Ends (Calm E) (create_virtio_blk E req s)
  unfolding create_virtio_blk validate_create Creation.create_new
  create_virtio_blk-Calm req blk endpoint pf hr he hp =
      validator_rule E _ _ s (validate_create-same E s req) (checks-Calm E _ _ s) (λ _.
        generated_rule E _ _ (λ id t _ _. known_rule _ _ t blk hr (
          get_server_rule E _ _
            (found_Calm _ t (CreationPaths.id_of E req id) (CreationPaths.named E req id blk) he))))
    where
      found_Calm :
          (found : Option VirtioBlk) (t : State E) (id : String) (b : VirtioBlk)
          → b.pcie_id ≡ some endpoint
          → Ends (Calm E) (Creation.or_create E id b found t)
      found_Calm (some existing) t id b he = done (λ p. cc p)
      found_Calm none t id b he = known_rule _ _ t endpoint he (
          known_rule _ _ t pf hp (
            rpc_err_rule E (CreationPaths.create_call id b pf) _ _
              (λ name t' _ _ _ _.
                require_rule _ _ _ _
                  (λ _. get_server_rule E _ _ (set_server_rule E _ _ _ (done (λ p. cc p))))
                  (λ _. err-Calm E _ t'))
              (λ e t' _. err-Calm E e t')))

  pub delete_virtio_blk-Calm : (req : DeleteRequest) → Ends (Calm E) (delete_virtio_blk E req s)
  unfolding delete_virtio_blk validate_delete Deletion.delete_found set_server
  delete_virtio_blk-Calm req =
      validator_rule E _ _ s (validate_delete-same E s req) (checks-Calm E _ _ s)
        (λ _. get_server_rule E _ _ (found_Calm _))
    where
      found_Calm : (found : Option VirtioBlk) → Ends (Calm E) (Deletion.or_missing E req found s)
      found_Calm none = require-Calm E _ _ s
      found_Calm (some blk) =
          rpc_err_rule E (DeletionPaths.delete_call req.name) _ _
            (λ deleted t _ _ _ _. get_server_rule E _ _ (done (λ p. cc p)))
            (λ e t _. err-Calm E e t)

  pub get_virtio_blk-Calm : (req : GetRequest) → Ends (Calm E) (get_virtio_blk E req s)
  unfolding get_virtio_blk validate_get
  get_virtio_blk-Calm req =
      validator_rule E _ _ s (validate_get-same E s req) (checks-Calm E _ _ s) (λ _.
        get_server_rule E _ _ (
          require_rule _ _ _ _
            (λ _.
              rpc_err_rule E controller_list _ _ (λ result t _ _ _ _. listed_Calm _ t)
                (λ e t _. err-Calm E e t))
            (λ _. err-Calm E _ s)))
    where
      listed_Calm :
          (found : Option VirtioBlk) (t : State E)
          → Ends (Calm E) (Queries.or_not_listed E req.name found t)
      listed_Calm none t = err-Calm E _ t
      listed_Calm (some blk) t = done (λ p. cc p)
