-- ===== src/Virtio/Validate/Same.antt =====
-- The validators of pkg/frontend/virtio_validate.go and the state.
use opi_nvidia_bridge.Base.{◌≡◌}
use opi_nvidia_bridge.Api.Messages.{virtio_blk}
use opi_nvidia_bridge.Api.Requests.{CreateRequest, DeleteRequest, GetRequest, StatsRequest}
use opi_nvidia_bridge.Exec.Rules.{checks-same}
use opi_nvidia_bridge.Externals.{Externals}
use opi_nvidia_bridge.Server.{State}
use opi_nvidia_bridge.Virtio.Validate.{
  validate_create, validate_delete, validate_get, validate_stats,
}

module _ (E : Externals) (s : State E) where
  pub validate_create-same : (req : CreateRequest virtio_blk) → (validate_create E req s).1 ≡ s
  unfolding validate_create
  validate_create-same req = checks-same _ _ s

  pub validate_delete-same : (req : DeleteRequest) → (validate_delete E req s).1 ≡ s
  unfolding validate_delete
  validate_delete-same req = checks-same _ _ s

  pub validate_get-same : (req : GetRequest) → (validate_get E req s).1 ≡ s
  unfolding validate_get
  validate_get-same req = checks-same _ _ s

  pub validate_stats-same : (req : StatsRequest) → (validate_stats E req s).1 ≡ s
  unfolding validate_stats
  validate_stats-same req = checks-same _ _ s
