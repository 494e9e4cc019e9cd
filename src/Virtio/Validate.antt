-- ===== src/Virtio/Validate.antt =====
-- pkg/frontend/virtio_validate.go
pub mod Same
use opi_nvidia_bridge.Base.{String, none, str_eq, if◌then◌else◌}
use opi_nvidia_bridge.Api.Messages.{virtio_blk}
use opi_nvidia_bridge.Api.Requests.{
  Request, CreateRequest, DeleteRequest, UpdateRequest, GetRequest, StatsRequest,
}
use opi_nvidia_bridge.Exec.{pure, deref, check, ◌>>=◌, ◌>>◌}
use opi_nvidia_bridge.Externals.{Externals}
use opi_nvidia_bridge.Server.{Method}

module _ (E : Externals) where
  -- `validateCreateVirtioBlkRequest`
  unfoldable pub validate_create : CreateRequest virtio_blk → Method E (Unit {0})
  validate_create req = do
    check (E.validate_required_fields (Request.create virtio_blk req))
    check (if str_eq req.resource_id "" then none else E.validate_user_settable req.resource_id)

  -- `validateDeleteVirtioBlkRequest`
  unfoldable pub validate_delete : DeleteRequest → Method E (Unit {0})
  validate_delete req = do
    check (E.validate_required_fields (Request.delete virtio_blk req))
    check (E.validate_resource_name req.name)

  -- `validateUpdateVirtioBlkRequest`, which reads the name of the resource.
  unfoldable pub validate_update : UpdateRequest virtio_blk → Method E String
  validate_update req = do
    check (E.validate_required_fields (Request.update virtio_blk req))
    blk ← deref req.resource
    check (E.validate_resource_name blk.name)
    pure blk.name

  -- `validateGetVirtioBlkRequest`
  unfoldable pub validate_get : GetRequest → Method E (Unit {0})
  validate_get req = do
    check (E.validate_required_fields (Request.get virtio_blk req))
    check (E.validate_resource_name req.name)

  -- `validateStatsVirtioBlkRequest`
  unfoldable pub validate_stats : StatsRequest → Method E (Unit {0})
  validate_stats req = do
    check (E.validate_required_fields (Request.stats virtio_blk req))
    check (E.validate_resource_name req.name)
