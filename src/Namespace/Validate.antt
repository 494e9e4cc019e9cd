-- ===== src/Namespace/Validate.antt =====
-- pkg/frontend/nvme_namespace_validate.go
pub mod Same
use opi_nvidia_bridge.Base.{String, none, str_eq, if◌then◌else◌}
use opi_nvidia_bridge.Api.Messages.{nvme_namespace}
use opi_nvidia_bridge.Api.Requests.{
  Request, CreateChildRequest, DeleteRequest, UpdateRequest, GetRequest, StatsRequest,
}
use opi_nvidia_bridge.Exec.{pure, deref, check, ◌>>=◌, ◌>>◌}
use opi_nvidia_bridge.Externals.{Externals}
use opi_nvidia_bridge.Server.{Method}

module _ (E : Externals) where
  -- `validateCreateNvmeNamespaceRequest`
  unfoldable pub validate_create : CreateChildRequest nvme_namespace → Method E (Unit {0})
  validate_create req = do
    check (E.validate_required_fields (Request.create_child nvme_namespace req))
    check (if str_eq req.resource_id "" then none else E.validate_user_settable req.resource_id)
    check (E.validate_resource_name req.parent)

  -- `validateDeleteNvmeNamespaceRequest`
  unfoldable pub validate_delete : DeleteRequest → Method E (Unit {0})
  validate_delete req = do
    check (E.validate_required_fields (Request.delete nvme_namespace req))
    check (E.validate_resource_name req.name)

  -- `validateUpdateNvmeNamespaceRequest`, which reads the name of the resource.
  unfoldable pub validate_update : UpdateRequest nvme_namespace → Method E String
  validate_update req = do
    check (E.validate_required_fields (Request.update nvme_namespace req))
    namespace ← deref req.resource
    check (E.validate_resource_name namespace.name)
    pure namespace.name

  -- `validateGetNvmeNamespaceRequest`
  unfoldable pub validate_get : GetRequest → Method E (Unit {0})
  validate_get req = do
    check (E.validate_required_fields (Request.get nvme_namespace req))
    check (E.validate_resource_name req.name)

  -- `validateStatsNvmeNamespaceRequest`
  unfoldable pub validate_stats : StatsRequest → Method E (Unit {0})
  validate_stats req = do
    check (E.validate_required_fields (Request.stats nvme_namespace req))
    check (E.validate_resource_name req.name)
