-- ===== src/Controller/Validate.antt =====
-- pkg/frontend/nvme_controller_validate.go
pub mod Same
use opi_nvidia_bridge.Base.{String, Option, none, some, [], ◌∷◌, str_eq, if◌then◌else◌}
use opi_nvidia_bridge.Api.Messages.{PciEndpoint, NvmeTransportType, pcie, nvme_controller}
use opi_nvidia_bridge.Api.Requests.{
  Request, CreateChildRequest, DeleteRequest, UpdateRequest, GetRequest, StatsRequest,
}
use opi_nvidia_bridge.Error.{Error, errorf, new, transport}
use opi_nvidia_bridge.Exec.{pure, deref, check, ◌>>=◌, ◌>>◌}
use opi_nvidia_bridge.Externals.{Externals}
use opi_nvidia_bridge.Server.{Method}

-- The transport must be PCIe, then the endpoint must be a PCIe one.
unfoldable pub check_transport : NvmeTransportType → Option PciEndpoint → Option Error
check_transport pcie (some endpoint) = none
check_transport pcie none = some (new "invalid endpoint type passed for transport")
check_transport (NvmeTransportType.other n) endpoint =
    some (errorf "not supported transport type: %v" (transport (NvmeTransportType.other n) ∷ []))

module _ (E : Externals) where
  -- `validateCreateNvmeControllerRequest`
  unfoldable pub validate_create : CreateChildRequest nvme_controller → Method E (Unit {0})
  unfolding check_transport
  validate_create req = do
    check (E.validate_required_fields (Request.create_child nvme_controller req))
    check (if str_eq req.resource_id "" then none else E.validate_user_settable req.resource_id)
    controller ← deref req.resource
    spec ← deref controller.spec
    check (check_transport spec.trtype spec.pcie_id)
    check (E.validate_resource_name req.parent)

  -- `validateDeleteNvmeControllerRequest`
  unfoldable pub validate_delete : DeleteRequest → Method E (Unit {0})
  validate_delete req = do
    check (E.validate_required_fields (Request.delete nvme_controller req))
    check (E.validate_resource_name req.name)

  -- `validateUpdateNvmeControllerRequest`, which reads the name of the resource.
  unfoldable pub validate_update : UpdateRequest nvme_controller → Method E String
  validate_update req = do
    check (E.validate_required_fields (Request.update nvme_controller req))
    controller ← deref req.resource
    check (E.validate_resource_name controller.name)
    pure controller.name

  -- `validateGetNvmeControllerRequest`
  unfoldable pub validate_get : GetRequest → Method E (Unit {0})
  validate_get req = do
    check (E.validate_required_fields (Request.get nvme_controller req))
    check (E.validate_resource_name req.name)

  -- `validateStatsNvmeControllerRequest`
  unfoldable pub validate_stats : StatsRequest → Method E (Unit {0})
  validate_stats req = do
    check (E.validate_required_fields (Request.stats nvme_controller req))
    check (E.validate_resource_name req.name)
