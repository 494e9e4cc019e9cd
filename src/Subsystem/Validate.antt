-- ===== src/Subsystem/Validate.antt =====
-- pkg/frontend/nvme_subsystem_validate.go
pub mod Settable
pub mod Same
pub mod Sound
use Prim.Native.String.{len}
use opi_nvidia_bridge.Base.{String, Option, none, some, str_eq, ltb, if◌then◌else◌}
use opi_nvidia_bridge.Api.Messages.{NvmeSubsystemSpec, nvme_subsystem}
use opi_nvidia_bridge.Api.Requests.{
  Request, CreateRequest, DeleteRequest, UpdateRequest, GetRequest, StatsRequest,
}
use opi_nvidia_bridge.Error.{Error, invalid}
use opi_nvidia_bridge.Exec.{pure, deref, check, ◌>>=◌, ◌>>◌}
use opi_nvidia_bridge.Externals.{Externals}
use opi_nvidia_bridge.Server.{Method}
use opi_nvidia_bridge.Nqn.{is_nqn}

-- The checks of the lengths and of the pattern, in the source's order. `len` counts bytes.
unfoldable pub validate_spec : NvmeSubsystemSpec → Option Error
unfolding is_nqn
validate_spec spec =
    if ltb 223 (len spec.nqn)
    then some (invalid "Nqn value (%s) is too long, have to be between 1 and 223" spec.nqn)
    else if ltb 20 (len spec.serial_number)
    then some (
        invalid "SerialNumber value (%s) is too long, have to be between 1 and 20"
          spec.serial_number)
    else if ltb 40 (len spec.model_number)
    then some (
        invalid "ModelNumber value (%s) is too long, have to be between 1 and 40" spec.model_number)
    else if is_nqn spec.nqn
    then none
    else some (invalid "NQN value (%s) does not match pattern" spec.nqn)

module _ (E : Externals) where
  -- `validateCreateNvmeSubsystemRequest`
  unfoldable pub validate_create : CreateRequest nvme_subsystem → Method E (Unit {0})
  unfolding validate_spec
  validate_create req = do
    check (E.validate_required_fields (Request.create nvme_subsystem req))
    check (if str_eq req.resource_id "" then none else E.validate_user_settable req.resource_id)
    subsystem ← deref req.resource
    spec ← deref subsystem.spec
    check (validate_spec spec)

  -- `validateDeleteNvmeSubsystemRequest`
  unfoldable pub validate_delete : DeleteRequest → Method E (Unit {0})
  validate_delete req = do
    check (E.validate_required_fields (Request.delete nvme_subsystem req))
    check (E.validate_resource_name req.name)

  -- `validateUpdateNvmeSubsystemRequest`, which reads the name of the resource.
  unfoldable pub validate_update : UpdateRequest nvme_subsystem → Method E String
  validate_update req = do
    check (E.validate_required_fields (Request.update nvme_subsystem req))
    subsystem ← deref req.resource
    check (E.validate_resource_name subsystem.name)
    pure subsystem.name

  -- `validateGetNvmeSubsystemRequest`
  unfoldable pub validate_get : GetRequest → Method E (Unit {0})
  validate_get req = do
    check (E.validate_required_fields (Request.get nvme_subsystem req))
    check (E.validate_resource_name req.name)

  -- `validateStatsNvmeSubsystemRequest`
  unfoldable pub validate_stats : StatsRequest → Method E (Unit {0})
  validate_stats req = do
    check (E.validate_required_fields (Request.stats nvme_subsystem req))
    check (E.validate_resource_name req.name)
