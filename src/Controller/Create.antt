-- ===== src/Controller/Create.antt =====
-- `CreateNvmeController` of pkg/frontend/nvme_controller.go
pub mod Outcome
pub mod Paths
pub mod Success
use opi_nvidia_bridge.Base.{
  ℤ, pos, ltb_ℤ, to_int32, String, not, true, Option, none, some, str_eq, is_some, read,
  if◌then◌else◌,
}
use opi_nvidia_bridge.Api.Messages.{NvmeController, NvmeSubsystem, nvme_controller, nvme_subsystem}
use opi_nvidia_bridge.Api.Requests.{CreateChildRequest}
use opi_nvidia_bridge.Models.{controller_nvme_create}
use opi_nvidia_bridge.Error.{invalid, unable_to_find_key}
use opi_nvidia_bridge.Exec.{pure, deref, require, ◌>>=◌, ◌>>◌}
use opi_nvidia_bridge.Externals.{Externals}
use opi_nvidia_bridge.Server.{Method, store_get, store_set, rpc, new_system_generated}
use opi_nvidia_bridge.Controller.Validate.{validate_create}

-- `GetSpec().GetPcieId().GetPhysicalFunction().GetValue()`: each getter takes a nil pointer.
unfoldable pub physical_function : NvmeController → ℤ
physical_function controller =
    elim (read controller.spec λ spec. read spec.pcie_id λ endpoint. endpoint.physical_function) [
      | none ↦ pos 0
      | some value ↦ value
    ]

module _ (E : Externals) where
  -- From the parameters of the call on.
  unfoldable pub attach : NvmeController → NvmeSubsystem → Method E NvmeController
  unfolding physical_function to_int32
  attach controller subsystem = do
    spec ← deref subsystem.spec
    result ← rpc E (
        controller_nvme_create (record {
          nqn = spec.nqn;
          emulation_manager = "mlx5_0";
          pf_id = physical_function controller;
          vf_id = pos 0;
          nr_io_queues = pos 0;
          max_namespaces = pos 0;
        }))
    require (not (ltb_ℤ result.cntlid (pos 0)))
        (invalid "Could not create CTRL: %s" controller.name)
    let clone = E.proto_clone nvme_controller controller
    cloned_spec ← deref clone.spec
    let response : NvmeController = record clone {
      spec = some (record cloned_spec { nvme_controller_id = some (to_int32 result.cntlid) });
      status = some (record { active = true });
    }
    store_set E nvme_controller controller.name response
    pure response

  -- From the lookup of the parent on.
  unfoldable pub create_new : String → NvmeController → Method E NvmeController
  unfolding attach
  create_new parent controller = do
    found ← store_get E nvme_subsystem parent
    require (is_some found) (unable_to_find_key parent)
    subsystem ← deref found
    attach controller subsystem

  abbrev pub or_create : String → NvmeController → Option NvmeController → Method E NvmeController
  or_create parent controller (some existing) = pure existing
  or_create parent controller none = create_new parent controller

  unfoldable pub create_nvme_controller :
      CreateChildRequest nvme_controller → Method E NvmeController
  unfolding validate_create create_new
  create_nvme_controller req = do
    validate_create E req
    generated ← new_system_generated E
    let resource_id = if str_eq req.resource_id "" then generated else req.resource_id
    controller ← deref req.resource
    let subsystem_id = E.get_subsystem_id_from_nvme_name req.parent
    let name = E.resource_id_to_controller_name subsystem_id resource_id
    found ← store_get E nvme_controller name
    or_create req.parent (record controller { name = name }) found
