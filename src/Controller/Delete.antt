-- ===== src/Controller/Delete.antt =====
-- `DeleteNvmeController` of pkg/frontend/nvme_controller.go
pub mod Outcome
pub mod Paths
pub mod Success
use opi_nvidia_bridge.Base.{String, Option, none, some, [], ◌∷◌, is_some}
use opi_nvidia_bridge.Api.Messages.{NvmeController, NvmeSubsystem, nvme_controller, nvme_subsystem}
use opi_nvidia_bridge.Api.Requests.{DeleteRequest}
use opi_nvidia_bridge.Models.{controller_nvme_delete}
use opi_nvidia_bridge.Error.{
  status, invalid_argument, sprintf, errorf, text, number, unable_to_find_key,
}
use opi_nvidia_bridge.Exec.{deref, require, ◌>>=◌, ◌>>◌}
use opi_nvidia_bridge.Externals.{Externals}
use opi_nvidia_bridge.Server.{Method, store_get, store_delete, rpc}
use opi_nvidia_bridge.Controller.Validate.{validate_delete}

module _ (E : Externals) where
  -- From the parameters of the call on.
  unfoldable pub detach : NvmeController → NvmeSubsystem → Method E (Unit {0})
  detach controller subsystem = do
    spec ← deref subsystem.spec
    controller_spec ← deref controller.spec
    id ← deref controller_spec.nvme_controller_id
    deleted ← rpc E (controller_nvme_delete (record { subnqn = spec.nqn; cntlid = id }))
    require deleted (
        status invalid_argument
          (sprintf "Could not delete NQN:ID %s:%d" (text spec.nqn ∷ number id ∷ [])) [])
    store_delete E controller.name

  -- From the lookup of the subsystem on.
  unfoldable pub delete_found : String → NvmeController → Method E (Unit {0})
  unfolding detach
  delete_found name controller = do
    let subsystem_name = E.resource_id_to_subsystem_name (E.get_subsystem_id_from_nvme_name name)
    found ← store_get E nvme_subsystem subsystem_name
    require (is_some found) (unable_to_find_key subsystem_name)
    subsystem ← deref found
    detach controller subsystem

  abbrev pub or_missing : DeleteRequest → Option NvmeController → Method E (Unit {0})
  or_missing req (some controller) = delete_found req.name controller
  or_missing req none =
      require req.allow_missing (errorf "error finding controller %s" (text req.name ∷ []))

  unfoldable pub delete_nvme_controller : DeleteRequest → Method E (Unit {0})
  unfolding validate_delete delete_found
  delete_nvme_controller req = do
    validate_delete E req
    found ← store_get E nvme_controller req.name
    or_missing req found
