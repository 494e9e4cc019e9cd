-- ===== src/Subsystem/Delete.antt =====
-- `DeleteNvmeSubsystem` of pkg/frontend/nvme_subsystem.go
pub mod Outcome
pub mod Paths
pub mod Success
use opi_nvidia_bridge.Base.{Option, none, some, erase}
use opi_nvidia_bridge.Api.Messages.{NvmeSubsystem, nvme_subsystem}
use opi_nvidia_bridge.Api.Requests.{DeleteRequest}
use opi_nvidia_bridge.Models.{subsystem_nvme_delete}
use opi_nvidia_bridge.Error.{invalid, unable_to_find_key}
use opi_nvidia_bridge.Exec.{deref, require, ◌>>=◌, ◌>>◌}
use opi_nvidia_bridge.Externals.{Externals}
use opi_nvidia_bridge.Server.{Method, store_get, store_delete, rpc, get_server, set_server}
use opi_nvidia_bridge.Subsystem.Validate.{validate_delete}

module _ (E : Externals) where
  -- The end of `DeleteNvmeSubsystem`, from the parameters of the call on.
  unfoldable pub delete_found : NvmeSubsystem → Method E (Unit {0})
  unfolding erase
  delete_found subsystem = do
    spec ← deref subsystem.spec
    deleted ← rpc E (subsystem_nvme_delete (record { nqn = spec.nqn }))
    require deleted (invalid "Could not delete NQN: %s" spec.nqn)
    server ← get_server E
    set_server E (record server { nqns = erase spec.nqn server.nqns })
    store_delete E subsystem.name

  abbrev pub or_missing : DeleteRequest → Option NvmeSubsystem → Method E (Unit {0})
  or_missing req (some subsystem) = delete_found subsystem
  or_missing req none = require req.allow_missing (unable_to_find_key req.name)

  unfoldable pub delete_nvme_subsystem : DeleteRequest → Method E (Unit {0})
  unfolding validate_delete delete_found
  delete_nvme_subsystem req = do
    validate_delete E req
    found ← store_get E nvme_subsystem req.name
    or_missing req found
