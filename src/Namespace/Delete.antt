-- ===== src/Namespace/Delete.antt =====
-- `DeleteNvmeNamespace` of pkg/frontend/nvme_namespace.go
pub mod Outcome
pub mod Paths
pub mod Success
use opi_nvidia_bridge.Base.{pos, String, Option, none, some, [], ◌∷◌, is_some}
use opi_nvidia_bridge.Api.Messages.{NvmeNamespace, NvmeSubsystem, nvme_namespace, nvme_subsystem}
use opi_nvidia_bridge.Api.Requests.{DeleteRequest}
use opi_nvidia_bridge.Models.{controller_nvme_namespace_detach}
use opi_nvidia_bridge.Error.{errorf, text, invalid, unable_to_find_key}
use opi_nvidia_bridge.Exec.{deref, require, ◌>>=◌, ◌>>◌}
use opi_nvidia_bridge.Externals.{Externals}
use opi_nvidia_bridge.Server.{Method, store_get, store_delete, rpc}
use opi_nvidia_bridge.Namespace.Validate.{validate_delete}

module _ (E : Externals) where
  -- From the parameters of the call on. `name` is that of the request.
  unfoldable pub detach : String → NvmeNamespace → NvmeSubsystem → Method E (Unit {0})
  detach name namespace subsystem = do
    spec ← deref namespace.spec
    subsystem_spec ← deref subsystem.spec
    detached ← rpc E (
        controller_nvme_namespace_detach
          (record { nsid = spec.host_nsid; subnqn = subsystem_spec.nqn; cntlid = pos 0 }))
    require detached (invalid "Could not delete NS: %s" name)
    store_delete E namespace.name

  -- From the lookup of the subsystem on.
  unfoldable pub delete_found : String → NvmeNamespace → Method E (Unit {0})
  unfolding detach
  delete_found name namespace = do
    let subsystem_name = E.resource_id_to_subsystem_name (E.get_subsystem_id_from_nvme_name name)
    found ← store_get E nvme_subsystem subsystem_name
    require (is_some found) (errorf "unable to find subsystem %s" (text subsystem_name ∷ []))
    subsystem ← deref found
    detach name namespace subsystem

  abbrev pub or_missing : DeleteRequest → Option NvmeNamespace → Method E (Unit {0})
  or_missing req (some namespace) = delete_found req.name namespace
  or_missing req none = require req.allow_missing (unable_to_find_key req.name)

  unfoldable pub delete_nvme_namespace : DeleteRequest → Method E (Unit {0})
  unfolding validate_delete delete_found
  delete_nvme_namespace req = do
    validate_delete E req
    found ← store_get E nvme_namespace req.name
    or_missing req found
