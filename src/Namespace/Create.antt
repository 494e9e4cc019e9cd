-- ===== src/Namespace/Create.antt =====
-- `CreateNvmeNamespace` of pkg/frontend/nvme_namespace.go
pub mod Outcome
pub mod Paths
pub mod Success
pub mod Eui64
use opi_nvidia_bridge.Base.{pos, String, Option, none, some, str_eq, is_some, if◌then◌else◌}
use opi_nvidia_bridge.Base.Text.{format_int}
use opi_nvidia_bridge.Api.Messages.{
  NvmeNamespace, state_enabled, oper_state_online, NvmeSubsystem, nvme_namespace, nvme_subsystem,
}
use opi_nvidia_bridge.Api.Requests.{CreateChildRequest}
use opi_nvidia_bridge.Models.{controller_nvme_namespace_attach}
use opi_nvidia_bridge.Error.{invalid, unable_to_find_key}
use opi_nvidia_bridge.Exec.{pure, deref, require, ◌>>=◌, ◌>>◌}
use opi_nvidia_bridge.Externals.{Externals}
use opi_nvidia_bridge.Server.{Method, store_get, store_set, rpc, new_system_generated}
use opi_nvidia_bridge.Namespace.Validate.{validate_create}

module _ (E : Externals) where
  -- From the parameters of the call on.
  unfoldable pub attach : NvmeNamespace → NvmeSubsystem → Method E NvmeNamespace
  unfolding format_int
  attach namespace subsystem = do
    spec ← deref namespace.spec
    subsystem_spec ← deref subsystem.spec
    attached ← rpc E (
        controller_nvme_namespace_attach (record {
          bdev_type = "spdk";
          bdev = spec.volume_name_ref;
          nsid = spec.host_nsid;
          subnqn = subsystem_spec.nqn;
          cntlid = pos 0;
          uuid = spec.uuid;
          nguid = spec.nguid;
          eui64 = format_int spec.eui64;
        }))
    require attached (invalid "Could not create NS: %s" namespace.name)
    let response : NvmeNamespace = record (E.proto_clone nvme_namespace namespace) {
      status = some (record { state = state_enabled; oper_state = oper_state_online });
    }
    store_set E nvme_namespace namespace.name response
    pure response

  -- From the lookup of the parent on.
  unfoldable pub create_new : String → NvmeNamespace → Method E NvmeNamespace
  unfolding attach
  create_new parent namespace = do
    found ← store_get E nvme_subsystem parent
    require (is_some found) (unable_to_find_key parent)
    subsystem ← deref found
    attach namespace subsystem

  abbrev pub or_create : String → NvmeNamespace → Option NvmeNamespace → Method E NvmeNamespace
  or_create parent namespace (some existing) = pure existing
  or_create parent namespace none = create_new parent namespace

  unfoldable pub create_nvme_namespace : CreateChildRequest nvme_namespace → Method E NvmeNamespace
  unfolding validate_create create_new
  create_nvme_namespace req = do
    validate_create E req
    generated ← new_system_generated E
    let resource_id = if str_eq req.resource_id "" then generated else req.resource_id
    namespace ← deref req.resource
    let subsystem_id = E.get_subsystem_id_from_nvme_name req.parent
    let name = E.resource_id_to_namespace_name subsystem_id resource_id
    found ← store_get E nvme_namespace name
    or_create req.parent (record namespace { name = name }) found
