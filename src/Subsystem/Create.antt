-- ===== src/Subsystem/Create.antt =====
-- `CreateNvmeSubsystem` of pkg/frontend/nvme_subsystem.go
pub mod Outcome
pub mod Paths
pub mod Success
use opi_nvidia_bridge.Base.{
  String, Bool, false, not, ◌||◌, Option, none, some, [], ◌∷◌, Assoc, insert, str_eq, if◌then◌else◌,
}
use opi_nvidia_bridge.Api.Messages.{NvmeSubsystem, nvme_subsystem}
use opi_nvidia_bridge.Api.Requests.{CreateRequest}
use opi_nvidia_bridge.Models.{subsystem_nvme_create, spdk_get_version}
use opi_nvidia_bridge.Error.{Error, status, already_exists, text, sprintf, invalid}
use opi_nvidia_bridge.Exec.{ok, pure, deref, require, ◌>>=◌, ◌>>◌}
use opi_nvidia_bridge.Externals.{Externals}
use opi_nvidia_bridge.Server.{
  Method, store_get, store_set, rpc, new_system_generated, get_server, set_server,
}
use opi_nvidia_bridge.Subsystem.Validate.{validate_create}

abbrev pub nqn_taken : String → Error
nqn_taken nqn =
    let message : String = "Could not create NQN: %s since object with same NQN already exists" in
    status already_exists (sprintf message (text nqn ∷ [])) []

-- `for nqn := range s.NQNs { if in.NvmeSubsystem.Spec.Nqn == nqn { ... } }`
unfoldable pub has_nqn : String → Assoc Bool → Bool
has_nqn nqn [] = false
has_nqn nqn ((k, _) ∷ nqns) = str_eq nqn k || has_nqn nqn nqns

module _ (E : Externals) where
  -- The end of `CreateNvmeSubsystem`, from the response on.
  unfoldable pub save : NvmeSubsystem → String → String → Method E NvmeSubsystem
  unfolding insert
  save subsystem nqn version = do
    let response : NvmeSubsystem = record (E.proto_clone nvme_subsystem subsystem) {
      status = some (record { firmware_revision = version });
    }
    server ← get_server E
    set_server E (record server { nqns = insert nqn false server.nqns })
    store_set E nvme_subsystem subsystem.name response
    pure response

  -- From the check of the NQN to the version of the device.
  unfoldable pub create_new : NvmeSubsystem → Method E NvmeSubsystem
  unfolding has_nqn save
  create_new subsystem = do
    spec ← deref subsystem.spec
    server ← get_server E
    require (not (has_nqn spec.nqn server.nqns)) (nqn_taken spec.nqn)
    created ← rpc E (
        subsystem_nvme_create (record {
          nqn = spec.nqn;
          serial_number = spec.serial_number;
          model_number = spec.model_number;
        }))
    require created (invalid "Could not create NQN: %s" spec.nqn)
    version ← rpc E spdk_get_version
    save subsystem spec.nqn version

  abbrev pub or_create : NvmeSubsystem → Option NvmeSubsystem → Method E NvmeSubsystem
  or_create subsystem found s = elim found [
    | some existing ↦ (ok existing, s)
    | none ↦ create_new subsystem s
  ]

  unfoldable pub create_nvme_subsystem : CreateRequest nvme_subsystem → Method E NvmeSubsystem
  unfolding validate_create create_new
  create_nvme_subsystem req = do
    validate_create E req
    generated ← new_system_generated E
    let resource_id = if str_eq req.resource_id "" then generated else req.resource_id
    subsystem ← deref req.resource
    let name = E.resource_id_to_subsystem_name resource_id
    found ← store_get E nvme_subsystem name
    or_create (record subsystem { name = name }) found
