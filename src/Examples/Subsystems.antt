-- ===== src/Examples/Subsystems.antt =====
-- The handlers of subsystems on the example bridge.
use opi_nvidia_bridge.Base.{pos, ◌<>◌, ◌≡◌, refl, ◌↔◌, false, none, some, [], ◌∷◌, lookup, str_eq}
use opi_nvidia_bridge.Api.Messages.{NvmeSubsystem, NvmeSubsystemSpec, nvme_subsystem}
use opi_nvidia_bridge.Api.Requests.{CreateRequest, DeleteRequest, ListRequest}
use opi_nvidia_bridge.Exec.{ok}
use opi_nvidia_bridge.Server.{State, new_server}
use opi_nvidia_bridge.Subsystem.Create.{has_nqn, create_nvme_subsystem}
use opi_nvidia_bridge.Subsystem.Create.Outcome.{Creates}
use opi_nvidia_bridge.Subsystem.Create.Paths.{create_nvme_subsystem-Creates}
use opi_nvidia_bridge.Subsystem.Delete.{delete_nvme_subsystem}
use opi_nvidia_bridge.Subsystem.Delete.Outcome.{delete_call, unregistering}
use opi_nvidia_bridge.Subsystem.Delete.Outcome
use opi_nvidia_bridge.Subsystem.Delete.Paths.{delete_nvme_subsystem-Deletes}
use opi_nvidia_bridge.Subsystem.Validate.{validate_spec}
use opi_nvidia_bridge.Subsystem.Validate.Sound.{IsValidSpec, validate_spec_iff}
use opi_nvidia_bridge.Subsystem.Registry.{IsRegistry}
use opi_nvidia_bridge.Subsystem.Registry.Create.{create_nvme_subsystem-IsRegistry}
use opi_nvidia_bridge.Subsystem.Registry.Delete.{delete_nvme_subsystem-IsRegistry}
use opi_nvidia_bridge.Subsystem.Create.Outcome.{created}
use opi_nvidia_bridge.Subsystem.Create.Success.{create_nvme_subsystem-succeeds}
use opi_nvidia_bridge.Subsystem.Delete.Outcome
use opi_nvidia_bridge.Server.Outcomes.{Removed}
use opi_nvidia_bridge.Subsystem.Delete.Success.{delete_nvme_subsystem-succeeds}
use opi_nvidia_bridge.Examples.Bridge.{
  subsystem, bridge, bridge-IsStore, bridge-ClonesFaithfully, bridge-IdsPlain,
  bridge-DeletesReliably,
}

abbrev spec : NvmeSubsystemSpec
spec = record {
  nqn = "nqn.2022-09.io.spdk:opi3";
  serial_number = "OpiSerialNumber";
  model_number = "OpiModelNumber";
}

abbrev creation : CreateRequest nvme_subsystem
creation = record {
  resource = some (record { name = ""; spec = some spec; status = none });
  resource_id = "subsystem-test";
}

abbrev deletion : DeleteRequest
deletion = record { name = "Subsystems/" <> "subsystem-test"; allow_missing = false }

abbrev first : State bridge
first = record {
  server = record { virtio_ctrls = []; nqns = []; pagination = [] };
  db = [];
  device = tt;
  entropy = tt;
  calls = [];
}

abbrev second : State bridge
second = (create_nvme_subsystem bridge creation first).1

create_nvme_subsystem_ok :
    (create_nvme_subsystem bridge creation first).0
    ≡ ok (record {
      name = "Subsystems/subsystem-test";
      spec = some spec;
      status = some (record { firmware_revision = "SPDK v20.10" });
    })
unfolding create_nvme_subsystem opi_nvidia_bridge.Exec.◌>>=◌ str_eq
    opi_nvidia_bridge.Server.new_system_generated opi_nvidia_bridge.Server.store_get lookup
    opi_nvidia_bridge.Server.get_server opi_nvidia_bridge.Server.rpc
    opi_nvidia_bridge.Server.set_server opi_nvidia_bridge.Server.store_set
create_nvme_subsystem_ok = refl

first-IsRegistry : IsRegistry bridge first.server.nqns first.db
unfolding lookup
first-IsRegistry = record {
  named = λ id v e. absurd (cc e);
  specified = λ id v e p. absurd (cc e);
  registered = λ id v sp e p. absurd (cc e);
  unique = λ id id' v v' sp sp' e e' p p' q. absurd (cc e);
}

create_nvme_subsystem-IsRegistry_example : IsRegistry bridge second.server.nqns second.db
create_nvme_subsystem-IsRegistry_example =
    create_nvme_subsystem-IsRegistry bridge bridge-IsStore bridge-ClonesFaithfully bridge-IdsPlain
      creation first first-IsRegistry

delete_nvme_subsystem-IsRegistry_example :
    let t = (delete_nvme_subsystem bridge deletion second).1 in IsRegistry bridge t.server.nqns t.db
delete_nvme_subsystem-IsRegistry_example =
    delete_nvme_subsystem-IsRegistry bridge bridge-IsStore bridge-DeletesReliably deletion
      ("subsystem-test", refl) second refl create_nvme_subsystem-IsRegistry_example

create_nvme_subsystem-Creates_example :
    Creates bridge creation first (create_nvme_subsystem bridge creation first).0 second
create_nvme_subsystem-Creates_example =
    create_nvme_subsystem-Creates bridge bridge-IsStore bridge-ClonesFaithfully creation first

delete_nvme_subsystem-Deletes_example :
    let (r, t) = delete_nvme_subsystem bridge deletion second in
    Outcome.Deletes bridge second deletion r t
delete_nvme_subsystem-Deletes_example =
    delete_nvme_subsystem-Deletes bridge bridge-IsStore deletion second

validate_spec_iff_example : (validate_spec spec ≡ none) ↔ IsValidSpec spec
validate_spec_iff_example = validate_spec_iff spec

abbrev listing : ListRequest
listing = record { page_size = pos 0; page_token = "" }

abbrev stored : NvmeSubsystem
stored = record { name = "Subsystems/subsystem-test"; spec = some spec; status = none }

spec-IsValidSpec : IsValidSpec spec
unfolding validate_spec
spec-IsValidSpec = (validate_spec_iff spec).0 refl

create_nvme_subsystem-succeeds_example :
    (create_nvme_subsystem bridge creation first).0
    ≡ ok (created (record stored { status = none }) "SPDK v20.10")
unfolding lookup str_eq has_nqn
create_nvme_subsystem-succeeds_example =
    create_nvme_subsystem-succeeds bridge bridge-ClonesFaithfully creation
      (record { name = ""; spec = some spec; status = none }) spec "SPDK v20.10" first refl refl
      refl refl refl spec-IsValidSpec refl refl refl refl refl

abbrev with_stored : State bridge
with_stored = record first { db = ("Subsystems/subsystem-test", subsystem stored) ∷ [] }

delete_nvme_subsystem-succeeds_example :
    let (r, t) = delete_nvme_subsystem bridge deletion with_stored in
    (r ≡ ok tt)
    × (t.calls ≡ delete_call spec ∷ [])
    × (t.server ≡ unregistering spec.nqn with_stored.server)
    × Removed bridge stored.name with_stored t
unfolding lookup str_eq
delete_nvme_subsystem-succeeds_example =
    delete_nvme_subsystem-succeeds bridge bridge-IsStore deletion stored spec with_stored refl refl
      refl refl refl refl
