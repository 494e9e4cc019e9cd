-- ===== src/Examples/Calls.antt =====
-- A create that is sent again, and one that is undone, on the example bridge.
use opi_nvidia_bridge.Base.{◌≡◌, refl, false, none, some, [], lookup, erase, str_eq}
use opi_nvidia_bridge.Api.Messages.{NvmeSubsystem, NvmeSubsystemSpec, nvme_subsystem}
use opi_nvidia_bridge.Api.Requests.{CreateRequest}
use opi_nvidia_bridge.Exec.{ok}
use opi_nvidia_bridge.Server.{State}
use opi_nvidia_bridge.Subsystem.Create.{create_nvme_subsystem}
use opi_nvidia_bridge.Subsystem.Delete.{delete_nvme_subsystem}
use opi_nvidia_bridge.Service.Calls.{create, delete}
use opi_nvidia_bridge.Service.Repeats.{Answers, create-Repeats}
use opi_nvidia_bridge.Service.Undone.{IsRestored, create-delete}
use opi_nvidia_bridge.Examples.Bridge.{bridge, bridge-IsStore, bridge-ClonesFaithfully}

abbrev spec : NvmeSubsystemSpec
spec = record { nqn = "nqn.2022-09.io.spdk:opi3"; serial_number = ""; model_number = "" }

abbrev creation : CreateRequest nvme_subsystem
creation = record {
  resource = some (record { name = ""; spec = some spec; status = none });
  resource_id = "subsystem-test";
}

abbrev first : State bridge
first = record {
  server = record { virtio_ctrls = []; nqns = []; pagination = [] };
  db = [];
  device = tt;
  entropy = tt;
  calls = [];
}

abbrev made : NvmeSubsystem
made = record {
  name = "Subsystems/subsystem-test";
  spec = some spec;
  status = some (record { firmware_revision = "SPDK v20.10" });
}

abbrev second : State bridge
second = (create bridge nvme_subsystem creation first).1

created_ok : (create bridge nvme_subsystem creation first).0 ≡ ok made
unfolding create_nvme_subsystem opi_nvidia_bridge.Exec.◌>>=◌ str_eq
    opi_nvidia_bridge.Server.new_system_generated opi_nvidia_bridge.Server.store_get lookup
    opi_nvidia_bridge.Server.get_server opi_nvidia_bridge.Server.rpc
    opi_nvidia_bridge.Server.set_server opi_nvidia_bridge.Server.store_set
created_ok = refl

deleted_ok : (delete bridge nvme_subsystem "Subsystems/subsystem-test" false second).0 ≡ ok tt
unfolding create_nvme_subsystem delete_nvme_subsystem opi_nvidia_bridge.Exec.◌>>=◌ str_eq
    opi_nvidia_bridge.Server.new_system_generated opi_nvidia_bridge.Server.store_get lookup
    opi_nvidia_bridge.Server.get_server opi_nvidia_bridge.Server.rpc
    opi_nvidia_bridge.Server.set_server opi_nvidia_bridge.Server.store_set
    opi_nvidia_bridge.Server.store_delete erase
deleted_ok = refl

create-Repeats_example :
    Answers bridge nvme_subsystem made second (create bridge nvme_subsystem creation second)
unfolding str_eq
create-Repeats_example =
    create-Repeats bridge bridge-IsStore bridge-ClonesFaithfully nvme_subsystem creation made first
      refl created_ok

create-delete_example :
    IsRestored bridge nvme_subsystem "Subsystems/subsystem-test" first
      (delete bridge nvme_subsystem "Subsystems/subsystem-test" false second).1
unfolding str_eq lookup
create-delete_example =
    create-delete bridge bridge-IsStore bridge-ClonesFaithfully nvme_subsystem creation made false
      first refl refl created_ok deleted_ok
