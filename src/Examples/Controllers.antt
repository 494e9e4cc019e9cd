-- ===== src/Examples/Controllers.antt =====
-- The handlers of controllers on the example bridge, under one subsystem.
use opi_nvidia_bridge.Base.{pos, ◌≡◌, refl, true, false, none, some, lookup, insert, str_eq}
use opi_nvidia_bridge.Api.Messages.{NvmeControllerSpec, pcie, nvme_controller}
use opi_nvidia_bridge.Api.Requests.{
  CreateChildRequest, DeleteRequest, GetRequest, ListChildrenRequest,
}
use opi_nvidia_bridge.Exec.{ok, panic}
use opi_nvidia_bridge.Server.{State}
use opi_nvidia_bridge.Controller.Create.{create_nvme_controller}
use opi_nvidia_bridge.Controller.Create.Outcome
use opi_nvidia_bridge.Controller.Delete.{delete_nvme_controller}
use opi_nvidia_bridge.Controller.Delete.Outcome as Deletion
use opi_nvidia_bridge.Controller.Delete.Paths.{delete_nvme_controller-Deletes}
use opi_nvidia_bridge.Controller.Queries.{list_nvme_controllers, get_nvme_controller}
use opi_nvidia_bridge.Controller.Queries.Finding.{Gets, get_nvme_controller-Gets}
use opi_nvidia_bridge.Controller.Queries.Listing.{Lists, list_nvme_controllers-Lists}
use opi_nvidia_bridge.Api.Messages.{NvmeController}
use opi_nvidia_bridge.Controller.Create.Success.{create_nvme_controller-succeeds}
use opi_nvidia_bridge.Controller.Delete.Outcome.{delete_call}
use opi_nvidia_bridge.Server.Outcomes.{Removed}
use opi_nvidia_bridge.Controller.Delete.Success.{delete_nvme_controller-succeeds}
use opi_nvidia_bridge.Examples.Bridge.{subsystem, controller}
use opi_nvidia_bridge.Base.{◌∷◌, []}
use opi_nvidia_bridge.Examples.Parent.{parent_spec, parent}
use opi_nvidia_bridge.Examples.Bridge.{bridge, bridge-IsStore, bridge-ClonesFaithfully}
use opi_nvidia_bridge.Examples.Parent.{first}

abbrev controller_spec : NvmeControllerSpec
controller_spec = record {
  trtype = pcie;
  pcie_id = some (record {
    physical_function = some (pos 1);
    virtual_function = some (pos 2);
    port_id = some (pos 0);
  });
  nvme_controller_id = none;
}

abbrev controller_creation : CreateChildRequest nvme_controller
controller_creation = record {
  parent = "Subsystems/subsystem-test";
  resource = some (record { name = ""; spec = some controller_spec; status = none });
  resource_id = "ctrl-test";
}

abbrev with_controller : State bridge
with_controller = (create_nvme_controller bridge controller_creation first).1

abbrev controller_deletion : DeleteRequest
controller_deletion = record {
  name = "Controllers/subsystem-test/ctrl-test";
  allow_missing = false;
}

create_nvme_controller_ok :
    (create_nvme_controller bridge controller_creation first).0
    ≡ ok (record {
      name = "Controllers/subsystem-test/ctrl-test";
      spec = some (record controller_spec { nvme_controller_id = some (pos 17) });
      status = some (record { active = true });
    })
unfolding create_nvme_controller opi_nvidia_bridge.Exec.◌>>=◌ str_eq
    opi_nvidia_bridge.Server.new_system_generated opi_nvidia_bridge.Server.store_get lookup
    opi_nvidia_bridge.Server.rpc opi_nvidia_bridge.Server.store_set
create_nvme_controller_ok = refl

delete_nvme_controller_ok :
    (delete_nvme_controller bridge controller_deletion with_controller).0 ≡ ok tt
unfolding delete_nvme_controller create_nvme_controller opi_nvidia_bridge.Exec.◌>>=◌
    opi_nvidia_bridge.Server.store_get lookup str_eq opi_nvidia_bridge.Server.new_system_generated
    opi_nvidia_bridge.Server.rpc opi_nvidia_bridge.Server.store_set insert
    opi_nvidia_bridge.Server.store_delete
delete_nvme_controller_ok = refl

delete_nvme_controller-Deletes_example :
    let (r, t) = delete_nvme_controller bridge controller_deletion with_controller in
    Deletion.Deletes bridge controller_deletion with_controller r t
delete_nvme_controller-Deletes_example =
    delete_nvme_controller-Deletes bridge bridge-IsStore controller_deletion with_controller

abbrev controller_listing : ListChildrenRequest
controller_listing = record {
  parent = "Subsystems/subsystem-test";
  page_size = pos 0;
  page_token = "";
}

-- The device lists a controller of the subsystem and a virtio-blk controller: the list panics.
list_nvme_controllers_panics : (list_nvme_controllers bridge controller_listing first).0 ≡ panic
unfolding list_nvme_controllers opi_nvidia_bridge.Exec.◌>>=◌ opi_nvidia_bridge.Server.get_server
    opi_nvidia_bridge.Server.store_get lookup str_eq opi_nvidia_bridge.Server.rpc
list_nvme_controllers_panics = refl

list_nvme_controllers-Lists_example :
    Lists bridge controller_listing first (list_nvme_controllers bridge controller_listing first).0
list_nvme_controllers-Lists_example =
    list_nvme_controllers-Lists bridge bridge-IsStore controller_listing first

abbrev stored : NvmeController
stored = record {
  name = "Controllers/subsystem-test/ctrl-test";
  spec = some (record controller_spec { nvme_controller_id = some (pos 17) });
  status = some (record { active = true });
}

create_nvme_controller-succeeds_example :
    (create_nvme_controller bridge controller_creation first).0 ≡ ok stored
unfolding lookup str_eq opi_nvidia_bridge.Base.to_int32
create_nvme_controller-succeeds_example =
    create_nvme_controller-succeeds bridge bridge-ClonesFaithfully controller_creation
      (record { name = ""; spec = some controller_spec; status = none }) controller_spec
      (record {
        physical_function = some (pos 1);
        virtual_function = some (pos 2);
        port_id = some (pos 0);
      })
      parent parent_spec (record { name = "ctrl"; cntlid = pos 17 }) first refl refl refl refl refl
      refl refl refl refl refl refl refl refl refl

abbrev with_stored : State bridge
with_stored = record first {
  db =
      ("Controllers/subsystem-test/ctrl-test", controller stored)
      ∷ ("Subsystems/subsystem-test", subsystem parent)
      ∷ [];
}

delete_nvme_controller-succeeds_example :
    let (r, t) = delete_nvme_controller bridge controller_deletion with_stored in
    (r ≡ ok tt)
    × (t.calls ≡ delete_call parent_spec (pos 17) ∷ [])
    × (t.server ≡ with_stored.server)
    × Removed bridge stored.name with_stored t
unfolding lookup str_eq
delete_nvme_controller-succeeds_example =
    delete_nvme_controller-succeeds bridge bridge-IsStore controller_deletion stored
      (record controller_spec { nvme_controller_id = some (pos 17) }) (pos 17) parent parent_spec
      with_stored refl refl refl refl refl refl refl refl refl

get_nvme_controller-Gets_example :
    let req : GetRequest = record { name = "Controllers/subsystem-test/ctrl-test" } in
    let (r, t) = get_nvme_controller bridge req with_stored in Gets bridge req with_stored r t
get_nvme_controller-Gets_example =
    get_nvme_controller-Gets bridge bridge-IsStore
      (record { name = "Controllers/subsystem-test/ctrl-test" }) with_stored
