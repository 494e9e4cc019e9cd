-- ===== src/Examples/Runs.antt =====
-- A run of the service on the example bridge.
use opi_nvidia_bridge.Base.{◌∷◌, String, ◌≡◌, refl, pos, false, none, some, [], lookup}
use opi_nvidia_bridge.Api.Messages.{
  Kind, pcie, nvme_subsystem, nvme_controller, nvme_namespace, virtio_blk,
}
use opi_nvidia_bridge.Subsystem.Create.{has_nqn}
use opi_nvidia_bridge.Subsystem.Queries.{update_nvme_subsystem}
use opi_nvidia_bridge.Controller.Queries.{update_nvme_controller}
use opi_nvidia_bridge.Namespace.Queries.{update_nvme_namespace}
use opi_nvidia_bridge.Virtio.Queries.{update_virtio_blk}
use opi_nvidia_bridge.Service.Spec.{View, creates, deletes, Run}
use opi_nvidia_bridge.Service.Refines.{IsName, held, Represents}
use opi_nvidia_bridge.Service.Refines.Runs.{Reachable-Run}
use opi_nvidia_bridge.Service.Refines.Kept.{KeepsFormed, Reachable-KeepsFormed}
use opi_nvidia_bridge.Service.Refines.Pointers.{IsSturdy, Reachable-IsSturdy}
use opi_nvidia_bridge.Service.Unimplemented.{Refused, updates-Reject}
use opi_nvidia_bridge.Api.Requests.{CreateRequest, CreateChildRequest, DeleteRequest}
use opi_nvidia_bridge.Server.{State}
use opi_nvidia_bridge.Subsystem.Create.{create_nvme_subsystem}
use opi_nvidia_bridge.Controller.Create.{create_nvme_controller}
use opi_nvidia_bridge.Controller.Delete.{delete_nvme_controller}
use opi_nvidia_bridge.Virtio.Keyed.{IsKeyed}
use opi_nvidia_bridge.Service.{
  Reachable, start, step, create_subsystem, create_controller, delete_controller,
}
use opi_nvidia_bridge.Service.Named.{IsNamed}
use opi_nvidia_bridge.Service.Sound.{IsSound, Reachable-IsSound}
use opi_nvidia_bridge.Examples.Bridge.{
  bridge, bridge-IsStore, bridge-ClonesFaithfully, bridge-IdsPlain, bridge-NamesApart,
  bridge-DeletesReliably,
}

abbrev empty : State bridge
empty = record {
  server = record { virtio_ctrls = []; nqns = []; pagination = [] };
  db = [];
  device = tt;
  entropy = tt;
  calls = [];
}

abbrev subsystem_creation : CreateRequest nvme_subsystem
subsystem_creation = record {
  resource = some (record {
    name = "";
    spec =
        some (record { nqn = "nqn.2022-09.io.spdk:opi3"; serial_number = ""; model_number = "" });
    status = none;
  });
  resource_id = "subsystem-test";
}

abbrev controller_creation : CreateChildRequest nvme_controller
controller_creation = record {
  parent = "Subsystems/subsystem-test";
  resource = some (record {
    name = "";
    spec = some (record {
      trtype = pcie;
      pcie_id =
          some
            (record { physical_function = some (pos 1); virtual_function = none; port_id = none });
      nvme_controller_id = none;
    });
    status = none;
  });
  resource_id = "ctrl-test";
}

abbrev controller_deletion : DeleteRequest
controller_deletion = record {
  name = "Controllers/subsystem-test/ctrl-test";
  allow_missing = false;
}

abbrev last : State bridge
last =
    let s = (create_nvme_subsystem bridge subsystem_creation empty).1 in
    let t = (create_nvme_controller bridge controller_creation s).1 in
    (delete_nvme_controller bridge controller_deletion t).1

abbrev run : Reachable bridge empty last
run =
    step
      (step (step start (create_subsystem subsystem_creation))
        (create_controller controller_creation))
      (delete_controller controller_deletion ("subsystem-test", refl) "ctrl-test" refl)

empty-IsSound : IsSound bridge empty
unfolding lookup IsNamed IsKeyed
empty-IsSound = record {
  registry = record {
    named = λ id v e. absurd (cc e);
    specified = λ id v e p. absurd (cc e);
    registered = λ id v sp e p. absurd (cc e);
    unique = λ id id' v v' sp sp' e e' p p' q. absurd (cc e);
  };
  controllers = λ i j m e. absurd (cc e);
  namespaces = λ i j m e. absurd (cc e);
  blks = λ key blk e. absurd (cc e);
}

Reachable-IsSound_example : IsSound bridge last
Reachable-IsSound_example =
    Reachable-IsSound bridge bridge-IsStore bridge-ClonesFaithfully bridge-IdsPlain
      bridge-NamesApart bridge-DeletesReliably run empty-IsSound

abbrev nothing : View
nothing = record { objects = λ k name. none; registered = λ nqn. false }

empty_held : (k : Kind) (name : String) → held bridge empty k name ≡ none
unfolding lookup
empty_held nvme_subsystem name = refl
empty_held nvme_controller name = refl
empty_held nvme_namespace name = refl
empty_held virtio_blk name = refl

empty-Represents : Represents bridge empty nothing
unfolding has_nqn
empty-Represents = record {
  objects = λ k name i. empty_held k name;
  sound = λ k name m i e. absurd (cc e);
  registered = λ nqn. refl;
}

Reachable-Run_example :
    (v : View) × Run
      (IsName bridge)
      nothing
      (deletes nvme_controller "Controllers/subsystem-test/ctrl-test"
        ∷ creates nvme_controller
        ∷ creates nvme_subsystem
        ∷ [])
      v
    × Represents bridge last v
Reachable-Run_example =
    Reachable-Run bridge bridge-IsStore bridge-ClonesFaithfully bridge-IdsPlain bridge-NamesApart
      nothing empty-Represents run

Reachable-KeepsFormed_example : KeepsFormed bridge last
Reachable-KeepsFormed_example =
    Reachable-KeepsFormed bridge bridge-IsStore bridge-ClonesFaithfully bridge-IdsPlain
      bridge-NamesApart nothing empty-Represents run

Reachable-IsSturdy_example : IsSturdy bridge last ("subsystem-test", refl) "ctrl-test" "other" false
Reachable-IsSturdy_example =
    Reachable-IsSturdy bridge bridge-IsStore bridge-ClonesFaithfully bridge-IdsPlain
      bridge-NamesApart nothing empty-Represents run ("subsystem-test", refl) "ctrl-test" "other"
      false

updates-Reject_example :
    Refused bridge bridge-IsStore last
      (update_nvme_subsystem bridge)
      "UpdateNvmeSubsystem method is not implemented"
    × Refused bridge bridge-IsStore last
        (update_nvme_controller bridge)
        "UpdateNvmeController method is not implemented"
    × Refused bridge bridge-IsStore last
        (update_nvme_namespace bridge)
        "UpdateNvmeNamespace method is not implemented"
    × Refused bridge bridge-IsStore last
        (update_virtio_blk bridge)
        "UpdateVirtioBlk method is not implemented"
updates-Reject_example = updates-Reject bridge bridge-IsStore last
