-- ===== src/Service.antt =====
-- The service as a state machine: a step is one call of any handler of pkg/frontend with any request;
-- the name in a request to delete has the form of its kind.
pub mod Named
pub mod Subsystems
pub mod Controllers
pub mod Namespaces
pub mod Blks
pub mod Sound
pub mod Spec
pub mod Formed
pub mod Refines
pub mod Rejected
pub mod Unimplemented
pub mod Queries
pub mod Calls
pub mod Repeats
pub mod Undone
use opi_nvidia_bridge.Base.{String, ◌≡◌}
use opi_nvidia_bridge.Api.Messages.{nvme_subsystem, nvme_controller, nvme_namespace, virtio_blk}
use opi_nvidia_bridge.Api.Requests.{CreateRequest, CreateChildRequest, DeleteRequest}
use opi_nvidia_bridge.Externals.{Externals}
use opi_nvidia_bridge.Externals.Laws.{PlainId, subsystem_name, controller_name, namespace_name}
use opi_nvidia_bridge.Server.{State}
use opi_nvidia_bridge.Subsystem.Create.{create_nvme_subsystem}
use opi_nvidia_bridge.Subsystem.Delete.{delete_nvme_subsystem}
use opi_nvidia_bridge.Controller.Create.{create_nvme_controller}
use opi_nvidia_bridge.Controller.Delete.{delete_nvme_controller}
use opi_nvidia_bridge.Namespace.Create.{create_nvme_namespace}
use opi_nvidia_bridge.Namespace.Delete.{delete_nvme_namespace}
use opi_nvidia_bridge.Service.Queries.{Query}
use opi_nvidia_bridge.Virtio.Create.{create_virtio_blk}
use opi_nvidia_bridge.Virtio.Delete.{delete_virtio_blk}

module _ (E : Externals) where
  pub data Step (s : State E) : State E → Type 0 where
    create_subsystem :
        (req : CreateRequest nvme_subsystem) → Step s (create_nvme_subsystem E req s).1
    delete_subsystem :
        (req : DeleteRequest) (i : PlainId)
        → req.name ≡ subsystem_name E i
        → Step s (delete_nvme_subsystem E req s).1
    create_controller :
        (req : CreateChildRequest nvme_controller) → Step s (create_nvme_controller E req s).1
    delete_controller :
        (req : DeleteRequest) (i : PlainId) (j : String)
        → req.name ≡ controller_name E i j
        → Step s (delete_nvme_controller E req s).1
    create_namespace :
        (req : CreateChildRequest nvme_namespace) → Step s (create_nvme_namespace E req s).1
    delete_namespace :
        (req : DeleteRequest) (i : PlainId) (j : String)
        → req.name ≡ namespace_name E i j
        → Step s (delete_nvme_namespace E req s).1
    create_blk : (req : CreateRequest virtio_blk) → Step s (create_virtio_blk E req s).1
    delete_blk : (req : DeleteRequest) → Step s (delete_virtio_blk E req s).1
    query : {t : State E} → Query E s t → Step s t

  -- The states after any number of steps.
  pub data Reachable (s : State E) : State E → Type 0 where
    start : Reachable s s
    step : {t u : State E} → Reachable s t → Step t u → Reachable s u
