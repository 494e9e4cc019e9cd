-- ===== src/Service/Calls.antt =====
-- The handlers of pkg/frontend that create and delete, by the kind of the object.
pub mod Outcomes
pub mod Creates
pub mod Deletes
use opi_nvidia_bridge.Base.{String, Bool}
use opi_nvidia_bridge.Api.Messages.{
  Kind, Message, nvme_subsystem, nvme_controller, nvme_namespace, virtio_blk,
}
use opi_nvidia_bridge.Api.Requests.{CreateRequest, CreateChildRequest}
use opi_nvidia_bridge.Externals.{Externals}
use opi_nvidia_bridge.Server.{Method}
use opi_nvidia_bridge.Subsystem.Create.{create_nvme_subsystem}
use opi_nvidia_bridge.Subsystem.Delete.{delete_nvme_subsystem}
use opi_nvidia_bridge.Controller.Create.{create_nvme_controller}
use opi_nvidia_bridge.Controller.Delete.{delete_nvme_controller}
use opi_nvidia_bridge.Namespace.Create.{create_nvme_namespace}
use opi_nvidia_bridge.Namespace.Delete.{delete_nvme_namespace}
use opi_nvidia_bridge.Virtio.Create.{create_virtio_blk}
use opi_nvidia_bridge.Virtio.Delete.{delete_virtio_blk}

-- Controllers and namespaces have a parent.
abbrev pub Creation : Kind → Type 0
Creation nvme_subsystem = CreateRequest nvme_subsystem
Creation nvme_controller = CreateChildRequest nvme_controller
Creation nvme_namespace = CreateChildRequest nvme_namespace
Creation virtio_blk = CreateRequest virtio_blk

abbrev pub resource_id : (k : Kind) → Creation k → String
resource_id nvme_subsystem req = req.resource_id
resource_id nvme_controller req = req.resource_id
resource_id nvme_namespace req = req.resource_id
resource_id virtio_blk req = req.resource_id

module _ (E : Externals) where
  -- The name of the object, where the request gives an identifier.
  abbrev pub requested_name : (k : Kind) → Creation k → String
  requested_name nvme_subsystem req = E.resource_id_to_subsystem_name req.resource_id
  requested_name nvme_controller req =
      E.resource_id_to_controller_name (E.get_subsystem_id_from_nvme_name req.parent)
        req.resource_id
  requested_name nvme_namespace req =
      E.resource_id_to_namespace_name (E.get_subsystem_id_from_nvme_name req.parent) req.resource_id
  requested_name virtio_blk req = E.resource_id_to_volume_name req.resource_id

  abbrev pub create : (k : Kind) → Creation k → Method E (Message k)
  create nvme_subsystem = create_nvme_subsystem E
  create nvme_controller = create_nvme_controller E
  create nvme_namespace = create_nvme_namespace E
  create virtio_blk = create_virtio_blk E

  abbrev pub delete : Kind → String → Bool → Method E (Unit {0})
  delete nvme_subsystem name allow_missing =
      delete_nvme_subsystem E (record { name = name; allow_missing = allow_missing })
  delete nvme_controller name allow_missing =
      delete_nvme_controller E (record { name = name; allow_missing = allow_missing })
  delete nvme_namespace name allow_missing =
      delete_nvme_namespace E (record { name = name; allow_missing = allow_missing })
  delete virtio_blk name allow_missing =
      delete_virtio_blk E (record { name = name; allow_missing = allow_missing })
