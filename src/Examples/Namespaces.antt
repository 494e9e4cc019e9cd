-- ===== src/Examples/Namespaces.antt =====
-- The handlers of namespaces on the example bridge, under one subsystem.
use opi_nvidia_bridge.Base.{
  pos, String, ◌≡◌, refl, false, none, some, [], ◌∷◌, ◌++◌, lookup, insert, str_eq, arith,
}
use opi_nvidia_bridge.Api.Messages.{NvmeNamespace, NvmeNamespaceSpec, nvme_namespace}
use opi_nvidia_bridge.Api.Requests.{CreateChildRequest, DeleteRequest}
use opi_nvidia_bridge.Models.{Rpc}
use opi_nvidia_bridge.Exec.{ok, panic}
use opi_nvidia_bridge.Server.{State}
use opi_nvidia_bridge.Namespace.Create.{attach, create_nvme_namespace}
use opi_nvidia_bridge.Namespace.Create.Outcome as Attachment
use opi_nvidia_bridge.Namespace.Create.Paths.{create_nvme_namespace-Creates}
use opi_nvidia_bridge.Namespace.Create.Eui64.{read_eui64, attach-eui64}
use opi_nvidia_bridge.Namespace.Delete.{delete_nvme_namespace}
use opi_nvidia_bridge.Namespace.Delete.Outcome as Detachment
use opi_nvidia_bridge.Namespace.Delete.Paths.{delete_nvme_namespace-Deletes}
use opi_nvidia_bridge.Namespace.Stats.Reading.{NamespaceReads, BlkReads, stats-Reads}
use opi_nvidia_bridge.Namespace.Stats.{stats_nvme_namespace}
use opi_nvidia_bridge.Virtio.Queries.{stats_virtio_blk}
use opi_nvidia_bridge.Api.Requests.{StatsRequest}
use opi_nvidia_bridge.Namespace.Create.Success.{create_nvme_namespace-succeeds}
use opi_nvidia_bridge.Namespace.Delete.Outcome.{detach_call}
use opi_nvidia_bridge.Server.Outcomes.{Removed}
use opi_nvidia_bridge.Namespace.Delete.Success.{delete_nvme_namespace-succeeds}
use opi_nvidia_bridge.Api.Requests.{ListChildrenRequest}
use opi_nvidia_bridge.Base.{pos}
use opi_nvidia_bridge.Examples.Bridge
use opi_nvidia_bridge.Examples.Bridge.{subsystem}
use opi_nvidia_bridge.Examples.Parent.{parent_spec}
use opi_nvidia_bridge.Examples.Bridge.{bridge, bridge-IsStore, bridge-ClonesFaithfully}
use opi_nvidia_bridge.Examples.Parent.{parent, first}

abbrev namespace_spec : NvmeNamespaceSpec
namespace_spec = record {
  host_nsid = pos 22;
  volume_name_ref = "Malloc1";
  uuid = "1b4e28ba-2fa1-11d2-883f-b9a761bde3fb";
  nguid = "1b4e28ba2fa111d2883fb9a761bde3fb";
  eui64 = pos 1967554867335598546;
}

abbrev namespace : NvmeNamespace
namespace = record { name = ""; spec = some namespace_spec; status = none }

abbrev namespace_creation : CreateChildRequest nvme_namespace
namespace_creation = record {
  parent = "Subsystems/subsystem-test";
  resource = some namespace;
  resource_id = "namespace-test";
}

abbrev with_namespace : State bridge
with_namespace = (create_nvme_namespace bridge namespace_creation first).1

abbrev namespace_name : String
namespace_name = "Namespaces/subsystem-test/namespace-test"

abbrev namespace_deletion : DeleteRequest
namespace_deletion = record { name = namespace_name; allow_missing = false }

create_nvme_namespace-Creates_example :
    Attachment.Creates bridge namespace_creation first
      (create_nvme_namespace bridge namespace_creation first).0
      with_namespace
create_nvme_namespace-Creates_example =
    create_nvme_namespace-Creates bridge bridge-IsStore bridge-ClonesFaithfully namespace_creation
      first

delete_nvme_namespace_ok :
    (delete_nvme_namespace bridge namespace_deletion with_namespace).0 ≡ ok tt
unfolding delete_nvme_namespace create_nvme_namespace opi_nvidia_bridge.Exec.◌>>=◌
    opi_nvidia_bridge.Server.store_get lookup str_eq opi_nvidia_bridge.Server.new_system_generated
    opi_nvidia_bridge.Server.rpc opi_nvidia_bridge.Server.store_set insert
    opi_nvidia_bridge.Server.store_delete
delete_nvme_namespace_ok = refl

delete_nvme_namespace-Deletes_example :
    let (r, t) = delete_nvme_namespace bridge namespace_deletion with_namespace in
    Detachment.Deletes bridge namespace_deletion with_namespace r t
delete_nvme_namespace-Deletes_example =
    delete_nvme_namespace-Deletes bridge bridge-IsStore namespace_deletion with_namespace

attach_ok : (attach bridge namespace parent first).0 ≡ ok (Attachment.created namespace)
unfolding attach opi_nvidia_bridge.Exec.◌>>=◌ opi_nvidia_bridge.Server.rpc
    opi_nvidia_bridge.Server.store_set
attach_ok = refl

attach-eui64_example :
    (c : Rpc) × ((attach bridge namespace parent first).1.calls ≡ [] ++ c ∷ [])
    × (read_eui64 c ≡ some (pos 1967554867335598546))
attach-eui64_example =
    attach-eui64 bridge bridge-IsStore bridge-ClonesFaithfully namespace parent first namespace_spec
      (Attachment.created namespace) refl (omega arith) attach_ok

abbrev stored : NvmeNamespace
stored = Attachment.created (record namespace { name = namespace_name })

create_nvme_namespace-succeeds_example :
    (create_nvme_namespace bridge namespace_creation first).0 ≡ ok stored
unfolding lookup str_eq
create_nvme_namespace-succeeds_example =
    create_nvme_namespace-succeeds bridge bridge-ClonesFaithfully namespace_creation namespace
      namespace_spec parent parent_spec first refl refl refl refl refl refl refl refl refl refl refl

abbrev with_stored : State bridge
with_stored = record first {
  db =
      (namespace_name, Bridge.namespace stored)
      ∷ ("Subsystems/subsystem-test", subsystem parent)
      ∷ [];
}

delete_nvme_namespace-succeeds_example :
    let (r, t) = delete_nvme_namespace bridge namespace_deletion with_stored in
    (r ≡ ok tt)
    × (t.calls ≡ detach_call namespace_spec parent_spec ∷ [])
    × (t.server ≡ with_stored.server)
    × Removed bridge stored.name with_stored t
unfolding lookup str_eq
delete_nvme_namespace-succeeds_example =
    delete_nvme_namespace-succeeds bridge bridge-IsStore namespace_deletion stored namespace_spec
      parent parent_spec with_stored refl refl refl refl refl refl refl refl

abbrev listing : ListChildrenRequest
listing = record { parent = "Subsystems/subsystem-test"; page_size = pos 0; page_token = "" }

abbrev counting : StatsRequest
counting = record { name = namespace_name }

stats-Reads_example :
    (let (r, t) = stats_nvme_namespace bridge counting with_stored in
      NamespaceReads bridge counting with_stored r t)
    × (let (r, t) = stats_virtio_blk bridge counting with_stored in
        BlkReads bridge counting with_stored r t)
stats-Reads_example = stats-Reads bridge bridge-IsStore counting with_stored
