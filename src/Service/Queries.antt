-- ===== src/Service/Queries.antt =====
-- The handlers of pkg/frontend that neither create nor delete: they keep the registry, the map of
-- virtio-blk controllers and what is stored.
use opi_nvidia_bridge.Base.{String, Option, none, some}
use opi_nvidia_bridge.Api.Messages.{
  VolumeStats, nvme_subsystem, nvme_controller, nvme_namespace, virtio_blk,
}
use opi_nvidia_bridge.Api.Requests.{
  UpdateRequest, ListRequest, ListChildrenRequest, GetRequest, StatsRequest,
}
use opi_nvidia_bridge.Models.{
  subsystem_nvme_list, controller_list, controller_nvme_get_iostat,
  controller_virtio_blk_get_iostat,
}
use opi_nvidia_bridge.Externals.{Externals}
use opi_nvidia_bridge.Externals.Laws.{IsStore}
use opi_nvidia_bridge.Server.{State}
use opi_nvidia_bridge.Server.Keeps.{
  Observes, Observes-untouched, Keeps, Keeps-pure, Keeps-fail, Keeps-check, Keeps-require,
  Keeps-deref, Keeps-rpc, Keeps-store_get, ◌then◌, Keeps-extract_pagination, Keeps-limit_pagination,
}
use opi_nvidia_bridge.Subsystem.Validate as Subsystems
use opi_nvidia_bridge.Controller.Validate as Controllers
use opi_nvidia_bridge.Namespace.Validate as Namespaces
use opi_nvidia_bridge.Virtio.Validate as Blks
use opi_nvidia_bridge.Subsystem.Queries.{
  update_nvme_subsystem, list_nvme_subsystems, get_nvme_subsystem, stats_nvme_subsystem,
}
use opi_nvidia_bridge.Subsystem.Queries.Finding as SubsystemFinding
use opi_nvidia_bridge.Subsystem.Queries.Finding.{get_nvme_subsystem-Gets}
use opi_nvidia_bridge.Controller.Queries.Finding as ControllerFinding
use opi_nvidia_bridge.Controller.Queries.Finding.{get_nvme_controller-Gets}
use opi_nvidia_bridge.Namespace.Queries.Finding as NamespaceFinding
use opi_nvidia_bridge.Namespace.Queries.Finding.{list_call, get_nvme_namespace-Gets}
use opi_nvidia_bridge.Virtio.Queries.Finding as BlkFinding
use opi_nvidia_bridge.Virtio.Queries.Finding.{get_virtio_blk-Gets}
use opi_nvidia_bridge.Controller.Queries.{
  update_nvme_controller, list_nvme_controllers, get_nvme_controller, stats_nvme_controller,
}
use opi_nvidia_bridge.Namespace.Queries.{
  update_nvme_namespace, list_nvme_namespaces, get_nvme_namespace,
}
use opi_nvidia_bridge.Namespace.Stats.{stats_nvme_namespace, or_no_stats}
use opi_nvidia_bridge.Virtio.Queries.{
  update_virtio_blk, list_virtio_blks, get_virtio_blk, stats_virtio_blk,
}
use opi_nvidia_bridge.Service.Unimplemented.{updates-Reject}

module _ (E : Externals) where
  -- A call of a handler that neither creates nor deletes.
  pub data Query (s : State E) : State E → Type 0 where
    update_subsystem :
        (req : UpdateRequest nvme_subsystem) → Query s (update_nvme_subsystem E req s).1
    update_controller :
        (req : UpdateRequest nvme_controller) → Query s (update_nvme_controller E req s).1
    update_namespace :
        (req : UpdateRequest nvme_namespace) → Query s (update_nvme_namespace E req s).1
    update_blk : (req : UpdateRequest virtio_blk) → Query s (update_virtio_blk E req s).1
    list_subsystems : (req : ListRequest) → Query s (list_nvme_subsystems E req s).1
    list_controllers : (req : ListChildrenRequest) → Query s (list_nvme_controllers E req s).1
    list_namespaces : (req : ListChildrenRequest) → Query s (list_nvme_namespaces E req s).1
    list_blks : (req : ListRequest) → Query s (list_virtio_blks E req s).1
    get_subsystem : (req : GetRequest) → Query s (get_nvme_subsystem E req s).1
    get_controller : (req : GetRequest) → Query s (get_nvme_controller E req s).1
    get_namespace : (req : GetRequest) → Query s (get_nvme_namespace E req s).1
    get_blk : (req : GetRequest) → Query s (get_virtio_blk E req s).1
    stats_subsystem : (req : StatsRequest) → Query s (stats_nvme_subsystem E req s).1
    stats_controller : (req : StatsRequest) → Query s (stats_nvme_controller E req s).1
    stats_namespace : (req : StatsRequest) → Query s (stats_nvme_namespace E req s).1
    stats_blk : (req : StatsRequest) → Query s (stats_virtio_blk E req s).1

module _ (E : Externals) (L : IsStore E) where
  list_nvme_subsystems-Keeps : (req : ListRequest) → Keeps E (list_nvme_subsystems E req)
  unfolding list_nvme_subsystems
  list_nvme_subsystems-Keeps req = Keeps-check _ then λ _.
      Keeps-extract_pagination _ _ then λ (size, offset).
      Keeps-rpc subsystem_nvme_list then λ result.
      Keeps-limit_pagination result offset size then λ page.
      Keeps-deref _ then λ sorted. Keeps-pure _

  list_nvme_controllers-Keeps : (req : ListChildrenRequest) → Keeps E (list_nvme_controllers E req)
  unfolding list_nvme_controllers
  list_nvme_controllers-Keeps req = Keeps-check _ then λ _.
      Keeps-extract_pagination _ _ then λ (size, offset).
      Keeps-store_get L nvme_subsystem _ then λ found. Keeps-require _ _ then λ _.
      Keeps-deref found then λ subsystem. Keeps-rpc controller_list then λ result.
      Keeps-limit_pagination result offset size then λ page.
      Keeps-deref _ then λ blobs. Keeps-deref _ then λ sorted. Keeps-pure _

  list_nvme_namespaces-Keeps : (req : ListChildrenRequest) → Keeps E (list_nvme_namespaces E req)
  unfolding list_nvme_namespaces
  list_nvme_namespaces-Keeps req = Keeps-check _ then λ _.
      Keeps-extract_pagination _ _ then λ (size, offset).
      Keeps-store_get L nvme_subsystem _ then λ found. Keeps-require _ _ then λ _.
      Keeps-deref found then λ subsystem. Keeps-deref _ then λ spec.
      Keeps-rpc (list_call spec) then λ result.
      Keeps-limit_pagination result.namespaces offset size then λ page.
      Keeps-deref _ then λ sorted. Keeps-pure _

  list_virtio_blks-Keeps : (req : ListRequest) → Keeps E (list_virtio_blks E req)
  unfolding list_virtio_blks
  list_virtio_blks-Keeps req = Keeps-check _ then λ _.
      Keeps-extract_pagination _ _ then λ (size, offset). Keeps-rpc controller_list then λ result.
      Keeps-limit_pagination result offset size then λ page.
      Keeps-deref _ then λ sorted. Keeps-pure _

  or_no_stats-Keeps :
      (format name : String) (found : Option VolumeStats)
      → Keeps E (or_no_stats E format name found)
  or_no_stats-Keeps format name none = Keeps-fail _
  or_no_stats-Keeps format name (some stats) = Keeps-pure stats

  stats_nvme_subsystem-Keeps : (req : StatsRequest) → Keeps E (stats_nvme_subsystem E req)
  unfolding stats_nvme_subsystem Subsystems.validate_stats
  stats_nvme_subsystem-Keeps req = (Keeps-check _ then λ _. Keeps-check _) then λ _. Keeps-fail _

  stats_nvme_controller-Keeps : (req : StatsRequest) → Keeps E (stats_nvme_controller E req)
  unfolding stats_nvme_controller Controllers.validate_stats
  stats_nvme_controller-Keeps req = (Keeps-check _ then λ _. Keeps-check _) then λ _. Keeps-fail _

  stats_nvme_namespace-Keeps : (req : StatsRequest) → Keeps E (stats_nvme_namespace E req)
  unfolding stats_nvme_namespace Namespaces.validate_stats
  stats_nvme_namespace-Keeps req = (Keeps-check _ then λ _. Keeps-check _) then λ _.
      Keeps-store_get L nvme_namespace _ then λ found. Keeps-require _ _ then λ _.
      Keeps-deref found then λ namespace. Keeps-rpc controller_nvme_get_iostat then λ result.
      Keeps-deref _ then λ spec. or_no_stats-Keeps _ _ _

  stats_virtio_blk-Keeps : (req : StatsRequest) → Keeps E (stats_virtio_blk E req)
  unfolding stats_virtio_blk Blks.validate_stats
  stats_virtio_blk-Keeps req = (Keeps-check _ then λ _. Keeps-check _) then λ _.
      Keeps-rpc controller_virtio_blk_get_iostat then λ result. or_no_stats-Keeps _ _ _

  pub Query-Observes : {s t : State E} → Query E s t → Observes E s t
  Query-Observes {s} (update_subsystem req) =
      Observes-untouched E ((updates-Reject E L s).0 req).2.untouched
  Query-Observes {s} (update_controller req) =
      Observes-untouched E ((updates-Reject E L s).1 req).2.untouched
  Query-Observes {s} (update_namespace req) =
      Observes-untouched E ((updates-Reject E L s).2 req).2.untouched
  Query-Observes {s} (update_blk req) =
      Observes-untouched E ((updates-Reject E L s).3 req).2.untouched
  Query-Observes {s} (list_subsystems req) = (list_nvme_subsystems-Keeps req).keeps s
  Query-Observes {s} (list_controllers req) = (list_nvme_controllers-Keeps req).keeps s
  Query-Observes {s} (list_namespaces req) = (list_nvme_namespaces-Keeps req).keeps s
  Query-Observes {s} (list_blks req) = (list_virtio_blks-Keeps req).keeps s
  Query-Observes {s} (get_subsystem req) = elim (get_nvme_subsystem-Gets E L req s) [
    | SubsystemFinding.fails _ u ↦ Observes-untouched E u
    | SubsystemFinding.unlisted _ _ _ _ u ↦ Observes-untouched E u
    | SubsystemFinding.finds _ _ _ _ u ↦ Observes-untouched E u
  ]
  Query-Observes {s} (get_controller req) = elim (get_nvme_controller-Gets E L req s) [
    | ControllerFinding.fails _ u ↦ Observes-untouched E u
    | ControllerFinding.unlisted _ _ _ _ u ↦ Observes-untouched E u
    | ControllerFinding.finds _ _ _ _ u ↦ Observes-untouched E u
  ]
  Query-Observes {s} (get_namespace req) = elim (get_nvme_namespace-Gets E L req s) [
    | NamespaceFinding.fails _ u ↦ Observes-untouched E u
    | NamespaceFinding.unlisted _ _ _ _ u ↦ Observes-untouched E u
    | NamespaceFinding.finds _ _ _ _ u ↦ Observes-untouched E u
  ]
  Query-Observes {s} (get_blk req) = elim (get_virtio_blk-Gets E req s) [
    | BlkFinding.fails _ u ↦ Observes-untouched E u
    | BlkFinding.unlisted _ _ _ _ u ↦ Observes-untouched E u
    | BlkFinding.finds _ _ _ _ u ↦ Observes-untouched E u
  ]
  Query-Observes {s} (stats_subsystem req) = (stats_nvme_subsystem-Keeps req).keeps s
  Query-Observes {s} (stats_controller req) = (stats_nvme_controller-Keeps req).keeps s
  Query-Observes {s} (stats_namespace req) = (stats_nvme_namespace-Keeps req).keeps s
  Query-Observes {s} (stats_blk req) = (stats_virtio_blk-Keeps req).keeps s
