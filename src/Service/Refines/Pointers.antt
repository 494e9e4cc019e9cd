-- ===== src/Service/Refines/Pointers.antt =====
-- No handler of pkg/frontend that creates, deletes or returns an object panics, in any state that the
-- service reaches, where the request has its own pointers set.
use opi_nvidia_bridge.Base.{ℤ, String, Bool, ◌≡◌, refl, some}
use opi_nvidia_bridge.Api.Messages.{
  NvmeSubsystem, NvmeSubsystemSpec, NvmeController, NvmeControllerSpec, NvmeNamespace,
  NvmeNamespaceSpec, VirtioBlk, PciEndpoint,
}
use opi_nvidia_bridge.Exec.{panic}
use opi_nvidia_bridge.Externals.{Externals}
use opi_nvidia_bridge.Externals.Laws.{
  PlainId, IsStore, ClonesFaithfully, IdsPlain, NamesApart, subsystem_name, controller_name,
  namespace_name,
}
use opi_nvidia_bridge.Server.{State, Method}
use opi_nvidia_bridge.Subsystem.Create.{create_nvme_subsystem}
use opi_nvidia_bridge.Subsystem.Delete.{delete_nvme_subsystem}
use opi_nvidia_bridge.Subsystem.Queries.{get_nvme_subsystem}
use opi_nvidia_bridge.Controller.Create.{create_nvme_controller}
use opi_nvidia_bridge.Controller.Delete.{delete_nvme_controller}
use opi_nvidia_bridge.Controller.Queries.{get_nvme_controller}
use opi_nvidia_bridge.Namespace.Create.{create_nvme_namespace}
use opi_nvidia_bridge.Namespace.Delete.{delete_nvme_namespace}
use opi_nvidia_bridge.Namespace.Queries.{get_nvme_namespace}
use opi_nvidia_bridge.Virtio.Create.{create_virtio_blk}
use opi_nvidia_bridge.Virtio.Delete.{delete_virtio_blk}
use opi_nvidia_bridge.Virtio.Queries.{get_virtio_blk}
use opi_nvidia_bridge.Service.{Reachable}
use opi_nvidia_bridge.Service.Spec.{View}
use opi_nvidia_bridge.Service.Refines.{Represents}
use opi_nvidia_bridge.Service.Refines.Kept.{KeepsFormed, Reachable-KeepsFormed}
use opi_nvidia_bridge.Service.Refines.Calm.Creates.{create_nvme_subsystem-Calm}
use opi_nvidia_bridge.Service.Refines.Calm.Children.{
  create_nvme_controller-Calm, create_nvme_namespace-Calm,
}
use opi_nvidia_bridge.Service.Refines.Calm.Deletes.{
  delete_nvme_subsystem-Calm, delete_nvme_controller-Calm, delete_nvme_namespace-Calm,
}
use opi_nvidia_bridge.Service.Refines.Calm.Gets.{
  get_nvme_subsystem-Calm, get_nvme_controller-Calm, get_nvme_namespace-Calm,
}
use opi_nvidia_bridge.Service.Refines.Calm.Blks.{
  create_virtio_blk-Calm, delete_virtio_blk-Calm, get_virtio_blk-Calm,
}

module _ (E : Externals) (t : State E) where
  abbrev NeverPanics : {A : Type 0} → Method E A → Type 0
  NeverPanics method = ¬ ((method t).0 ≡ panic)

  -- None of the twelve handlers panics: the creates with a request of which the pointers are set and,
  -- where it has a parent, the parent is a subsystem's name; the others with any name of the kind.
  pub record IsSturdy (i : PlainId) (j id : String) (allow_missing : Bool) : Type 0 where
    pub create_subsystem :
        (m : NvmeSubsystem) (spec : NvmeSubsystemSpec)
        → NeverPanics (
            create_nvme_subsystem E
              (record { resource = some (record m { spec = some spec }); resource_id = id }))
    pub create_controller :
        (m : NvmeController) (spec : NvmeControllerSpec)
        → NeverPanics (
            create_nvme_controller E (record {
              parent = subsystem_name E i;
              resource = some (record m { spec = some spec });
              resource_id = id;
            }))
    pub create_namespace :
        (m : NvmeNamespace) (spec : NvmeNamespaceSpec)
        → NeverPanics (
            create_nvme_namespace E (record {
              parent = subsystem_name E i;
              resource = some (record m { spec = some spec });
              resource_id = id;
            }))
    pub create_blk :
        (blk : VirtioBlk) (endpoint : PciEndpoint) (physical_function : ℤ)
        → NeverPanics (
            create_virtio_blk E (record {
              resource = some (record blk {
                pcie_id = some (record endpoint { physical_function = some physical_function });
              });
              resource_id = id;
            }))
    pub delete_subsystem : NeverPanics (
        delete_nvme_subsystem E
          (record { name = subsystem_name E i; allow_missing = allow_missing }))
    pub get_subsystem : NeverPanics (get_nvme_subsystem E (record { name = subsystem_name E i }))
    pub delete_controller : NeverPanics (
        delete_nvme_controller E
          (record { name = controller_name E i j; allow_missing = allow_missing }))
    pub get_controller :
        NeverPanics (get_nvme_controller E (record { name = controller_name E i j }))
    pub delete_namespace : NeverPanics (
        delete_nvme_namespace E
          (record { name = namespace_name E i j; allow_missing = allow_missing }))
    pub get_namespace : NeverPanics (get_nvme_namespace E (record { name = namespace_name E i j }))
    pub delete_blk :
        NeverPanics (delete_virtio_blk E (record { name = id; allow_missing = allow_missing }))
    pub get_blk : NeverPanics (get_virtio_blk E (record { name = id }))

module _ (E : Externals) (L : IsStore E) (C : ClonesFaithfully E) (P : IdsPlain E)
    (N : NamesApart E) where
  KeepsFormed-IsSturdy :
      (t : State E)
      → KeepsFormed E t
      → (i : PlainId) (j id : String) (allow_missing : Bool) → IsSturdy E t i j id allow_missing
  KeepsFormed-IsSturdy t kept i j id allow_missing = record {
    create_subsystem = λ m spec.
        (create_nvme_subsystem-Calm E L t _ (record m { spec = some spec }) spec refl refl).holds;
    create_controller = λ m spec.
        (create_nvme_controller-Calm E L C t kept _ i (record m { spec = some spec }) spec refl refl
          refl).holds;
    create_namespace = λ m spec.
        (create_nvme_namespace-Calm E L C t kept _ i (record m { spec = some spec }) spec refl refl
          refl).holds;
    create_blk = λ blk endpoint pf. (create_virtio_blk-Calm E t _ _ _ pf refl refl refl).holds;
    delete_subsystem = (delete_nvme_subsystem-Calm E L P t kept _ i refl).holds;
    get_subsystem = (get_nvme_subsystem-Calm E L P t kept _ i refl).holds;
    delete_controller = (delete_nvme_controller-Calm E L P t kept _ i j refl).holds;
    get_controller = (get_nvme_controller-Calm E L P t kept _ i j refl).holds;
    delete_namespace = (delete_nvme_namespace-Calm E L P t kept _ i j refl).holds;
    get_namespace = (get_nvme_namespace-Calm E L P t kept _ i j refl).holds;
    delete_blk = (delete_virtio_blk-Calm E t _).holds;
    get_blk = (get_virtio_blk-Calm E t _).holds;
  }

  -- If the store behaves as a store, clones equal their originals, identifiers have no slash and
  -- names of different kinds differ, then in each state that calls of the twenty-four handlers,
  -- each delete of anything but a virtio-blk controller with a name of the form of its kind made of
  -- such identifiers, reach from one that a view represents, none of the twelve create, delete and
  -- get handlers panics: the creates where the resource of the request has a specification and the
  -- parent, where there is one, is a name of a subsystem, that of virtio-blk controllers where it
  -- has an endpoint with a physical function; the deletes and gets for names of the kind made of
  -- such identifiers, those of virtio-blk controllers for any names.
  pub Reachable-IsSturdy :
      {s t : State E} (v : View)
      → Represents E s v
      → Reachable E s t
      → (i : PlainId) (j id : String) (allow_missing : Bool) → IsSturdy E t i j id allow_missing
  Reachable-IsSturdy {t} v h r = KeepsFormed-IsSturdy t (Reachable-KeepsFormed E L C P N v h r)
