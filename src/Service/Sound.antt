-- ===== src/Service/Sound.antt =====
-- What holds in every state that the service reaches.
use opi_nvidia_bridge.Base.{sym, subst}
use opi_nvidia_bridge.Api.Messages.{nvme_subsystem, nvme_controller, nvme_namespace}
use opi_nvidia_bridge.Externals.{Externals}
use opi_nvidia_bridge.Externals.Laws.{
  IsStore, ClonesFaithfully, IdsPlain, NamesApart, controller_name, namespace_name,
}
use opi_nvidia_bridge.Server.{Server, State}
use opi_nvidia_bridge.Subsystem.Registry.{IsRegistry, IsRegistry-of_same}
use opi_nvidia_bridge.Subsystem.Registry.Create.{create_nvme_subsystem-IsRegistry}
use opi_nvidia_bridge.Subsystem.Registry.Delete.{DeletesReliably, delete_nvme_subsystem-IsRegistry}
use opi_nvidia_bridge.Virtio.Keyed.{IsKeyed, create_virtio_blk-IsKeyed, delete_virtio_blk-IsKeyed}
use opi_nvidia_bridge.Service.{
  Step, create_subsystem, delete_subsystem, create_controller, delete_controller, create_namespace,
  delete_namespace, create_blk, delete_blk, query, Reachable, start, step,
}
use opi_nvidia_bridge.Service.Queries.{Query-Observes}
use opi_nvidia_bridge.Service.Named.{IsNamed, IsNamed-same, str_eq-apart}
use opi_nvidia_bridge.Service.Subsystems.{
  create_nvme_subsystem-IsNamed, create_nvme_subsystem-ctrls, delete_nvme_subsystem-IsNamed,
  delete_nvme_subsystem-ctrls,
}
use opi_nvidia_bridge.Service.Controllers.{
  create_nvme_controller-IsNamed, create_nvme_controller-IsNamed_other,
  create_nvme_controller-server, create_nvme_controller-IsRegistry, delete_nvme_controller-IsNamed,
  delete_nvme_controller-IsNamed_other, delete_nvme_controller-server,
  delete_nvme_controller-IsRegistry,
}
use opi_nvidia_bridge.Service.Namespaces.{
  create_nvme_namespace-IsNamed, create_nvme_namespace-IsNamed_other, create_nvme_namespace-server,
  create_nvme_namespace-IsRegistry, delete_nvme_namespace-IsNamed,
  delete_nvme_namespace-IsNamed_other, delete_nvme_namespace-server,
  delete_nvme_namespace-IsRegistry,
}
use opi_nvidia_bridge.Service.Blks.{
  create_virtio_blk-IsNamed, create_virtio_blk-IsRegistry, delete_virtio_blk-IsNamed,
  delete_virtio_blk-IsRegistry,
}

module _ (E : Externals) where
  abbrev pub ControllersNamed : E.Db → Type 0
  ControllersNamed = IsNamed E nvme_controller (λ m. m.name) (controller_name E)

  abbrev pub NamespacesNamed : E.Db → Type 0
  NamespacesNamed = IsNamed E nvme_namespace (λ m. m.name) (namespace_name E)

  -- The registry holds, stored controllers and namespaces carry the names they are stored under, and
  -- so do the virtio-blk controllers in the map.
  pub record IsSound (s : State E) : Type 0 where
    pub registry : IsRegistry E s.server.nqns s.db
    pub controllers : ControllersNamed s.db
    pub namespaces : NamespacesNamed s.db
    pub blks : IsKeyed s.server.virtio_ctrls

module _ (E : Externals) (L : IsStore E) (C : ClonesFaithfully E) (P : IdsPlain E)
    (N : NamesApart E) (D : DeletesReliably E) where
  Step-IsSound : {s t : State E} → Step E s t → IsSound E s → IsSound E t
  Step-IsSound {s} (create_subsystem req) h = record {
    registry = create_nvme_subsystem-IsRegistry E L C P req s h.registry;
    controllers =
        create_nvme_subsystem-IsNamed E L C s nvme_controller _ _
          (λ id i j. str_eq-apart _ _ (N.controller-subsystem i.0 j id)) P req h.controllers;
    namespaces =
        create_nvme_subsystem-IsNamed E L C s nvme_namespace _ _
          (λ id i j. str_eq-apart _ _ (N.namespace-subsystem i.0 j id)) P req h.namespaces;
    blks = subst IsKeyed (sym (create_nvme_subsystem-ctrls E L C s req)) h.blks;
  }
  Step-IsSound {s} (delete_subsystem req i hn) h = record {
    registry = delete_nvme_subsystem-IsRegistry E L D req i s hn h.registry;
    controllers = delete_nvme_subsystem-IsNamed E L C s nvme_controller _ _ req h.controllers;
    namespaces = delete_nvme_subsystem-IsNamed E L C s nvme_namespace _ _ req h.namespaces;
    blks = subst IsKeyed (sym (delete_nvme_subsystem-ctrls E L C s req)) h.blks;
  }
  Step-IsSound {s} (create_controller req) h = record {
    registry = create_nvme_controller-IsRegistry E L C s N.controller-subsystem h.registry req;
    controllers = create_nvme_controller-IsNamed E L C s req h.controllers;
    namespaces =
        create_nvme_controller-IsNamed_other E L C s nvme_namespace _ _ N.controller-namespace P req
          h.namespaces;
    blks =
        subst (λ (x : Server). IsKeyed x.virtio_ctrls)
          (sym (create_nvme_controller-server E L C s req)) h.blks;
  }
  Step-IsSound {s} (delete_controller req i j hn) h = record {
    registry =
        delete_nvme_controller-IsRegistry E L C s N.controller-subsystem h.registry h.controllers
          req i j hn;
    controllers = delete_nvme_controller-IsNamed E L C s req h.controllers;
    namespaces = delete_nvme_controller-IsNamed_other E L C s nvme_namespace _ _ req h.namespaces;
    blks =
        subst (λ (x : Server). IsKeyed x.virtio_ctrls)
          (sym (delete_nvme_controller-server E L C s req)) h.blks;
  }
  Step-IsSound {s} (create_namespace req) h = record {
    registry = create_nvme_namespace-IsRegistry E L C s N.namespace-subsystem h.registry req;
    controllers =
        create_nvme_namespace-IsNamed_other E L C s nvme_controller _ _
          (λ a i b j. str_eq-apart _ _ (N.controller-namespace i a j b)) P req h.controllers;
    namespaces = create_nvme_namespace-IsNamed E L C s req h.namespaces;
    blks =
        subst (λ (x : Server). IsKeyed x.virtio_ctrls)
          (sym (create_nvme_namespace-server E L C s req)) h.blks;
  }
  Step-IsSound {s} (delete_namespace req i j hn) h = record {
    registry =
        delete_nvme_namespace-IsRegistry E L C s N.namespace-subsystem h.registry h.namespaces req i
          j hn;
    controllers = delete_nvme_namespace-IsNamed_other E L C s nvme_controller _ _ req h.controllers;
    namespaces = delete_nvme_namespace-IsNamed E L C s req h.namespaces;
    blks =
        subst (λ (x : Server). IsKeyed x.virtio_ctrls)
          (sym (delete_nvme_namespace-server E L C s req)) h.blks;
  }
  Step-IsSound {s} (create_blk req) h = record {
    registry = create_virtio_blk-IsRegistry E C s req h.registry;
    controllers = create_virtio_blk-IsNamed E C s nvme_controller _ _ req h.controllers;
    namespaces = create_virtio_blk-IsNamed E C s nvme_namespace _ _ req h.namespaces;
    blks = create_virtio_blk-IsKeyed E C req s h.blks;
  }
  Step-IsSound {s} (delete_blk req) h = record {
    registry = delete_virtio_blk-IsRegistry E C s req h.registry;
    controllers = delete_virtio_blk-IsNamed E C s nvme_controller _ _ req h.controllers;
    namespaces = delete_virtio_blk-IsNamed E C s nvme_namespace _ _ req h.namespaces;
    blks = delete_virtio_blk-IsKeyed E req s h.blks;
  }
  Step-IsSound {s} {t} (query q) h =
      let o = Query-Observes E L q in
      record {
        registry =
            subst (λ n. IsRegistry E n t.db) (sym o.same_nqns)
              (IsRegistry-of_same E _ s.db t.db (λ id. o.same_store nvme_subsystem _) h.registry);
        controllers =
            IsNamed-same E nvme_controller _ _ s.db t.db (λ i j. o.same_store nvme_controller _)
              h.controllers;
        namespaces =
            IsNamed-same E nvme_namespace _ _ s.db t.db (λ i j. o.same_store nvme_namespace _)
              h.namespaces;
        blks = subst IsKeyed (sym o.same_virtio_ctrls) h.blks;
      }

  -- If the store behaves as a store and never fails to delete, clones equal their originals,
  -- identifiers have no slash and names of different kinds differ, then any sequence of calls of
  -- all twenty-four handlers, each delete of anything but a virtio-blk controller with a name of
  -- the form of its kind made of such identifiers, with any requests and any answers of the device,
  -- keeps the service sound: the registry holds, stored controllers and namespaces carry the names
  -- that they are stored under, and each virtio-blk controller in the map is under its own name.
  pub Reachable-IsSound : {s t : State E} → Reachable E s t → IsSound E s → IsSound E t
  Reachable-IsSound start h = h
  Reachable-IsSound (step r st) h = Step-IsSound st (Reachable-IsSound r h)
