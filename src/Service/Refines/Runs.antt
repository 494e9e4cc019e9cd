-- ===== src/Service/Refines/Runs.antt =====
-- The service of pkg/frontend refines its specification.
use opi_nvidia_bridge.Base.{ap, ◌∙◌, List, [], ◌∷◌}
use opi_nvidia_bridge.Api.Messages.{nvme_subsystem, nvme_controller, nvme_namespace, virtio_blk}
use opi_nvidia_bridge.Externals.{Externals}
use opi_nvidia_bridge.Externals.Laws.{IsStore, ClonesFaithfully, IdsPlain, NamesApart}
use opi_nvidia_bridge.Server.{State}
use opi_nvidia_bridge.Service.{
  Step, create_subsystem, delete_subsystem, create_controller, delete_controller, create_namespace,
  delete_namespace, create_blk, delete_blk, query, Reachable, start, step,
}
use opi_nvidia_bridge.Service.Spec
use opi_nvidia_bridge.Service.Spec.{View, Call, creates, deletes, reads, Run, next}
use opi_nvidia_bridge.Service.Queries.{Query-Observes}
use opi_nvidia_bridge.Subsystem.Create.{has_nqn}
use opi_nvidia_bridge.Service.Refines.Changes.{held-same}
use opi_nvidia_bridge.Service.Refines.{IsName, Represents, Represents-registered}
use opi_nvidia_bridge.Service.Refines.Steps.{Simulates}
use opi_nvidia_bridge.Service.Refines.Steps.Subsystems.{
  create_nvme_subsystem-Simulates, delete_nvme_subsystem-Simulates,
}
use opi_nvidia_bridge.Service.Refines.Steps.Children.{
  create_nvme_controller-Simulates, delete_nvme_controller-Simulates,
  create_nvme_namespace-Simulates, delete_nvme_namespace-Simulates,
}
use opi_nvidia_bridge.Service.Refines.Steps.Blks.{
  create_virtio_blk-Simulates, delete_virtio_blk-Simulates,
}

module _ (E : Externals) where
  -- A step, as the specification sees its call.
  abbrev pub call_of : {s t : State E} → Step E s t → Call
  call_of (create_subsystem req) = creates nvme_subsystem
  call_of (delete_subsystem req i hn) = deletes nvme_subsystem req.name
  call_of (create_controller req) = creates nvme_controller
  call_of (delete_controller req i j hn) = deletes nvme_controller req.name
  call_of (create_namespace req) = creates nvme_namespace
  call_of (delete_namespace req i j hn) = deletes nvme_namespace req.name
  call_of (create_blk req) = creates virtio_blk
  call_of (delete_blk req) = deletes virtio_blk req.name
  call_of (query q) = reads

  -- The calls that lead to a state, the last one first.
  abbrev pub calls_of : {s t : State E} → Reachable E s t → List Call
  calls_of start = []
  calls_of (step r st) = call_of st ∷ calls_of r

module _ (E : Externals) (L : IsStore E) (C : ClonesFaithfully E) (P : IdsPlain E)
    (N : NamesApart E) where
  Step-Simulates :
      {s t : State E} (v : View)
      → Represents E s v
      → (st : Step E s t) → Simulates E (call_of E st) v t
  Step-Simulates {s} v h (create_subsystem req) =
      create_nvme_subsystem-Simulates E L N s v h C P req
  Step-Simulates {s} v h (delete_subsystem req i hn) =
      delete_nvme_subsystem-Simulates E L N s v h req i hn
  Step-Simulates {s} v h (create_controller req) =
      create_nvme_controller-Simulates E L N s v h C P req
  Step-Simulates {s} v h (delete_controller req i j hn) =
      delete_nvme_controller-Simulates E L N s v h req i j hn
  Step-Simulates {s} v h (create_namespace req) =
      create_nvme_namespace-Simulates E L N s v h C P req
  Step-Simulates {s} v h (delete_namespace req i j hn) =
      delete_nvme_namespace-Simulates E L N s v h req i j hn
  Step-Simulates {s} v h (create_blk req) = create_virtio_blk-Simulates E s v h C req
  Step-Simulates {s} v h (delete_blk req) = delete_virtio_blk-Simulates E s v h req
  Step-Simulates {s} {t} v h (query q) =
      let o = Query-Observes E L q in
      (
        v,
        Spec.stays,
        Represents-registered E s t v v.registered
            (held-same E s t o.same_virtio_ctrls o.same_store)
            (λ nqn. ap (has_nqn nqn) o.same_nqns ∙ h.registered nqn) h,
      )

  -- If the store behaves as a store, clones equal their originals, identifiers have no slash and
  -- names of different kinds differ, then whatever sequence of calls of all twenty-four handlers
  -- leads from a state to another, each delete of anything but a virtio-blk controller with a name
  -- of the form of its kind made of such identifiers, with any requests and any answers of the
  -- store and the device: for a view of the first state there is a view of the last that a run of
  -- the specification, with one transition for each call, reaches from it. Where the call is a
  -- create of a kind, the transition makes an object under a name of that kind which was free, for
  -- a subsystem with an NQN that was free and is registered, or only registers a free NQN, or does
  -- nothing; where it is a delete of a name, it takes away the object of that name and frees its
  -- NQN, or only frees the NQN, or does nothing; other calls do nothing.
  pub Reachable-Run :
      {s t : State E} (v : View)
      → Represents E s v
      → (r : Reachable E s t) → (v' : View) × Run (IsName E) v (calls_of E r) v' × Represents E t v'
  Reachable-Run v h start = (v, Spec.start, h)
  Reachable-Run v h (step r st) =
      let (w, run, hw) = Reachable-Run v h r in
      let (u, transition, hu) = Step-Simulates w hw st in (u, next run transition, hu)
