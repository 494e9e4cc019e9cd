-- ===== src/Service/Calls/Creates.antt =====
-- What each create of pkg/frontend comes to, where the request gives an identifier.
use opi_nvidia_bridge.Base.{
  String, ◌≡◌, refl, sym, ap, subst, ◌∙◌, false, none, some, ◌⊎◌, inl, inr, str_eq, if◌then◌else◌,
  lookup, insert, lookup-insert, arith,
}
use opi_nvidia_bridge.Api.Messages.{
  Kind, Message, VirtioBlk, nvme_subsystem, nvme_controller, nvme_namespace, virtio_blk,
}
use opi_nvidia_bridge.Exec.{Result, ok}
use opi_nvidia_bridge.Exec.Rules.{ok-inj}
use opi_nvidia_bridge.Externals.{Externals}
use opi_nvidia_bridge.Externals.Laws.{IsStore, ClonesFaithfully}
use opi_nvidia_bridge.Server.{Server, State}
use opi_nvidia_bridge.Server.Outcomes.{Fails, OnlyRead}
use opi_nvidia_bridge.Subsystem.Create.Outcome as SubsystemCreation
use opi_nvidia_bridge.Subsystem.Create.{create_nvme_subsystem}
use opi_nvidia_bridge.Subsystem.Create.Paths.{create_nvme_subsystem-Creates}
use opi_nvidia_bridge.Controller.Create.Outcome as ControllerCreation
use opi_nvidia_bridge.Controller.Create.{create_nvme_controller}
use opi_nvidia_bridge.Controller.Create.Paths.{create_nvme_controller-Creates}
use opi_nvidia_bridge.Namespace.Create.Outcome as NamespaceCreation
use opi_nvidia_bridge.Namespace.Create.{create_nvme_namespace}
use opi_nvidia_bridge.Namespace.Create.Paths.{create_nvme_namespace-Creates}
use opi_nvidia_bridge.Virtio.Create.Paths as BlkCreation
use opi_nvidia_bridge.Virtio.Create.{create_virtio_blk}
use opi_nvidia_bridge.Virtio.Create.Paths.{create_virtio_blk-Creates}
use opi_nvidia_bridge.Service.Refines.{held}
use opi_nvidia_bridge.Service.Refines.Changes.{Changed-inserted}
use opi_nvidia_bridge.Service.Calls.{Creation, resource_id, requested_name, create}
use opi_nvidia_bridge.Service.Calls.Outcomes.{
  Apart-stored, Apart-map, Put, Creates, fails, exists, makes,
}

given :
    (id resource_id : String)
    → str_eq resource_id "" ≡ false
    → (if str_eq resource_id "" then id else resource_id) ≡ resource_id
given id resource_id e = rw e refl

module _ (E : Externals) (s t : State E) where
  -- The object that the method answers is the one that it has put.
  Put-answered :
      (k : Kind) (name name' : String) (m m' : Message k) (r : Result (Message k))
      → name ≡ name'
      → r ≡ ok m
      → Put E k name m s t
      → r ≡ ok m'
      → Put E k name' m' s t
  Put-answered k name name' m m' r e p put q =
      subst (λ n. Put E k n m' s t) e (subst (λ x. Put E k name x s t) (ok-inj (sym p ∙ q)) put)

  Put-inserted :
      (blk : VirtioBlk)
      → ((j : Kind) (key : String) → E.holds j t.db key ≡ E.holds j s.db key)
      → t.server.virtio_ctrls ≡ insert blk.name blk s.server.virtio_ctrls
      → t.server.nqns ≡ s.server.nqns
      → Put E virtio_blk blk.name blk s t
  Put-inserted blk same c n =
      let changed = Changed-inserted E s t same blk.name blk c in
      record {
        named = refl;
        kept = changed.at;
        others = Apart-map E s t blk.name same (λ other ne.
            ap (lookup other) c
            ∙ ground (arith, lookup-insert blk.name other blk s.server.virtio_ctrls, ne));
        registered = n;
      }

  -- Nothing was kept under the name; what is put there carries it, or the method fails.
  makes_named :
      (k : Kind) (name name' : String) (m : Message k) (r : Result (Message k))
      → name ≡ name'
      → held E s k name ≡ none
      → ((r ≡ ok m) × Put E k name m s t) ⊎ Fails r
      → Creates E k name' s r t
  makes_named k name name' m r e absent (inl (p, put)) =
      makes (subst (λ n. held E s k n ≡ none) e absent)
        (λ m' q. Put-answered k name name' m m' r e p put q)
  makes_named k name name' m r e absent (inr f) =
      makes (subst (λ n. held E s k n ≡ none) e absent) (λ m' q. absurd (f m' q))

  exists_named :
      (k : Kind) (name name' : String) (m : Message k) (r : Result (Message k))
      → name ≡ name'
      → held E s k name ≡ some m
      → r ≡ ok m
      → OnlyRead E s t
      → Creates E k name' s r t
  exists_named k name name' m r e present p o =
      exists m (subst (λ n. held E s k n ≡ some m) e present) p o

module _ (E : Externals) (L : IsStore E) (C : ClonesFaithfully E) (s : State E) where
  -- What the create of a kind comes to.
  abbrev Comes : (k : Kind) → Creation k → Type 0
  Comes k req = let (r, t) = create E k req s in Creates E k (requested_name E k req) s r t

  create_nvme_subsystem-Comes :
      (req : Creation nvme_subsystem) → str_eq req.resource_id "" ≡ false → Comes nvme_subsystem req
  create_nvme_subsystem-Comes req hi = elim (create_nvme_subsystem-Creates E L C req s) [
    | SubsystemCreation.fails f u ↦ fails f u
    | SubsystemCreation.exists _ m id _ present p o ↦
        exists_named E s _ nvme_subsystem _ _ m _
          (ap E.resource_id_to_subsystem_name (given id req.resource_id hi)) present p o
    | SubsystemCreation.makes subsystem id _ absent made _ _ _ ↦
        let t = (create_nvme_subsystem E req s).1 in
        makes_named E s t nvme_subsystem _ _
          (SubsystemCreation.created (SubsystemCreation.named E req id subsystem) made.version) _
          (ap E.resource_id_to_subsystem_name (given id req.resource_id hi)) absent
          (elim made.stored [
            | inl (p, st) ↦ inl (
              p,
              record {
                named = refl;
                kept = st.held;
                others =
                    Apart-stored E s t _ (ap (λ (x : Server). x.virtio_ctrls) made.server)
                      st.others;
                registered =
                    (made.spec, made.spec_eq, made.fresh, ap (λ (x : Server). x.nqns) made.server);
              },
            )
            | inr (f, _) ↦ inr f
          ])
  ]

  create_nvme_controller-Comes :
      (req : Creation nvme_controller)
      → str_eq req.resource_id "" ≡ false
      → Comes nvme_controller req
  create_nvme_controller-Comes req hi = elim (create_nvme_controller-Creates E L C req s) [
    | ControllerCreation.fails f u ↦ fails f u
    | ControllerCreation.exists _ m id _ present p o ↦
        exists_named E s _ nvme_controller _ _ m _
          (ap (E.resource_id_to_controller_name (E.get_subsystem_id_from_nvme_name req.parent))
            (given id req.resource_id hi))
          present p o
    | ControllerCreation.attaches _ id _ _ absent _ a ↦
        let t = (create_nvme_controller E req s).1 in
        makes_named E s t nvme_controller _ _ _ _
          (ap (E.resource_id_to_controller_name (E.get_subsystem_id_from_nvme_name req.parent))
            (given id req.resource_id hi))
          absent
          (inl (
            a.result,
            record {
              named = refl;
              kept = a.stored.held;
              others =
                  Apart-stored E s t _ (ap (λ (x : Server). x.virtio_ctrls) a.server)
                    a.stored.others;
              registered = ap (λ (x : Server). x.nqns) a.server;
            },
          ))
  ]

  create_nvme_namespace-Comes :
      (req : Creation nvme_namespace) → str_eq req.resource_id "" ≡ false → Comes nvme_namespace req
  create_nvme_namespace-Comes req hi = elim (create_nvme_namespace-Creates E L C req s) [
    | NamespaceCreation.fails f u ↦ fails f u
    | NamespaceCreation.exists _ m id _ present p o ↦
        exists_named E s _ nvme_namespace _ _ m _
          (ap (E.resource_id_to_namespace_name (E.get_subsystem_id_from_nvme_name req.parent))
            (given id req.resource_id hi))
          present p o
    | NamespaceCreation.attaches _ id _ _ absent _ a ↦
        let t = (create_nvme_namespace E req s).1 in
        makes_named E s t nvme_namespace _ _ _ _
          (ap (E.resource_id_to_namespace_name (E.get_subsystem_id_from_nvme_name req.parent))
            (given id req.resource_id hi))
          absent
          (inl (
            a.result,
            record {
              named = refl;
              kept = a.stored.held;
              others =
                  Apart-stored E s t _ (ap (λ (x : Server). x.virtio_ctrls) a.server)
                    a.stored.others;
              registered = ap (λ (x : Server). x.nqns) a.server;
            },
          ))
  ]

  create_virtio_blk-Comes :
      (req : Creation virtio_blk) → str_eq req.resource_id "" ≡ false → Comes virtio_blk req
  create_virtio_blk-Comes req hi = elim (create_virtio_blk-Creates E C req s) [
    | BlkCreation.fails f u ↦ fails f u
    | BlkCreation.exists _ m id _ present p o ↦
        exists_named E s _ virtio_blk _ _ m _
          (ap E.resource_id_to_volume_name (given id req.resource_id hi)) present p o
    | BlkCreation.makes blk id _ absent made ↦
        let t = (create_virtio_blk E req s).1 in
        let b = BlkCreation.named E req id blk in
        makes_named E s t virtio_blk _ _ b _
          (ap E.resource_id_to_volume_name (given id req.resource_id hi)) absent
          (inl (
            made.result,
            Put-inserted E s t b made.same_store (ap (λ (x : Server). x.virtio_ctrls) made.server)
                (ap (λ (x : Server). x.nqns) made.server),
          ))
  ]

  pub create-Comes :
      (k : Kind) (req : Creation k) → str_eq (resource_id k req) "" ≡ false → Comes k req
  create-Comes nvme_subsystem = create_nvme_subsystem-Comes
  create-Comes nvme_controller = create_nvme_controller-Comes
  create-Comes nvme_namespace = create_nvme_namespace-Comes
  create-Comes virtio_blk = create_virtio_blk-Comes
