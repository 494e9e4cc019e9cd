-- ===== src/Service/Calls/Deletes.antt =====
-- What each delete of pkg/frontend comes to.
use opi_nvidia_bridge.Base.{
  String, ◌≡◌, ap, subst, ◌∙◌, Bool, inl, inr, lookup, erase, lookup-erase, arith,
}
use opi_nvidia_bridge.Api.Messages.{
  Kind, VirtioBlk, nvme_subsystem, nvme_controller, nvme_namespace, virtio_blk,
}
use opi_nvidia_bridge.Externals.{Externals}
use opi_nvidia_bridge.Externals.Laws.{IsStore}
use opi_nvidia_bridge.Server.{Server, State}
use opi_nvidia_bridge.Server.Outcomes.{Removed}
use opi_nvidia_bridge.Subsystem.Delete.Outcome as SubsystemDeletion
use opi_nvidia_bridge.Subsystem.Delete.Paths.{delete_nvme_subsystem-Deletes}
use opi_nvidia_bridge.Controller.Delete.Outcome as ControllerDeletion
use opi_nvidia_bridge.Controller.Delete.Paths.{delete_nvme_controller-Deletes}
use opi_nvidia_bridge.Namespace.Delete.Outcome as NamespaceDeletion
use opi_nvidia_bridge.Namespace.Delete.Paths.{delete_nvme_namespace-Deletes}
use opi_nvidia_bridge.Virtio.Delete.Paths as BlkDeletion
use opi_nvidia_bridge.Virtio.Delete.Paths.{delete_virtio_blk-Deletes}
use opi_nvidia_bridge.Service.Refines.Changes.{Changed-erased}
use opi_nvidia_bridge.Service.Calls.{delete}
use opi_nvidia_bridge.Service.Calls.Outcomes.{
  Apart, Apart-stored, Apart-map, Taken, Deletes, fails, missing, takes,
}

module _ (E : Externals) (s t : State E) where
  -- The key of the object's name was removed from the store.
  Taken-removed :
      (name object_name : String)
      → object_name ≡ name
      → t.server.virtio_ctrls ≡ s.server.virtio_ctrls
      → Removed E object_name s t
      → Removed E name s t × Apart E name s t
  Taken-removed name object_name e c rm =
      let rm' = subst (λ n. Removed E n s t) e rm in (rm', Apart-stored E s t name c rm'.others)

  Taken-erased :
      (name : String) (blk : VirtioBlk)
      → ((j : Kind) (key : String) → E.holds j t.db key ≡ E.holds j s.db key)
      → t.server.virtio_ctrls ≡ erase blk.name s.server.virtio_ctrls
      → t.server.nqns ≡ s.server.nqns
      → blk.name ≡ name
      → Taken E virtio_blk name blk s t
  Taken-erased name blk same c n e =
      let erased = c ∙ ap (λ x. erase x s.server.virtio_ctrls) e in
      record {
        gone = (Changed-erased E s t same name erased).at;
        others = Apart-map E s t name same (λ other ne.
            ap (lookup other) erased
            ∙ ground (arith, lookup-erase name other s.server.virtio_ctrls, ne));
        unregistered = n;
      }

module _ (E : Externals) (L : IsStore E) (s : State E) (name : String) (allow_missing : Bool) where
  -- What the delete of a kind comes to.
  abbrev Comes : Kind → Type 0
  Comes k = let (r, t) = delete E k name allow_missing s in Deletes E k name s r t

  delete_nvme_subsystem-Comes : Comes nvme_subsystem
  delete_nvme_subsystem-Comes = elim (delete_nvme_subsystem-Deletes E L _ s) [
    | SubsystemDeletion.fails f u ↦ fails f u
    | SubsystemDeletion.missing absent _ _ o ↦ missing absent o
    | SubsystemDeletion.deletes m present a ↦ takes m present (λ e p. elim a.stored [
      | inl (_, rm) ↦
          let (rm', apart) =
            Taken-removed E s _ name _ e (ap (λ (x : Server). x.virtio_ctrls) a.server) rm in
          record {
            gone = rm'.gone nvme_subsystem;
            others = apart;
            unregistered = (a.spec, a.spec_eq, ap (λ (x : Server). x.nqns) a.server);
          }
      | inr (f, _) ↦ absurd (f tt p)
    ])
  ]

  delete_nvme_controller-Comes : Comes nvme_controller
  delete_nvme_controller-Comes = elim (delete_nvme_controller-Deletes E L _ s) [
    | ControllerDeletion.fails f u ↦ fails f u
    | ControllerDeletion.missing absent _ _ o ↦ missing absent o
    | ControllerDeletion.detaches m _ present _ a ↦ takes m present (λ e p. elim a.stored [
      | inl (_, rm) ↦
          let (rm', apart) =
            Taken-removed E s _ name _ e (ap (λ (x : Server). x.virtio_ctrls) a.server) rm in
          record {
            gone = rm'.gone nvme_controller;
            others = apart;
            unregistered = ap (λ (x : Server). x.nqns) a.server;
          }
      | inr (f, _) ↦ absurd (f tt p)
    ])
  ]

  delete_nvme_namespace-Comes : Comes nvme_namespace
  delete_nvme_namespace-Comes = elim (delete_nvme_namespace-Deletes E L _ s) [
    | NamespaceDeletion.fails f u ↦ fails f u
    | NamespaceDeletion.missing absent _ _ o ↦ missing absent o
    | NamespaceDeletion.detaches m _ present _ a ↦ takes m present (λ e p. elim a.stored [
      | inl (_, rm) ↦
          let (rm', apart) =
            Taken-removed E s _ name _ e (ap (λ (x : Server). x.virtio_ctrls) a.server) rm in
          record {
            gone = rm'.gone nvme_namespace;
            others = apart;
            unregistered = ap (λ (x : Server). x.nqns) a.server;
          }
      | inr (f, _) ↦ absurd (f tt p)
    ])
  ]

  delete_virtio_blk-Comes : Comes virtio_blk
  delete_virtio_blk-Comes = elim (delete_virtio_blk-Deletes E _ s) [
    | BlkDeletion.fails f u ↦ fails f u
    | BlkDeletion.missing absent _ _ o ↦ missing absent o
    | BlkDeletion.drops m _ present _ _ server same _ ↦ takes m present (λ e _.
        Taken-erased E s _ name m same (ap (λ (x : Server). x.virtio_ctrls) server)
          (ap (λ (x : Server). x.nqns) server) e)
  ]

  pub delete-Comes : (k : Kind) → Comes k
  delete-Comes nvme_subsystem = delete_nvme_subsystem-Comes
  delete-Comes nvme_controller = delete_nvme_controller-Comes
  delete-Comes nvme_namespace = delete_nvme_namespace-Comes
  delete-Comes virtio_blk = delete_virtio_blk-Comes
