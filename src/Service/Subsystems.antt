-- ===== src/Service/Subsystems.antt =====
-- What the handlers of subsystems leave alone: the controllers and the namespaces, whose names are
-- apart from those of subsystems, and the map of virtio-blk controllers.
use opi_nvidia_bridge.Base.{String, ◌≡◌, ap, false, inl, inr, str_eq}
use opi_nvidia_bridge.Api.Messages.{Kind, Message, nvme_subsystem}
use opi_nvidia_bridge.Api.Requests.{CreateRequest, DeleteRequest}
use opi_nvidia_bridge.Externals.{Externals}
use opi_nvidia_bridge.Externals.Laws.{PlainId, IsStore, ClonesFaithfully, IdsPlain, subsystem_name}
use opi_nvidia_bridge.Server.{Server, State}
use opi_nvidia_bridge.Subsystem.Create.{create_nvme_subsystem}
use opi_nvidia_bridge.Subsystem.Create.Outcome.{fails, exists, makes}
use opi_nvidia_bridge.Subsystem.Create.Paths.{create_nvme_subsystem-Creates}
use opi_nvidia_bridge.Subsystem.Validate.Settable.{plain_id}
use opi_nvidia_bridge.Subsystem.Delete.{delete_nvme_subsystem}
use opi_nvidia_bridge.Subsystem.Delete.Outcome
use opi_nvidia_bridge.Subsystem.Delete.Outcome.{missing, deletes}
use opi_nvidia_bridge.Subsystem.Delete.Paths.{delete_nvme_subsystem-Deletes}
use opi_nvidia_bridge.Service.Named.{
  IsNamed, IsNamed-same, IsNamed-untouched, IsNamed-stored_apart, IsNamed-removed,
}

module _ (E : Externals) (L : IsStore E) (C : ClonesFaithfully E) (s : State E) where
  module _ (k : Kind) (name : Message k → String) (form : PlainId → String → String) where
    pub create_nvme_subsystem-IsNamed :
        ((id i : PlainId) (j : String) → str_eq (subsystem_name E id) (form i j) ≡ false)
        → IdsPlain E
        → (req : CreateRequest nvme_subsystem) → IsNamed E k name form s.db
        → IsNamed E k name form (create_nvme_subsystem E req s).1.db
    create_nvme_subsystem-IsNamed apart P req h = elim (create_nvme_subsystem-Creates E L C req s) [
      | fails _ u ↦ IsNamed-untouched E k name form s _ u h
      | exists _ _ _ _ _ _ o ↦ IsNamed-untouched E k name form s _ o.untouched h
      | makes subsystem id _ _ made _ g settable ↦ elim made.stored [
        | inl (_, st) ↦
            IsNamed-stored_apart E k name form s _ nvme_subsystem _ _ st
              (apart (_, plain_id E P req id g settable)) h
        | inr (_, same) ↦ IsNamed-same E k name form s.db _ (λ i j. same k (form i j)) h
      ]
    ]

    pub delete_nvme_subsystem-IsNamed :
        (req : DeleteRequest)
        → IsNamed E k name form s.db
        → IsNamed E k name form (delete_nvme_subsystem E req s).1.db
    delete_nvme_subsystem-IsNamed req h = elim (delete_nvme_subsystem-Deletes E L req s) [
      | Outcome.fails _ u ↦ IsNamed-untouched E k name form s _ u h
      | missing _ _ _ o ↦ IsNamed-untouched E k name form s _ o.untouched h
      | deletes subsystem _ deleted ↦ elim deleted.stored [
        | inl (_, rm) ↦ IsNamed-removed E k name form s _ _ rm h
        | inr (_, same) ↦ IsNamed-same E k name form s.db _ (λ i j. same k (form i j)) h
      ]
    ]

  pub create_nvme_subsystem-ctrls :
      (req : CreateRequest nvme_subsystem)
      → (create_nvme_subsystem E req s).1.server.virtio_ctrls ≡ s.server.virtio_ctrls
  create_nvme_subsystem-ctrls req = elim (create_nvme_subsystem-Creates E L C req s) [
    | fails _ u ↦ ap (λ (x : Server). x.virtio_ctrls) u.same_server
    | exists _ _ _ _ _ _ o ↦ ap (λ (x : Server). x.virtio_ctrls) o.untouched.same_server
    | makes _ _ _ _ made _ _ _ ↦ ap (λ (x : Server). x.virtio_ctrls) made.server
  ]

  pub delete_nvme_subsystem-ctrls :
      (req : DeleteRequest)
      → (delete_nvme_subsystem E req s).1.server.virtio_ctrls ≡ s.server.virtio_ctrls
  delete_nvme_subsystem-ctrls req = elim (delete_nvme_subsystem-Deletes E L req s) [
    | Outcome.fails _ u ↦ ap (λ (x : Server). x.virtio_ctrls) u.same_server
    | missing _ _ _ o ↦ ap (λ (x : Server). x.virtio_ctrls) o.untouched.same_server
    | deletes _ _ deleted ↦ ap (λ (x : Server). x.virtio_ctrls) deleted.server
  ]
