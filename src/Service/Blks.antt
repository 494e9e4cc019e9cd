-- ===== src/Service/Blks.antt =====
-- What the handlers of virtio-blk controllers leave alone: the store and the registry.
use opi_nvidia_bridge.Base.{String, ◌≡◌, ap, sym, subst}
use opi_nvidia_bridge.Api.Messages.{Kind, Message, nvme_subsystem, virtio_blk}
use opi_nvidia_bridge.Api.Requests.{CreateRequest, DeleteRequest}
use opi_nvidia_bridge.Externals.{Externals}
use opi_nvidia_bridge.Externals.Laws.{PlainId, ClonesFaithfully}
use opi_nvidia_bridge.Server.{Server, State}
use opi_nvidia_bridge.Virtio.Create.{create_virtio_blk}
use opi_nvidia_bridge.Virtio.Create.Paths.{create_virtio_blk-Creates, fails, exists, makes}
use opi_nvidia_bridge.Virtio.Delete.{delete_virtio_blk}
use opi_nvidia_bridge.Virtio.Delete.Paths
use opi_nvidia_bridge.Virtio.Delete.Paths.{delete_virtio_blk-Deletes, missing, drops}
use opi_nvidia_bridge.Subsystem.Registry.{IsRegistry, IsRegistry-of_same}
use opi_nvidia_bridge.Service.Named.{IsNamed, IsNamed-same}

module _ (E : Externals) (C : ClonesFaithfully E) (s : State E) where
  create_virtio_blk-store :
      (req : CreateRequest virtio_blk) (j : Kind) (key : String)
      → E.holds j (create_virtio_blk E req s).1.db key ≡ E.holds j s.db key
  create_virtio_blk-store req j key = elim (create_virtio_blk-Creates E C req s) [
    | fails _ u ↦ u.same_store j key
    | exists _ _ _ _ _ _ o ↦ o.untouched.same_store j key
    | makes _ _ _ _ made ↦ made.same_store j key
  ]

  create_virtio_blk-nqns :
      (req : CreateRequest virtio_blk) → (create_virtio_blk E req s).1.server.nqns ≡ s.server.nqns
  create_virtio_blk-nqns req = elim (create_virtio_blk-Creates E C req s) [
    | fails _ u ↦ ap (λ (x : Server). x.nqns) u.same_server
    | exists _ _ _ _ _ _ o ↦ ap (λ (x : Server). x.nqns) o.untouched.same_server
    | makes _ _ _ _ made ↦ ap (λ (x : Server). x.nqns) made.server
  ]

  delete_virtio_blk-store :
      (req : DeleteRequest) (j : Kind) (key : String)
      → E.holds j (delete_virtio_blk E req s).1.db key ≡ E.holds j s.db key
  delete_virtio_blk-store req j key = elim (delete_virtio_blk-Deletes E req s) [
    | Paths.fails _ u ↦ u.same_store j key
    | missing _ _ _ o ↦ o.untouched.same_store j key
    | drops _ _ _ _ _ _ same _ ↦ same j key
  ]

  delete_virtio_blk-nqns :
      (req : DeleteRequest) → (delete_virtio_blk E req s).1.server.nqns ≡ s.server.nqns
  delete_virtio_blk-nqns req = elim (delete_virtio_blk-Deletes E req s) [
    | Paths.fails _ u ↦ ap (λ (x : Server). x.nqns) u.same_server
    | missing _ _ _ o ↦ ap (λ (x : Server). x.nqns) o.untouched.same_server
    | drops _ _ _ _ _ same _ _ ↦ ap (λ (x : Server). x.nqns) same
  ]

  pub create_virtio_blk-IsRegistry :
      (req : CreateRequest virtio_blk)
      → IsRegistry E s.server.nqns s.db
      → let t = (create_virtio_blk E req s).1 in IsRegistry E t.server.nqns t.db
  create_virtio_blk-IsRegistry req h =
      subst (λ x. IsRegistry E x (create_virtio_blk E req s).1.db)
        (sym (create_virtio_blk-nqns req))
        (IsRegistry-of_same E _ s.db _ (λ id. create_virtio_blk-store req nvme_subsystem _) h)

  pub delete_virtio_blk-IsRegistry :
      (req : DeleteRequest)
      → IsRegistry E s.server.nqns s.db
      → let t = (delete_virtio_blk E req s).1 in IsRegistry E t.server.nqns t.db
  delete_virtio_blk-IsRegistry req h =
      subst (λ x. IsRegistry E x (delete_virtio_blk E req s).1.db)
        (sym (delete_virtio_blk-nqns req))
        (IsRegistry-of_same E _ s.db _ (λ id. delete_virtio_blk-store req nvme_subsystem _) h)

  module _ (k : Kind) (name : Message k → String) (form : PlainId → String → String) where
    pub create_virtio_blk-IsNamed :
        (req : CreateRequest virtio_blk)
        → IsNamed E k name form s.db
        → IsNamed E k name form (create_virtio_blk E req s).1.db
    create_virtio_blk-IsNamed req =
        IsNamed-same E k name form s.db _ (λ i j. create_virtio_blk-store req k (form i j))

    pub delete_virtio_blk-IsNamed :
        (req : DeleteRequest)
        → IsNamed E k name form s.db
        → IsNamed E k name form (delete_virtio_blk E req s).1.db
    delete_virtio_blk-IsNamed req =
        IsNamed-same E k name form s.db _ (λ i j. delete_virtio_blk-store req k (form i j))
