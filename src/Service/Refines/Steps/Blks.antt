-- ===== src/Service/Refines/Steps/Blks.antt =====
-- `CreateVirtioBlk` and `DeleteVirtioBlk` of pkg/frontend/virtio.go against the specification of
-- the service.
use opi_nvidia_bridge.Base.{◌≡◌, refl, sym, subst, ap, ◌∙◌, some, none, erase}
use opi_nvidia_bridge.Api.Messages.{VirtioBlk, virtio_blk}
use opi_nvidia_bridge.Api.Requests.{CreateRequest, DeleteRequest}
use opi_nvidia_bridge.Exec.Rules.{some-inj}
use opi_nvidia_bridge.Externals.{Externals}
use opi_nvidia_bridge.Externals.Laws.{ClonesFaithfully}
use opi_nvidia_bridge.Server.{Server, State}
use opi_nvidia_bridge.Subsystem.Create.{has_nqn}
use opi_nvidia_bridge.Virtio.Create.{create_virtio_blk}
use opi_nvidia_bridge.Virtio.Create.Paths as Creation
use opi_nvidia_bridge.Virtio.Create.Paths.{named, create_virtio_blk-Creates}
use opi_nvidia_bridge.Virtio.Delete.{delete_virtio_blk}
use opi_nvidia_bridge.Virtio.Delete.Paths as Deletion
use opi_nvidia_bridge.Virtio.Delete.Paths.{delete_virtio_blk-Deletes}
use opi_nvidia_bridge.Service.Formed.{IsFormed}
use opi_nvidia_bridge.Service.Spec.{View, creates, deletes, puts, removes}
use opi_nvidia_bridge.Service.Refines.{Represents, Represents-Changed}
use opi_nvidia_bridge.Service.Refines.Changes.{Changed-inserted, Changed-erased}
use opi_nvidia_bridge.Service.Refines.Steps.{Simulates, untouched-Simulates}

module _ (E : Externals) (s : State E) (v : View) (h : Represents E s v) where
  pub create_virtio_blk-Simulates :
      ClonesFaithfully E
      → (req : CreateRequest virtio_blk)
      → Simulates E (creates virtio_blk) v (create_virtio_blk E req s).1
  create_virtio_blk-Simulates C req = elim (create_virtio_blk-Creates E C req s) [
    | Creation.fails _ u ↦ untouched-Simulates E s _ v u h
    | Creation.exists _ _ _ _ _ _ o ↦ untouched-Simulates E s _ v o.untouched h
    | Creation.makes blk id _ absent made ↦
        let t = (create_virtio_blk E req s).1 in
        let b = named E req id blk in
        (
          _,
          puts virtio_blk b.name b refl tt (sym (h.objects virtio_blk b.name tt) ∙ absent) refl,
          Represents-Changed E virtio_blk b.name (some b) s t v v.registered
              (Changed-inserted E s t made.same_store b.name b
                (ap (λ (x : Server). x.virtio_ctrls) made.server))
              (λ m' e.
                subst (λ (x : VirtioBlk). (x.name ≡ b.name) × IsFormed virtio_blk x) (some-inj e)
                  (
                    refl,
                    (
                      made.endpoint, made.physical_function, made.endpoint_eq,
                      made.physical_function_eq,
                    ),
                  ))
              (λ nqn. ap (λ (x : Server). has_nqn nqn x.nqns) made.server ∙ h.registered nqn) h,
        )
  ]

  pub delete_virtio_blk-Simulates :
      (req : DeleteRequest)
      → Simulates E (deletes virtio_blk req.name) v (delete_virtio_blk E req s).1
  delete_virtio_blk-Simulates req = elim (delete_virtio_blk-Deletes E req s) [
    | Deletion.fails _ u ↦ untouched-Simulates E s _ v u h
    | Deletion.missing _ _ _ o ↦ untouched-Simulates E s _ v o.untouched h
    | Deletion.drops blk _ present _ _ server same_store _ ↦
        let t = (delete_virtio_blk E req s).1 in
        let kept = sym (h.objects virtio_blk req.name tt) ∙ present in
        let name = (h.sound virtio_blk req.name blk tt kept).0 in
        (
          _,
          removes virtio_blk req.name blk refl tt kept,
          Represents-Changed E virtio_blk req.name none s t v v.registered
              (Changed-erased E s t same_store req.name (
                ap (λ (x : Server). x.virtio_ctrls) server
                ∙ ap (λ n. erase n s.server.virtio_ctrls) name))
              (λ m' e. absurd (cc e))
              (λ nqn. ap (λ (x : Server). has_nqn nqn x.nqns) server ∙ h.registered nqn) h,
        )
  ]
