-- ===== src/Virtio/Keyed.antt =====
-- The map of virtio-blk controllers, `s.VirtioCtrls` of pkg/frontend/frontend.go, and the names under
-- which its controllers are.
use opi_nvidia_bridge.Base.{
  String, ◌≡◌, sym, subst, none, some, arith, Assoc, lookup, insert, erase, lookup-insert,
  lookup-erase, str_eq_iff,
}
use opi_nvidia_bridge.Api.Messages.{VirtioBlk, virtio_blk}
use opi_nvidia_bridge.Api.Requests.{CreateRequest, DeleteRequest}
use opi_nvidia_bridge.Exec.{ok}
use opi_nvidia_bridge.Externals.{Externals}
use opi_nvidia_bridge.Externals.Laws.{ClonesFaithfully}
use opi_nvidia_bridge.Server.{Server, State}
use opi_nvidia_bridge.Virtio.Create.{create_virtio_blk}
use opi_nvidia_bridge.Virtio.Create.Paths.{create_virtio_blk-Creates, fails, exists, makes}
use opi_nvidia_bridge.Virtio.Delete.{delete_virtio_blk}
use opi_nvidia_bridge.Virtio.Delete.Paths
use opi_nvidia_bridge.Virtio.Delete.Paths.{delete_virtio_blk-Deletes, missing, drops}

unfoldable pub IsKeyed : Assoc VirtioBlk → Type 0
IsKeyed ctrls = (key : String) (blk : VirtioBlk) → lookup key ctrls ≡ some blk → blk.name ≡ key

IsKeyed-insert :
    (ctrls : Assoc VirtioBlk) (blk : VirtioBlk)
    → IsKeyed ctrls
    → IsKeyed (insert blk.name blk ctrls)
unfolding IsKeyed
IsKeyed-insert ctrls blk h key found e =
    ground (arith, lookup-insert blk.name key blk ctrls, str_eq_iff blk.name key, h key found)

IsKeyed-erase :
    (ctrls : Assoc VirtioBlk) (name : String) → IsKeyed ctrls → IsKeyed (erase name ctrls)
unfolding IsKeyed
IsKeyed-erase ctrls name h key found e = ground (arith, lookup-erase name key ctrls, h key found)

module _ (E : Externals) where
  -- If clones equal their originals and each controller in the map is under its own name,
  -- CreateVirtioBlk keeps that so on every path.
  pub create_virtio_blk-IsKeyed :
      ClonesFaithfully E
      → (req : CreateRequest virtio_blk) (s : State E) → IsKeyed s.server.virtio_ctrls
      → IsKeyed (create_virtio_blk E req s).1.server.virtio_ctrls
  create_virtio_blk-IsKeyed C req s h = elim (create_virtio_blk-Creates E C req s) [
    | fails _ u ↦ subst (λ (x : Server). IsKeyed x.virtio_ctrls) (sym u.same_server) h
    | exists _ _ _ _ _ _ o ↦
        subst (λ (x : Server). IsKeyed x.virtio_ctrls) (sym o.untouched.same_server) h
    | makes blk id _ _ made ↦
        subst (λ (x : Server). IsKeyed x.virtio_ctrls) (sym made.server) (IsKeyed-insert _ _ h)
  ]

  -- If each controller in the map is under its own name, DeleteVirtioBlk keeps that so on every
  -- path.
  pub delete_virtio_blk-IsKeyed :
      (req : DeleteRequest) (s : State E)
      → IsKeyed s.server.virtio_ctrls
      → IsKeyed (delete_virtio_blk E req s).1.server.virtio_ctrls
  delete_virtio_blk-IsKeyed req s h = elim (delete_virtio_blk-Deletes E req s) [
    | Paths.fails _ u ↦ subst (λ (x : Server). IsKeyed x.virtio_ctrls) (sym u.same_server) h
    | missing _ _ _ o ↦
        subst (λ (x : Server). IsKeyed x.virtio_ctrls) (sym o.untouched.same_server) h
    | drops blk _ _ _ _ same _ _ ↦
        subst (λ (x : Server). IsKeyed x.virtio_ctrls) (sym same) (IsKeyed-erase _ _ h)
  ]

  -- If each controller in the map is under its own name, then after a DeleteVirtioBlk that succeeds
  -- nothing is in the map under the name of the request.
  pub delete_virtio_blk-gone :
      (req : DeleteRequest) (s : State E)
      → IsKeyed s.server.virtio_ctrls
      → (delete_virtio_blk E req s).0 ≡ ok tt
      → lookup req.name (delete_virtio_blk E req s).1.server.virtio_ctrls ≡ none
  unfolding IsKeyed
  delete_virtio_blk-gone req s h p = elim (delete_virtio_blk-Deletes E req s) [
    | Paths.fails f u ↦ absurd (f tt p)
    | missing hn _ _ o ↦
        subst (λ (x : Server). lookup req.name x.virtio_ctrls ≡ none) (sym o.untouched.same_server)
          hn
    | drops blk _ hf _ _ same _ _ ↦
        subst (λ (x : Server). lookup req.name x.virtio_ctrls ≡ none) (sym same)
          (ground (
            arith,
            lookup-erase blk.name req.name s.server.virtio_ctrls,
            h req.name blk hf,
            str_eq_iff blk.name req.name,
          ))
  ]
