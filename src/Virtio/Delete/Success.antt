-- ===== src/Virtio/Delete/Success.antt =====
-- When `DeleteVirtioBlk` of pkg/frontend/virtio.go succeeds.
use opi_nvidia_bridge.Base.{◌≡◌, refl, Bool, none, some, lookup, [], ◌∷◌, ◌++◌}
use opi_nvidia_bridge.Api.Messages.{VirtioBlk, virtio_blk}
use opi_nvidia_bridge.Api.Requests.{Request, DeleteRequest}
use opi_nvidia_bridge.Exec.{ok, ◌>>=◌}
use opi_nvidia_bridge.Externals.{Externals, value}
use opi_nvidia_bridge.Server.{State, rpc, get_server, set_server}
use opi_nvidia_bridge.Virtio.Delete.{delete_virtio_blk}
use opi_nvidia_bridge.Virtio.Delete.Paths.{
  delete_call, fails, missing, drops, delete_virtio_blk-Deletes,
}
use opi_nvidia_bridge.Virtio.Keyed.{IsKeyed, delete_virtio_blk-gone}

module _ (E : Externals) where
  delete_virtio_blk-ok :
      (req : DeleteRequest) (blk : VirtioBlk) (deleted : Bool) (s : State E)
      → E.validate_required_fields (Request.delete virtio_blk req) ≡ none
      → E.validate_resource_name req.name ≡ none
      → lookup req.name s.server.virtio_ctrls ≡ some blk
      → (E.call (delete_call req.name) s.device).0 ≡ value deleted
      → (delete_virtio_blk E req s).0 ≡ ok tt
  unfolding delete_virtio_blk ◌>>=◌ rpc get_server set_server
  delete_virtio_blk-ok req blk deleted s hr hn hl he = rw (hr, hn, hl, he) refl

  -- If the request passes the checks of other packages, each controller in the map is under its own
  -- name, one is under the name of the request and the device answers without an error, be it true
  -- or false, then DeleteVirtioBlk succeeds, after one call of the device, to delete that name, and
  -- no controller is in the map under it.
  pub delete_virtio_blk-succeeds :
      (req : DeleteRequest) (blk : VirtioBlk) (deleted : Bool) (s : State E)
      → E.validate_required_fields (Request.delete virtio_blk req) ≡ none
      → E.validate_resource_name req.name ≡ none
      → lookup req.name s.server.virtio_ctrls ≡ some blk
      → (E.call (delete_call req.name) s.device).0 ≡ value deleted
      → IsKeyed s.server.virtio_ctrls
      → let (r, t) = delete_virtio_blk E req s in
        (r ≡ ok tt)
        × (t.calls ≡ s.calls ++ delete_call req.name ∷ [])
        × (lookup req.name t.server.virtio_ctrls ≡ none)
  delete_virtio_blk-succeeds req blk deleted s hr hn hl he keyed =
      let p = delete_virtio_blk-ok req blk deleted s hr hn hl he in
      (
        p,
        elim (delete_virtio_blk-Deletes E req s) [
          | fails f _ ↦ absurd (f tt p)
          | missing absent _ _ _ ↦ absurd (cc (hl, absent))
          | drops _ _ _ _ calls _ _ _ ↦ calls
        ],
        delete_virtio_blk-gone E req s keyed p,
      )
