-- ===== src/Virtio/Delete.antt =====
-- `DeleteVirtioBlk` of pkg/frontend/virtio.go
pub mod Paths
pub mod Success
use opi_nvidia_bridge.Base.{String, true, Option, none, some, [], ◌∷◌, lookup, erase}
use opi_nvidia_bridge.Api.Messages.{VirtioBlk}
use opi_nvidia_bridge.Api.Requests.{DeleteRequest}
use opi_nvidia_bridge.Models.{controller_virtio_blk_delete}
use opi_nvidia_bridge.Error.{errorf, text}
use opi_nvidia_bridge.Exec.{require, ◌>>=◌, ◌>>◌}
use opi_nvidia_bridge.Externals.{Externals}
use opi_nvidia_bridge.Server.{Method, rpc, get_server, set_server}
use opi_nvidia_bridge.Virtio.Validate.{validate_delete}

module _ (E : Externals) where
  -- From the parameters of the call on. A `false` of the device is logged, and nothing else.
  unfoldable pub delete_found : String → VirtioBlk → Method E (Unit {0})
  unfolding erase
  delete_found name controller = do
    deleted ← rpc E (controller_virtio_blk_delete (record { name = name; force = true }))
    server ← get_server E
    set_server E (record server { virtio_ctrls = erase controller.name server.virtio_ctrls })

  abbrev pub or_missing : DeleteRequest → Option VirtioBlk → Method E (Unit {0})
  or_missing req (some controller) = delete_found req.name controller
  or_missing req none =
      require req.allow_missing (errorf "error finding controller %s" (text req.name ∷ []))

  unfoldable pub delete_virtio_blk : DeleteRequest → Method E (Unit {0})
  unfolding validate_delete delete_found lookup
  delete_virtio_blk req = do
    validate_delete E req
    server ← get_server E
    or_missing req (lookup req.name server.virtio_ctrls)
