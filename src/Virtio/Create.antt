-- ===== src/Virtio/Create.antt =====
-- `CreateVirtioBlk` of pkg/frontend/virtio.go
pub mod Paths
pub mod Success
use opi_nvidia_bridge.Base.{
  pos, String, not, Option, none, some, lookup, insert, str_eq, if◌then◌else◌,
}
use opi_nvidia_bridge.Api.Messages.{VirtioBlk, virtio_blk}
use opi_nvidia_bridge.Api.Requests.{CreateRequest}
use opi_nvidia_bridge.Models.{controller_virtio_blk_create}
use opi_nvidia_bridge.Error.{invalid}
use opi_nvidia_bridge.Exec.{pure, deref, require, ◌>>=◌, ◌>>◌}
use opi_nvidia_bridge.Externals.{Externals}
use opi_nvidia_bridge.Server.{Method, rpc, new_system_generated, get_server, set_server}
use opi_nvidia_bridge.Virtio.Validate.{validate_create}

module _ (E : Externals) where
  -- From the parameters of the call on.
  unfoldable pub create_new : String → VirtioBlk → Method E VirtioBlk
  unfolding insert
  create_new resource_id blk = do
    endpoint ← deref blk.pcie_id
    physical_function ← deref endpoint.physical_function
    name ← rpc E (
        controller_virtio_blk_create (record {
          emulation_manager = "mlx5_0";
          bdev_type = "spdk";
          pf_id = physical_function;
          vf_id = pos 0;
          num_queues = blk.max_io_qps;
          bdev = blk.volume_name_ref;
          serial = resource_id;
        }))
    require (not (str_eq name "")) (invalid "Could not create virtio-blk: %s" resource_id)
    let response = E.proto_clone virtio_blk blk
    server ← get_server E
    set_server E (record server { virtio_ctrls = insert blk.name response server.virtio_ctrls })
    pure response

  abbrev pub or_create : String → VirtioBlk → Option VirtioBlk → Method E VirtioBlk
  or_create resource_id blk (some existing) = pure existing
  or_create resource_id blk none = create_new resource_id blk

  unfoldable pub create_virtio_blk : CreateRequest virtio_blk → Method E VirtioBlk
  unfolding validate_create create_new lookup
  create_virtio_blk req = do
    validate_create E req
    generated ← new_system_generated E
    let resource_id = if str_eq req.resource_id "" then generated else req.resource_id
    blk ← deref req.resource
    let name = E.resource_id_to_volume_name resource_id
    server ← get_server E
    or_create resource_id (record blk { name = name }) (lookup name server.virtio_ctrls)
