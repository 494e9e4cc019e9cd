-- ===== src/Virtio/Create/Success.antt =====
-- When `CreateVirtioBlk` of pkg/frontend/virtio.go succeeds.
use opi_nvidia_bridge.Base.{ℤ, String, ◌≡◌, refl, false, none, some, lookup, str_eq}
use opi_nvidia_bridge.Api.Messages.{VirtioBlk, PciEndpoint, virtio_blk}
use opi_nvidia_bridge.Api.Requests.{Request, CreateRequest}
use opi_nvidia_bridge.Exec.{ok, ◌>>=◌}
use opi_nvidia_bridge.Externals.{Externals, value}
use opi_nvidia_bridge.Externals.Laws.{ClonesFaithfully}
use opi_nvidia_bridge.Server.{State, rpc, new_system_generated, get_server, set_server}
use opi_nvidia_bridge.Virtio.Create.{create_new, create_virtio_blk}
use opi_nvidia_bridge.Virtio.Create.Paths.{create_call}
use opi_nvidia_bridge.Virtio.Validate.{validate_create}

module _ (E : Externals) (C : ClonesFaithfully E) where
  create_new-succeeds :
      (resource_id : String) (blk : VirtioBlk) (endpoint : PciEndpoint) (physical_function : ℤ)
      (answer : String) (s : State E)
      → blk.pcie_id ≡ some endpoint
      → endpoint.physical_function ≡ some physical_function
      → (E.call (create_call resource_id blk physical_function) s.device).0 ≡ value answer
      → str_eq answer "" ≡ false
      → (create_new E resource_id blk s).0 ≡ ok blk
  unfolding create_new ◌>>=◌ rpc get_server set_server
  create_new-succeeds resource_id blk endpoint pf answer s he hp ha hn =
      simp (C.clone_eq virtio_blk blk, he, hp, ha, hn) refl

  -- If clones equal their originals, the request gives an identifier and a physical function and
  -- passes the checks of other packages, nothing is in the map under the name, and the device
  -- answers a name that is not empty, then CreateVirtioBlk returns the requested controller under
  -- that name.
  pub create_virtio_blk-succeeds :
      (req : CreateRequest virtio_blk) (blk : VirtioBlk) (endpoint : PciEndpoint)
      (physical_function : ℤ) (answer : String) (s : State E)
      → let name = E.resource_id_to_volume_name req.resource_id in
        let named : VirtioBlk = record blk { name = name } in
        E.validate_required_fields (Request.create virtio_blk req) ≡ none
        → str_eq req.resource_id "" ≡ false
        → E.validate_user_settable req.resource_id ≡ none
        → req.resource ≡ some blk
        → lookup name s.server.virtio_ctrls ≡ none
        → blk.pcie_id ≡ some endpoint
        → endpoint.physical_function ≡ some physical_function
        → (E.call (create_call req.resource_id named physical_function) s.device).0 ≡ value answer
        → str_eq answer "" ≡ false
        → (create_virtio_blk E req s).0 ≡ ok named
  unfolding create_virtio_blk ◌>>=◌ new_system_generated get_server validate_create
  create_virtio_blk-succeeds req blk endpoint pf answer s hr hi hu hres hl he hp ha hn =
      rw (hr, hi, hu, hres, hl)
        (create_new-succeeds req.resource_id
          (record blk { name = E.resource_id_to_volume_name req.resource_id }) endpoint pf answer _
          he hp ha hn)
