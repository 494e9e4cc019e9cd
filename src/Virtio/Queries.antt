-- ===== src/Virtio/Queries.antt =====
-- `UpdateVirtioBlk`, `ListVirtioBlks`, `GetVirtioBlk` and `StatsVirtioBlk` of
-- pkg/frontend/virtio.go
pub mod Finding
pub mod Listing
use opi_nvidia_bridge.Base.{
  pos, to_int32, String, ◌&&◌, Option, none, some, List, [], ◌∷◌, lookup, str_eq, str_lt, read,
  is_some, if◌then◌else◌,
}
use opi_nvidia_bridge.Base.Sort.{less_by, sort_slice}
use opi_nvidia_bridge.Base.Text.{path_base}
use opi_nvidia_bridge.Api.Messages.{VirtioBlk, VolumeStats, virtio_blk}
use opi_nvidia_bridge.Api.Requests.{
  Request, UpdateRequest, ListRequest, GetRequest, StatsRequest, ListResponse,
}
use opi_nvidia_bridge.Models.{
  NvdaControllerListResult, controller_list, controller_virtio_blk_get_iostat,
}
use opi_nvidia_bridge.Error.{invalid, unable_to_find_key, not_implemented}
use opi_nvidia_bridge.Exec.{pure, fail, deref, check, require, ◌>>=◌, ◌>>◌}
use opi_nvidia_bridge.Externals.{Externals}
use opi_nvidia_bridge.Server.{Method, rpc, get_server, extract_pagination, limit_pagination}
use opi_nvidia_bridge.Namespace.Stats.{find_stats, or_no_stats}
use opi_nvidia_bridge.Virtio.Validate.{validate_update, validate_get, validate_stats}

-- `virtioBlks[i].Name`
abbrev pub name_key : Option VirtioBlk → Option String
name_key p = read p λ blk. some blk.name

-- `sortVirtioBlks`
unfoldable pub sort_virtio_blks : List (Option VirtioBlk) → Option (List (Option VirtioBlk))
unfolding sort_slice str_lt
sort_virtio_blks = sort_slice (less_by name_key str_lt)

module _ (E : Externals) where
  -- The element of a response for a controller that the device lists.
  unfoldable pub listed : NvdaControllerListResult → VirtioBlk
  unfolding to_int32
  listed r = record {
    name = E.resource_id_to_volume_name r.name;
    pcie_id = some (record {
      physical_function = some (to_int32 r.pci_index);
      virtual_function = some (pos 0);
      port_id = some (pos 0);
    });
    volume_name_ref = "TBD";
    max_io_qps = pos 0;
  }

  -- The loop of `ListVirtioBlks`: the virtio-blk controllers of the page, in its order.
  unfoldable pub list_page : List NvdaControllerListResult → List (Option VirtioBlk)
  unfolding listed
  list_page [] = []
  list_page (r ∷ page) =
      let rest = list_page page in
      if str_eq r.type "virtio_blk" then some (listed r) ∷ rest else rest

  -- The first virtio-blk controller that the device lists with the name.
  unfoldable pub find_listed : String → List NvdaControllerListResult → Option VirtioBlk
  unfolding listed
  find_listed resource_id [] = none
  find_listed resource_id (r ∷ result) =
      let rest = find_listed resource_id result in
      if str_eq r.name resource_id && str_eq r.type "virtio_blk" then some (listed r) else rest

  unfoldable pub update_virtio_blk : UpdateRequest virtio_blk → Method E VirtioBlk
  unfolding validate_update lookup
  update_virtio_blk req = do
    name ← validate_update E req
    server ← get_server E
    require (is_some (lookup name server.virtio_ctrls)) (unable_to_find_key name)
    check (E.validate_field_mask virtio_blk req.update_mask req.resource)
    fail (not_implemented "UpdateVirtioBlk method is not implemented")

  unfoldable pub list_virtio_blks : ListRequest → Method E (ListResponse virtio_blk)
  unfolding extract_pagination limit_pagination list_page sort_virtio_blks
  list_virtio_blks req = do
    check (E.validate_required_fields (Request.list virtio_blk req))
    (size, offset) ← extract_pagination E req.page_size req.page_token
    result ← rpc E controller_list
    page ← limit_pagination E result offset size
    sorted ← deref (sort_virtio_blks (list_page page))
    pure (record { items = sorted; next_page_token = "" })

  abbrev pub or_not_listed : String → Option VirtioBlk → Method E VirtioBlk
  or_not_listed name (some blk) = pure blk
  or_not_listed name none = fail (invalid "Could not find Controller: %s" name)

  unfoldable pub get_virtio_blk : GetRequest → Method E VirtioBlk
  unfolding validate_get find_listed path_base lookup
  get_virtio_blk req = do
    validate_get E req
    server ← get_server E
    require (is_some (lookup req.name server.virtio_ctrls))
        (invalid "Could not find Controller: %s" req.name)
    result ← rpc E controller_list
    or_not_listed req.name (find_listed (path_base req.name) result)

  unfoldable pub stats_virtio_blk : StatsRequest → Method E VolumeStats
  unfolding validate_stats find_stats
  stats_virtio_blk req = do
    validate_stats E req
    result ← rpc E controller_virtio_blk_get_iostat
    or_no_stats E "Could not find Controller: %s" req.name (find_stats req.name result.controllers)
