-- ===== src/Controller/Queries.antt =====
-- `UpdateNvmeController`, `ListNvmeControllers`, `GetNvmeController` and `StatsNvmeController` of
-- pkg/frontend/nvme_controller.go
pub mod Finding
pub mod Shown
pub mod Listing
use opi_nvidia_bridge.Base.{
  ℤ, ltb_ℤ, eqb_ℤ, to_int32, String, true, ◌&&◌, Option, none, some, List, [], ◌∷◌, map, str_eq,
  read, is_some, if◌then◌else◌,
}
use opi_nvidia_bridge.Base.Sort.{less_by, sort_slice}
use opi_nvidia_bridge.Api.Messages.{
  NvmeController, NvmeSubsystemSpec, VolumeStats, nvme_controller, nvme_subsystem, unspecified,
}
use opi_nvidia_bridge.Api.Requests.{
  Request, UpdateRequest, ListChildrenRequest, GetRequest, StatsRequest, ListResponse,
}
use opi_nvidia_bridge.Models.{NvdaControllerListResult, controller_list}
use opi_nvidia_bridge.Error.{
  status, invalid_argument, sprintf, number, unable_to_find_key, not_implemented,
}
use opi_nvidia_bridge.Exec.{pure, fail, deref, check, require, ◌>>=◌, ◌>>◌}
use opi_nvidia_bridge.Externals.{Externals}
use opi_nvidia_bridge.Server.{Method, store_get, rpc, extract_pagination, limit_pagination}
use opi_nvidia_bridge.Controller.Validate.{validate_update, validate_get, validate_stats}

-- `*controllers[i].Spec.NvmeControllerId`
abbrev pub id_key : Option NvmeController → Option ℤ
id_key p = read p λ controller. read controller.spec λ spec. spec.nvme_controller_id

-- `sortNvmeControllers`
unfoldable pub sort_nvme_controllers :
    List (Option NvmeController) → Option (List (Option NvmeController))
unfolding sort_slice
sort_nvme_controllers = sort_slice (less_by id_key ltb_ℤ)

-- A controller of which only the identifier is given.
abbrev pub with_id : ℤ → NvmeController
with_id id = record {
  name = "";
  spec = some (record { trtype = unspecified; pcie_id = none; nvme_controller_id = some id });
  status = none;
}

-- The element of the response for one that the device lists: nil if it is another kind of
-- controller, or belongs to another subsystem.
unfoldable pub listed : String → NvdaControllerListResult → Option NvmeController
unfolding to_int32
listed nqn r =
    if str_eq r.subnqn nqn && str_eq r.type "nvme" then some (with_id (to_int32 r.cntlid)) else none

-- The loop of `ListNvmeControllers`, which reads `subsys.Spec.Nqn` in each round.
unfoldable pub list_page :
    Option NvmeSubsystemSpec → List NvdaControllerListResult → Option (List (Option NvmeController))
unfolding listed
list_page spec [] = some []
list_page none (r ∷ page) = none
list_page (some spec) (r ∷ page) = some (map (listed spec.nqn) (r ∷ page))

-- The first NVMe controller that the device lists with the identifier, as the response of
-- `GetNvmeController`.
unfoldable pub find_listed : ℤ → List NvdaControllerListResult → Option NvmeController
unfolding to_int32
find_listed id [] = none
find_listed id (r ∷ result) =
    let rest = find_listed id result in
    if eqb_ℤ r.cntlid id && str_eq r.type "nvme"
    then some (record (with_id (to_int32 r.cntlid)) { status = some (record { active = true }) })
    else rest

module _ (E : Externals) where
  unfoldable pub update_nvme_controller : UpdateRequest nvme_controller → Method E NvmeController
  unfolding validate_update
  update_nvme_controller req = do
    name ← validate_update E req
    found ← store_get E nvme_controller name
    require (is_some found) (unable_to_find_key name)
    check (E.validate_field_mask nvme_controller req.update_mask req.resource)
    fail (not_implemented "UpdateNvmeController method is not implemented")

  unfoldable pub list_nvme_controllers :
      ListChildrenRequest → Method E (ListResponse nvme_controller)
  unfolding extract_pagination limit_pagination list_page sort_nvme_controllers
  list_nvme_controllers req = do
    check (E.validate_required_fields (Request.list_children nvme_controller req))
    (size, offset) ← extract_pagination E req.page_size req.page_token
    found ← store_get E nvme_subsystem req.parent
    require (is_some found) (unable_to_find_key req.parent)
    subsystem ← deref found
    result ← rpc E controller_list
    page ← limit_pagination E result offset size
    blobs ← deref (list_page subsystem.spec page)
    sorted ← deref (sort_nvme_controllers blobs)
    pure (record { items = sorted; next_page_token = "" })

  abbrev pub or_not_listed : ℤ → Option NvmeController → Method E NvmeController
  or_not_listed id (some controller) = pure controller
  or_not_listed id none =
      fail (
        status invalid_argument (sprintf "Could not find NvmeControllerId: %d" (number id ∷ [])) [])

  unfoldable pub get_nvme_controller : GetRequest → Method E NvmeController
  unfolding validate_get find_listed
  get_nvme_controller req = do
    validate_get E req
    found ← store_get E nvme_controller req.name
    require (is_some found) (unable_to_find_key req.name)
    controller ← deref found
    result ← rpc E controller_list
    spec ← deref controller.spec
    id ← deref spec.nvme_controller_id
    or_not_listed id (find_listed id result)

  unfoldable pub stats_nvme_controller : StatsRequest → Method E VolumeStats
  unfolding validate_stats
  stats_nvme_controller req = do
    validate_stats E req
    fail (not_implemented "StatsNvmeController method is not implemented")
