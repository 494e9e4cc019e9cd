-- ===== src/Subsystem/Queries.antt =====
-- `UpdateNvmeSubsystem`, `ListNvmeSubsystems`, `GetNvmeSubsystem` and `StatsNvmeSubsystem` of
-- pkg/frontend/nvme_subsystem.go
pub mod Finding
pub mod Listing
use opi_nvidia_bridge.Base.{
  String, Option, none, some, List, [], ◌∷◌, map, str_eq, str_lt, read, is_some, if◌then◌else◌,
}
use opi_nvidia_bridge.Base.Sort.{less_by, sort_slice}
use opi_nvidia_bridge.Api.Messages.{NvmeSubsystem, VolumeStats, nvme_subsystem}
use opi_nvidia_bridge.Api.Requests.{
  Request, UpdateRequest, ListRequest, GetRequest, StatsRequest, ListResponse,
}
use opi_nvidia_bridge.Models.{NvdaSubsystemNvmeListResult, subsystem_nvme_list}
use opi_nvidia_bridge.Error.{invalid, unable_to_find_key, not_implemented}
use opi_nvidia_bridge.Exec.{pure, fail, deref, check, require, ◌>>=◌, ◌>>◌}
use opi_nvidia_bridge.Externals.{Externals}
use opi_nvidia_bridge.Server.{Method, store_get, rpc, extract_pagination, limit_pagination}
use opi_nvidia_bridge.Subsystem.Validate.{validate_update, validate_get, validate_stats}

-- `subsystems[i].Spec.Nqn`
abbrev pub nqn_key : Option NvmeSubsystem → Option String
nqn_key p = read p λ subsystem. read subsystem.spec λ spec. some spec.nqn

-- `sortNvmeSubsystems`
unfoldable pub sort_nvme_subsystems :
    List (Option NvmeSubsystem) → Option (List (Option NvmeSubsystem))
unfolding sort_slice str_lt
sort_nvme_subsystems = sort_slice (less_by nqn_key str_lt)

-- The element of the response for one that the device lists.
abbrev pub listed : NvdaSubsystemNvmeListResult → NvmeSubsystem
listed r = record {
  name = "";
  spec =
      some (record { nqn = r.nqn; serial_number = r.serial_number; model_number = r.model_number });
  status = none;
}

-- The first that the device lists with the name, as the response of `GetNvmeSubsystem`.
unfoldable pub find_listed : String → List NvdaSubsystemNvmeListResult → Option NvmeSubsystem
find_listed nqn [] = none
find_listed nqn (r ∷ result) =
    let rest = find_listed nqn result in
    if str_eq r.nqn nqn
    then some (record (listed r) { status = some (record { firmware_revision = "TBD" }) })
    else rest

module _ (E : Externals) where
  unfoldable pub update_nvme_subsystem : UpdateRequest nvme_subsystem → Method E NvmeSubsystem
  unfolding validate_update
  update_nvme_subsystem req = do
    name ← validate_update E req
    found ← store_get E nvme_subsystem name
    require (is_some found) (unable_to_find_key name)
    check (E.validate_field_mask nvme_subsystem req.update_mask req.resource)
    fail (not_implemented "UpdateNvmeSubsystem method is not implemented")

  unfoldable pub list_nvme_subsystems : ListRequest → Method E (ListResponse nvme_subsystem)
  unfolding extract_pagination limit_pagination sort_nvme_subsystems
  list_nvme_subsystems req = do
    check (E.validate_required_fields (Request.list nvme_subsystem req))
    (size, offset) ← extract_pagination E req.page_size req.page_token
    result ← rpc E subsystem_nvme_list
    page ← limit_pagination E result offset size
    sorted ← deref (sort_nvme_subsystems (map (λ r. some (listed r)) page))
    pure (record { items = sorted; next_page_token = "" })

  abbrev pub or_not_listed : String → Option NvmeSubsystem → Method E NvmeSubsystem
  or_not_listed nqn (some subsystem) = pure subsystem
  or_not_listed nqn none = fail (invalid "Could not find NQN: %s" nqn)

  unfoldable pub get_nvme_subsystem : GetRequest → Method E NvmeSubsystem
  unfolding validate_get find_listed
  get_nvme_subsystem req = do
    validate_get E req
    found ← store_get E nvme_subsystem req.name
    require (is_some found) (unable_to_find_key req.name)
    subsystem ← deref found
    result ← rpc E subsystem_nvme_list
    spec ← deref subsystem.spec
    or_not_listed spec.nqn (find_listed spec.nqn result)

  -- The message names another method than this one, as the source's does.
  unfoldable pub stats_nvme_subsystem : StatsRequest → Method E VolumeStats
  unfolding validate_stats
  stats_nvme_subsystem req = do
    validate_stats E req
    fail (not_implemented "UpdateNvmeSubsystem method is not implemented")
