-- ===== src/Namespace/Queries.antt =====
-- `UpdateNvmeNamespace`, `ListNvmeNamespaces` and `GetNvmeNamespace` of
-- pkg/frontend/nvme_namespace.go
pub mod Finding
pub mod Listing
use opi_nvidia_bridge.Base.{
  ℤ, pos, ltb_ℤ, eqb_ℤ, to_int32, Option, none, some, List, [], ◌∷◌, map, read, is_some,
  if◌then◌else◌,
}
use opi_nvidia_bridge.Base.Sort.{less_by, sort_slice}
use opi_nvidia_bridge.Api.Messages.{
  NvmeNamespace, state_enabled, oper_state_online, nvme_namespace, nvme_subsystem,
}
use opi_nvidia_bridge.Api.Requests.{
  Request, UpdateRequest, ListChildrenRequest, GetRequest, ListResponse,
}
use opi_nvidia_bridge.Models.{NamespaceEntry, controller_nvme_namespace_list}
use opi_nvidia_bridge.Error.{
  status, invalid_argument, sprintf, number, unable_to_find_key, not_implemented,
}
use opi_nvidia_bridge.Exec.{pure, fail, deref, check, require, ◌>>=◌, ◌>>◌}
use opi_nvidia_bridge.Externals.{Externals}
use opi_nvidia_bridge.Server.{Method, store_get, rpc, extract_pagination, limit_pagination}
use opi_nvidia_bridge.Namespace.Validate.{validate_update, validate_get}

-- `namespaces[i].Spec.HostNsid`
abbrev pub nsid_key : Option NvmeNamespace → Option ℤ
nsid_key p = read p λ namespace. read namespace.spec λ spec. some spec.host_nsid

-- `sortNvmeNamespaces`
unfoldable pub sort_nvme_namespaces :
    List (Option NvmeNamespace) → Option (List (Option NvmeNamespace))
unfolding sort_slice
sort_nvme_namespaces = sort_slice (less_by nsid_key ltb_ℤ)

-- A namespace of which only the identifier is given.
abbrev pub with_nsid : ℤ → NvmeNamespace
with_nsid nsid = record {
  name = "";
  spec =
      some
        (record { host_nsid = nsid; volume_name_ref = ""; uuid = ""; nguid = ""; eui64 = pos 0 });
  status = none;
}

-- The element of the response for one that the device lists.
unfoldable pub listed : NamespaceEntry → NvmeNamespace
unfolding to_int32
listed r = with_nsid (to_int32 r.nsid)

-- The first that the device lists with the identifier, as the response of `GetNvmeNamespace`.
unfoldable pub find_listed : ℤ → List NamespaceEntry → Option NvmeNamespace
unfolding listed
find_listed nsid [] = none
find_listed nsid (r ∷ namespaces) =
    let rest = find_listed nsid namespaces in
    if eqb_ℤ r.nsid nsid
    then some (record (listed r) {
      status = some (record { state = state_enabled; oper_state = oper_state_online });
    })
    else rest

module _ (E : Externals) where
  unfoldable pub update_nvme_namespace : UpdateRequest nvme_namespace → Method E NvmeNamespace
  unfolding validate_update
  update_nvme_namespace req = do
    name ← validate_update E req
    found ← store_get E nvme_namespace name
    require (is_some found) (unable_to_find_key name)
    check (E.validate_field_mask nvme_namespace req.update_mask req.resource)
    fail (not_implemented "UpdateNvmeNamespace method is not implemented")

  unfoldable pub list_nvme_namespaces : ListChildrenRequest → Method E (ListResponse nvme_namespace)
  unfolding extract_pagination limit_pagination listed sort_nvme_namespaces
  list_nvme_namespaces req = do
    check (E.validate_required_fields (Request.list_children nvme_namespace req))
    (size, offset) ← extract_pagination E req.page_size req.page_token
    found ← store_get E nvme_subsystem req.parent
    require (is_some found) (unable_to_find_key req.parent)
    subsystem ← deref found
    subsystem_spec ← deref subsystem.spec
    result ←
        rpc E
          (controller_nvme_namespace_list (record { subnqn = subsystem_spec.nqn; cntlid = pos 0 }))
    page ← limit_pagination E result.namespaces offset size
    sorted ← deref (sort_nvme_namespaces (map (λ r. some (listed r)) page))
    pure (record { items = sorted; next_page_token = "" })

  abbrev pub or_not_listed : ℤ → Option NvmeNamespace → Method E NvmeNamespace
  or_not_listed nsid (some namespace) = pure namespace
  or_not_listed nsid none =
      fail (status invalid_argument (sprintf "Could not find HostNsid: %d" (number nsid ∷ [])) [])

  unfoldable pub get_nvme_namespace : GetRequest → Method E NvmeNamespace
  unfolding validate_get find_listed
  get_nvme_namespace req = do
    validate_get E req
    found ← store_get E nvme_namespace req.name
    require (is_some found) (unable_to_find_key req.name)
    namespace ← deref found
    let subsystem_name =
        E.resource_id_to_subsystem_name (E.get_subsystem_id_from_nvme_name req.name)
    found_subsystem ← store_get E nvme_subsystem subsystem_name
    require (is_some found_subsystem) (unable_to_find_key subsystem_name)
    subsystem ← deref found_subsystem
    subsystem_spec ← deref subsystem.spec
    result ←
        rpc E
          (controller_nvme_namespace_list (record { subnqn = subsystem_spec.nqn; cntlid = pos 0 }))
    spec ← deref namespace.spec
    or_not_listed spec.host_nsid (find_listed spec.host_nsid result.namespaces)
