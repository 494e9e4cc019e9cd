-- ===== src/Namespace/Queries/Listing.antt =====
-- What `ListNvmeNamespaces` of pkg/frontend/nvme_namespace.go does, on every path.
use opi_nvidia_bridge.Base.{ℤ, ltb_ℤ, ◌≡◌, Bool, Option, none, some, List, map, Perm}
use opi_nvidia_bridge.Base.Sort.Laws.{IsAscending}
use opi_nvidia_bridge.Api.Messages.{
  NvmeNamespace, NvmeSubsystem, NvmeSubsystemSpec, nvme_namespace, nvme_subsystem,
}
use opi_nvidia_bridge.Api.Requests.{ListChildrenRequest, ListResponse}
use opi_nvidia_bridge.Models.{NamespaceEntry, NvdaControllerNvmeNamespaceListResult}
use opi_nvidia_bridge.Error.{Error}
use opi_nvidia_bridge.Exec.{Result, ok, err, panic}
use opi_nvidia_bridge.Externals.{Externals, value}
use opi_nvidia_bridge.Server.{State}
use opi_nvidia_bridge.Namespace.Queries.{nsid_key, listed}
use opi_nvidia_bridge.Namespace.Queries.Finding.{list_call}

-- A list of the device as a list of responses.
abbrev pub all_listed : List NamespaceEntry → List (Option NvmeNamespace)
all_listed page = map (λ r. some (listed r)) page

module _ (E : Externals) (req : ListChildrenRequest) (s : State E) where
  -- A page of what the device lists for the parent, in ascending order of the identifiers.
  pub record Listing (r : Result (ListResponse nvme_namespace)) : Type 0 where
    pub size : ℤ
    pub offset : ℤ
    pub extracted :
        E.extract_pagination req.page_size req.page_token s.server.pagination ≡ value (size, offset)
    pub subsystem : NvmeSubsystem
    pub held : E.holds nvme_subsystem s.db req.parent ≡ some subsystem
    pub spec : NvmeSubsystemSpec
    pub spec_eq : subsystem.spec ≡ some spec
    pub result : NvdaControllerNvmeNamespaceListResult
    pub answered : (E.call (list_call spec) s.device).0 ≡ value result
    pub page : List NamespaceEntry
    pub more : Bool
    pub paged : E.limit_pagination result.namespaces offset size ≡ ok (page, more)
    pub items : List (Option NvmeNamespace)
    pub listing : r ≡ ok (record { items = items; next_page_token = "" })
    pub same_items : Perm items (all_listed page)
    pub ascending : IsAscending nsid_key ltb_ℤ items

  -- The ends of `ListNvmeNamespaces`: an error; the page is out of the range of the list; the stored
  -- subsystem has no specification; or a page is returned.
  pub data Lists (r : Result (ListResponse nvme_namespace)) : Type 0 where
    fails : (e : Error) → r ≡ err e → Lists r
    slices :
        (result : List NamespaceEntry) (offset size : ℤ)
        → E.limit_pagination result offset size ≡ panic
        → r ≡ panic
        → Lists r
    unspecified :
        (subsystem : NvmeSubsystem)
        → E.holds nvme_subsystem s.db req.parent ≡ some subsystem
        → subsystem.spec ≡ none
        → r ≡ panic
        → Lists r
    lists : Listing r → Lists r
