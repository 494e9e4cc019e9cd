-- ===== src/Subsystem/Queries/Listing.antt =====
-- What `ListNvmeSubsystems` of pkg/frontend/nvme_subsystem.go does, on every path.
use opi_nvidia_bridge.Base.{ℤ, ◌≡◌, Bool, Option, some, List, [], ◌∷◌, ◌++◌, map, Perm, str_lt}
use opi_nvidia_bridge.Base.Sort.Laws.{IsAscending}
use opi_nvidia_bridge.Api.Messages.{NvmeSubsystem, nvme_subsystem}
use opi_nvidia_bridge.Api.Requests.{ListRequest, ListResponse}
use opi_nvidia_bridge.Models.{NvdaSubsystemNvmeListResult, subsystem_nvme_list}
use opi_nvidia_bridge.Error.{Error}
use opi_nvidia_bridge.Exec.{Result, ok, err, panic}
use opi_nvidia_bridge.Externals.{Externals, value}
use opi_nvidia_bridge.Server.{State}
use opi_nvidia_bridge.Subsystem.Queries.{nqn_key, listed}

-- A list of the device as a list of responses.
abbrev pub all_listed : List NvdaSubsystemNvmeListResult → List (Option NvmeSubsystem)
all_listed page = map (λ r. some (listed r)) page

module _ (E : Externals) (req : ListRequest) (s : State E) where
  -- A page of what the device lists, in ascending order of the NQNs.
  pub record Listing (r : Result (ListResponse nvme_subsystem)) (t : State E) : Type 0 where
    pub size : ℤ
    pub offset : ℤ
    pub extracted :
        E.extract_pagination req.page_size req.page_token s.server.pagination ≡ value (size, offset)
    pub result : List NvdaSubsystemNvmeListResult
    pub answered : (E.call subsystem_nvme_list s.device).0 ≡ value result
    pub page : List NvdaSubsystemNvmeListResult
    pub more : Bool
    pub paged : E.limit_pagination result offset size ≡ ok (page, more)
    pub items : List (Option NvmeSubsystem)
    pub listing : r ≡ ok (record { items = items; next_page_token = "" })
    pub same_items : Perm items (all_listed page)
    pub ascending : IsAscending nqn_key str_lt items
    pub calls : t.calls ≡ s.calls ++ subsystem_nvme_list ∷ []

  -- The three ends of `ListNvmeSubsystems`: an error; the page is out of the range of the list, and
  -- the handler panics; or a page is returned.
  pub data Lists (r : Result (ListResponse nvme_subsystem)) (t : State E) : Type 0 where
    fails : (e : Error) → r ≡ err e → Lists r t
    slices :
        (result : List NvdaSubsystemNvmeListResult) (offset size : ℤ)
        → E.limit_pagination result offset size ≡ panic
        → r ≡ panic
        → Lists r t
    lists : Listing r t → Lists r t
