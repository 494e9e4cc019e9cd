-- ===== src/Virtio/Queries/Listing.antt =====
-- What `ListVirtioBlks` of pkg/frontend/virtio.go does, on every path.
use opi_nvidia_bridge.Base.{
  ℤ, pos, to_int32, str_eq_iff, ◌≡◌, refl, ◌∙◌, Bool, Option, some, List, [], ◌∷◌, ◌++◌, Perm, All,
  str_lt, str_eq, Bool-cases, inl, inr,
}
use opi_nvidia_bridge.Base.Sort.Laws.{HasKey, IsAscending, sort_slice_sorts}
use opi_nvidia_bridge.Base.Order.{str_lt-IsStrictOrder}
use opi_nvidia_bridge.Api.Messages.{VirtioBlk, virtio_blk}
use opi_nvidia_bridge.Api.Requests.{ListRequest, ListResponse}
use opi_nvidia_bridge.Models.{NvdaControllerListResult, controller_list}
use opi_nvidia_bridge.Error.{Error}
use opi_nvidia_bridge.Exec.{Result, ok, err, panic}
use opi_nvidia_bridge.Exec.Rules.{Ends, done, check_rule, known_rule}
use opi_nvidia_bridge.Externals.{Externals, value}
use opi_nvidia_bridge.Server.{State}
use opi_nvidia_bridge.Server.Steps.{rpc_err_rule}
use opi_nvidia_bridge.Server.Paging.{extract_rule, page_rule}
use opi_nvidia_bridge.Virtio.Queries.{
  name_key, listed, sort_virtio_blks, list_page, list_virtio_blks,
}

module _ (E : Externals) where
  -- The elements for a page: the virtio-blk controllers on it, in its order, each with the name of its
  -- resource and its index as physical function, and no others.
  pub data Shows : List NvdaControllerListResult → List (Option VirtioBlk) → Type 0 where
    nothing : Shows [] []
    shows :
        {r : NvdaControllerListResult} {page : List NvdaControllerListResult}
        {items : List (Option VirtioBlk)}
        → r.type ≡ "virtio_blk"
        → Shows page items
        → Shows (r ∷ page) (
            some (record {
              name = E.resource_id_to_volume_name r.name;
              pcie_id = some (record {
                physical_function = some (to_int32 r.pci_index);
                virtual_function = some (pos 0);
                port_id = some (pos 0);
              });
              volume_name_ref = "TBD";
              max_io_qps = pos 0;
            })
            ∷ items)
    skips :
        {r : NvdaControllerListResult} {page : List NvdaControllerListResult}
        {items : List (Option VirtioBlk)}
        → ¬ (r.type ≡ "virtio_blk")
        → Shows page items
        → Shows (r ∷ page) items

  list_page-Shows : (page : List NvdaControllerListResult) → Shows page (list_page E page)
  unfolding list_page listed
  list_page-Shows [] = nothing
  list_page-Shows (r ∷ page) = elim (Bool-cases (str_eq r.type "virtio_blk")) [
    | inl e ↦ rw e (shows ((str_eq_iff r.type "virtio_blk").0 e) (list_page-Shows page))
    | inr e ↦
        rw e
          (skips (λ same. cc (e, (str_eq_iff r.type "virtio_blk").1 same)) (list_page-Shows page))
  ]

  list_page-HasKey :
      (page : List NvdaControllerListResult) → All (HasKey name_key) (list_page E page)
  unfolding list_page
  list_page-HasKey [] = tt
  list_page-HasKey (r ∷ page) = elim (Bool-cases (str_eq r.type "virtio_blk")) [
    | inl e ↦ rw e ((_, refl), list_page-HasKey page)
    | inr e ↦ rw e (list_page-HasKey page)
  ]

  -- The sort does not panic, since no element is nil.
  sort-sorts :
      (page : List NvdaControllerListResult)
      → (out : List (Option VirtioBlk)) × (sort_virtio_blks (list_page E page) ≡ some out)
        × Perm out (list_page E page)
        × IsAscending name_key str_lt out
  unfolding sort_virtio_blks
  sort-sorts page =
      sort_slice_sorts name_key str_lt (list_page E page) str_lt-IsStrictOrder
        (list_page-HasKey page)

module _ (E : Externals) (req : ListRequest) (s : State E) where
  -- What the device is asked, and the part of its list that the request is about.
  pub record Asked : Type 0 where
    pub size : ℤ
    pub offset : ℤ
    pub extracted :
        E.extract_pagination req.page_size req.page_token s.server.pagination ≡ value (size, offset)
    pub result : List NvdaControllerListResult
    pub answered : (E.call controller_list s.device).0 ≡ value result

  -- The virtio-blk controllers on a page of what the device lists, in ascending order of the names.
  pub record Listing (asked : Asked) (r : Result (ListResponse virtio_blk)) (t : State E)
      : Type 0 where
    pub page : List NvdaControllerListResult
    pub more : Bool
    pub paged : E.limit_pagination asked.result asked.offset asked.size ≡ ok (page, more)
    pub shown : List (Option VirtioBlk)
    pub shows_page : Shows E page shown
    pub items : List (Option VirtioBlk)
    pub listing : r ≡ ok (record { items = items; next_page_token = "" })
    pub same_items : Perm items shown
    pub ascending : IsAscending name_key str_lt items
    pub calls : t.calls ≡ s.calls ++ controller_list ∷ []

  -- The three ends of `ListVirtioBlks`: an error; the page is out of the range of the list, and
  -- the handler panics; or a page is returned.
  pub data Lists (r : Result (ListResponse virtio_blk)) (t : State E) : Type 0 where
    fails : (e : Error) → r ≡ err e → Lists r t
    slices :
        (asked : Asked)
        → E.limit_pagination asked.result asked.offset asked.size ≡ panic
        → r ≡ panic
        → Lists r t
    lists : (asked : Asked) → Listing asked r t → Lists r t

module _ (E : Externals) where
  -- ListVirtioBlks returns an error; or panics since what the request's size and token give is out
  -- of the range of the device's list; or has called the device once and returns, for the page of
  -- its list that the request's size and token give, a permutation of the controllers on it that
  -- have the type virtio_blk, in ascending order of their names, with an empty token: each under
  -- the name of the volume of its own name, with its index as an int32 for physical function, and
  -- no other.
  pub list_virtio_blks-Lists :
      (req : ListRequest) (s : State E) → let (r, t) = list_virtio_blks E req s in Lists E req s r t
  unfolding list_virtio_blks
  list_virtio_blks-Lists req s = ends.holds
    where
      ends : Ends (λ (r, t). Lists E req s r t) (list_virtio_blks E req s)
      ends =
          check_rule _ _ _
            (λ _.
              extract_rule E _ _ _ _
                (λ size offset hx.
                  rpc_err_rule E controller_list _ _
                    (λ result t he _ u hc.
                      let asked : Asked E req s = record {
                        size = size;
                        offset = offset;
                        extracted = hx;
                        result = result;
                        answered = he;
                      } in
                      page_rule E result offset size _ _
                        (λ page more t' hp op.
                          let (out, hs, perm, asc) = sort-sorts E page in
                          known_rule _ _ _ _ hs (
                            done (
                              lists asked (record {
                                page = page;
                                more = more;
                                paged = hp;
                                shown = list_page E page;
                                shows_page = list_page-Shows E page;
                                items = out;
                                listing = refl;
                                same_items = perm;
                                ascending = asc;
                                calls = op.same_calls ∙ hc;
                              }))))
                        (λ e. done (fails e refl)) (λ p. done (slices asked p refl)))
                    (λ e t _. done (fails e refl)))
                (λ e. done (fails e refl)))
            (λ e _. done (fails e refl))
