-- ===== src/Controller/Queries/Listing.antt =====
-- What `ListNvmeControllers` of pkg/frontend/nvme_controller.go does, on every path.
use opi_nvidia_bridge.Base.{
  ℤ, ltb_ℤ, ◌≡◌, refl, subst, ◌∙◌, arith, Bool, Option, none, some, List, [], ◌∷◌, All, Perm, ◌⊎◌,
  inl, inr,
}
use opi_nvidia_bridge.Base.Sort.Laws.{IsAscending}
use opi_nvidia_bridge.Base.Sort.Panics.{IsShort}
use opi_nvidia_bridge.Api.Messages.{
  NvmeController, NvmeSubsystem, NvmeSubsystemSpec, nvme_controller, nvme_subsystem,
}
use opi_nvidia_bridge.Api.Requests.{ListChildrenRequest, ListResponse}
use opi_nvidia_bridge.Models.{NvdaControllerListResult, controller_list}
use opi_nvidia_bridge.Error.{Error}
use opi_nvidia_bridge.Exec.{Result, ok, err, panic, pure, deref, ◌>>=◌}
use opi_nvidia_bridge.Exec.Rules.{Ends, done, check_rule, require_rule, deref_rule, known_rule}
use opi_nvidia_bridge.Externals.{Externals, value}
use opi_nvidia_bridge.Externals.Laws.{IsStore}
use opi_nvidia_bridge.Server.Outcomes.{answered_from}
use opi_nvidia_bridge.Server.{State}
use opi_nvidia_bridge.Server.Steps.{rpc_err_rule, store_get_err_rule}
use opi_nvidia_bridge.Server.Paging.{extract_rule, page_rule}
use opi_nvidia_bridge.Controller.Queries.{
  id_key, sort_nvme_controllers, list_page, list_nvme_controllers,
}
use opi_nvidia_bridge.Controller.Queries.Shown.{Belongs, Shows, list_page-Shows, sort-cases}

module _ (E : Externals) (req : ListChildrenRequest) (s : State E) where
  -- What the device is asked, and the part of its list that the request is about.
  pub record Asked : Type 0 where
    pub size : ℤ
    pub offset : ℤ
    pub extracted :
        E.extract_pagination req.page_size req.page_token s.server.pagination ≡ value (size, offset)
    pub subsystem : NvmeSubsystem
    pub held : E.holds nvme_subsystem s.db req.parent ≡ some subsystem
    pub result : List NvdaControllerListResult
    pub answered : (E.call controller_list s.device).0 ≡ value result

  abbrev pub Paged : Asked → List NvdaControllerListResult → Type 0
  Paged asked page =
      (more : Bool) × (E.limit_pagination asked.result asked.offset asked.size ≡ ok (page, more))

  -- The ends of `ListNvmeControllers`: an error; the page is out of the range of the list; the page
  -- is not empty and the stored subsystem has no specification; the page has two or more entries,
  -- not all of them NVMe controllers of the subsystem; or the page, which then has less than two
  -- entries or only such controllers, in ascending order of the identifiers.
  pub data Lists (r : Result (ListResponse nvme_controller)) : Type 0 where
    fails : (e : Error) → r ≡ err e → Lists r
    slices :
        (asked : Asked)
        → E.limit_pagination asked.result asked.offset asked.size ≡ panic
        → r ≡ panic
        → Lists r
    specless :
        (asked : Asked) (entry : NvdaControllerListResult) (rest : List NvdaControllerListResult)
        → Paged asked (entry ∷ rest)
        → asked.subsystem.spec ≡ none
        → r ≡ panic
        → Lists r
    crashes :
        (asked : Asked) (page : List NvdaControllerListResult)
        → Paged asked page
        → ¬ IsShort page
        → ¬ All (Belongs asked.subsystem.spec) page
        → r ≡ panic
        → Lists r
    lists :
        (asked : Asked) (page : List NvdaControllerListResult)
        (blobs items : List (Option NvmeController))
        → Paged asked page
        → IsShort page ⊎ All (Belongs asked.subsystem.spec) page
        → Shows asked.subsystem.spec page blobs
        → Perm items blobs
        → IsAscending id_key ltb_ℤ items
        → r ≡ ok (record { items = items; next_page_token = "" })
        → Lists r

list_page-none :
    (spec : Option NvmeSubsystemSpec) (page : List NvdaControllerListResult)
    → list_page spec page ≡ none
    → (entry : NvdaControllerListResult) × (rest : List NvdaControllerListResult) × (page
        ≡ entry ∷ rest)
      × (spec ≡ none)
unfolding list_page
list_page-none none [] h = cc h
list_page-none none (r ∷ page) h = (r, page, refl, refl)
list_page-none (some spec) [] h = cc h
list_page-none (some spec) (r ∷ page) h = cc h

module _ (E : Externals) (L : IsStore E) where
  -- If the store behaves as a store, ListNvmeControllers returns an error; or panics since what the
  -- request's size and token give is out of the range of the device's list; or panics since the
  -- page, the part of the device's list that the request's size and token give, is not empty and
  -- the subsystem stored under the parent's name has no specification; or panics since the page has
  -- two or more entries and not all of them belong to the subsystem, that is, have its NQN and the
  -- type nvme; or the page has less than two entries or only such that belong, and a permutation of
  -- its elements is returned, in ascending order of the identifiers, with an empty token: of an
  -- entry that belongs a controller with its identifier as an int32, of any other nil.
  pub list_nvme_controllers-Lists :
      (req : ListChildrenRequest) (s : State E) → Lists E req s (list_nvme_controllers E req s).0
  unfolding list_nvme_controllers
  list_nvme_controllers-Lists req s = ends.holds
    where
      sorted :
          (asked : Asked E req s) (page : List NvdaControllerListResult)
          (blobs : List (Option NvmeController))
          → Paged E req s asked page
          → Shows asked.subsystem.spec page blobs
          → (t : State E)
          → Ends
              (λ (r, t). Lists E req s r)
              ((deref (sort_nvme_controllers blobs) >>= λ items.
                  pure (record { items = items; next_page_token = "" }))
                t)
      sorted asked page blobs paged shown t =
          elim (sort-cases asked.subsystem.spec page blobs shown) [
            | inl (long, some_foreign, hn) ↦
                deref_rule _ _ _ (λ out ho. absurd (cc (hn, ho)))
                  (λ _. done (crashes asked page paged long some_foreign refl))
            | inr (out, ho, regular, perm, asc) ↦
                known_rule _ _ _ out ho
                  (done (lists asked page blobs out paged regular shown perm asc refl))
          ]

      page_end :
          (asked : Asked E req s) (page : List NvdaControllerListResult) (t : State E)
          → Paged E req s asked page
          → Ends
              (λ (r, t). Lists E req s r)
              ((deref (list_page asked.subsystem.spec page) >>= λ blobs.
                  deref (sort_nvme_controllers blobs) >>= λ items.
                  pure (record { items = items; next_page_token = "" }))
                t)
      page_end asked page t paged =
          deref_rule _ _ _
            (λ blobs hb. sorted asked page blobs paged (list_page-Shows _ page blobs hb) t)
            (λ e.
              let (entry, rest, hp, hs) = list_page-none _ page e in
              done (specless asked entry rest (subst (Paged E req s asked) hp paged) hs refl))

      ends : Ends (λ (r, t). Lists E req s r) (list_nvme_controllers E req s)
      ends =
          check_rule _ _ _
            (λ _.
              extract_rule E _ _ _ _
                (λ size offset hx.
                  store_get_err_rule E L nvme_subsystem req.parent _ _
                    (λ found t hf o.
                      require_rule _ _ _ _
                        (λ is.
                          deref_rule _ _ _
                            (λ subsystem hs.
                              rpc_err_rule E controller_list _ _
                                (λ result t' he _ u hc.
                                  let asked : Asked E req s = record {
                                    size = size;
                                    offset = offset;
                                    extracted = hx;
                                    subsystem = subsystem;
                                    held = hf ∙ hs;
                                    result = result;
                                    answered = answered_from E controller_list o he;
                                  } in
                                  page_rule E result offset size _ _
                                    (λ page more t'' hp op. page_end asked page t'' (more, hp))
                                    (λ e. done (fails e refl)) (λ p. done (slices asked p refl)))
                                (λ e t _. done (fails e refl)))
                            (λ e. absurd (ground arith)))
                        (λ _. done (fails _ refl)))
                    (λ e t _. done (fails e refl)))
                (λ e. done (fails e refl)))
            (λ e _. done (fails e refl))
