-- ===== src/Controller/Queries/Shown.antt =====
-- The elements of the response of `ListNvmeControllers` of pkg/frontend/nvme_controller.go, for a page
-- of what the device lists, and what their sort makes of them.
use opi_nvidia_bridge.Base.{
  ltb_ℤ, to_int32, ◌≡◌, refl, sym, ap, subst, ◌∙◌, arith, ◌&&◌, Bool-cases, both_true, str_eq,
  str_eq_iff, Option, none, some, List, [], ◌∷◌, map, All, Perm, ◌⊎◌, inl, inr,
}
use opi_nvidia_bridge.Base.Sort.Laws.{HasKey, IsAscending}
use opi_nvidia_bridge.Base.Sort.Panics.{IsShort, All-lacks_key, sort_slice_cases}
use opi_nvidia_bridge.Base.Order.{ltb_ℤ-IsStrictOrder}
use opi_nvidia_bridge.Api.Messages.{NvmeController, NvmeSubsystemSpec, unspecified}
use opi_nvidia_bridge.Models.{NvdaControllerListResult}
use opi_nvidia_bridge.Exec.Rules.{some-inj}
use opi_nvidia_bridge.Controller.Queries.{id_key, listed, sort_nvme_controllers, list_page}

-- The entry is an NVMe controller of the subsystem with the specification.
abbrev pub Belongs : Option NvmeSubsystemSpec → NvdaControllerListResult → Type 0
Belongs spec r =
    (known : NvmeSubsystemSpec) × (spec ≡ some known) × (r.subnqn ≡ known.nqn) × (r.type ≡ "nvme")

-- The elements for a page: for an NVMe controller of the subsystem one with its identifier as an
-- int32 and nothing else, nil for any other.
pub data Shows (spec : Option NvmeSubsystemSpec)
    : List NvdaControllerListResult → List (Option NvmeController) → Type 0 where
  nothing : Shows spec [] []
  own :
      {r : NvdaControllerListResult} {page : List NvdaControllerListResult}
      {blobs : List (Option NvmeController)}
      → Belongs spec r
      → Shows spec page blobs
      → Shows spec (r ∷ page) (
          some (record {
            name = "";
            spec = some (record {
              trtype = unspecified;
              pcie_id = none;
              nvme_controller_id = some (to_int32 r.cntlid);
            });
            status = none;
          })
          ∷ blobs)
  foreign :
      {r : NvdaControllerListResult} {page : List NvdaControllerListResult}
      {blobs : List (Option NvmeController)}
      → ¬ Belongs spec r
      → Shows spec page blobs
      → Shows spec (r ∷ page) (none ∷ blobs)

map-Shows :
    (known : NvmeSubsystemSpec) (page : List NvdaControllerListResult)
    → Shows (some known) page (map (listed known.nqn) page)
unfolding listed
map-Shows known [] = nothing
map-Shows known (r ∷ page) = elim (Bool-cases (str_eq r.subnqn known.nqn && str_eq r.type "nvme")) [
  | inl same ↦
      let (same_nqn, same_type) =
        both_true (str_eq r.subnqn known.nqn) (str_eq r.type "nvme") same in
      rw same (
        own
          (
            known,
            refl,
            (str_eq_iff r.subnqn known.nqn).0 same_nqn,
            (str_eq_iff r.type "nvme").0 same_type,
          )
          (map-Shows known page))
  | inr differ ↦ rw differ (
      foreign
        (λ (known', e, nqn, type). ground (
          arith,
          differ,
          (str_eq_iff r.subnqn known.nqn).1
              (nqn ∙ ap (λ (x : NvmeSubsystemSpec). x.nqn) (sym (some-inj e))),
          (str_eq_iff r.type "nvme").1 type,
        ))
        (map-Shows known page))
]

pub list_page-Shows :
    (spec : Option NvmeSubsystemSpec) (page : List NvdaControllerListResult)
    (blobs : List (Option NvmeController))
    → list_page spec page ≡ some blobs
    → Shows spec page blobs
unfolding list_page
list_page-Shows spec [] blobs h = subst (Shows spec []) (some-inj h) nothing
list_page-Shows none (r ∷ page) blobs h = cc h
list_page-Shows (some known) (r ∷ page) blobs h =
    subst (Shows (some known) (r ∷ page)) (some-inj h) (map-Shows known (r ∷ page))

-- An element has an identifier exactly where its entry belongs to the subsystem.
Shows-HasKey :
    {spec : Option NvmeSubsystemSpec} {page : List NvdaControllerListResult}
    {blobs : List (Option NvmeController)}
    → Shows spec page blobs
    → All (Belongs spec) page
    → All (HasKey id_key) blobs
Shows-HasKey nothing h = tt
Shows-HasKey (own b rest) (_, h) = ((_, refl), Shows-HasKey rest h)
Shows-HasKey (foreign other rest) (b, h) = absurd (other b)

Shows-Belongs :
    {spec : Option NvmeSubsystemSpec} {page : List NvdaControllerListResult}
    {blobs : List (Option NvmeController)}
    → Shows spec page blobs
    → All (HasKey id_key) blobs
    → All (Belongs spec) page
Shows-Belongs nothing h = tt
Shows-Belongs (own b rest) (_, h) = (b, Shows-Belongs rest h)
Shows-Belongs (foreign other rest) ((_, e), h) = absurd (cc e)

Shows-IsShort :
    {spec : Option NvmeSubsystemSpec} {page : List NvdaControllerListResult}
    {blobs : List (Option NvmeController)}
    → Shows spec page blobs
    → (IsShort page → IsShort blobs) × (IsShort blobs → IsShort page)
Shows-IsShort nothing = (λ h. tt, λ h. tt)
Shows-IsShort (own _ nothing) = (λ h. tt, λ h. tt)
Shows-IsShort (foreign _ nothing) = (λ h. tt, λ h. tt)
Shows-IsShort (own _ (own _ _)) = (λ h. absurd h, λ h. absurd h)
Shows-IsShort (own _ (foreign _ _)) = (λ h. absurd h, λ h. absurd h)
Shows-IsShort (foreign _ (own _ _)) = (λ h. absurd h, λ h. absurd h)
Shows-IsShort (foreign _ (foreign _ _)) = (λ h. absurd h, λ h. absurd h)

-- What the sort makes of the elements of a page: a panic, or an ascending permutation.
pub sort-cases :
    (spec : Option NvmeSubsystemSpec) (page : List NvdaControllerListResult)
    (blobs : List (Option NvmeController))
    → Shows spec page blobs
    → ((¬ IsShort page) × (¬ All (Belongs spec) page) × (sort_nvme_controllers blobs ≡ none))
      ⊎ ((out : List (Option NvmeController)) × (sort_nvme_controllers blobs ≡ some out)
          × (IsShort page ⊎ All (Belongs spec) page)
          × Perm out blobs
          × IsAscending id_key ltb_ℤ out)
unfolding sort_nvme_controllers
sort-cases spec page blobs shown = elim (sort_slice_cases id_key ltb_ℤ blobs ltb_ℤ-IsStrictOrder) [
  | inl (a, b, l, eq, lacks, e) ↦ inl (
    λ short. subst IsShort eq ((Shows-IsShort shown).0 short),
    λ all. absurd (cc (lacks, All-lacks_key id_key ltb_ℤ blobs (Shows-HasKey shown all))),
    e,
  )
  | inr (out, e, inl short, perm, asc) ↦
      inr (out, e, inl ((Shows-IsShort shown).1 short), perm, asc)
  | inr (out, e, inr keys, perm, asc) ↦ inr (out, e, inr (Shows-Belongs shown keys), perm, asc)
]
