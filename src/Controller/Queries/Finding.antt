-- ===== src/Controller/Queries/Finding.antt =====
-- What `GetNvmeController` of pkg/frontend/nvme_controller.go does, on every path.
use opi_nvidia_bridge.Base.{
  ℤ, eqb_ℤ, eqb_ℤ_iff, to_int32, ◌&&◌, true, ◌≡◌, refl, sym, ◌∙◌, ◌⊎◌, inl, inr, Bool-cases,
  both_true, ap, none, some, List, [], ◌∷◌, ◌++◌, All, str_eq, str_eq_iff, arith,
}
use opi_nvidia_bridge.Api.Messages.{NvmeController, NvmeControllerSpec, nvme_controller}
use opi_nvidia_bridge.Api.Requests.{GetRequest}
use opi_nvidia_bridge.Models.{NvdaControllerListResult, controller_list}
use opi_nvidia_bridge.Exec.{Result, ok}
use opi_nvidia_bridge.Exec.Rules.{Ends, done}
use opi_nvidia_bridge.Externals.{Externals, value}
use opi_nvidia_bridge.Externals.Laws.{IsStore}
use opi_nvidia_bridge.Server.{State}
use opi_nvidia_bridge.Server.Outcomes.{
  answered_from, Fails, Untouched, Untouched-refl, Untouched-trans,
}
use opi_nvidia_bridge.Server.Steps.{
  Fails-err, same_rule, pointer_rule, condition_rule, rpc_rule, store_get_rule,
}
use opi_nvidia_bridge.Controller.Queries.{with_id, find_listed, or_not_listed, get_nvme_controller}
use opi_nvidia_bridge.Controller.Validate.Same.{validate_get-same}

-- The entry is an NVMe controller with the identifier, of whichever subsystem.
abbrev pub HasId : ℤ → NvdaControllerListResult → Type 0
HasId id r = (r.cntlid ≡ id) × (r.type ≡ "nvme")

-- No entry of the list is an NVMe controller with the identifier.
abbrev pub Lacks : ℤ → List NvdaControllerListResult → Type 0
Lacks id result = All (λ (r : NvdaControllerListResult). ¬ HasId id r) result

-- The response for a controller that the device lists.
abbrev pub found_as : NvdaControllerListResult → NvmeController
found_as r = record (with_id (to_int32 r.cntlid)) { status = some (record { active = true }) }

-- The first NVMe controller of the list that has the identifier.
pub record First (id : ℤ) (result : List NvdaControllerListResult) : Type 0 where
  pub before : List NvdaControllerListResult
  pub found : NvdaControllerListResult
  pub after : List NvdaControllerListResult
  pub result_eq : result ≡ before ++ found ∷ after
  pub has_id : HasId id found
  pub lacks : Lacks id before

find_listed-cases :
    (id : ℤ) (result : List NvdaControllerListResult)
    → ((first : First id result) × (find_listed id result ≡ some (found_as first.found)))
      ⊎ (Lacks id result × (find_listed id result ≡ none))
unfolding find_listed
find_listed-cases id [] = inr (tt, refl)
find_listed-cases id (r ∷ result) = elim (Bool-cases (eqb_ℤ r.cntlid id && str_eq r.type "nvme")) [
  | inl same ↦
      let (same_id, same_type) = both_true (eqb_ℤ r.cntlid id) (str_eq r.type "nvme") same in
      inl (
        record {
          before = [];
          found = r;
          after = result;
          result_eq = refl;
          has_id = ((eqb_ℤ_iff r.cntlid id).0 same_id, (str_eq_iff r.type "nvme").0 same_type);
          lacks = tt;
        },
        ground (arith, same),
      )
  | inr differ ↦
      let other : ¬ HasId id r = λ (same_id, same_type). ground (
        arith,
        differ,
        (eqb_ℤ_iff r.cntlid id).1 same_id,
        (str_eq_iff r.type "nvme").1 same_type,
      ) in
      elim (find_listed-cases id result) [
        | inl (first, e) ↦ inl (
          record {
            before = r ∷ first.before;
            found = first.found;
            after = first.after;
            result_eq = ap (λ l. r ∷ l) first.result_eq;
            has_id = first.has_id;
            lacks = (other, first.lacks);
          },
          ground (arith, differ, e),
        )
        | inr (lacks, e) ↦ inr ((other, lacks), ground (arith, differ, e))
      ]
]

module _ (E : Externals) (req : GetRequest) (s : State E) where
  -- What the device is asked: to list its controllers, once one is stored under the name.
  pub record Asked (result : List NvdaControllerListResult) (t : State E) : Type 0 where
    pub controller : NvmeController
    pub held : E.holds nvme_controller s.db req.name ≡ some controller
    pub spec : NvmeControllerSpec
    pub spec_eq : controller.spec ≡ some spec
    pub id : ℤ
    pub id_eq : spec.nvme_controller_id ≡ some id
    pub answered : (E.call controller_list s.device).0 ≡ value result
    pub calls : t.calls ≡ s.calls ++ controller_list ∷ []

  -- `GetNvmeController` changes nothing. It fails, also when the device lists no NVMe controller with the
  -- stored identifier, or it returns the first one that the device lists.
  pub data Gets (r : Result NvmeController) (t : State E) : Type 0 where
    fails : Fails r → Untouched E s t → Gets r t
    unlisted :
        (result : List NvdaControllerListResult) (asked : Asked result t)
        → Lacks asked.id result
        → Fails r
        → Untouched E s t
        → Gets r t
    finds :
        (result : List NvdaControllerListResult) (asked : Asked result t)
        → (first : First asked.id result) → r ≡ ok (found_as first.found)
        → Untouched E s t
        → Gets r t

module _ (E : Externals) (L : IsStore E) where
  -- If the store behaves as a store, GetNvmeController leaves the maps and the store as they were,
  -- and it fails; or it has asked the device once for its controllers and fails since none is an
  -- NVMe controller with the identifier of the stored one; or it has asked and returns the first
  -- NVMe controller of the answer with that identifier, of whichever subsystem, as active.
  pub get_nvme_controller-Gets :
      (req : GetRequest) (s : State E)
      → let (r, t) = get_nvme_controller E req s in Gets E req s r t
  unfolding get_nvme_controller
  get_nvme_controller-Gets req s = ends.holds
    where
      answer :
          (result : List NvdaControllerListResult) (t : State E) (asked : Asked E req s result t)
          → Untouched E s t
          → Ends
              (λ (r, t). Gets E req s r t)
              (or_not_listed E asked.id (find_listed asked.id result) t)
      answer result t asked u = elim (find_listed-cases asked.id result) [
        | inl (first, e) ↦ rw e (done (finds result asked first refl u))
        | inr (lacks, e) ↦ rw e (done (unlisted result asked lacks (Fails-err _) u))
      ]

      ends : Ends (λ (r, t). Gets E req s r t) (get_nvme_controller E req s)
      ends =
          same_rule E _ _ _ (validate_get-same E s req)
            (λ _ _.
              store_get_rule E L nvme_controller req.name _ _
                (λ found t _ hf o.
                  condition_rule E _ _ _ _
                    (λ _.
                      pointer_rule E _ _ _
                        (λ controller hs.
                          rpc_rule E controller_list _ _
                            (λ result t' he _ u hc.
                              pointer_rule E _ _ _
                                (λ spec hspec.
                                  pointer_rule E _ _ _
                                    (λ id hid.
                                      answer result t'
                                        (record {
                                          controller = controller;
                                          held = hf ∙ hs;
                                          spec = spec;
                                          spec_eq = hspec;
                                          id = id;
                                          id_eq = hid;
                                          answered = answered_from E controller_list o he;
                                          calls = rw (sym o.same_calls) hc;
                                        })
                                        (Untouched-trans E o.untouched u))
                                    (λ r f. done (fails f (Untouched-trans E o.untouched u))))
                                (λ r f. done (fails f (Untouched-trans E o.untouched u))))
                            (λ r t' f u. done (fails f (Untouched-trans E o.untouched u))))
                        (λ r f. done (fails f o.untouched)))
                    (λ r f. done (fails f o.untouched)))
                (λ r t f o. done (fails f o.untouched)))
            (λ r f. done (fails f (Untouched-refl E s)))
