-- ===== src/Subsystem/Queries/Finding.antt =====
-- What `GetNvmeSubsystem` of pkg/frontend/nvme_subsystem.go does, on every path.
use opi_nvidia_bridge.Base.{
  String, ◌≡◌, refl, sym, ◌∙◌, ◌⊎◌, inl, inr, Bool-cases, ap, none, some, List, [], ◌∷◌, ◌++◌, All,
  str_eq, str_eq_iff, arith,
}
use opi_nvidia_bridge.Api.Messages.{NvmeSubsystem, NvmeSubsystemSpec, nvme_subsystem}
use opi_nvidia_bridge.Api.Requests.{GetRequest}
use opi_nvidia_bridge.Models.{NvdaSubsystemNvmeListResult, subsystem_nvme_list}
use opi_nvidia_bridge.Exec.{Result, ok}
use opi_nvidia_bridge.Exec.Rules.{Ends, done}
use opi_nvidia_bridge.Externals.{Externals, value}
use opi_nvidia_bridge.Externals.Laws.{IsStore}
use opi_nvidia_bridge.Server.{State}
use opi_nvidia_bridge.Server.Outcomes.{
  answered_from, Fails, Untouched, Untouched-refl, Untouched-trans,
}
use opi_nvidia_bridge.Server.Steps.{
  Fails-err, same_rule, pointer_rule, condition_rule, rpc_rule, store_get_rule,
}
use opi_nvidia_bridge.Subsystem.Queries.{listed, find_listed, or_not_listed, get_nvme_subsystem}
use opi_nvidia_bridge.Subsystem.Validate.Same.{validate_get-same}

-- No subsystem of the list has the NQN.
abbrev pub Lacks : String → List NvdaSubsystemNvmeListResult → Type 0
Lacks nqn result = All (λ (r : NvdaSubsystemNvmeListResult). ¬ (r.nqn ≡ nqn)) result

-- The response for a subsystem that the device lists.
abbrev pub found_as : NvdaSubsystemNvmeListResult → NvmeSubsystem
found_as r = record (listed r) { status = some (record { firmware_revision = "TBD" }) }

-- The first subsystem of the list that has the NQN.
pub record First (nqn : String) (result : List NvdaSubsystemNvmeListResult) : Type 0 where
  pub before : List NvdaSubsystemNvmeListResult
  pub found : NvdaSubsystemNvmeListResult
  pub after : List NvdaSubsystemNvmeListResult
  pub result_eq : result ≡ before ++ found ∷ after
  pub nqn_eq : found.nqn ≡ nqn
  pub lacks : Lacks nqn before

find_listed-cases :
    (nqn : String) (result : List NvdaSubsystemNvmeListResult)
    → ((first : First nqn result) × (find_listed nqn result ≡ some (found_as first.found)))
      ⊎ (Lacks nqn result × (find_listed nqn result ≡ none))
unfolding find_listed
find_listed-cases nqn [] = inr (tt, refl)
find_listed-cases nqn (r ∷ result) = elim (Bool-cases (str_eq r.nqn nqn)) [
  | inl same ↦ inl (
    record {
      before = [];
      found = r;
      after = result;
      result_eq = refl;
      nqn_eq = (str_eq_iff r.nqn nqn).0 same;
      lacks = tt;
    },
    ground (arith, same),
  )
  | inr differ ↦
      let other : ¬ (r.nqn ≡ nqn) = λ e. ground (arith, differ, (str_eq_iff r.nqn nqn).1 e) in
      elim (find_listed-cases nqn result) [
        | inl (first, e) ↦ inl (
          record {
            before = r ∷ first.before;
            found = first.found;
            after = first.after;
            result_eq = ap (λ l. r ∷ l) first.result_eq;
            nqn_eq = first.nqn_eq;
            lacks = (other, first.lacks);
          },
          ground (arith, differ, e),
        )
        | inr (lacks, e) ↦ inr ((other, lacks), ground (arith, differ, e))
      ]
]

module _ (E : Externals) (req : GetRequest) (s : State E) where
  -- What the device is asked: to list its subsystems, once one is stored under the name.
  pub record Asked (result : List NvdaSubsystemNvmeListResult) (t : State E) : Type 0 where
    pub subsystem : NvmeSubsystem
    pub held : E.holds nvme_subsystem s.db req.name ≡ some subsystem
    pub spec : NvmeSubsystemSpec
    pub spec_eq : subsystem.spec ≡ some spec
    pub answered : (E.call subsystem_nvme_list s.device).0 ≡ value result
    pub calls : t.calls ≡ s.calls ++ subsystem_nvme_list ∷ []

  -- `GetNvmeSubsystem` changes nothing. It fails, also when the device lists no subsystem with the
  -- stored NQN, or it returns the first one that the device lists.
  pub data Gets (r : Result NvmeSubsystem) (t : State E) : Type 0 where
    fails : Fails r → Untouched E s t → Gets r t
    unlisted :
        (result : List NvdaSubsystemNvmeListResult) (asked : Asked result t)
        → Lacks asked.spec.nqn result
        → Fails r
        → Untouched E s t
        → Gets r t
    finds :
        (result : List NvdaSubsystemNvmeListResult) (asked : Asked result t)
        → (first : First asked.spec.nqn result) → r ≡ ok (found_as first.found)
        → Untouched E s t
        → Gets r t

module _ (E : Externals) (L : IsStore E) where
  pub get_nvme_subsystem-Gets :
      (req : GetRequest) (s : State E) → let (r, t) = get_nvme_subsystem E req s in Gets E req s r t
  unfolding get_nvme_subsystem
  get_nvme_subsystem-Gets req s = ends.holds
    where
      answer :
          (result : List NvdaSubsystemNvmeListResult) (t : State E) (asked : Asked E req s result t)
          → Untouched E s t
          → Ends
              (λ (r, t). Gets E req s r t)
              (or_not_listed E asked.spec.nqn (find_listed asked.spec.nqn result) t)
      answer result t asked u = elim (find_listed-cases asked.spec.nqn result) [
        | inl (first, e) ↦ rw e (done (finds result asked first refl u))
        | inr (lacks, e) ↦ rw e (done (unlisted result asked lacks (Fails-err _) u))
      ]

      ends : Ends (λ (r, t). Gets E req s r t) (get_nvme_subsystem E req s)
      ends =
          same_rule E _ _ _ (validate_get-same E s req)
            (λ _ _.
              store_get_rule E L nvme_subsystem req.name _ _
                (λ found t _ hf o.
                  condition_rule E _ _ _ _
                    (λ _.
                      pointer_rule E _ _ _
                        (λ subsystem hs.
                          rpc_rule E subsystem_nvme_list _ _
                            (λ result t' he _ u hc.
                              pointer_rule E _ _ _
                                (λ spec hspec.
                                  answer result t'
                                    (record {
                                      subsystem = subsystem;
                                      held = hf ∙ hs;
                                      spec = spec;
                                      spec_eq = hspec;
                                      answered = answered_from E subsystem_nvme_list o he;
                                      calls = rw (sym o.same_calls) hc;
                                    })
                                    (Untouched-trans E o.untouched u))
                                (λ r f. done (fails f (Untouched-trans E o.untouched u))))
                            (λ r t' f u. done (fails f (Untouched-trans E o.untouched u))))
                        (λ r f. done (fails f o.untouched)))
                    (λ r f. done (fails f o.untouched)))
                (λ r t f o. done (fails f o.untouched)))
            (λ r f. done (fails f (Untouched-refl E s)))
