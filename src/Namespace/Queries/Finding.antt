-- ===== src/Namespace/Queries/Finding.antt =====
-- What `GetNvmeNamespace` of pkg/frontend/nvme_namespace.go does, on every path.
use opi_nvidia_bridge.Base.{
  ℤ, pos, eqb_ℤ, eqb_ℤ_iff, to_int32, String, ◌≡◌, refl, sym, subst, ◌∙◌, ◌⊎◌, inl, inr, Bool-cases,
  none, some, List, [], ◌∷◌, ◌++◌, arith,
}
use opi_nvidia_bridge.Api.Messages.{
  NvmeNamespace, NvmeNamespaceSpec, NvmeSubsystem, NvmeSubsystemSpec, nvme_namespace,
  nvme_subsystem, state_enabled, oper_state_online,
}
use opi_nvidia_bridge.Api.Requests.{GetRequest}
use opi_nvidia_bridge.Models.{
  NamespaceEntry, Rpc, controller_nvme_namespace_list, NvdaControllerNvmeNamespaceListResult,
}
use opi_nvidia_bridge.Exec.{Result, ok}
use opi_nvidia_bridge.Exec.Rules.{Ends, done}
use opi_nvidia_bridge.Externals.{Externals, value}
use opi_nvidia_bridge.Externals.Laws.{IsStore}
use opi_nvidia_bridge.Server.{State}
use opi_nvidia_bridge.Server.Outcomes.{
  Fails, Untouched, Untouched-refl, Untouched-trans, OnlyRead-trans,
}
use opi_nvidia_bridge.Server.Steps.{
  Fails-err, same_rule, pointer_rule, condition_rule, rpc_rule, store_get_rule,
}
use opi_nvidia_bridge.Namespace.Queries.{with_nsid, find_listed, or_not_listed, get_nvme_namespace}
use opi_nvidia_bridge.Namespace.Validate.Same.{validate_get-same}

abbrev pub list_call : NvmeSubsystemSpec → Rpc
list_call spec = controller_nvme_namespace_list (record { subnqn = spec.nqn; cntlid = pos 0 })

-- The response for a namespace that the device lists with an identifier.
abbrev pub found_as : ℤ → NvmeNamespace
found_as nsid = record (with_nsid (to_int32 nsid)) {
  status = some (record { state = state_enabled; oper_state = oper_state_online });
}

-- An entry of the device has the identifier.
abbrev pub Lists : ℤ → List NamespaceEntry → Type 0
Lists nsid [] = ⊥
Lists nsid (r ∷ namespaces) = (r.nsid ≡ nsid) ⊎ Lists nsid namespaces

find_listed-cases :
    (nsid : ℤ) (namespaces : List NamespaceEntry)
    → (Lists nsid namespaces × (find_listed nsid namespaces ≡ some (found_as nsid)))
      ⊎ (¬ Lists nsid namespaces × (find_listed nsid namespaces ≡ none))
unfolding find_listed
find_listed-cases nsid [] = inr (λ h. h, refl)
find_listed-cases nsid (r ∷ namespaces) = elim (Bool-cases (eqb_ℤ r.nsid nsid)) [
  | inl same ↦
      inl (inl ((eqb_ℤ_iff r.nsid nsid).0 same), ground (arith, same, eqb_ℤ_iff r.nsid nsid))
  | inr differ ↦ elim (find_listed-cases nsid namespaces) [
    | inl (h, e) ↦ inl (inr h, ground (arith, differ, e))
    | inr (h, e) ↦ inr (
      λ l. elim l [ inl e' ↦ ground (arith, differ, eqb_ℤ_iff r.nsid nsid) | inr h' ↦ h h' ],
      ground (arith, differ, e),
    )
  ]
]

module _ (E : Externals) (req : GetRequest) (s : State E) where
  -- What the device is asked: to list the namespaces of the subsystem that the name tells.
  pub record Asked (namespaces : List NamespaceEntry) (t : State E) : Type 0 where
    pub namespace : NvmeNamespace
    pub held : E.holds nvme_namespace s.db req.name ≡ some namespace
    pub spec : NvmeNamespaceSpec
    pub spec_eq : namespace.spec ≡ some spec
    pub subsystem : NvmeSubsystem
    pub subsystem_held :
        E.holds nvme_subsystem s.db
          (E.resource_id_to_subsystem_name (E.get_subsystem_id_from_nvme_name req.name))
        ≡ some subsystem
    pub subsystem_spec : NvmeSubsystemSpec
    pub subsystem_spec_eq : subsystem.spec ≡ some subsystem_spec
    pub result : NvdaControllerNvmeNamespaceListResult
    pub answered : (E.call (list_call subsystem_spec) s.device).0 ≡ value result
    pub namespaces_eq : result.namespaces ≡ namespaces
    pub calls : t.calls ≡ s.calls ++ list_call subsystem_spec ∷ []

  -- `GetNvmeNamespace` changes nothing. It fails, or it returns a namespace with the identifier of
  -- the stored one, and then the device lists it; it fails too when the device does not.
  pub data Gets (r : Result NvmeNamespace) (t : State E) : Type 0 where
    fails : Fails r → Untouched E s t → Gets r t
    unlisted :
        (namespaces : List NamespaceEntry) (asked : Asked namespaces t)
        → ¬ Lists asked.spec.host_nsid namespaces
        → Fails r
        → Untouched E s t
        → Gets r t
    finds :
        (namespaces : List NamespaceEntry) (asked : Asked namespaces t)
        → Lists asked.spec.host_nsid namespaces
        → r ≡ ok (found_as asked.spec.host_nsid)
        → Untouched E s t
        → Gets r t

module _ (E : Externals) (L : IsStore E) where
  pub get_nvme_namespace-Gets :
      (req : GetRequest) (s : State E) → let (r, t) = get_nvme_namespace E req s in Gets E req s r t
  unfolding get_nvme_namespace
  get_nvme_namespace-Gets req s = ends.holds
    where
      parent : String
      parent = E.resource_id_to_subsystem_name (E.get_subsystem_id_from_nvme_name req.name)

      answer :
          (namespaces : List NamespaceEntry) (t : State E) (asked : Asked E req s namespaces t)
          → Untouched E s t
          → Ends
              (λ (r, t). Gets E req s r t)
              (or_not_listed E asked.spec.host_nsid (find_listed asked.spec.host_nsid namespaces) t)
      answer namespaces t asked u = elim (find_listed-cases asked.spec.host_nsid namespaces) [
        | inl (h, e) ↦ rw e (done (finds namespaces asked h refl u))
        | inr (h, e) ↦ rw e (done (unlisted namespaces asked h (Fails-err _) u))
      ]

      ends : Ends (λ (r, t). Gets E req s r t) (get_nvme_namespace E req s)
      ends =
          same_rule E _ _ _ (validate_get-same E s req)
            (λ _ _.
              store_get_rule E L nvme_namespace req.name _ _
                (λ found t _ hf o.
                  condition_rule E _ _ _ _
                    (λ _.
                      pointer_rule E _ _ _
                        (λ namespace hn.
                          store_get_rule E L nvme_subsystem parent _ _
                            (λ found' t' _ hf' o'.
                              condition_rule E _ _ _ _
                                (λ _.
                                  pointer_rule E _ _ _
                                    (λ subsystem hs.
                                      pointer_rule E _ _ _
                                        (λ ss hss.
                                          rpc_rule E (list_call ss) _ _
                                            (λ result t'' he _ u hc.
                                              pointer_rule E _ _ _
                                                (λ spec hspec.
                                                  answer result.namespaces t''
                                                    (record {
                                                      namespace = namespace;
                                                      held = hf ∙ hn;
                                                      spec = spec;
                                                      spec_eq = hspec;
                                                      subsystem = subsystem;
                                                      subsystem_held =
                                                          sym (
                                                            o.untouched.same_store nvme_subsystem
                                                            parent)
                                                          ∙ hf'
                                                          ∙ hs;
                                                      subsystem_spec = ss;
                                                      subsystem_spec_eq = hss;
                                                      result = result;
                                                      answered =
                                                          subst
                                                            (λ (d : E.Device).
                                                            (E.call (list_call ss) d).0
                                                            ≡ value result)
                                                            (OnlyRead-trans E o o').same_device he;
                                                      namespaces_eq = refl;
                                                      calls =
                                                          rw
                                                            (sym (OnlyRead-trans E o o').same_calls)
                                                            hc;
                                                    })
                                                    (Untouched-trans E
                                                      (OnlyRead-trans E o o').untouched u))
                                                (λ r f. done (
                                                  fails f (
                                                    Untouched-trans E
                                                      (OnlyRead-trans E o o').untouched u))))
                                            (λ r t'' f u. done (
                                              fails f (
                                                Untouched-trans E (OnlyRead-trans E o o').untouched
                                                  u))))
                                        (λ r f. done (fails f (OnlyRead-trans E o o').untouched)))
                                    (λ r f. done (fails f (OnlyRead-trans E o o').untouched)))
                                (λ r f. done (fails f (OnlyRead-trans E o o').untouched)))
                            (λ r t' f o'. done (fails f (OnlyRead-trans E o o').untouched)))
                        (λ r f. done (fails f o.untouched)))
                    (λ r f. done (fails f o.untouched)))
                (λ r t f o. done (fails f o.untouched)))
            (λ r f. done (fails f (Untouched-refl E s)))
