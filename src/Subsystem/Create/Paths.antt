-- ===== src/Subsystem/Create/Paths.antt =====
-- The paths of `CreateNvmeSubsystem` of pkg/frontend/nvme_subsystem.go, one after the other.
use opi_nvidia_bridge.Base.{
  String, ◌≡◌, refl, ap, subst, ◌∙◌, true, not, Option, none, some, [], ◌∷◌, ◌++◌, ◌⊎◌, inl, inr,
  arith,
}
use opi_nvidia_bridge.Api.Messages.{NvmeSubsystem, NvmeSubsystemSpec, nvme_subsystem}
use opi_nvidia_bridge.Api.Requests.{CreateRequest}
use opi_nvidia_bridge.Models.{spdk_get_version}
use opi_nvidia_bridge.Exec.{Result, ok}
use opi_nvidia_bridge.Exec.Rules.{Ends, done}
use opi_nvidia_bridge.Externals.{Externals, value}
use opi_nvidia_bridge.Externals.Laws.{IsStore, ClonesFaithfully}
use opi_nvidia_bridge.Server.{State}
use opi_nvidia_bridge.Server.Rules.{get_server_rule, set_server_rule}
use opi_nvidia_bridge.Server.Outcomes.{
  Fails, Untouched, Untouched-refl, Untouched-trans, OnlyRead, OnlyRead-trans, Stored,
}
use opi_nvidia_bridge.Server.Steps.{
  same_rule, generated_rule, pointer_rule, condition_rule, rpc_rule, store_get_rule, store_set_rule,
}
use opi_nvidia_bridge.Subsystem.Create.{has_nqn, save, create_new, or_create, create_nvme_subsystem}
use opi_nvidia_bridge.Subsystem.Validate.Same.{validate_create-same}
use opi_nvidia_bridge.Subsystem.Validate.Settable.{
  IsGenerated, IsSettable, validate_create-IsSettable,
}
use opi_nvidia_bridge.Subsystem.Validate.Sound.{IsValidSpec, validate_create-IsValidSpec}
use opi_nvidia_bridge.Subsystem.Create.Outcome.{
  create_call, created, registering, SameStore, Made, Makes, stored-from, Made-from, named, Creates,
  fails, exists, makes,
}

module _ (E : Externals) (L : IsStore E) (C : ClonesFaithfully E) where
  -- The end of the handler.
  abbrev Saves : NvmeSubsystem → String → String → State E → Result NvmeSubsystem × State E → Type 0
  Saves subsystem nqn version s (r, t) =
      (t.server ≡ registering nqn s.server)
      × (t.calls ≡ s.calls)
      × (((r ≡ ok (created subsystem version))
            × Stored E nvme_subsystem subsystem.name (created subsystem version) s t)
          ⊎ (Fails r × SameStore E s t))

  save-Saves :
      (subsystem : NvmeSubsystem) (nqn version : String) (s : State E)
      → Ends (Saves subsystem nqn version s) (save E subsystem nqn version s)
  unfolding save
  save-Saves subsystem nqn version s = get_server_rule E _ _ (
      set_server_rule E _ _ _ (
        store_set_rule E L nvme_subsystem _ _ _ _
          (λ t st sv cl. done (sv, cl, inl (ap (λ x. ok (created x version)) same, kept t st)))
          (λ r t f u cl. done (u.same_server, cl, inr (f, u.same_store)))))
    where
      same : E.proto_clone nvme_subsystem subsystem ≡ subsystem
      same = C.clone_eq nvme_subsystem subsystem

      kept :
          (t : State E)
          → Stored E nvme_subsystem subsystem.name
              (created (E.proto_clone nvme_subsystem subsystem) version)
              (record s { server = registering nqn s.server })
              t
          → Stored E nvme_subsystem subsystem.name (created subsystem version) s t
      kept t st =
          subst (λ x. Stored E nvme_subsystem subsystem.name (created x version) s t) same
            (record { held = st.held; others = st.others })

  made :
      (subsystem : NvmeSubsystem) (spec : NvmeSubsystemSpec) (version : String) (s t t' u : State E)
      (r : Result NvmeSubsystem)
      → subsystem.spec ≡ some spec
      → not (has_nqn spec.nqn s.server.nqns) ≡ true
      → (E.call (create_call spec) s.device).0 ≡ value true
      → t.device ≡ (E.call (create_call spec) s.device).1
      → Untouched E s t
      → t.calls ≡ s.calls ++ create_call spec ∷ []
      → (E.call spdk_get_version t.device).0 ≡ value version
      → Untouched E t t'
      → t'.calls ≡ t.calls ++ spdk_get_version ∷ []
      → Saves subsystem spec.nqn version t' (r, u)
      → Made E s subsystem r u
  made subsystem spec version s t t' u r hs free he hd un hc hv un' hc' (sv, cl, st) = record {
    spec = spec;
    spec_eq = hs;
    fresh = ground arith;
    answered = he;
    version = version;
    version_eq = subst (λ (d : E.Device). (E.call spdk_get_version d).0 ≡ value version) hd hv;
    calls = cl ∙ hc' ∙ ap (λ c. c ++ spdk_get_version ∷ []) hc;
    server = sv ∙ ap (registering spec.nqn) (un'.same_server ∙ un.same_server);
    stored = stored-from E subsystem version s t' r u (Untouched-trans E un un') st;
  }

  create_new-Makes :
      (subsystem : NvmeSubsystem) (s : State E)
      → Ends (Makes E s subsystem) (create_new E subsystem s)
  unfolding create_new
  create_new-Makes subsystem s =
      pointer_rule E _ _ _
        (λ spec hs. get_server_rule E _ _ (
          condition_rule E _ _ _ _
            (λ free.
              rpc_rule E (create_call spec) _ _
                (λ created t he hd u hc.
                  condition_rule E _ _ _ _
                    (λ hok.
                      rpc_rule E spdk_get_version _ _
                        (λ version t' hv _ u' hc'. done (
                          inr (
                            made subsystem spec version s t t' _ _ hs free (he ∙ ap value hok) hd u
                              hc hv u' hc' (save-Saves subsystem spec.nqn version t').holds)))
                        (λ r t' f u'. done (inl (f, Untouched-trans E u u'))))
                    (λ r f. done (inl (f, u))))
                (λ r t f u. done (inl (f, u))))
            (λ r f. done (inl (f, Untouched-refl E s)))))
        (λ r f. done (inl (f, Untouched-refl E s)))

module _ (E : Externals) (L : IsStore E) (C : ClonesFaithfully E) where
  or_create-Creates :
      (req : CreateRequest nvme_subsystem) (s t : State E) (subsystem : NvmeSubsystem) (id : String)
      (found : Option NvmeSubsystem)
      → OnlyRead E s t
      → req.resource ≡ some subsystem
      → ((spec : NvmeSubsystemSpec) → subsystem.spec ≡ some spec → IsValidSpec spec)
      → IsGenerated E id
      → IsSettable E req
      → E.holds nvme_subsystem s.db (named E req id subsystem).name ≡ found
      → Ends (λ (r, t). Creates E req s r t) (or_create E (named E req id subsystem) found t)
  or_create-Creates req s t subsystem id none o hr hv g settable hf =
      done (from (create_new-Makes E L C (named E req id subsystem) t).holds)
    where
      from :
          {r : Result NvmeSubsystem} {u : State E}
          → Makes E t (named E req id subsystem) (r, u)
          → Creates E req s r u
      from (inl (f, u)) = fails f (Untouched-trans E o.untouched u)
      from (inr a) =
          let a' = Made-from E _ _ _ _ _ o a in
          makes subsystem id hr hf a' (hv _ a'.spec_eq) g settable
  or_create-Creates req s t subsystem id (some existing) o hr hv g settable hf =
      done (exists subsystem existing id hr hf refl o)

  -- If the store behaves as a store and clones equal their originals, CreateNvmeSubsystem ends in
  -- one of three ways: it fails, with the maps and the store as they were; it returns the subsystem
  -- that is stored under the name, without calling the device; or nothing is stored under the name,
  -- the specification is within the limits and has an NQN of the pattern that was not registered,
  -- the identifier is a generated one or one that clients may set, the device is called twice, to
  -- create the subsystem and for its version, the NQN is registered, and either the requested
  -- subsystem with that version is returned and stored, with the rest of the store as it was, or
  -- the method fails and the store is as it was.
  pub create_nvme_subsystem-Creates :
      (req : CreateRequest nvme_subsystem) (s : State E)
      → let (r, t) = create_nvme_subsystem E req s in Creates E req s r t
  unfolding create_nvme_subsystem
  create_nvme_subsystem-Creates req s = ends.holds
    where
      ends : Ends (λ (r, t). Creates E req s r t) (create_nvme_subsystem E req s)
      ends =
          same_rule E _ _ _ (validate_create-same E s req)
            (λ u valid. generated_rule E _ _ (λ id t g o.
              pointer_rule E _ _ _
                (λ subsystem hr.
                  store_get_rule E L nvme_subsystem _ _ _
                    (λ found t' _ hf o'.
                      or_create-Creates req s t' subsystem id found (OnlyRead-trans E o o') hr
                        (λ spec. validate_create-IsValidSpec E s req u subsystem spec valid hr)
                        (_, g) (validate_create-IsSettable E s req u valid)
                        (cc
                          (o.untouched.same_store nvme_subsystem (named E req id subsystem).name)))
                    (λ r t' f o'. done (fails f (OnlyRead-trans E o o').untouched)))
                (λ r f. done (fails f o.untouched))))
            (λ r f. done (fails f (Untouched-refl E s)))
