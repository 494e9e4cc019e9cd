-- ===== src/Namespace/Create/Paths.antt =====
-- The paths of `CreateNvmeNamespace` of pkg/frontend/nvme_namespace.go, one after the other.
use opi_nvidia_bridge.Base.{
  String, ◌≡◌, refl, ap, subst, ◌∙◌, true, Option, none, some, [], ◌∷◌, ◌++◌, inl, inr,
}
use opi_nvidia_bridge.Api.Messages.{
  NvmeNamespace, NvmeNamespaceSpec, NvmeSubsystem, NvmeSubsystemSpec, nvme_namespace,
  nvme_subsystem,
}
use opi_nvidia_bridge.Api.Requests.{CreateChildRequest}
use opi_nvidia_bridge.Exec.{Result, ok}
use opi_nvidia_bridge.Exec.Rules.{Ends, done}
use opi_nvidia_bridge.Externals.{Externals, value}
use opi_nvidia_bridge.Externals.Laws.{IsStore, ClonesFaithfully}
use opi_nvidia_bridge.Server.{State}
use opi_nvidia_bridge.Server.Outcomes.{
  Untouched, Untouched-refl, Untouched-trans, OnlyRead, OnlyRead-trans, Stored, Stored-from,
}
use opi_nvidia_bridge.Server.Steps.{
  same_rule, generated_rule, pointer_rule, condition_rule, rpc_rule, store_get_rule, store_set_rule,
}
use opi_nvidia_bridge.Namespace.Create.{attach, create_new, or_create, create_nvme_namespace}
use opi_nvidia_bridge.Namespace.Validate.Same.{validate_create-same}
use opi_nvidia_bridge.Namespace.Create.Outcome.{
  attach_call, created, Attached, Attaches, Attached-from, named, Creates, fails, exists, attaches,
}

module _ (E : Externals) (L : IsStore E) (C : ClonesFaithfully E) where
  attached :
      (namespace : NvmeNamespace) (subsystem : NvmeSubsystem) (spec : NvmeNamespaceSpec)
      (ss : NvmeSubsystemSpec) (s t t' : State E)
      → namespace.spec ≡ some spec
      → subsystem.spec ≡ some ss
      → (E.call (attach_call spec ss) s.device).0 ≡ value true
      → Untouched E s t
      → t.calls ≡ s.calls ++ attach_call spec ss ∷ []
      → Stored E nvme_namespace namespace.name
          (created (E.proto_clone nvme_namespace namespace))
          t
          t'
      → t'.server ≡ t.server
      → t'.calls ≡ t.calls
      → Attached E s namespace subsystem (ok (created (E.proto_clone nvme_namespace namespace))) t'
  attached namespace subsystem spec ss s t t' hn hs he u hc st sv cl = record {
    spec = spec;
    spec_eq = hn;
    subsystem_spec = ss;
    subsystem_spec_eq = hs;
    answered = he;
    calls = cl ∙ hc;
    server = sv ∙ u.same_server;
    result = ap (λ x. ok (created x)) same;
    stored =
        Stored-from E u
          (subst (λ x. Stored E nvme_namespace namespace.name (created x) t t') same st);
  }
    where
      same : E.proto_clone nvme_namespace namespace ≡ namespace
      same = C.clone_eq nvme_namespace namespace

  pub attach-Attaches :
      (namespace : NvmeNamespace) (subsystem : NvmeSubsystem) (s : State E)
      → Ends (Attaches E s namespace subsystem) (attach E namespace subsystem s)
  unfolding attach
  attach-Attaches namespace subsystem s =
      pointer_rule E _ _ _
        (λ spec hn.
          pointer_rule E _ _ _
            (λ ss hs.
              rpc_rule E (attach_call spec ss) _ _
                (λ answer t he _ u hc.
                  condition_rule E _ _ _ _
                    (λ ha.
                      store_set_rule E L nvme_namespace _ _ _ _
                        (λ t' st sv cl. done (
                          inr (
                            attached namespace subsystem spec ss s t t' hn hs (he ∙ ap value ha) u
                              hc st sv cl)))
                        (λ r t' f u' _. done (inl (f, Untouched-trans E u u'))))
                    (λ r f. done (inl (f, u))))
                (λ r t f u. done (inl (f, u))))
            (λ r f. done (inl (f, Untouched-refl E s))))
        (λ r f. done (inl (f, Untouched-refl E s)))

module _ (E : Externals) (L : IsStore E) (C : ClonesFaithfully E) where
  create_new-Creates :
      (req : CreateChildRequest nvme_namespace) (s t : State E) (namespace : NvmeNamespace)
      (id : String)
      → OnlyRead E s t
      → req.resource ≡ some namespace
      → E.holds nvme_namespace s.db (named E req id namespace).name ≡ none
      → Ends (λ (r, t). Creates E req s r t) (create_new E req.parent (named E req id namespace) t)
  unfolding create_new
  create_new-Creates req s t namespace id o hc hn =
      store_get_rule E L nvme_subsystem req.parent _ _
        (λ found t' _ hf o'.
          condition_rule E _ _ _ _
            (λ _.
              pointer_rule E _ _ _
                (λ subsystem hs. done (
                  attach subsystem t' (OnlyRead-trans E o o')
                    (cc (o.untouched.same_store nvme_subsystem req.parent))
                    (attach-Attaches E L C (named E req id namespace) subsystem t').holds))
                (λ r f. done (fails f (OnlyRead-trans E o o').untouched)))
            (λ r f. done (fails f (OnlyRead-trans E o o').untouched)))
        (λ r t' f o'. done (fails f (OnlyRead-trans E o o').untouched))
    where
      attach :
          (subsystem : NvmeSubsystem) (t' : State E) {r : Result NvmeNamespace} {u : State E}
          → OnlyRead E s t'
          → E.holds nvme_subsystem s.db req.parent ≡ some subsystem
          → Attaches E t' (named E req id namespace) subsystem (r, u)
          → Creates E req s r u
      attach subsystem t' o' hs (inl (f, u)) = fails f (Untouched-trans E o'.untouched u)
      attach subsystem t' o' hs (inr a) =
          attaches namespace id subsystem hc hn hs (Attached-from E _ _ _ _ _ _ o' a)

  or_create-Creates :
      (req : CreateChildRequest nvme_namespace) (s t : State E) (namespace : NvmeNamespace)
      (id : String) (found : Option NvmeNamespace)
      → OnlyRead E s t
      → req.resource ≡ some namespace
      → E.holds nvme_namespace s.db (named E req id namespace).name ≡ found
      → Ends
          (λ (r, t). Creates E req s r t)
          (or_create E req.parent (named E req id namespace) found t)
  or_create-Creates req s t namespace id none o hc hf =
      create_new-Creates req s t namespace id o hc hf
  or_create-Creates req s t namespace id (some existing) o hc hf =
      done (exists namespace existing id hc hf refl o)

  -- If the store behaves as a store and clones equal their originals, CreateNvmeNamespace ends in
  -- one of three ways: it fails, with the maps and the store as they were; it returns the namespace
  -- that is stored under the name, without calling the device; or nothing is stored under the name,
  -- the device was called once and has attached what the request specifies to the NQN of the
  -- subsystem stored under the parent's name, and the requested namespace, enabled and online, is
  -- returned and stored, with the rest of the store and the maps as they were.
  pub create_nvme_namespace-Creates :
      (req : CreateChildRequest nvme_namespace) (s : State E)
      → let (r, t) = create_nvme_namespace E req s in Creates E req s r t
  unfolding create_nvme_namespace create_new
  create_nvme_namespace-Creates req s = ends.holds
    where
      ends : Ends (λ (r, t). Creates E req s r t) (create_nvme_namespace E req s)
      ends =
          same_rule E _ _ _ (validate_create-same E s req)
            (λ _ _. generated_rule E _ _ (λ id t _ o.
              pointer_rule E _ _ _
                (λ namespace hc.
                  store_get_rule E L nvme_namespace _ _ _
                    (λ found t' _ hf o'.
                      or_create-Creates req s t' namespace id found (OnlyRead-trans E o o') hc (
                        cc (o.untouched.same_store nvme_namespace (named E req id namespace).name)))
                    (λ r t' f o'. done (fails f (OnlyRead-trans E o o').untouched)))
                (λ r f. done (fails f o.untouched))))
            (λ r f. done (fails f (Untouched-refl E s)))
