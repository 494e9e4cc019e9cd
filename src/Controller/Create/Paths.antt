-- ===== src/Controller/Create/Paths.antt =====
-- The paths of `CreateNvmeController` of pkg/frontend/nvme_controller.go, one after the other.
use opi_nvidia_bridge.Base.{
  pos, ltb_ℤ, String, ◌≡◌, refl, sym, ap, subst, ◌∙◌, true, not, Option, none, some, [], ◌∷◌, ◌++◌,
  inl, inr, arith,
}
use opi_nvidia_bridge.Api.Messages.{
  NvmeController, NvmeControllerSpec, NvmeSubsystem, NvmeSubsystemSpec, nvme_controller,
  nvme_subsystem,
}
use opi_nvidia_bridge.Api.Requests.{CreateChildRequest}
use opi_nvidia_bridge.Models.{NvdaControllerNvmeCreateResult}
use opi_nvidia_bridge.Exec.{Result, ok}
use opi_nvidia_bridge.Exec.Rules.{Ends, done}
use opi_nvidia_bridge.Externals.{Externals, value}
use opi_nvidia_bridge.Externals.Laws.{IsStore, ClonesFaithfully}
use opi_nvidia_bridge.Server.{State}
use opi_nvidia_bridge.Server.Outcomes.{
  Untouched, Untouched-refl, Untouched-trans, OnlyRead, OnlyRead-trans, Stored, Stored-from,
}
use opi_nvidia_bridge.Server.Steps.{
  same_rule, generated_rule, pointer_rule, condition_rule, rpc_rule, store_get_rule, store_set_rule,
}
use opi_nvidia_bridge.Controller.Create.{attach, create_new, or_create, create_nvme_controller}
use opi_nvidia_bridge.Controller.Validate.Same.{validate_create-same}
use opi_nvidia_bridge.Controller.Create.Outcome.{
  create_call, created, Attached, Attaches, Attached-from, named, Creates, fails, exists, attaches,
}

module _ (E : Externals) (L : IsStore E) (C : ClonesFaithfully E) where
  attached :
      (controller : NvmeController) (subsystem : NvmeSubsystem) (spec : NvmeSubsystemSpec)
      (cs : NvmeControllerSpec) (answer : NvdaControllerNvmeCreateResult) (s t t' : State E)
      → subsystem.spec ≡ some spec
      → (E.proto_clone nvme_controller controller).spec ≡ some cs
      → (E.call (create_call controller spec) s.device).0 ≡ value answer
      → not (ltb_ℤ answer.cntlid (pos 0)) ≡ true
      → Untouched E s t
      → t.calls ≡ s.calls ++ create_call controller spec ∷ []
      → Stored E nvme_controller controller.name
          (created (E.proto_clone nvme_controller controller) cs answer.cntlid)
          t
          t'
      → t'.server ≡ t.server
      → t'.calls ≡ t.calls
      → Attached E s controller subsystem
          (ok (created (E.proto_clone nvme_controller controller) cs answer.cntlid))
          t'
  attached controller subsystem spec cs answer s t t' hs hcs he ha u hc st sv cl = record {
    subsystem_spec = spec;
    subsystem_spec_eq = hs;
    spec = cs;
    spec_eq = ap (λ (x : NvmeController). x.spec) (sym same) ∙ hcs;
    answer = answer;
    answered = he;
    accepted = ground arith;
    calls = cl ∙ hc;
    server = sv ∙ u.same_server;
    result = ap (λ x. ok (created x cs answer.cntlid)) same;
    stored = Stored-from E u (
        subst (λ x. Stored E nvme_controller controller.name (created x cs answer.cntlid) t t') same
          st);
  }
    where
      same : E.proto_clone nvme_controller controller ≡ controller
      same = C.clone_eq nvme_controller controller

  attach-Attaches :
      (controller : NvmeController) (subsystem : NvmeSubsystem) (s : State E)
      → Ends (Attaches E s controller subsystem) (attach E controller subsystem s)
  unfolding attach
  attach-Attaches controller subsystem s =
      pointer_rule E _ _ _
        (λ spec hs.
          rpc_rule E (create_call controller spec) _ _
            (λ answer t he _ u hc.
              condition_rule E _ _ _ _
                (λ ha.
                  pointer_rule E _ _ _
                    (λ cs hcs.
                      store_set_rule E L _ _ _ _ _
                        (λ t' st sv cl. done (
                          inr (
                            attached controller subsystem spec cs answer s t t' hs hcs he ha u hc st
                              sv cl)))
                        (λ r t' f u' _. done (inl (f, Untouched-trans E u u'))))
                    (λ r f. done (inl (f, u))))
                (λ r f. done (inl (f, u))))
            (λ r t f u. done (inl (f, u))))
        (λ r f. done (inl (f, Untouched-refl E s)))

module _ (E : Externals) (L : IsStore E) (C : ClonesFaithfully E) where
  create_new-Creates :
      (req : CreateChildRequest nvme_controller) (s t : State E) (controller : NvmeController)
      (id : String)
      → OnlyRead E s t
      → req.resource ≡ some controller
      → E.holds nvme_controller s.db (named E req id controller).name ≡ none
      → Ends (λ (r, t). Creates E req s r t) (create_new E req.parent (named E req id controller) t)
  unfolding create_new
  create_new-Creates req s t controller id o hc hn =
      store_get_rule E L nvme_subsystem req.parent _ _
        (λ found t' _ hf o'.
          condition_rule E _ _ _ _
            (λ _.
              pointer_rule E _ _ _
                (λ subsystem hs. done (
                  attach subsystem t' (OnlyRead-trans E o o')
                    (cc (o.untouched.same_store nvme_subsystem req.parent))
                    (attach-Attaches E L C (named E req id controller) subsystem t').holds))
                (λ r f. done (fails f (OnlyRead-trans E o o').untouched)))
            (λ r f. done (fails f (OnlyRead-trans E o o').untouched)))
        (λ r t' f o'. done (fails f (OnlyRead-trans E o o').untouched))
    where
      attach :
          (subsystem : NvmeSubsystem) (t' : State E) {r : Result NvmeController} {u : State E}
          → OnlyRead E s t'
          → E.holds nvme_subsystem s.db req.parent ≡ some subsystem
          → Attaches E t' (named E req id controller) subsystem (r, u)
          → Creates E req s r u
      attach subsystem t' o' hs (inl (f, u)) = fails f (Untouched-trans E o'.untouched u)
      attach subsystem t' o' hs (inr a) =
          attaches controller id subsystem hc hn hs (Attached-from E _ _ _ _ _ _ o' a)

  or_create-Creates :
      (req : CreateChildRequest nvme_controller) (s t : State E) (controller : NvmeController)
      (id : String) (found : Option NvmeController)
      → OnlyRead E s t
      → req.resource ≡ some controller
      → E.holds nvme_controller s.db (named E req id controller).name ≡ found
      → Ends
          (λ (r, t). Creates E req s r t)
          (or_create E req.parent (named E req id controller) found t)
  or_create-Creates req s t controller id none o hc hf =
      create_new-Creates req s t controller id o hc hf
  or_create-Creates req s t controller id (some existing) o hc hf =
      done (exists controller existing id hc hf refl o)

  pub create_nvme_controller-Creates :
      (req : CreateChildRequest nvme_controller) (s : State E)
      → let (r, t) = create_nvme_controller E req s in Creates E req s r t
  unfolding create_nvme_controller create_new
  create_nvme_controller-Creates req s = ends.holds
    where
      ends : Ends (λ (r, t). Creates E req s r t) (create_nvme_controller E req s)
      ends =
          same_rule E _ _ _ (validate_create-same E s req)
            (λ _ _. generated_rule E _ _ (λ id t _ o.
              pointer_rule E _ _ _
                (λ controller hc.
                  store_get_rule E L nvme_controller _ _ _
                    (λ found t' _ hf o'.
                      or_create-Creates req s t' controller id found (OnlyRead-trans E o o') hc (
                        cc (
                          o.untouched.same_store nvme_controller (named E req id controller).name)))
                    (λ r t' f o'. done (fails f (OnlyRead-trans E o o').untouched)))
                (λ r f. done (fails f o.untouched))))
            (λ r f. done (fails f (Untouched-refl E s)))
