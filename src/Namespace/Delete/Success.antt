-- ===== src/Namespace/Delete/Success.antt =====
-- When `DeleteNvmeNamespace` of pkg/frontend/nvme_namespace.go succeeds.
use opi_nvidia_bridge.Base.{
  ◌≡◌, refl, true, none, some, sym, ap, subst, ◌∙◌, [], ◌∷◌, ◌++◌, inl, inr,
}
use opi_nvidia_bridge.Api.Messages.{
  NvmeNamespace, NvmeNamespaceSpec, NvmeSubsystem, NvmeSubsystemSpec, nvme_namespace,
  nvme_subsystem,
}
use opi_nvidia_bridge.Api.Requests.{Request, DeleteRequest}
use opi_nvidia_bridge.Exec.{ok, ◌>>=◌}
use opi_nvidia_bridge.Exec.Rules.{some-inj}
use opi_nvidia_bridge.Externals.{Externals, value}
use opi_nvidia_bridge.Externals.Laws.{IsStore}
use opi_nvidia_bridge.Server.Outcomes.{Removed}
use opi_nvidia_bridge.Server.{State, store_get, store_delete, rpc}
use opi_nvidia_bridge.Namespace.Delete.{delete_nvme_namespace}
use opi_nvidia_bridge.Namespace.Delete.Outcome.{detach_call, fails, missing, detaches}
use opi_nvidia_bridge.Namespace.Delete.Paths.{delete_nvme_namespace-Deletes}

module _ (E : Externals) where
  delete_nvme_namespace-ok :
      (req : DeleteRequest) (namespace : NvmeNamespace) (spec : NvmeNamespaceSpec)
      (subsystem : NvmeSubsystem) (subsystem_spec : NvmeSubsystemSpec) (s : State E)
      → let parent = E.resource_id_to_subsystem_name (E.get_subsystem_id_from_nvme_name req.name) in
        let db = (E.get nvme_namespace req.name s.db).1 in
        E.validate_required_fields (Request.delete nvme_namespace req) ≡ none
        → E.validate_resource_name req.name ≡ none
        → (E.get nvme_namespace req.name s.db).0 ≡ value (some namespace)
        → namespace.spec ≡ some spec
        → (E.get nvme_subsystem parent db).0 ≡ value (some subsystem)
        → subsystem.spec ≡ some subsystem_spec
        → (E.call (detach_call spec subsystem_spec) s.device).0 ≡ value true
        → (E.delete namespace.name (E.get nvme_subsystem parent db).1).0 ≡ value tt
        → (delete_nvme_namespace E req s).0 ≡ ok tt
  unfolding delete_nvme_namespace ◌>>=◌ store_get store_delete rpc
  delete_nvme_namespace-ok req namespace spec subsystem subsystem_spec s hr hn hg hs hg' hss he hd =
      rw (hr, hn, hg, hg', hs, hss, he, hd) refl

module _ (E : Externals) (L : IsStore E) where
  -- If the store behaves as a store, the request passes the checks of other packages, the store
  -- answers a namespace with a specification and the subsystem that the name tells, with a
  -- specification, the device detaches the namespace and the store deletes its name, then
  -- DeleteNvmeNamespace succeeds, after one call of the device, to detach that namespace from that
  -- subsystem; the maps are as they were, and the namespace is gone from the store, with the rest
  -- as it was.
  pub delete_nvme_namespace-succeeds :
      (req : DeleteRequest) (namespace : NvmeNamespace) (spec : NvmeNamespaceSpec)
      (subsystem : NvmeSubsystem) (subsystem_spec : NvmeSubsystemSpec) (s : State E)
      → let parent = E.resource_id_to_subsystem_name (E.get_subsystem_id_from_nvme_name req.name) in
        let db = (E.get nvme_namespace req.name s.db).1 in
        E.validate_required_fields (Request.delete nvme_namespace req) ≡ none
        → E.validate_resource_name req.name ≡ none
        → (E.get nvme_namespace req.name s.db).0 ≡ value (some namespace)
        → namespace.spec ≡ some spec
        → (E.get nvme_subsystem parent db).0 ≡ value (some subsystem)
        → subsystem.spec ≡ some subsystem_spec
        → (E.call (detach_call spec subsystem_spec) s.device).0 ≡ value true
        → (E.delete namespace.name (E.get nvme_subsystem parent db).1).0 ≡ value tt
        → let (r, t) = delete_nvme_namespace E req s in
          (r ≡ ok tt)
          × (t.calls ≡ s.calls ++ detach_call spec subsystem_spec ∷ [])
          × (t.server ≡ s.server)
          × Removed E namespace.name s t
  delete_nvme_namespace-succeeds req namespace spec subsystem subsystem_spec s hr hn hg hs hg' hss
        he hd =
      let p =
        delete_nvme_namespace-ok E req namespace spec subsystem subsystem_spec s hr hn hg hs hg' hss
          he hd in
      let parent = E.resource_id_to_subsystem_name (E.get_subsystem_id_from_nvme_name req.name) in
      let held = L.get-value nvme_namespace req.name s.db _ hg in
      let parent_held =
        L.get-value nvme_subsystem parent (E.get nvme_namespace req.name s.db).1 _ hg'
        ∙ L.holds-get nvme_namespace nvme_subsystem req.name parent s.db in
      elim (delete_nvme_namespace-Deletes E L req s) [
        | fails f _ ↦ absurd (f tt p)
        | missing absent _ _ _ ↦ absurd (cc (held, absent))
        | detaches m parent_found present parent_present a ↦
            let same : m ≡ namespace = some-inj (sym present ∙ sym held) in
            let same_parent : parent_found ≡ subsystem =
              some-inj (sym parent_present ∙ sym parent_held) in
            let same_spec : a.spec ≡ spec =
              some-inj (sym a.spec_eq ∙ ap (λ (x : NvmeNamespace). x.spec) same ∙ hs) in
            let same_parent_spec : a.subsystem_spec ≡ subsystem_spec =
              some-inj
                (sym a.subsystem_spec_eq ∙ ap (λ (x : NvmeSubsystem). x.spec) same_parent ∙ hss) in
            (
              p,
              a.calls
                  ∙ ap (λ x. s.calls ++ detach_call x a.subsystem_spec ∷ []) same_spec
                  ∙ ap (λ x. s.calls ++ detach_call spec x ∷ []) same_parent_spec,
              a.server,
              elim a.stored [
                | inl (_, rm) ↦
                    subst
                      (λ (x : NvmeNamespace). Removed E x.name s (delete_nvme_namespace E req s).1)
                      same rm
                | inr (f, _) ↦ absurd (f tt p)
              ],
            )
      ]
