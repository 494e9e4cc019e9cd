-- ===== src/Controller/Delete/Success.antt =====
-- When `DeleteNvmeController` of pkg/frontend/nvme_controller.go succeeds.
use opi_nvidia_bridge.Base.{
  ℤ, ◌≡◌, refl, true, none, some, sym, ap, subst, ◌∙◌, [], ◌∷◌, ◌++◌, inl, inr,
}
use opi_nvidia_bridge.Api.Messages.{
  NvmeController, NvmeControllerSpec, NvmeSubsystem, NvmeSubsystemSpec, nvme_controller,
  nvme_subsystem,
}
use opi_nvidia_bridge.Api.Requests.{Request, DeleteRequest}
use opi_nvidia_bridge.Exec.{ok, ◌>>=◌}
use opi_nvidia_bridge.Exec.Rules.{some-inj}
use opi_nvidia_bridge.Externals.{Externals, value}
use opi_nvidia_bridge.Externals.Laws.{IsStore}
use opi_nvidia_bridge.Server.Outcomes.{Removed}
use opi_nvidia_bridge.Server.{State, store_get, store_delete, rpc}
use opi_nvidia_bridge.Controller.Delete.{delete_nvme_controller}
use opi_nvidia_bridge.Controller.Delete.Outcome.{delete_call, fails, missing, detaches}
use opi_nvidia_bridge.Controller.Delete.Paths.{delete_nvme_controller-Deletes}

module _ (E : Externals) where
  delete_nvme_controller-ok :
      (req : DeleteRequest) (controller : NvmeController) (spec : NvmeControllerSpec) (id : ℤ)
      (subsystem : NvmeSubsystem) (subsystem_spec : NvmeSubsystemSpec) (s : State E)
      → let parent = E.resource_id_to_subsystem_name (E.get_subsystem_id_from_nvme_name req.name) in
        let db = (E.get nvme_controller req.name s.db).1 in
        E.validate_required_fields (Request.delete nvme_controller req) ≡ none
        → E.validate_resource_name req.name ≡ none
        → (E.get nvme_controller req.name s.db).0 ≡ value (some controller)
        → controller.spec ≡ some spec
        → spec.nvme_controller_id ≡ some id
        → (E.get nvme_subsystem parent db).0 ≡ value (some subsystem)
        → subsystem.spec ≡ some subsystem_spec
        → (E.call (delete_call subsystem_spec id) s.device).0 ≡ value true
        → (E.delete controller.name (E.get nvme_subsystem parent db).1).0 ≡ value tt
        → (delete_nvme_controller E req s).0 ≡ ok tt
  unfolding delete_nvme_controller ◌>>=◌ store_get store_delete rpc
  delete_nvme_controller-ok req controller spec id subsystem subsystem_spec s hr hn hg hs hid hg'
        hss he hd =
      rw (hr, hn, hg, hg', hss, hs, hid, he, hd) refl

module _ (E : Externals) (L : IsStore E) where
  -- If the store behaves as a store, the request passes the checks of other packages, the store
  -- answers a controller with an identifier and the subsystem that the name tells, with a
  -- specification, the device deletes the identifier and the store the controller's name, then
  -- DeleteNvmeController succeeds, after one call of the device, to delete that identifier from
  -- that subsystem; the maps are as they were, and the controller is gone from the store, with the
  -- rest as it was.
  pub delete_nvme_controller-succeeds :
      (req : DeleteRequest) (controller : NvmeController) (spec : NvmeControllerSpec) (id : ℤ)
      (subsystem : NvmeSubsystem) (subsystem_spec : NvmeSubsystemSpec) (s : State E)
      → let parent = E.resource_id_to_subsystem_name (E.get_subsystem_id_from_nvme_name req.name) in
        let db = (E.get nvme_controller req.name s.db).1 in
        E.validate_required_fields (Request.delete nvme_controller req) ≡ none
        → E.validate_resource_name req.name ≡ none
        → (E.get nvme_controller req.name s.db).0 ≡ value (some controller)
        → controller.spec ≡ some spec
        → spec.nvme_controller_id ≡ some id
        → (E.get nvme_subsystem parent db).0 ≡ value (some subsystem)
        → subsystem.spec ≡ some subsystem_spec
        → (E.call (delete_call subsystem_spec id) s.device).0 ≡ value true
        → (E.delete controller.name (E.get nvme_subsystem parent db).1).0 ≡ value tt
        → let (r, t) = delete_nvme_controller E req s in
          (r ≡ ok tt)
          × (t.calls ≡ s.calls ++ delete_call subsystem_spec id ∷ [])
          × (t.server ≡ s.server)
          × Removed E controller.name s t
  delete_nvme_controller-succeeds req controller spec id subsystem subsystem_spec s hr hn hg hs hid
        hg' hss he hd =
      let p =
        delete_nvme_controller-ok E req controller spec id subsystem subsystem_spec s hr hn hg hs
          hid hg' hss he hd in
      let parent = E.resource_id_to_subsystem_name (E.get_subsystem_id_from_nvme_name req.name) in
      let held = L.get-value nvme_controller req.name s.db _ hg in
      let parent_held =
        L.get-value nvme_subsystem parent (E.get nvme_controller req.name s.db).1 _ hg'
        ∙ L.holds-get nvme_controller nvme_subsystem req.name parent s.db in
      elim (delete_nvme_controller-Deletes E L req s) [
        | fails f _ ↦ absurd (f tt p)
        | missing absent _ _ _ ↦ absurd (cc (held, absent))
        | detaches m parent_found present parent_present a ↦
            let same : m ≡ controller = some-inj (sym present ∙ sym held) in
            let same_parent : parent_found ≡ subsystem =
              some-inj (sym parent_present ∙ sym parent_held) in
            let same_spec : a.spec ≡ spec =
              some-inj (sym a.spec_eq ∙ ap (λ (x : NvmeController). x.spec) same ∙ hs) in
            let same_parent_spec : a.subsystem_spec ≡ subsystem_spec =
              some-inj
                (sym a.subsystem_spec_eq ∙ ap (λ (x : NvmeSubsystem). x.spec) same_parent ∙ hss) in
            let same_id : a.id ≡ id = some-inj (
              sym a.id_eq
              ∙ ap (λ (x : NvmeControllerSpec). x.nvme_controller_id) same_spec
              ∙ hid) in
            (
              p,
              a.calls
                  ∙ ap (λ x. s.calls ++ delete_call a.subsystem_spec x ∷ []) same_id
                  ∙ ap (λ x. s.calls ++ delete_call x id ∷ []) same_parent_spec,
              a.server,
              elim a.stored [
                | inl (_, rm) ↦
                    subst
                      (λ (x : NvmeController).
                        Removed E x.name s (delete_nvme_controller E req s).1)
                      same rm
                | inr (f, _) ↦ absurd (f tt p)
              ],
            )
      ]
