-- ===== src/Subsystem/Delete/Success.antt =====
-- When `DeleteNvmeSubsystem` of pkg/frontend/nvme_subsystem.go succeeds.
use opi_nvidia_bridge.Base.{
  ◌≡◌, refl, true, none, some, sym, ap, subst, ◌∙◌, [], ◌∷◌, ◌++◌, inl, inr,
}
use opi_nvidia_bridge.Api.Messages.{NvmeSubsystem, NvmeSubsystemSpec, nvme_subsystem}
use opi_nvidia_bridge.Api.Requests.{Request, DeleteRequest}
use opi_nvidia_bridge.Exec.{ok, ◌>>=◌}
use opi_nvidia_bridge.Exec.Rules.{some-inj}
use opi_nvidia_bridge.Externals.{Externals, value}
use opi_nvidia_bridge.Externals.Laws.{IsStore}
use opi_nvidia_bridge.Server.Outcomes.{Removed}
use opi_nvidia_bridge.Server.{State, store_get, store_delete, rpc, get_server, set_server}
use opi_nvidia_bridge.Subsystem.Delete.{delete_nvme_subsystem}
use opi_nvidia_bridge.Subsystem.Delete.Outcome.{delete_call, unregistering, fails, missing, deletes}
use opi_nvidia_bridge.Subsystem.Delete.Paths.{delete_nvme_subsystem-Deletes}

module _ (E : Externals) where
  delete_nvme_subsystem-ok :
      (req : DeleteRequest) (subsystem : NvmeSubsystem) (spec : NvmeSubsystemSpec) (s : State E)
      → E.validate_required_fields (Request.delete nvme_subsystem req) ≡ none
      → E.validate_resource_name req.name ≡ none
      → (E.get nvme_subsystem req.name s.db).0 ≡ value (some subsystem)
      → subsystem.spec ≡ some spec
      → (E.call (delete_call spec) s.device).0 ≡ value true
      → (E.delete subsystem.name (E.get nvme_subsystem req.name s.db).1).0 ≡ value tt
      → (delete_nvme_subsystem E req s).0 ≡ ok tt
  unfolding delete_nvme_subsystem ◌>>=◌ store_get store_delete rpc get_server set_server
  delete_nvme_subsystem-ok req subsystem spec s hr hn hg hs he hd = rw (hr, hn, hg, hs, he, hd) refl

module _ (E : Externals) (L : IsStore E) where
  -- If the store behaves as a store, the request passes the checks of other packages, the store
  -- answers a subsystem with a specification, the device deletes its NQN and the store its name,
  -- then DeleteNvmeSubsystem succeeds, after one call of the device, to delete that NQN; the NQN is
  -- no longer registered, the rest of the maps is as it was, and the subsystem is gone from the
  -- store, with the rest as it was.
  pub delete_nvme_subsystem-succeeds :
      (req : DeleteRequest) (subsystem : NvmeSubsystem) (spec : NvmeSubsystemSpec) (s : State E)
      → E.validate_required_fields (Request.delete nvme_subsystem req) ≡ none
      → E.validate_resource_name req.name ≡ none
      → (E.get nvme_subsystem req.name s.db).0 ≡ value (some subsystem)
      → subsystem.spec ≡ some spec
      → (E.call (delete_call spec) s.device).0 ≡ value true
      → (E.delete subsystem.name (E.get nvme_subsystem req.name s.db).1).0 ≡ value tt
      → let (r, t) = delete_nvme_subsystem E req s in
        (r ≡ ok tt)
        × (t.calls ≡ s.calls ++ delete_call spec ∷ [])
        × (t.server ≡ unregistering spec.nqn s.server)
        × Removed E subsystem.name s t
  delete_nvme_subsystem-succeeds req subsystem spec s hr hn hg hs he hd =
      let p = delete_nvme_subsystem-ok E req subsystem spec s hr hn hg hs he hd in
      let held = L.get-value nvme_subsystem req.name s.db _ hg in
      elim (delete_nvme_subsystem-Deletes E L req s) [
        | fails f _ ↦ absurd (f tt p)
        | missing absent _ _ _ ↦ absurd (cc (held, absent))
        | deletes m present a ↦
            let same : m ≡ subsystem = some-inj (sym present ∙ sym held) in
            let same_spec : a.spec ≡ spec =
              some-inj (sym a.spec_eq ∙ ap (λ (x : NvmeSubsystem). x.spec) same ∙ hs) in
            (
              p,
              a.calls ∙ ap (λ x. s.calls ++ delete_call x ∷ []) same_spec,
              a.server ∙ ap (λ x. unregistering x.nqn s.server) same_spec,
              elim a.stored [
                | inl (_, rm) ↦
                    subst
                      (λ (x : NvmeSubsystem). Removed E x.name s (delete_nvme_subsystem E req s).1)
                      same rm
                | inr (f, _) ↦ absurd (f tt p)
              ],
            )
      ]
