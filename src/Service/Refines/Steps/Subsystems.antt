-- ===== src/Service/Refines/Steps/Subsystems.antt =====
-- `CreateNvmeSubsystem` and `DeleteNvmeSubsystem` of pkg/frontend/nvme_subsystem.go against the
-- specification of the service.
use opi_nvidia_bridge.Base.{String, ◌≡◌, refl, sym, ap, subst, ◌∙◌, inl, inr, some, none}
use opi_nvidia_bridge.Api.Messages.{NvmeSubsystem, NvmeSubsystemSpec, nvme_subsystem}
use opi_nvidia_bridge.Api.Requests.{CreateRequest, DeleteRequest}
use opi_nvidia_bridge.Exec.Rules.{some-inj}
use opi_nvidia_bridge.Externals.{Externals}
use opi_nvidia_bridge.Externals.Laws.{
  PlainId, IsStore, ClonesFaithfully, IdsPlain, NamesApart, subsystem_name,
}
use opi_nvidia_bridge.Server.{Server, State}
use opi_nvidia_bridge.Server.Outcomes.{Removed}
use opi_nvidia_bridge.Subsystem.Create.{has_nqn, create_nvme_subsystem}
use opi_nvidia_bridge.Subsystem.Create.Outcome.{created, named, fails, exists, makes}
use opi_nvidia_bridge.Subsystem.Create.Paths.{create_nvme_subsystem-Creates}
use opi_nvidia_bridge.Subsystem.Delete.{delete_nvme_subsystem}
use opi_nvidia_bridge.Subsystem.Delete.Outcome
use opi_nvidia_bridge.Subsystem.Delete.Outcome.{missing, deletes}
use opi_nvidia_bridge.Subsystem.Delete.Paths.{delete_nvme_subsystem-Deletes}
use opi_nvidia_bridge.Subsystem.Validate.Settable.{plain_id}
use opi_nvidia_bridge.Subsystem.Validate.Sound.{IsValidSpec}
use opi_nvidia_bridge.Service.Formed.{IsFormed}
use opi_nvidia_bridge.Service.Spec
use opi_nvidia_bridge.Service.Spec.{View, creates, deletes}
use opi_nvidia_bridge.Service.Refines.{Represents, Represents-Changed, Represents-registered}
use opi_nvidia_bridge.Service.Refines.Changes.{held-same, Changed-stored, Changed-removed}
use opi_nvidia_bridge.Service.Refines.Steps.{
  Simulates, untouched-Simulates, registered-insert, registered-erase,
}

-- A subsystem that equals one with a valid specification.
ap_sound :
    (m m' : NvmeSubsystem)
    → m ≡ m'
    → (spec : NvmeSubsystemSpec) → m.spec ≡ some spec
    → IsValidSpec spec
    → (m'.name ≡ m.name) × IsFormed nvme_subsystem m'
ap_sound m m' e spec hs valid =
    subst (λ (x : NvmeSubsystem). (x.name ≡ m.name) × IsFormed nvme_subsystem x) e
      (refl, (spec, hs, valid))

module _ (E : Externals) (L : IsStore E) (N : NamesApart E) (s : State E) (v : View)
    (h : Represents E s v) where
  pub create_nvme_subsystem-Simulates :
      ClonesFaithfully E
      → IdsPlain E
      → (req : CreateRequest nvme_subsystem)
      → Simulates E (creates nvme_subsystem) v (create_nvme_subsystem E req s).1
  create_nvme_subsystem-Simulates C P req = elim (create_nvme_subsystem-Creates E L C req s) [
    | fails _ u ↦ untouched-Simulates E s _ v u h
    | exists _ _ _ _ _ _ o ↦ untouched-Simulates E s _ v o.untouched h
    | makes subsystem id _ absent made valid g settable ↦
        let t = (create_nvme_subsystem E req s).1 in
        let i : PlainId = (_, plain_id E P req id g settable) in
        let m = created (named E req id subsystem) made.version in
        let free = sym (h.registered made.spec.nqn) ∙ made.fresh in
        let reg = λ (nqn : String).
          ap (λ (x : Server). has_nqn nqn x.nqns) made.server
          ∙ registered-insert s.server.nqns v.registered h.registered made.spec.nqn nqn in
        let ctrls = ap (λ (x : Server). x.virtio_ctrls) made.server in
        elim made.stored [
          | inl (_, st) ↦ (
            _,
            Spec.makes (subsystem_name E i) m made.spec (i, refl)
                (sym (h.objects nvme_subsystem (subsystem_name E i) (i, refl)) ∙ absent) refl
                made.spec_eq free,
            Represents-Changed E nvme_subsystem (subsystem_name E i) (some m) s t v _
                (Changed-stored E N s t nvme_subsystem _ m refl (i, refl) ctrls st)
                (λ m' e. ap_sound m m' (some-inj e) made.spec made.spec_eq valid) reg h,
          )
          | inr (_, same) ↦ (
            _,
            Spec.claims made.spec.nqn free,
            Represents-registered E s t v _ (held-same E s t ctrls same) reg h,
          )
        ]
  ]

  pub delete_nvme_subsystem-Simulates :
      (req : DeleteRequest) (i : PlainId)
      → req.name ≡ subsystem_name E i
      → Simulates E (deletes nvme_subsystem req.name) v (delete_nvme_subsystem E req s).1
  delete_nvme_subsystem-Simulates req i hn = elim (delete_nvme_subsystem-Deletes E L req s) [
    | Outcome.fails _ u ↦ untouched-Simulates E s _ v u h
    | missing _ _ _ o ↦ untouched-Simulates E s _ v o.untouched h
    | deletes subsystem present deleted ↦
        let t = (delete_nvme_subsystem E req s).1 in
        let kept = sym (h.objects nvme_subsystem req.name (i, hn)) ∙ present in
        let name = (h.sound nvme_subsystem req.name subsystem (i, hn) kept).0 in
        let reg = λ (nqn : String).
          ap (λ (x : Server). has_nqn nqn x.nqns) deleted.server
          ∙ registered-erase s.server.nqns v.registered h.registered deleted.spec.nqn nqn in
        let ctrls = ap (λ (x : Server). x.virtio_ctrls) deleted.server in
        elim deleted.stored [
          | inl (_, rm) ↦ (
            _,
            Spec.drops req.name subsystem deleted.spec (i, hn) kept deleted.spec_eq,
            Represents-Changed E nvme_subsystem req.name none s t v _
                (Changed-removed E N s t nvme_subsystem req.name refl (i, hn) ctrls
                  (subst (λ n. Removed E n s t) name rm))
                (λ m' e. absurd (cc e)) reg h,
          )
          | inr (_, same) ↦ (
            _,
            Spec.frees req.name subsystem deleted.spec (i, hn) kept deleted.spec_eq,
            Represents-registered E s t v _ (held-same E s t ctrls same) reg h,
          )
        ]
  ]
