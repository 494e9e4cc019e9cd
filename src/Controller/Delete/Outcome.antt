-- ===== src/Controller/Delete/Outcome.antt =====
-- What `DeleteNvmeController` of pkg/frontend/nvme_controller.go does, on every path.
use opi_nvidia_bridge.Base.{ℤ, ◌≡◌, sym, ◌∙◌, true, none, some, [], ◌∷◌, ◌++◌, ◌⊎◌, inl, inr}
use opi_nvidia_bridge.Api.Messages.{
  NvmeController, NvmeControllerSpec, NvmeSubsystem, NvmeSubsystemSpec, nvme_controller,
  nvme_subsystem,
}
use opi_nvidia_bridge.Api.Requests.{DeleteRequest}
use opi_nvidia_bridge.Models.{Rpc, controller_nvme_delete}
use opi_nvidia_bridge.Exec.{Result, ok}
use opi_nvidia_bridge.Externals.{Externals, value}
use opi_nvidia_bridge.Server.{State}
use opi_nvidia_bridge.Server.Outcomes.{
  answered_from, Fails, Untouched, Untouched-trans, OnlyRead, Removed, Removed-from,
}

-- The call that deletes a controller of a subsystem.
abbrev pub delete_call : NvmeSubsystemSpec → ℤ → Rpc
delete_call spec id = controller_nvme_delete (record { subnqn = spec.nqn; cntlid = id })

module _ (E : Externals) (s : State E) where
  -- The device was asked to delete the controller of the subsystem and did, whether or not the
  -- store has dropped it afterwards.
  pub record Detached (controller : NvmeController) (subsystem : NvmeSubsystem)
      (r : Result (Unit {0})) (t : State E) : Type 0 where
    pub subsystem_spec : NvmeSubsystemSpec
    pub subsystem_spec_eq : subsystem.spec ≡ some subsystem_spec
    pub spec : NvmeControllerSpec
    pub spec_eq : controller.spec ≡ some spec
    pub id : ℤ
    pub id_eq : spec.nvme_controller_id ≡ some id
    pub answered : (E.call (delete_call subsystem_spec id) s.device).0 ≡ value true
    pub calls : t.calls ≡ s.calls ++ delete_call subsystem_spec id ∷ []
    pub server : t.server ≡ s.server
    pub stored : ((r ≡ ok tt) × Removed E controller.name s t) ⊎ (Fails r × Untouched E s t)

  abbrev pub Detaches : NvmeController → NvmeSubsystem → Result (Unit {0}) × State E → Type 0
  Detaches controller subsystem (r, t) =
      (Fails r × Untouched E s t) ⊎ Detached controller subsystem r t

module _ (E : Externals) where
  -- The state in which the device is called differs from an earlier one by reads only.
  pub Detached-from :
      (controller : NvmeController) (subsystem : NvmeSubsystem) (s s' : State E)
      (r : Result (Unit {0})) (t : State E)
      → OnlyRead E s s'
      → Detached E s' controller subsystem r t
      → Detached E s controller subsystem r t
  Detached-from controller subsystem s s' r t o a = record {
    subsystem_spec = a.subsystem_spec;
    subsystem_spec_eq = a.subsystem_spec_eq;
    spec = a.spec;
    spec_eq = a.spec_eq;
    id = a.id;
    id_eq = a.id_eq;
    answered = answered_from E (delete_call a.subsystem_spec a.id) o a.answered;
    calls = rw (sym o.same_calls) a.calls;
    server = a.server ∙ o.untouched.same_server;
    stored = from a.stored;
  }
    where
      from :
          ((r ≡ ok tt) × Removed E controller.name s' t) ⊎ (Fails r × Untouched E s' t)
          → ((r ≡ ok tt) × Removed E controller.name s t) ⊎ (Fails r × Untouched E s t)
      from (inl (p, rm)) = inl (p, Removed-from E o.untouched rm)
      from (inr (f, u)) = inr (f, Untouched-trans E o.untouched u)

  -- The three ends of `DeleteNvmeController`: it fails and removes nothing; nothing is stored under
  -- the name, which the request allows; or the stored controller is detached from the subsystem
  -- that its name tells.
  pub data Deletes (req : DeleteRequest) (s : State E) (r : Result (Unit {0})) (t : State E)
      : Type 0 where
    fails : Fails r → Untouched E s t → Deletes req s r t
    missing :
        E.holds nvme_controller s.db req.name ≡ none
        → req.allow_missing ≡ true
        → r ≡ ok tt
        → OnlyRead E s t
        → Deletes req s r t
    detaches :
        (controller : NvmeController) (subsystem : NvmeSubsystem)
        → E.holds nvme_controller s.db req.name ≡ some controller
        → E.holds nvme_subsystem s.db
            (E.resource_id_to_subsystem_name (E.get_subsystem_id_from_nvme_name req.name))
          ≡ some subsystem
        → Detached E s controller subsystem r t
        → Deletes req s r t
