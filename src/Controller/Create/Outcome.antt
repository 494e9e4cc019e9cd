-- ===== src/Controller/Create/Outcome.antt =====
-- What `CreateNvmeController` of pkg/frontend/nvme_controller.go does, on every path.
use opi_nvidia_bridge.Base.{
  ℤ, pos, ltb_ℤ, to_int32, String, ◌≡◌, sym, ◌∙◌, true, false, none, some, [], ◌∷◌, ◌++◌, ◌⊎◌,
  str_eq, if◌then◌else◌,
}
use opi_nvidia_bridge.Api.Messages.{
  NvmeController, NvmeControllerSpec, NvmeSubsystem, NvmeSubsystemSpec, nvme_controller,
  nvme_subsystem,
}
use opi_nvidia_bridge.Api.Requests.{CreateChildRequest}
use opi_nvidia_bridge.Models.{NvdaControllerNvmeCreateResult, Rpc, controller_nvme_create}
use opi_nvidia_bridge.Exec.{Result, ok}
use opi_nvidia_bridge.Externals.{Externals, value}
use opi_nvidia_bridge.Server.{State}
use opi_nvidia_bridge.Server.Outcomes.{
  answered_from, Fails, Untouched, OnlyRead, Stored, Stored-from,
}
use opi_nvidia_bridge.Controller.Create.{physical_function}

-- The call that creates a controller of a subsystem.
abbrev pub create_call : NvmeController → NvmeSubsystemSpec → Rpc
create_call controller spec = controller_nvme_create (record {
  nqn = spec.nqn;
  emulation_manager = "mlx5_0";
  pf_id = physical_function controller;
  vf_id = pos 0;
  nr_io_queues = pos 0;
  max_namespaces = pos 0;
})

-- The controller that is returned and stored: the requested one, with the identifier that the
-- device chose, and active.
abbrev pub created : NvmeController → NvmeControllerSpec → ℤ → NvmeController
created controller spec cntlid = record controller {
  spec = some (record spec { nvme_controller_id = some (to_int32 cntlid) });
  status = some (record { active = true });
}

module _ (E : Externals) (s : State E) where
  -- The device created the controller for the subsystem, and it was stored.
  pub record Attached (controller : NvmeController) (subsystem : NvmeSubsystem)
      (r : Result NvmeController) (t : State E) : Type 0 where
    pub subsystem_spec : NvmeSubsystemSpec
    pub subsystem_spec_eq : subsystem.spec ≡ some subsystem_spec
    pub spec : NvmeControllerSpec
    pub spec_eq : controller.spec ≡ some spec
    pub answer : NvdaControllerNvmeCreateResult
    pub answered : (E.call (create_call controller subsystem_spec) s.device).0 ≡ value answer
    pub accepted : ltb_ℤ answer.cntlid (pos 0) ≡ false
    pub calls : t.calls ≡ s.calls ++ create_call controller subsystem_spec ∷ []
    pub server : t.server ≡ s.server
    pub result : r ≡ ok (created controller spec answer.cntlid)
    pub stored :
        Stored E nvme_controller controller.name (created controller spec answer.cntlid) s t

  abbrev pub Attaches : NvmeController → NvmeSubsystem → Result NvmeController × State E → Type 0
  Attaches controller subsystem (r, t) =
      (Fails r × Untouched E s t) ⊎ Attached controller subsystem r t

module _ (E : Externals) where
  -- The state in which the device is called differs from an earlier one by reads only.
  pub Attached-from :
      (controller : NvmeController) (subsystem : NvmeSubsystem) (s s' : State E)
      (r : Result NvmeController) (t : State E)
      → OnlyRead E s s'
      → Attached E s' controller subsystem r t
      → Attached E s controller subsystem r t
  Attached-from controller subsystem s s' r t o a = record {
    subsystem_spec = a.subsystem_spec;
    subsystem_spec_eq = a.subsystem_spec_eq;
    spec = a.spec;
    spec_eq = a.spec_eq;
    answer = a.answer;
    answered = answered_from E (create_call controller a.subsystem_spec) o a.answered;
    accepted = a.accepted;
    calls = rw (sym o.same_calls) a.calls;
    server = a.server ∙ o.untouched.same_server;
    result = a.result;
    stored = Stored-from E o.untouched a.stored;
  }

  abbrev pub named : CreateChildRequest nvme_controller → String → NvmeController → NvmeController
  named req id controller = record controller {
    name =
        E.resource_id_to_controller_name (E.get_subsystem_id_from_nvme_name req.parent)
          (if str_eq req.resource_id "" then id else req.resource_id);
  }

  -- The three ends of `CreateNvmeController`: it fails and stores nothing; it returns the
  -- controller that is stored under the name, and only reads; or it attaches a new one to the
  -- subsystem that is stored under the parent's name.
  pub data Creates (req : CreateChildRequest nvme_controller) (s : State E)
      (r : Result NvmeController) (t : State E) : Type 0 where
    fails : Fails r → Untouched E s t → Creates req s r t
    exists :
        (controller existing : NvmeController) (id : String)
        → req.resource ≡ some controller
        → E.holds nvme_controller s.db (named req id controller).name ≡ some existing
        → r ≡ ok existing
        → OnlyRead E s t
        → Creates req s r t
    attaches :
        (controller : NvmeController) (id : String) (subsystem : NvmeSubsystem)
        → req.resource ≡ some controller
        → E.holds nvme_controller s.db (named req id controller).name ≡ none
        → E.holds nvme_subsystem s.db req.parent ≡ some subsystem
        → Attached E s (named req id controller) subsystem r t
        → Creates req s r t
