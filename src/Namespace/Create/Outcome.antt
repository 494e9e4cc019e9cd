-- ===== src/Namespace/Create/Outcome.antt =====
-- What `CreateNvmeNamespace` of pkg/frontend/nvme_namespace.go does, on every path.
use opi_nvidia_bridge.Base.{
  pos, String, ◌≡◌, sym, ◌∙◌, true, none, some, [], ◌∷◌, ◌++◌, ◌⊎◌, str_eq, if◌then◌else◌,
}
use opi_nvidia_bridge.Base.Text.{format_int}
use opi_nvidia_bridge.Api.Messages.{
  NvmeNamespace, NvmeNamespaceSpec, state_enabled, oper_state_online, NvmeSubsystem,
  NvmeSubsystemSpec, nvme_namespace, nvme_subsystem,
}
use opi_nvidia_bridge.Api.Requests.{CreateChildRequest}
use opi_nvidia_bridge.Models.{Rpc, controller_nvme_namespace_attach}
use opi_nvidia_bridge.Exec.{Result, ok}
use opi_nvidia_bridge.Externals.{Externals, value}
use opi_nvidia_bridge.Server.{State}
use opi_nvidia_bridge.Server.Outcomes.{
  answered_from, Fails, Untouched, OnlyRead, Stored, Stored-from,
}

-- The call that attaches a namespace to a subsystem.
abbrev pub attach_call : NvmeNamespaceSpec → NvmeSubsystemSpec → Rpc
attach_call spec subsystem_spec = controller_nvme_namespace_attach (record {
  bdev_type = "spdk";
  bdev = spec.volume_name_ref;
  nsid = spec.host_nsid;
  subnqn = subsystem_spec.nqn;
  cntlid = pos 0;
  uuid = spec.uuid;
  nguid = spec.nguid;
  eui64 = format_int spec.eui64;
})

-- The namespace that is returned and stored: the requested one, enabled and online.
abbrev pub created : NvmeNamespace → NvmeNamespace
created namespace = record namespace {
  status = some (record { state = state_enabled; oper_state = oper_state_online });
}

module _ (E : Externals) (s : State E) where
  -- The device attached the namespace to the subsystem, and it was stored.
  pub record Attached (namespace : NvmeNamespace) (subsystem : NvmeSubsystem)
      (r : Result NvmeNamespace) (t : State E) : Type 0 where
    pub spec : NvmeNamespaceSpec
    pub spec_eq : namespace.spec ≡ some spec
    pub subsystem_spec : NvmeSubsystemSpec
    pub subsystem_spec_eq : subsystem.spec ≡ some subsystem_spec
    pub answered : (E.call (attach_call spec subsystem_spec) s.device).0 ≡ value true
    pub calls : t.calls ≡ s.calls ++ attach_call spec subsystem_spec ∷ []
    pub server : t.server ≡ s.server
    pub result : r ≡ ok (created namespace)
    pub stored : Stored E nvme_namespace namespace.name (created namespace) s t

  abbrev pub Attaches : NvmeNamespace → NvmeSubsystem → Result NvmeNamespace × State E → Type 0
  Attaches namespace subsystem (r, t) =
      (Fails r × Untouched E s t) ⊎ Attached namespace subsystem r t

module _ (E : Externals) where
  -- The state in which the device is called differs from an earlier one by reads only.
  pub Attached-from :
      (namespace : NvmeNamespace) (subsystem : NvmeSubsystem) (s s' : State E)
      (r : Result NvmeNamespace) (t : State E)
      → OnlyRead E s s'
      → Attached E s' namespace subsystem r t
      → Attached E s namespace subsystem r t
  Attached-from namespace subsystem s s' r t o a = record {
    spec = a.spec;
    spec_eq = a.spec_eq;
    subsystem_spec = a.subsystem_spec;
    subsystem_spec_eq = a.subsystem_spec_eq;
    answered = answered_from E (attach_call a.spec a.subsystem_spec) o a.answered;
    calls = rw (sym o.same_calls) a.calls;
    server = a.server ∙ o.untouched.same_server;
    result = a.result;
    stored = Stored-from E o.untouched a.stored;
  }

  abbrev pub named : CreateChildRequest nvme_namespace → String → NvmeNamespace → NvmeNamespace
  named req id namespace = record namespace {
    name =
        E.resource_id_to_namespace_name (E.get_subsystem_id_from_nvme_name req.parent)
          (if str_eq req.resource_id "" then id else req.resource_id);
  }

  -- The three ends of `CreateNvmeNamespace`: it fails and stores nothing; it returns the
  -- namespace that is stored under the name, and only reads; or it attaches a new one to the
  -- subsystem that is stored under the parent's name.
  pub data Creates (req : CreateChildRequest nvme_namespace) (s : State E)
      (r : Result NvmeNamespace) (t : State E) : Type 0 where
    fails : Fails r → Untouched E s t → Creates req s r t
    exists :
        (namespace existing : NvmeNamespace) (id : String)
        → req.resource ≡ some namespace
        → E.holds nvme_namespace s.db (named req id namespace).name ≡ some existing
        → r ≡ ok existing
        → OnlyRead E s t
        → Creates req s r t
    attaches :
        (namespace : NvmeNamespace) (id : String) (subsystem : NvmeSubsystem)
        → req.resource ≡ some namespace
        → E.holds nvme_namespace s.db (named req id namespace).name ≡ none
        → E.holds nvme_subsystem s.db req.parent ≡ some subsystem
        → Attached E s (named req id namespace) subsystem r t
        → Creates req s r t
