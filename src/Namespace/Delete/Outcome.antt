-- ===== src/Namespace/Delete/Outcome.antt =====
-- What `DeleteNvmeNamespace` of pkg/frontend/nvme_namespace.go does, on every path.
use opi_nvidia_bridge.Base.{pos, ◌≡◌, sym, ◌∙◌, true, none, some, [], ◌∷◌, ◌++◌, ◌⊎◌, inl, inr}
use opi_nvidia_bridge.Api.Messages.{
  NvmeNamespace, NvmeNamespaceSpec, NvmeSubsystem, NvmeSubsystemSpec, nvme_namespace,
  nvme_subsystem,
}
use opi_nvidia_bridge.Api.Requests.{DeleteRequest}
use opi_nvidia_bridge.Models.{Rpc, controller_nvme_namespace_detach}
use opi_nvidia_bridge.Exec.{Result, ok}
use opi_nvidia_bridge.Externals.{Externals, value}
use opi_nvidia_bridge.Server.{State}
use opi_nvidia_bridge.Server.Outcomes.{
  answered_from, Fails, Untouched, Untouched-trans, OnlyRead, Removed, Removed-from,
}

-- The call that detaches a namespace from a subsystem.
abbrev pub detach_call : NvmeNamespaceSpec → NvmeSubsystemSpec → Rpc
detach_call spec subsystem_spec =
    controller_nvme_namespace_detach
      (record { nsid = spec.host_nsid; subnqn = subsystem_spec.nqn; cntlid = pos 0 })

module _ (E : Externals) (s : State E) where
  -- The device was asked to detach the namespace from the subsystem and did, whether or not the
  -- store has dropped it afterwards.
  pub record Detached (namespace : NvmeNamespace) (subsystem : NvmeSubsystem)
      (r : Result (Unit {0})) (t : State E) : Type 0 where
    pub subsystem_spec : NvmeSubsystemSpec
    pub subsystem_spec_eq : subsystem.spec ≡ some subsystem_spec
    pub spec : NvmeNamespaceSpec
    pub spec_eq : namespace.spec ≡ some spec
    pub answered : (E.call (detach_call spec subsystem_spec) s.device).0 ≡ value true
    pub calls : t.calls ≡ s.calls ++ detach_call spec subsystem_spec ∷ []
    pub server : t.server ≡ s.server
    pub stored : ((r ≡ ok tt) × Removed E namespace.name s t) ⊎ (Fails r × Untouched E s t)

  abbrev pub Detaches : NvmeNamespace → NvmeSubsystem → Result (Unit {0}) × State E → Type 0
  Detaches namespace subsystem (r, t) =
      (Fails r × Untouched E s t) ⊎ Detached namespace subsystem r t

module _ (E : Externals) where
  -- The state in which the device is called differs from an earlier one by reads only.
  pub Detached-from :
      (namespace : NvmeNamespace) (subsystem : NvmeSubsystem) (s s' : State E)
      (r : Result (Unit {0})) (t : State E)
      → OnlyRead E s s'
      → Detached E s' namespace subsystem r t
      → Detached E s namespace subsystem r t
  Detached-from namespace subsystem s s' r t o a = record {
    subsystem_spec = a.subsystem_spec;
    subsystem_spec_eq = a.subsystem_spec_eq;
    spec = a.spec;
    spec_eq = a.spec_eq;
    answered = answered_from E (detach_call a.spec a.subsystem_spec) o a.answered;
    calls = rw (sym o.same_calls) a.calls;
    server = a.server ∙ o.untouched.same_server;
    stored = from a.stored;
  }
    where
      from :
          ((r ≡ ok tt) × Removed E namespace.name s' t) ⊎ (Fails r × Untouched E s' t)
          → ((r ≡ ok tt) × Removed E namespace.name s t) ⊎ (Fails r × Untouched E s t)
      from (inl (p, rm)) = inl (p, Removed-from E o.untouched rm)
      from (inr (f, u)) = inr (f, Untouched-trans E o.untouched u)

  -- The three ends of `DeleteNvmeNamespace`: it fails and removes nothing; nothing is stored under
  -- the name, which the request allows; or the stored namespace is detached from the subsystem
  -- that its name tells.
  pub data Deletes (req : DeleteRequest) (s : State E) (r : Result (Unit {0})) (t : State E)
      : Type 0 where
    fails : Fails r → Untouched E s t → Deletes req s r t
    missing :
        E.holds nvme_namespace s.db req.name ≡ none
        → req.allow_missing ≡ true
        → r ≡ ok tt
        → OnlyRead E s t
        → Deletes req s r t
    detaches :
        (namespace : NvmeNamespace) (subsystem : NvmeSubsystem)
        → E.holds nvme_namespace s.db req.name ≡ some namespace
        → E.holds nvme_subsystem s.db
            (E.resource_id_to_subsystem_name (E.get_subsystem_id_from_nvme_name req.name))
          ≡ some subsystem
        → Detached E s namespace subsystem r t
        → Deletes req s r t
