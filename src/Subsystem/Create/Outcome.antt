-- ===== src/Subsystem/Create/Outcome.antt =====
-- What `CreateNvmeSubsystem` of pkg/frontend/nvme_subsystem.go does, on every path.
use opi_nvidia_bridge.Base.{
  String, ◌≡◌, sym, ap, subst, ◌∙◌, true, false, none, some, [], ◌∷◌, ◌++◌, ◌⊎◌, inl, inr, insert,
  str_eq, if◌then◌else◌,
}
use opi_nvidia_bridge.Api.Messages.{Kind, NvmeSubsystem, NvmeSubsystemSpec, nvme_subsystem}
use opi_nvidia_bridge.Api.Requests.{CreateRequest}
use opi_nvidia_bridge.Models.{Rpc, subsystem_nvme_create, spdk_get_version}
use opi_nvidia_bridge.Exec.{Result, ok}
use opi_nvidia_bridge.Externals.{Externals, value}
use opi_nvidia_bridge.Server.{Server, State}
use opi_nvidia_bridge.Server.Outcomes.{
  answered_from, Fails, Untouched, OnlyRead, Stored, Stored-from,
}
use opi_nvidia_bridge.Subsystem.Create.{has_nqn}
use opi_nvidia_bridge.Subsystem.Validate.Settable.{IsGenerated, IsSettable}
use opi_nvidia_bridge.Subsystem.Validate.Sound.{IsValidSpec}

-- The call that creates a subsystem.
abbrev pub create_call : NvmeSubsystemSpec → Rpc
create_call spec = subsystem_nvme_create (record {
  nqn = spec.nqn;
  serial_number = spec.serial_number;
  model_number = spec.model_number;
})

-- The subsystem that is returned and stored: the requested one, with the version of the device.
abbrev pub created : NvmeSubsystem → String → NvmeSubsystem
created subsystem version = record subsystem {
  status = some (record { firmware_revision = version });
}

abbrev pub registering : String → Server → Server
registering nqn server = record server { nqns = insert nqn false server.nqns }

module _ (E : Externals) (s : State E) where
  abbrev pub SameStore : State E → Type 0
  SameStore t = (j : Kind) (key : String) → E.holds j t.db key ≡ E.holds j s.db key

  -- The device created the subsystem, under an NQN that was not registered. The NQN is registered,
  -- and the subsystem stored unless the store fails.
  pub record Made (subsystem : NvmeSubsystem) (r : Result NvmeSubsystem) (t : State E)
      : Type 0 where
    pub spec : NvmeSubsystemSpec
    pub spec_eq : subsystem.spec ≡ some spec
    pub fresh : has_nqn spec.nqn s.server.nqns ≡ false
    pub answered : (E.call (create_call spec) s.device).0 ≡ value true
    pub version : String
    pub version_eq :
        (E.call spdk_get_version (E.call (create_call spec) s.device).1).0 ≡ value version
    pub calls : t.calls ≡ (s.calls ++ create_call spec ∷ []) ++ spdk_get_version ∷ []
    pub server : t.server ≡ registering spec.nqn s.server
    pub stored :
        ((r ≡ ok (created subsystem version))
          × Stored E nvme_subsystem subsystem.name (created subsystem version) s t)
        ⊎ (Fails r × SameStore t)

  abbrev pub Makes : NvmeSubsystem → Result NvmeSubsystem × State E → Type 0
  Makes subsystem (r, t) = (Fails r × Untouched E s t) ⊎ Made subsystem r t

module _ (E : Externals) where
  pub stored-from :
      (subsystem : NvmeSubsystem) (version : String) (s s' : State E) (r : Result NvmeSubsystem)
      (t : State E)
      → Untouched E s s'
      → ((r ≡ ok (created subsystem version))
          × Stored E nvme_subsystem subsystem.name (created subsystem version) s' t)
        ⊎ (Fails r × SameStore E s' t)
      → ((r ≡ ok (created subsystem version))
          × Stored E nvme_subsystem subsystem.name (created subsystem version) s t)
        ⊎ (Fails r × SameStore E s t)
  stored-from subsystem version s s' r t u (inl (p, st)) = inl (p, Stored-from E u st)
  stored-from subsystem version s s' r t u (inr (f, same)) =
      inr (f, λ j key. same j key ∙ u.same_store j key)

  -- The state in which the device is called differs from an earlier one by reads only.
  pub Made-from :
      (subsystem : NvmeSubsystem) (s s' : State E) (r : Result NvmeSubsystem) (t : State E)
      → OnlyRead E s s'
      → Made E s' subsystem r t
      → Made E s subsystem r t
  Made-from subsystem s s' r t o a = record {
    spec = a.spec;
    spec_eq = a.spec_eq;
    fresh =
        subst (λ (x : Server). has_nqn a.spec.nqn x.nqns ≡ false) o.untouched.same_server a.fresh;
    answered = answered_from E (create_call a.spec) o a.answered;
    version = a.version;
    version_eq =
        subst
          (λ (d : E.Device).
            (E.call spdk_get_version (E.call (create_call a.spec) d).1).0 ≡ value a.version)
          o.same_device a.version_eq;
    calls = rw (sym o.same_calls) a.calls;
    server = a.server ∙ ap (registering a.spec.nqn) o.untouched.same_server;
    stored = stored-from subsystem a.version s s' r t o.untouched a.stored;
  }

module _ (E : Externals) where
  abbrev pub named : CreateRequest nvme_subsystem → String → NvmeSubsystem → NvmeSubsystem
  named req id subsystem = record subsystem {
    name =
        E.resource_id_to_subsystem_name (if str_eq req.resource_id "" then id else req.resource_id);
  }

  -- The three ends of `CreateNvmeSubsystem`: it fails, stores nothing and registers nothing; it
  -- returns the subsystem that is stored under the name, and only reads; or it makes a new one of a
  -- valid specification.
  pub data Creates (req : CreateRequest nvme_subsystem) (s : State E) (r : Result NvmeSubsystem)
      (t : State E) : Type 0 where
    fails : Fails r → Untouched E s t → Creates req s r t
    exists :
        (subsystem existing : NvmeSubsystem) (id : String)
        → req.resource ≡ some subsystem
        → E.holds nvme_subsystem s.db (named req id subsystem).name ≡ some existing
        → r ≡ ok existing
        → OnlyRead E s t
        → Creates req s r t
    makes :
        (subsystem : NvmeSubsystem) (id : String)
        → req.resource ≡ some subsystem
        → E.holds nvme_subsystem s.db (named req id subsystem).name ≡ none
        → (made : Made E s (named req id subsystem) r t) → IsValidSpec made.spec
        → IsGenerated E id
        → IsSettable E req
        → Creates req s r t
