-- ===== src/Subsystem/Delete/Outcome.antt =====
-- What `DeleteNvmeSubsystem` of pkg/frontend/nvme_subsystem.go does, on every path: the statement.
use opi_nvidia_bridge.Base.{
  String, ◌≡◌, sym, ap, ◌∙◌, true, none, some, [], ◌∷◌, ◌++◌, ◌⊎◌, inl, inr, erase,
}
use opi_nvidia_bridge.Api.Messages.{Kind, NvmeSubsystem, NvmeSubsystemSpec, nvme_subsystem}
use opi_nvidia_bridge.Api.Requests.{DeleteRequest}
use opi_nvidia_bridge.Models.{Rpc, subsystem_nvme_delete}
use opi_nvidia_bridge.Exec.{Result, ok}
use opi_nvidia_bridge.Externals.{Externals, value}
use opi_nvidia_bridge.Server.{Server, State}
use opi_nvidia_bridge.Server.Outcomes.{
  answered_from, Fails, Untouched, OnlyRead, Removed, Removed-from,
}

-- The call that deletes a subsystem.
abbrev pub delete_call : NvmeSubsystemSpec → Rpc
delete_call spec = subsystem_nvme_delete (record { nqn = spec.nqn })

abbrev pub unregistering : String → Server → Server
unregistering nqn server = record server { nqns = erase nqn server.nqns }

module _ (E : Externals) (s : State E) where
  abbrev pub SameStore : State E → Type 0
  SameStore t = (j : Kind) (key : String) → E.holds j t.db key ≡ E.holds j s.db key

  -- The device was asked to delete the subsystem and did. Its NQN is no longer registered, whether
  -- or not the store has dropped it afterwards.
  pub record Deleted (subsystem : NvmeSubsystem) (r : Result (Unit {0})) (t : State E)
      : Type 0 where
    pub spec : NvmeSubsystemSpec
    pub spec_eq : subsystem.spec ≡ some spec
    pub answered : (E.call (delete_call spec) s.device).0 ≡ value true
    pub calls : t.calls ≡ s.calls ++ delete_call spec ∷ []
    pub server : t.server ≡ unregistering spec.nqn s.server
    pub stored : ((r ≡ ok tt) × Removed E subsystem.name s t) ⊎ (Fails r × SameStore t)

  abbrev pub DeletesFound : NvmeSubsystem → Result (Unit {0}) × State E → Type 0
  DeletesFound subsystem (r, t) = (Fails r × Untouched E s t) ⊎ Deleted subsystem r t

  -- The three ends of `DeleteNvmeSubsystem`: it fails and changes nothing; nothing is stored under
  -- the name, which the request allows; or the stored subsystem is deleted.
  pub data Deletes (req : DeleteRequest) (r : Result (Unit {0})) (t : State E) : Type 0 where
    fails : Fails r → Untouched E s t → Deletes req r t
    missing :
        E.holds nvme_subsystem s.db req.name ≡ none
        → req.allow_missing ≡ true
        → r ≡ ok tt
        → OnlyRead E s t
        → Deletes req r t
    deletes :
        (subsystem : NvmeSubsystem)
        → E.holds nvme_subsystem s.db req.name ≡ some subsystem
        → Deleted subsystem r t
        → Deletes req r t

module _ (E : Externals) where
  -- The state in which the device is called differs from an earlier one by reads only.
  pub Deleted-from :
      (subsystem : NvmeSubsystem) (s s' : State E) (r : Result (Unit {0})) (t : State E)
      → OnlyRead E s s'
      → Deleted E s' subsystem r t
      → Deleted E s subsystem r t
  Deleted-from subsystem s s' r t o a = record {
    spec = a.spec;
    spec_eq = a.spec_eq;
    answered = answered_from E (delete_call a.spec) o a.answered;
    calls = rw (sym o.same_calls) a.calls;
    server = a.server ∙ ap (unregistering a.spec.nqn) o.untouched.same_server;
    stored = from a.stored;
  }
    where
      from :
          ((r ≡ ok tt) × Removed E subsystem.name s' t) ⊎ (Fails r × SameStore E s' t)
          → ((r ≡ ok tt) × Removed E subsystem.name s t) ⊎ (Fails r × SameStore E s t)
      from (inl (p, rm)) = inl (p, Removed-from E o.untouched rm)
      from (inr (f, same)) = inr (f, λ j key. same j key ∙ o.untouched.same_store j key)
