-- ===== src/Subsystem/Registry/Create.antt =====
-- `CreateNvmeSubsystem` of pkg/frontend/nvme_subsystem.go and the registry of NQNs.
use opi_nvidia_bridge.Base.{
  String, ◌≡◌, refl, sym, ap, subst, ◌∙◌, insert, ◌⊎◌, inl, inr, false, Option, none, some, arith,
}
use opi_nvidia_bridge.Api.Messages.{NvmeSubsystemSpec, NvmeSubsystem, nvme_subsystem}
use opi_nvidia_bridge.Api.Requests.{CreateRequest}
use opi_nvidia_bridge.Exec.{Result}
use opi_nvidia_bridge.Exec.Rules.{Ends, done, step_rule, deref_rule, require_rule, ok-inj}
use opi_nvidia_bridge.Externals.{Externals, value, Answer-cases}
use opi_nvidia_bridge.Externals.Laws.{PlainId, IsStore, ClonesFaithfully, IdsPlain, subsystem_name}
use opi_nvidia_bridge.Server.{State, rpc, store_set, store_get, new_system_generated}
use opi_nvidia_bridge.Server.Rules.{get_server_rule, set_server_rule}
use opi_nvidia_bridge.Subsystem.Create.{has_nqn, save, create_new, or_create, create_nvme_subsystem}
use opi_nvidia_bridge.Subsystem.Validate.{validate_create}
use opi_nvidia_bridge.Subsystem.Validate.Settable.{validate_create-IsSettable, plain_id}
use opi_nvidia_bridge.Subsystem.Validate.Same.{validate_create-same}
use opi_nvidia_bridge.Subsystem.Registry.{
  IsRegistry, IsRegistry-set, IsRegistry-insert, IsRegistry-of_same, IsRegistry-get,
}

-- What `create_new` does to the server and the store: nothing, or it saves the subsystem under an
-- NQN that was not registered.
module _ (E : Externals) (sub : NvmeSubsystem) (s : State E) where
  abbrev Saves : Result NvmeSubsystem × State E → Type 0
  Saves (r, t) =
      ((t.server ≡ s.server) × (t.db ≡ s.db))
      ⊎ ((u : State E) × (spec : NvmeSubsystemSpec) × (version : String) × (sub.spec ≡ some spec)
          × (has_nqn spec.nqn s.server.nqns ≡ false)
          × (u.server ≡ s.server)
          × (u.db ≡ s.db)
          × ((r, t) ≡ save E sub spec.nqn version u))

  create_new-Saves : Ends Saves (create_new E sub s)
  unfolding create_new rpc
  create_new-Saves =
      deref_rule _ _ _
        (λ spec p. get_server_rule E _ _ (
          require_rule _ _ _ _
            (λ free.
              step_rule _ _ _
                (λ created _.
                  require_rule _ _ _ _
                    (λ _.
                      step_rule _ _ _
                        (λ version _.
                          done (inr (_, spec, version, p, ground arith, refl, refl, refl)))
                        (λ _. done (inl (refl, refl))))
                    (λ _. done (inl (refl, refl))))
                (λ _. done (inl (refl, refl))))
            (λ _. done (inl (refl, refl)))))
        (λ _. done (inl (refl, refl)))

module _ (E : Externals) (L : IsStore E) (C : ClonesFaithfully E) where
  abbrev At : State E → Type 0
  At s = IsRegistry E s.server.nqns s.db

  -- `m` is what the store is given, under the name of `i`.
  set-IsRegistry :
      (m : NvmeSubsystem) (spec : NvmeSubsystemSpec) (name : String) (i : PlainId) (s : State E)
      → name ≡ subsystem_name E i
      → m.name ≡ name
      → m.spec ≡ some spec
      → has_nqn spec.nqn s.server.nqns ≡ false
      → At s
      → IsRegistry E
          (insert spec.nqn false s.server.nqns)
          (store_set E nvme_subsystem name m s).1.db
  unfolding store_set
  set-IsRegistry m spec name i s hn hm hs free h =
      elim (Answer-cases (E.set nvme_subsystem name m s.db).0) [
        | inl (_, stored) ↦
            subst
              (λ n.
                IsRegistry E (insert spec.nqn false s.server.nqns)
                  (E.set nvme_subsystem n m s.db).1)
              (sym hn)
              (IsRegistry-set E L s.server.nqns s.db i m spec (hm ∙ hn) hs free
                (subst (λ n. (E.set nvme_subsystem n m s.db).0 ≡ value tt) hn stored) h)
        | inr (e, failed) ↦
            IsRegistry-of_same E _ s.db _
              (λ id. L.holds-set_failure nvme_subsystem nvme_subsystem name _ m s.db e failed)
              (IsRegistry-insert E spec.nqn _ _ h)
      ]

  save-IsRegistry :
      (sub : NvmeSubsystem) (spec : NvmeSubsystemSpec) (version : String) (i : PlainId)
      (s : State E)
      → sub.spec ≡ some spec
      → sub.name ≡ subsystem_name E i
      → has_nqn spec.nqn s.server.nqns ≡ false
      → At s
      → Ends (λ (r, t). At t) (save E sub spec.nqn version s)
  unfolding save store_set
  save-IsRegistry sub spec version i s hs hn free h =
      get_server_rule E _ _
        (set_server_rule E _ _ _ (step_rule _ _ _ (λ _ _. done kept) (λ _. done kept)))
    where
      m : NvmeSubsystem
      m = record (E.proto_clone nvme_subsystem sub) {
        status = some (record { firmware_revision = version });
      }

      kept :
          IsRegistry E
            (insert spec.nqn false s.server.nqns)
            (E.set nvme_subsystem sub.name m s.db).1
      kept =
          set-IsRegistry m spec sub.name i s hn
            (ap (λ (x : NvmeSubsystem). x.name) (C.clone_eq nvme_subsystem sub))
            (ap (λ (x : NvmeSubsystem). x.spec) (C.clone_eq nvme_subsystem sub) ∙ hs) free h

  create_new-IsRegistry :
      (sub : NvmeSubsystem) (i : PlainId) (s : State E)
      → sub.name ≡ subsystem_name E i
      → At s
      → At (create_new E sub s).1
  create_new-IsRegistry sub i s hn h = elim (create_new-Saves E sub s).holds [
    | inl (same_server, same_db) ↦ rw (same_server, same_db) h
    | inr (u, spec, version, hs, free, same_server, same_db, saves) ↦
        subst (λ (o : Result NvmeSubsystem × State E). At o.1) (sym saves)
          (save-IsRegistry sub spec version i u hs hn (rw same_server free)
            (rw (same_server, same_db) h)).holds
  ]

  or_create-IsRegistry :
      (sub : NvmeSubsystem) (found : Option NvmeSubsystem) (i : PlainId) (s : State E)
      → sub.name ≡ subsystem_name E i
      → At s
      → Ends (λ (r, t). At t) (or_create E sub found s)
  or_create-IsRegistry sub none i s hn h = done (create_new-IsRegistry sub i s hn h)
  or_create-IsRegistry sub (some existing) i s hn h = done h

  -- If the store behaves as a store, clones equal their originals and identifiers have no slash,
  -- then whatever the request and whatever the store and the device answer, CreateNvmeSubsystem
  -- keeps the registry: each subsystem stored under the name of an identifier without slashes
  -- carries that name, has a specification and has a registered NQN, and no two have the same NQN.
  pub create_nvme_subsystem-IsRegistry :
      IdsPlain E
      → (req : CreateRequest nvme_subsystem) (s : State E) → IsRegistry E s.server.nqns s.db
      → let t = (create_nvme_subsystem E req s).1 in IsRegistry E t.server.nqns t.db
  unfolding create_nvme_subsystem store_get new_system_generated
  create_nvme_subsystem-IsRegistry P req s h = ends.holds
    where
      start : At (validate_create E req s).1
      start = subst At (sym (validate_create-same E s req)) h

      ends : Ends (λ (r, t). At t) (create_nvme_subsystem E req s)
      ends =
          step_rule _ _ _
            (λ u valid.
              step_rule _ _ _
                (λ id generated.
                  deref_rule _ _ _
                    (λ sub _.
                      step_rule _ _ _
                        (λ found _.
                          or_create-IsRegistry _ found
                            (
                              _,
                              plain_id E P req id (_, ok-inj generated)
                                  (validate_create-IsSettable E s req u valid),
                            )
                            _ refl (IsRegistry-get E L _ _ _ _ start))
                        (λ _. done (IsRegistry-get E L _ _ _ _ start)))
                    (λ _. done start))
                (λ _. done start))
            (λ _. done start)
