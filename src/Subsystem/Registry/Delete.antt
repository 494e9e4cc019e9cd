-- ===== src/Subsystem/Registry/Delete.antt =====
-- `DeleteNvmeSubsystem` of pkg/frontend/nvme_subsystem.go and the registry of NQNs.
use mathlib.Core.Option
use opi_nvidia_bridge.Base.{String, ◌≡◌, sym, subst, Option, none, some, erase}
use opi_nvidia_bridge.Api.Messages.{NvmeSubsystem, nvme_subsystem}
use opi_nvidia_bridge.Api.Requests.{DeleteRequest}
use opi_nvidia_bridge.Exec.Rules.{Ends, done, step_rule, deref_rule, require_rule, require_last}
use opi_nvidia_bridge.Externals.{Externals, value}
use opi_nvidia_bridge.Externals.Laws.{PlainId, IsStore, subsystem_name}
use opi_nvidia_bridge.Server.{State, rpc, store_get, store_delete}
use opi_nvidia_bridge.Server.Rules.{get_server_rule, set_server_rule, store_get-holds}
use opi_nvidia_bridge.Subsystem.Delete.{delete_found, or_missing, delete_nvme_subsystem}
use opi_nvidia_bridge.Subsystem.Validate.{validate_delete}
use opi_nvidia_bridge.Subsystem.Validate.Same.{validate_delete-same}
use opi_nvidia_bridge.Subsystem.Registry.{IsRegistry, IsRegistry-delete, IsRegistry-get}

-- The store never fails to delete.
abbrev pub DeletesReliably : Externals → Type 0
DeletesReliably E = (key : String) (db : E.Db) → (E.delete key db).0 ≡ value tt

module _ (E : Externals) (L : IsStore E) where
  abbrev At : State E → Type 0
  At s = IsRegistry E s.server.nqns s.db

  delete_found-IsRegistry :
      DeletesReliably E
      → (sub : NvmeSubsystem) (i : PlainId) (s : State E)
      → E.holds nvme_subsystem s.db (subsystem_name E i) ≡ some sub
      → At s
      → Ends (λ (r, t). At t) (delete_found E sub s)
  unfolding delete_found rpc store_delete
  delete_found-IsRegistry D sub i s held h =
      deref_rule _ _ _
        (λ spec hs.
          step_rule _ _ _
            (λ deleted _.
              require_rule _ _ _ _
                (λ _. get_server_rule E _ _ (
                  set_server_rule E _ _ _ (
                    done (
                      subst (λ n. IsRegistry E (erase spec.nqn s.server.nqns) (E.delete n s.db).1)
                        (sym (h.named i sub held))
                        (IsRegistry-delete E L s.server.nqns s.db i sub spec held hs (D _ _) h)))))
                (λ _. done h))
            (λ _. done h))
        (λ _. done h)

  or_missing-IsRegistry :
      DeletesReliably E
      → (req : DeleteRequest) (found : Option NvmeSubsystem) (i : PlainId) (s : State E)
      → (Option.IsSome found → E.holds nvme_subsystem s.db (subsystem_name E i) ≡ found)
      → At s
      → Ends (λ (r, t). At t) (or_missing E req found s)
  or_missing-IsRegistry D req none i s held h = require_last _ _ _ (λ _. done h)
  or_missing-IsRegistry D req (some sub) i s held h = delete_found-IsRegistry D sub i s (held tt) h

  -- If the store behaves as a store and never fails to delete, then DeleteNvmeSubsystem of the name
  -- of an identifier without slashes keeps the registry, whatever the device answers.
  pub delete_nvme_subsystem-IsRegistry :
      DeletesReliably E
      → (req : DeleteRequest) (i : PlainId) (s : State E) → req.name ≡ subsystem_name E i
      → IsRegistry E s.server.nqns s.db
      → let t = (delete_nvme_subsystem E req s).1 in IsRegistry E t.server.nqns t.db
  unfolding delete_nvme_subsystem store_get
  delete_nvme_subsystem-IsRegistry D req i s hn h = ends.holds
    where
      start : At (validate_delete E req s).1
      start = subst At (sym (validate_delete-same E s req)) h

      ends : Ends (λ (r, t). At t) (delete_nvme_subsystem E req s)
      ends =
          step_rule _ _ _
            (λ _ _.
              step_rule _ _ _
                (λ found e.
                  or_missing-IsRegistry D req found i _
                    (λ _.
                      subst
                        (λ n.
                          E.holds nvme_subsystem
                            (store_get E nvme_subsystem req.name (validate_delete E req s).1).1.db n
                          ≡ found)
                        hn
                        (store_get-holds E L nvme_subsystem req.name (validate_delete E req s).1
                          found e))
                    (IsRegistry-get E L _ _ _ _ start))
                (λ _. done (IsRegistry-get E L _ _ _ _ start)))
            (λ _. done start)
