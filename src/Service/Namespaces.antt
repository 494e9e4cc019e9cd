-- ===== src/Service/Namespaces.antt =====
-- What the handlers of namespaces keep: stored namespaces carry their names, and what is stored
-- of the other kinds, the registry and the maps stay as they are.
use opi_nvidia_bridge.Base.{String, ◌≡◌, refl, ap, sym, subst, false, inl, inr, some, str_eq}
use opi_nvidia_bridge.Api.Messages.{Kind, Message, nvme_namespace, nvme_subsystem}
use opi_nvidia_bridge.Api.Requests.{CreateChildRequest, DeleteRequest}
use opi_nvidia_bridge.Externals.{Externals}
use opi_nvidia_bridge.Externals.Laws.{
  PlainId, IsStore, ClonesFaithfully, IdsPlain, subsystem_name, namespace_name,
}
use opi_nvidia_bridge.Server.{Server, State}
use opi_nvidia_bridge.Namespace.Create.{create_nvme_namespace}
use opi_nvidia_bridge.Namespace.Create.Outcome.{fails, exists, attaches}
use opi_nvidia_bridge.Namespace.Create.Paths.{create_nvme_namespace-Creates}
use opi_nvidia_bridge.Namespace.Delete.{delete_nvme_namespace}
use opi_nvidia_bridge.Namespace.Delete.Outcome
use opi_nvidia_bridge.Namespace.Delete.Outcome.{missing, detaches}
use opi_nvidia_bridge.Namespace.Delete.Paths.{delete_nvme_namespace-Deletes}
use opi_nvidia_bridge.Subsystem.Registry.{IsRegistry}
use opi_nvidia_bridge.Service.Named.{
  IsNamed, IsNamed-untouched, IsNamed-stored, IsNamed-stored_apart, IsNamed-removed,
  IsRegistry-untouched, IsRegistry-apart,
}

module _ (E : Externals) (L : IsStore E) (C : ClonesFaithfully E) (s : State E) where
  abbrev Named : State E → Type 0
  Named t = IsNamed E nvme_namespace (λ m. m.name) (namespace_name E) t.db

  pub create_nvme_namespace-IsNamed :
      (req : CreateChildRequest nvme_namespace) → Named s → Named (create_nvme_namespace E req s).1
  create_nvme_namespace-IsNamed req h = elim (create_nvme_namespace-Creates E L C req s) [
    | fails _ u ↦ IsNamed-untouched E nvme_namespace _ _ s _ u h
    | exists _ _ _ _ _ _ o ↦ IsNamed-untouched E nvme_namespace _ _ s _ o.untouched h
    | attaches _ _ _ _ _ _ a ↦ IsNamed-stored E nvme_namespace _ _ s _ _ _ a.stored refl h
  ]

  pub delete_nvme_namespace-IsNamed :
      (req : DeleteRequest) → Named s → Named (delete_nvme_namespace E req s).1
  delete_nvme_namespace-IsNamed req h = elim (delete_nvme_namespace-Deletes E L req s) [
    | Outcome.fails _ u ↦ IsNamed-untouched E nvme_namespace _ _ s _ u h
    | missing _ _ _ o ↦ IsNamed-untouched E nvme_namespace _ _ s _ o.untouched h
    | detaches _ _ _ _ a ↦ elim a.stored [
      | inl (_, rm) ↦ IsNamed-removed E nvme_namespace _ _ s _ _ rm h
      | inr (_, u) ↦ IsNamed-untouched E nvme_namespace _ _ s _ u h
    ]
  ]

  module _ (k : Kind) (name : Message k → String) (form : PlainId → String → String) where
    pub create_nvme_namespace-IsNamed_other :
        ((a i : PlainId) (b j : String) → str_eq (namespace_name E a b) (form i j) ≡ false)
        → IdsPlain E
        → (req : CreateChildRequest nvme_namespace) → IsNamed E k name form s.db
        → IsNamed E k name form (create_nvme_namespace E req s).1.db
    create_nvme_namespace-IsNamed_other apart P req h =
        elim (create_nvme_namespace-Creates E L C req s) [
          | fails _ u ↦ IsNamed-untouched E k name form s _ u h
          | exists _ _ _ _ _ _ o ↦ IsNamed-untouched E k name form s _ o.untouched h
          | attaches _ _ _ _ _ _ a ↦
              IsNamed-stored_apart E k name form s _ nvme_namespace _ _ a.stored
                (λ i j.
                  apart (E.get_subsystem_id_from_nvme_name req.parent, P.subsystem_id req.parent) i
                    _ j)
                h
        ]

    pub delete_nvme_namespace-IsNamed_other :
        (req : DeleteRequest)
        → IsNamed E k name form s.db
        → IsNamed E k name form (delete_nvme_namespace E req s).1.db
    delete_nvme_namespace-IsNamed_other req h = elim (delete_nvme_namespace-Deletes E L req s) [
      | Outcome.fails _ u ↦ IsNamed-untouched E k name form s _ u h
      | missing _ _ _ o ↦ IsNamed-untouched E k name form s _ o.untouched h
      | detaches _ _ _ _ a ↦ elim a.stored [
        | inl (_, rm) ↦ IsNamed-removed E k name form s _ _ rm h
        | inr (_, u) ↦ IsNamed-untouched E k name form s _ u h
      ]
    ]

  pub create_nvme_namespace-server :
      (req : CreateChildRequest nvme_namespace)
      → (create_nvme_namespace E req s).1.server ≡ s.server
  create_nvme_namespace-server req = elim (create_nvme_namespace-Creates E L C req s) [
    | fails _ u ↦ u.same_server
    | exists _ _ _ _ _ _ o ↦ o.untouched.same_server
    | attaches _ _ _ _ _ _ a ↦ a.server
  ]

  pub delete_nvme_namespace-server :
      (req : DeleteRequest) → (delete_nvme_namespace E req s).1.server ≡ s.server
  delete_nvme_namespace-server req = elim (delete_nvme_namespace-Deletes E L req s) [
    | Outcome.fails _ u ↦ u.same_server
    | missing _ _ _ o ↦ o.untouched.same_server
    | detaches _ _ _ _ a ↦ a.server
  ]

  module _
      (apart : (a b : String) (id : PlainId)
        → str_eq (E.resource_id_to_namespace_name a b) (subsystem_name E id) ≡ false)
      (h : IsRegistry E s.server.nqns s.db) where
    pub create_nvme_namespace-IsRegistry :
        (req : CreateChildRequest nvme_namespace)
        → let t = (create_nvme_namespace E req s).1 in IsRegistry E t.server.nqns t.db
    create_nvme_namespace-IsRegistry req = elim (create_nvme_namespace-Creates E L C req s) [
      | fails _ u ↦ IsRegistry-untouched E s _ u h
      | exists _ _ _ _ _ _ o ↦ IsRegistry-untouched E s _ o.untouched h
      | attaches _ _ _ _ _ _ a ↦
          IsRegistry-apart E s (create_nvme_namespace E req s).1 _
            (ap (λ (x : Server). x.nqns) a.server) (apart _ _)
            (λ other. a.stored.others nvme_subsystem other) h
    ]

    -- A stored namespace that is removed carries a namespace's name.
    pub delete_nvme_namespace-IsRegistry :
        Named s
        → (req : DeleteRequest) (i : PlainId) (j : String) → req.name ≡ namespace_name E i j
        → let t = (delete_nvme_namespace E req s).1 in IsRegistry E t.server.nqns t.db
    unfolding IsNamed
    delete_nvme_namespace-IsRegistry named req i j hn =
        elim (delete_nvme_namespace-Deletes E L req s) [
          | Outcome.fails _ u ↦ IsRegistry-untouched E s _ u h
          | missing _ _ _ o ↦ IsRegistry-untouched E s _ o.untouched h
          | detaches namespace _ hc _ a ↦ elim a.stored [
            | inl (_, rm) ↦
                IsRegistry-apart E s (delete_nvme_namespace E req s).1 namespace.name
                  (ap (λ (x : Server). x.nqns) a.server)
                  (λ id.
                    subst (λ n. str_eq n (subsystem_name E id) ≡ false)
                      (sym (
                        named i j namespace
                          (subst (λ n. E.holds nvme_namespace s.db n ≡ some namespace) hn hc)))
                      (apart i.0 j id))
                  (λ other. rm.others nvme_subsystem other) h
            | inr (_, u) ↦ IsRegistry-untouched E s _ u h
          ]
        ]
