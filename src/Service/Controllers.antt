-- ===== src/Service/Controllers.antt =====
-- What the handlers of controllers keep: stored controllers carry their names, and what is stored
-- of the other kinds, the registry and the maps stay as they are.
use opi_nvidia_bridge.Base.{String, ◌≡◌, refl, ap, sym, subst, false, inl, inr, some, str_eq}
use opi_nvidia_bridge.Api.Messages.{Kind, Message, nvme_controller, nvme_subsystem}
use opi_nvidia_bridge.Api.Requests.{CreateChildRequest, DeleteRequest}
use opi_nvidia_bridge.Externals.{Externals}
use opi_nvidia_bridge.Externals.Laws.{
  PlainId, IsStore, ClonesFaithfully, IdsPlain, subsystem_name, controller_name,
}
use opi_nvidia_bridge.Server.{Server, State}
use opi_nvidia_bridge.Controller.Create.{create_nvme_controller}
use opi_nvidia_bridge.Controller.Create.Outcome.{fails, exists, attaches}
use opi_nvidia_bridge.Controller.Create.Paths.{create_nvme_controller-Creates}
use opi_nvidia_bridge.Controller.Delete.{delete_nvme_controller}
use opi_nvidia_bridge.Controller.Delete.Outcome
use opi_nvidia_bridge.Controller.Delete.Outcome.{missing, detaches}
use opi_nvidia_bridge.Controller.Delete.Paths.{delete_nvme_controller-Deletes}
use opi_nvidia_bridge.Subsystem.Registry.{IsRegistry}
use opi_nvidia_bridge.Service.Named.{
  IsNamed, IsNamed-untouched, IsNamed-stored, IsNamed-stored_apart, IsNamed-removed,
  IsRegistry-untouched, IsRegistry-apart,
}

module _ (E : Externals) (L : IsStore E) (C : ClonesFaithfully E) (s : State E) where
  abbrev Named : State E → Type 0
  Named t = IsNamed E nvme_controller (λ m. m.name) (controller_name E) t.db

  pub create_nvme_controller-IsNamed :
      (req : CreateChildRequest nvme_controller)
      → Named s
      → Named (create_nvme_controller E req s).1
  create_nvme_controller-IsNamed req h = elim (create_nvme_controller-Creates E L C req s) [
    | fails _ u ↦ IsNamed-untouched E nvme_controller _ _ s _ u h
    | exists _ _ _ _ _ _ o ↦ IsNamed-untouched E nvme_controller _ _ s _ o.untouched h
    | attaches _ _ _ _ _ _ a ↦ IsNamed-stored E nvme_controller _ _ s _ _ _ a.stored refl h
  ]

  pub delete_nvme_controller-IsNamed :
      (req : DeleteRequest) → Named s → Named (delete_nvme_controller E req s).1
  delete_nvme_controller-IsNamed req h = elim (delete_nvme_controller-Deletes E L req s) [
    | Outcome.fails _ u ↦ IsNamed-untouched E nvme_controller _ _ s _ u h
    | missing _ _ _ o ↦ IsNamed-untouched E nvme_controller _ _ s _ o.untouched h
    | detaches _ _ _ _ a ↦ elim a.stored [
      | inl (_, rm) ↦ IsNamed-removed E nvme_controller _ _ s _ _ rm h
      | inr (_, u) ↦ IsNamed-untouched E nvme_controller _ _ s _ u h
    ]
  ]

  module _ (k : Kind) (name : Message k → String) (form : PlainId → String → String) where
    pub create_nvme_controller-IsNamed_other :
        ((a i : PlainId) (b j : String) → str_eq (controller_name E a b) (form i j) ≡ false)
        → IdsPlain E
        → (req : CreateChildRequest nvme_controller) → IsNamed E k name form s.db
        → IsNamed E k name form (create_nvme_controller E req s).1.db
    create_nvme_controller-IsNamed_other apart P req h =
        elim (create_nvme_controller-Creates E L C req s) [
          | fails _ u ↦ IsNamed-untouched E k name form s _ u h
          | exists _ _ _ _ _ _ o ↦ IsNamed-untouched E k name form s _ o.untouched h
          | attaches _ _ _ _ _ _ a ↦
              IsNamed-stored_apart E k name form s _ nvme_controller _ _ a.stored
                (λ i j.
                  apart (E.get_subsystem_id_from_nvme_name req.parent, P.subsystem_id req.parent) i
                    _ j)
                h
        ]

    pub delete_nvme_controller-IsNamed_other :
        (req : DeleteRequest)
        → IsNamed E k name form s.db
        → IsNamed E k name form (delete_nvme_controller E req s).1.db
    delete_nvme_controller-IsNamed_other req h = elim (delete_nvme_controller-Deletes E L req s) [
      | Outcome.fails _ u ↦ IsNamed-untouched E k name form s _ u h
      | missing _ _ _ o ↦ IsNamed-untouched E k name form s _ o.untouched h
      | detaches _ _ _ _ a ↦ elim a.stored [
        | inl (_, rm) ↦ IsNamed-removed E k name form s _ _ rm h
        | inr (_, u) ↦ IsNamed-untouched E k name form s _ u h
      ]
    ]

  pub create_nvme_controller-server :
      (req : CreateChildRequest nvme_controller)
      → (create_nvme_controller E req s).1.server ≡ s.server
  create_nvme_controller-server req = elim (create_nvme_controller-Creates E L C req s) [
    | fails _ u ↦ u.same_server
    | exists _ _ _ _ _ _ o ↦ o.untouched.same_server
    | attaches _ _ _ _ _ _ a ↦ a.server
  ]

  pub delete_nvme_controller-server :
      (req : DeleteRequest) → (delete_nvme_controller E req s).1.server ≡ s.server
  delete_nvme_controller-server req = elim (delete_nvme_controller-Deletes E L req s) [
    | Outcome.fails _ u ↦ u.same_server
    | missing _ _ _ o ↦ o.untouched.same_server
    | detaches _ _ _ _ a ↦ a.server
  ]

  module _
      (apart : (a b : String) (id : PlainId)
        → str_eq (E.resource_id_to_controller_name a b) (subsystem_name E id) ≡ false)
      (h : IsRegistry E s.server.nqns s.db) where
    pub create_nvme_controller-IsRegistry :
        (req : CreateChildRequest nvme_controller)
        → let t = (create_nvme_controller E req s).1 in IsRegistry E t.server.nqns t.db
    create_nvme_controller-IsRegistry req = elim (create_nvme_controller-Creates E L C req s) [
      | fails _ u ↦ IsRegistry-untouched E s _ u h
      | exists _ _ _ _ _ _ o ↦ IsRegistry-untouched E s _ o.untouched h
      | attaches _ _ _ _ _ _ a ↦
          IsRegistry-apart E s (create_nvme_controller E req s).1 _
            (ap (λ (x : Server). x.nqns) a.server) (apart _ _)
            (λ other. a.stored.others nvme_subsystem other) h
    ]

    -- A stored controller that is removed carries a controller's name.
    pub delete_nvme_controller-IsRegistry :
        Named s
        → (req : DeleteRequest) (i : PlainId) (j : String) → req.name ≡ controller_name E i j
        → let t = (delete_nvme_controller E req s).1 in IsRegistry E t.server.nqns t.db
    unfolding IsNamed
    delete_nvme_controller-IsRegistry named req i j hn =
        elim (delete_nvme_controller-Deletes E L req s) [
          | Outcome.fails _ u ↦ IsRegistry-untouched E s _ u h
          | missing _ _ _ o ↦ IsRegistry-untouched E s _ o.untouched h
          | detaches controller _ hc _ a ↦ elim a.stored [
            | inl (_, rm) ↦
                IsRegistry-apart E s (delete_nvme_controller E req s).1 controller.name
                  (ap (λ (x : Server). x.nqns) a.server)
                  (λ id.
                    subst (λ n. str_eq n (subsystem_name E id) ≡ false)
                      (sym (
                        named i j controller
                          (subst (λ n. E.holds nvme_controller s.db n ≡ some controller) hn hc)))
                      (apart i.0 j id))
                  (λ other. rm.others nvme_subsystem other) h
            | inr (_, u) ↦ IsRegistry-untouched E s _ u h
          ]
        ]
