-- ===== src/Service/Refines/Steps/Children.antt =====
-- The handlers of controllers and namespaces of pkg/frontend/nvme_controller.go and
-- nvme_namespace.go against the specification of the service.
use opi_nvidia_bridge.Base.{String, ◌≡◌, refl, sym, ap, subst, ◌∙◌, inl, inr, some, none, false}
use opi_nvidia_bridge.Api.Messages.{Kind, Message, nvme_subsystem, nvme_controller, nvme_namespace}
use opi_nvidia_bridge.Api.Requests.{CreateChildRequest, DeleteRequest}
use opi_nvidia_bridge.Exec.Rules.{some-inj}
use opi_nvidia_bridge.Externals.{Externals}
use opi_nvidia_bridge.Externals.Laws.{
  PlainId, IsStore, ClonesFaithfully, IdsPlain, NamesApart, same_kind, controller_name,
  namespace_name,
}
use opi_nvidia_bridge.Server.{Server, State}
use opi_nvidia_bridge.Server.Outcomes.{Stored, Removed}
use opi_nvidia_bridge.Subsystem.Create.{has_nqn}
use opi_nvidia_bridge.Controller.Create.{create_nvme_controller}
use opi_nvidia_bridge.Controller.Create.Outcome as ControllerCreation
use opi_nvidia_bridge.Controller.Create.Paths.{create_nvme_controller-Creates}
use opi_nvidia_bridge.Controller.Delete.{delete_nvme_controller}
use opi_nvidia_bridge.Controller.Delete.Outcome as ControllerDeletion
use opi_nvidia_bridge.Controller.Delete.Paths.{delete_nvme_controller-Deletes}
use opi_nvidia_bridge.Namespace.Create.{create_nvme_namespace}
use opi_nvidia_bridge.Namespace.Create.Outcome as NamespaceCreation
use opi_nvidia_bridge.Namespace.Create.Paths.{create_nvme_namespace-Creates}
use opi_nvidia_bridge.Namespace.Delete.{delete_nvme_namespace}
use opi_nvidia_bridge.Namespace.Delete.Outcome as NamespaceDeletion
use opi_nvidia_bridge.Namespace.Delete.Paths.{delete_nvme_namespace-Deletes}
use opi_nvidia_bridge.Service.Formed.{IsFormed}
use opi_nvidia_bridge.Base.{to_int32-IsInt32}
use opi_nvidia_bridge.Service.Spec.{View, creates, deletes, message_name, puts, removes}
use opi_nvidia_bridge.Service.Refines.{IsName, held, Represents, Represents-Changed}
use opi_nvidia_bridge.Service.Refines.Changes.{IsStored, Changed-stored, Changed-removed}
use opi_nvidia_bridge.Service.Refines.Steps.{Simulates, untouched-Simulates}

module _ (E : Externals) (L : IsStore E) (N : NamesApart E) (s : State E) (v : View)
    (h : Represents E s v) where
  same_registered :
      (t : State E)
      → t.server ≡ s.server
      → (nqn : String) → has_nqn nqn t.server.nqns ≡ v.registered nqn
  same_registered t e nqn = ap (λ (x : Server). has_nqn nqn x.nqns) e ∙ h.registered nqn

  -- An object is stored under a free name, and the maps stay.
  puts_stored :
      (k : Kind) (name : String) (m : Message k) (t : State E)
      → IsStored k
      → same_kind k nvme_subsystem ≡ false
      → IsName E k name
      → held E s k name ≡ none
      → message_name k m ≡ name
      → IsFormed k m
      → t.server ≡ s.server
      → Stored E k name m s t
      → Simulates E (creates k) v t
  puts_stored k name m t stored other i absent hn formed same st = (
    _,
    puts k name m other i (sym (h.objects k name i) ∙ absent) hn,
    Represents-Changed E k name (some m) s t v v.registered
        (Changed-stored E N s t k name m stored i (ap (λ (x : Server). x.virtio_ctrls) same) st)
        (λ m' e. subst (λ x. (message_name k x ≡ name) × IsFormed k x) (some-inj e) (hn, formed))
        (same_registered t same) h,
  )

  -- An object that is stored under the name is taken away, and the maps stay.
  removes_stored :
      (k : Kind) (name : String) (m : Message k) (t : State E)
      → IsStored k
      → same_kind k nvme_subsystem ≡ false
      → IsName E k name
      → held E s k name ≡ some m
      → t.server ≡ s.server
      → Removed E (message_name k m) s t
      → Simulates E (deletes k name) v t
  removes_stored k name m t stored other i present same rm =
      let kept = sym (h.objects k name i) ∙ present in
      (
        _,
        removes k name m other i kept,
        Represents-Changed E k name none s t v v.registered
            (Changed-removed E N s t k name stored i (ap (λ (x : Server). x.virtio_ctrls) same)
              (subst (λ n. Removed E n s t) (h.sound k name m i kept).0 rm))
            (λ m' e. absurd (cc e)) (same_registered t same) h,
      )

  pub create_nvme_controller-Simulates :
      ClonesFaithfully E
      → IdsPlain E
      → (req : CreateChildRequest nvme_controller)
      → Simulates E (creates nvme_controller) v (create_nvme_controller E req s).1
  create_nvme_controller-Simulates C P req = elim (create_nvme_controller-Creates E L C req s) [
    | ControllerCreation.fails _ u ↦ untouched-Simulates E s _ v u h
    | ControllerCreation.exists _ _ _ _ _ _ o ↦ untouched-Simulates E s _ v o.untouched h
    | ControllerCreation.attaches _ _ _ _ absent _ a ↦
        puts_stored nvme_controller _ _ _ refl refl
          ((E.get_subsystem_id_from_nvme_name req.parent, P.subsystem_id req.parent), _, refl)
          absent refl (_, _, refl, refl, to_int32-IsInt32 a.answer.cntlid) a.server a.stored
  ]

  pub delete_nvme_controller-Simulates :
      (req : DeleteRequest) (i : PlainId) (j : String)
      → req.name ≡ controller_name E i j
      → Simulates E (deletes nvme_controller req.name) v (delete_nvme_controller E req s).1
  delete_nvme_controller-Simulates req i j hn = elim (delete_nvme_controller-Deletes E L req s) [
    | ControllerDeletion.fails _ u ↦ untouched-Simulates E s _ v u h
    | ControllerDeletion.missing _ _ _ o ↦ untouched-Simulates E s _ v o.untouched h
    | ControllerDeletion.detaches controller _ present _ a ↦ elim a.stored [
      | inl (_, rm) ↦
          removes_stored nvme_controller req.name controller _ refl refl (i, j, hn) present a.server
            rm
      | inr (_, u) ↦ untouched-Simulates E s _ v u h
    ]
  ]

  pub create_nvme_namespace-Simulates :
      ClonesFaithfully E
      → IdsPlain E
      → (req : CreateChildRequest nvme_namespace)
      → Simulates E (creates nvme_namespace) v (create_nvme_namespace E req s).1
  create_nvme_namespace-Simulates C P req = elim (create_nvme_namespace-Creates E L C req s) [
    | NamespaceCreation.fails _ u ↦ untouched-Simulates E s _ v u h
    | NamespaceCreation.exists _ _ _ _ _ _ o ↦ untouched-Simulates E s _ v o.untouched h
    | NamespaceCreation.attaches _ _ _ _ absent _ a ↦
        puts_stored nvme_namespace _ _ _ refl refl
          ((E.get_subsystem_id_from_nvme_name req.parent, P.subsystem_id req.parent), _, refl)
          absent refl (a.spec, a.spec_eq) a.server a.stored
  ]

  pub delete_nvme_namespace-Simulates :
      (req : DeleteRequest) (i : PlainId) (j : String)
      → req.name ≡ namespace_name E i j
      → Simulates E (deletes nvme_namespace req.name) v (delete_nvme_namespace E req s).1
  delete_nvme_namespace-Simulates req i j hn = elim (delete_nvme_namespace-Deletes E L req s) [
    | NamespaceDeletion.fails _ u ↦ untouched-Simulates E s _ v u h
    | NamespaceDeletion.missing _ _ _ o ↦ untouched-Simulates E s _ v o.untouched h
    | NamespaceDeletion.detaches namespace _ present _ a ↦ elim a.stored [
      | inl (_, rm) ↦
          removes_stored nvme_namespace req.name namespace _ refl refl (i, j, hn) present a.server
            rm
      | inr (_, u) ↦ untouched-Simulates E s _ v u h
    ]
  ]
