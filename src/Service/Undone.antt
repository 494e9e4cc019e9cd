-- ===== src/Service/Undone.antt =====
-- A delete of pkg/frontend undoes a create.
use opi_nvidia_bridge.Base.{
  String, ◌≡◌, sym, ap, subst, ◌∙◌, Bool, false, none, str_eq, str_eq_iff, Assoc, insert, erase,
  arith,
}
use opi_nvidia_bridge.Api.Messages.{
  Kind, Message, nvme_subsystem, nvme_controller, nvme_namespace, virtio_blk,
}
use opi_nvidia_bridge.Exec.{ok}
use opi_nvidia_bridge.Exec.Rules.{some-inj}
use opi_nvidia_bridge.Externals.{Externals}
use opi_nvidia_bridge.Externals.Laws.{IsStore, ClonesFaithfully}
use opi_nvidia_bridge.Server.{State}
use opi_nvidia_bridge.Subsystem.Create.{has_nqn}
use opi_nvidia_bridge.Subsystem.Registry.{has_nqn-insert, has_nqn-erase}
use opi_nvidia_bridge.Service.Calls.{Creation, resource_id, requested_name, create, delete}
use opi_nvidia_bridge.Service.Calls.Outcomes.{
  Registers, Unregisters, Apart, Put, Taken, fails, exists, makes, missing, takes,
}
use opi_nvidia_bridge.Service.Calls.Outcomes
use opi_nvidia_bridge.Service.Calls.Creates.{create-Comes}
use opi_nvidia_bridge.Service.Calls.Deletes.{delete-Comes}
use opi_nvidia_bridge.Service.Spec.{message_name}
use opi_nvidia_bridge.Service.Refines.{held}

-- An NQN that was free, registered and freed.
freed :
    (nqn : String) (nqns : Assoc Bool)
    → has_nqn nqn nqns ≡ false
    → (other : String) → has_nqn other (erase nqn (insert nqn false nqns)) ≡ has_nqn other nqns
freed nqn nqns free other = ground (
  arith,
  has_nqn-erase other nqn (insert nqn false nqns),
  has_nqn-insert other nqn false nqns,
  str_eq_iff nqn other,
  free,
)

module _ (E : Externals) where
  -- Nothing is kept under the name, what is kept under others is as before, and so are the NQNs.
  pub record IsRestored (k : Kind) (name : String) (s u : State E) : Type 0 where
    pub gone : held E u k name ≡ none
    pub others : Apart E name s u
    pub registered : (nqn : String) → has_nqn nqn u.server.nqns ≡ has_nqn nqn s.server.nqns

  registered_again :
      (k : Kind) (m : Message k) (s t u : State E)
      → Registers E k m s t
      → Unregisters E k m t u
      → (nqn : String) → has_nqn nqn u.server.nqns ≡ has_nqn nqn s.server.nqns
  registered_again nvme_subsystem m s t u (spec, hs, free, e) (spec', hs', e') nqn =
      let same = ap (λ x. x.nqn) (some-inj (sym hs' ∙ hs)) in
      ap (has_nqn nqn) (e' ∙ ap (λ n. erase n t.server.nqns) same ∙ ap (erase spec.nqn) e)
      ∙ freed spec.nqn s.server.nqns free nqn
  registered_again nvme_controller m s t u e e' nqn = ap (has_nqn nqn) (e' ∙ e)
  registered_again nvme_namespace m s t u e e' nqn = ap (has_nqn nqn) (e' ∙ e)
  registered_again virtio_blk m s t u e e' nqn = ap (has_nqn nqn) (e' ∙ e)

  IsRestored-Taken :
      (k : Kind) (name : String) (m : Message k) (s t u : State E)
      → Put E k name m s t
      → Taken E k name m t u
      → IsRestored k name s u
  IsRestored-Taken k name m s t u put taken = record {
    gone = taken.gone;
    others = λ l other ne. taken.others l other ne ∙ put.others l other ne;
    registered = registered_again k m s t u put.registered taken.unregistered;
  }

module _ (E : Externals) (L : IsStore E) (C : ClonesFaithfully E) (k : Kind) (req : Creation k)
    (m : Message k) (s : State E) where
  create-Put :
      str_eq (resource_id k req) "" ≡ false
      → held E s k (requested_name E k req) ≡ none
      → (create E k req s).0 ≡ ok m
      → Put E k (requested_name E k req) m s (create E k req s).1
  create-Put hi absent p = elim (create-Comes E L C s k req hi) [
    | fails f _ ↦ absurd (f m p)
    | exists _ present _ _ ↦ absurd (cc (present, absent))
    | makes _ put ↦ put m p
  ]

module _ (E : Externals) (L : IsStore E) (k : Kind) (name : String) (allow_missing : Bool)
    (m : Message k) (s t : State E) where
  delete-Taken :
      Put E k name m s t
      → (delete E k name allow_missing t).0 ≡ ok tt
      → Taken E k name m t (delete E k name allow_missing t).1
  delete-Taken put p = elim (delete-Comes E L t name allow_missing k) [
    | Outcomes.Deletes.fails f _ ↦ absurd (f tt p)
    | missing absent _ ↦ absurd (cc (absent, put.kept))
    | takes m' present take ↦
        let e = some-inj (sym present ∙ put.kept) in
        subst (λ x. Taken E k name x t (delete E k name allow_missing t).1) e
          (take (ap (message_name k) e ∙ put.named) p)
  ]

module _ (E : Externals) (L : IsStore E) (C : ClonesFaithfully E) where
  -- If the store behaves as a store, clones equal their originals and the request gives an
  -- identifier, then for each of the four kinds, where nothing was kept under the name, the create
  -- has answered an object and the delete of the name in the state after it has succeeded: nothing
  -- is kept under the name, what is kept under every other name is as before the create, of
  -- whichever kind, and the same NQNs are registered.
  pub create-delete :
      (k : Kind) (req : Creation k) (m : Message k) (allow_missing : Bool) (s : State E)
      → let name = requested_name E k req in
        let t = (create E k req s).1 in
        str_eq (resource_id k req) "" ≡ false
        → held E s k name ≡ none
        → (create E k req s).0 ≡ ok m
        → (delete E k name allow_missing t).0 ≡ ok tt
        → IsRestored E k name s (delete E k name allow_missing t).1
  create-delete k req m allow_missing s hi absent p q =
      let name = requested_name E k req in
      let put = create-Put E L C k req m s hi absent p in
      IsRestored-Taken E k name m s _ _ put
        (delete-Taken E L k name allow_missing m s (create E k req s).1 put q)
