-- ===== src/Subsystem/Registry.antt =====
-- The registry of NQNs, `s.NQNs` of pkg/frontend/frontend.go, against the stored subsystems, and the
-- changes of the map and of the store that the handlers make.
pub mod Create
pub mod Delete
use opi_nvidia_bridge.Base.{
  String, ◌≡◌, refl, ap, Bool, true, false, none, some, [], ◌∷◌, arith, Assoc, insert, erase,
  str_eq, str_eq_iff, if◌then◌else◌,
}
use opi_nvidia_bridge.Api.Messages.{Kind, NvmeSubsystemSpec, NvmeSubsystem, nvme_subsystem}
use opi_nvidia_bridge.Externals.{Externals, value}
use opi_nvidia_bridge.Externals.Laws.{PlainId, IsStore, subsystem_name}
use opi_nvidia_bridge.Subsystem.Create.{has_nqn}

pub has_nqn-erase :
    (nqn k : String) (m : Assoc Bool)
    → has_nqn nqn (erase k m) ≡ (if str_eq k nqn then false else has_nqn nqn m)
unfolding has_nqn erase
has_nqn-erase nqn k [] = ground arith
has_nqn-erase nqn k ((j, b) ∷ m) =
    ground (arith, has_nqn-erase nqn k m, str_eq_iff nqn j, str_eq_iff j k, str_eq_iff k nqn)

pub has_nqn-insert :
    (nqn k : String) (b : Bool) (m : Assoc Bool)
    → has_nqn nqn (insert k b m) ≡ (if str_eq k nqn then true else has_nqn nqn m)
unfolding has_nqn insert
has_nqn-insert nqn k b m = ground (arith, has_nqn-erase nqn k m, str_eq_iff nqn k, str_eq_iff k nqn)

module _ (E : Externals) where
  -- Every subsystem stored under a name of its kind carries that name and a registered NQN, and
  -- no two have the same NQN.
  pub record IsRegistry (nqns : Assoc Bool) (db : E.Db) : Type 0 where
    pub named :
        (id : PlainId) (v : NvmeSubsystem)
        → E.holds nvme_subsystem db (subsystem_name E id) ≡ some v
        → v.name ≡ subsystem_name E id
    pub specified :
        (id : PlainId) (v : NvmeSubsystem)
        → E.holds nvme_subsystem db (subsystem_name E id) ≡ some v
        → v.spec ≡ none
        → ⊥
    pub registered :
        (id : PlainId) (v : NvmeSubsystem) (spec : NvmeSubsystemSpec)
        → E.holds nvme_subsystem db (subsystem_name E id) ≡ some v
        → v.spec ≡ some spec
        → has_nqn spec.nqn nqns ≡ true
    pub unique :
        (id id' : PlainId) (v v' : NvmeSubsystem) (spec spec' : NvmeSubsystemSpec)
        → E.holds nvme_subsystem db (subsystem_name E id) ≡ some v
        → E.holds nvme_subsystem db (subsystem_name E id') ≡ some v'
        → v.spec ≡ some spec
        → v'.spec ≡ some spec'
        → spec.nqn ≡ spec'.nqn
        → subsystem_name E id ≡ subsystem_name E id'

module _ (E : Externals) where
  abbrev name_of : PlainId → String
  name_of = subsystem_name E

  -- The invariant reads no more of the store than the subsystems under names of their kind.
  pub IsRegistry-of_same :
      (nqns : Assoc Bool) (db db' : E.Db)
      → ((id : PlainId)
          → E.holds nvme_subsystem db' (name_of id) ≡ E.holds nvme_subsystem db (name_of id))
      → IsRegistry E nqns db
      → IsRegistry E nqns db'
  IsRegistry-of_same nqns db db' same h = record {
    named = λ id v e. h.named id v (cc (same id));
    specified = λ id v e. h.specified id v (cc (same id));
    registered = λ id v spec e. h.registered id v spec (cc (same id));
    unique = λ id id' v v' spec spec' e e'.
        h.unique id id' v v' spec spec' (cc (same id)) (cc (same id'));
  }

  pub IsRegistry-insert :
      (nqn : String) (nqns : Assoc Bool) (db : E.Db)
      → IsRegistry E nqns db
      → IsRegistry E (insert nqn false nqns) db
  IsRegistry-insert nqn nqns db h = record {
    named = h.named;
    specified = h.specified;
    registered = λ id v spec e p.
        ground (arith, has_nqn-insert spec.nqn nqn false nqns, h.registered id v spec e p);
    unique = h.unique;
  }

module _ (E : Externals) (L : IsStore E) where
  -- A read of any kind changes nothing of it.
  pub IsRegistry-get :
      (k : Kind) (key : String) (nqns : Assoc Bool) (db : E.Db)
      → IsRegistry E nqns db
      → IsRegistry E nqns (E.get k key db).1
  IsRegistry-get k key nqns db =
      IsRegistry-of_same E nqns db (E.get k key db).1 λ id. L.holds-get k nvme_subsystem key _ db

  -- A subsystem with a new NQN is stored and its NQN registered.
  pub IsRegistry-set :
      (nqns : Assoc Bool) (db : E.Db) (i : PlainId) (m : NvmeSubsystem) (spec : NvmeSubsystemSpec)
      → m.name ≡ name_of E i
      → m.spec ≡ some spec
      → has_nqn spec.nqn nqns ≡ false
      → (E.set nvme_subsystem (name_of E i) m db).0 ≡ value tt
      → IsRegistry E nqns db
      → IsRegistry E (insert spec.nqn false nqns) (E.set nvme_subsystem (name_of E i) m db).1
  IsRegistry-set nqns db i m spec hn hs free stored h = record {
    named = λ id v e. ground (arith, at id, h.named id v, str_eq_iff (name_of E i) (name_of E id));
    specified = λ id v e p. ground (arith, at id, h.specified id v);
    registered = λ id v sp e p. ground (
      arith,
      at id,
      h.registered id v sp,
      has_nqn-insert sp.nqn spec.nqn false nqns,
      str_eq_iff spec.nqn sp.nqn,
    );
    unique = λ id id' v v' sp sp' e e' p p' q. ground (
      arith,
      at id,
      at id',
      h.registered id v sp,
      h.registered id' v' sp',
      h.unique id id' v v' sp sp',
      str_eq_iff (name_of E i) (name_of E id),
      str_eq_iff (name_of E i) (name_of E id'),
    );
  }
    where
      at :
          (id : PlainId)
          → E.holds nvme_subsystem (E.set nvme_subsystem (name_of E i) m db).1 (name_of E id) ≡ (
              if str_eq (name_of E i) (name_of E id)
              then some m
              else E.holds nvme_subsystem db (name_of E id))
      at id = L.holds-set nvme_subsystem (name_of E i) (name_of E id) m db stored

  -- A stored subsystem is removed and its NQN freed.
  pub IsRegistry-delete :
      (nqns : Assoc Bool) (db : E.Db) (i : PlainId) (m : NvmeSubsystem) (spec : NvmeSubsystemSpec)
      → E.holds nvme_subsystem db (name_of E i) ≡ some m
      → m.spec ≡ some spec
      → (E.delete (name_of E i) db).0 ≡ value tt
      → IsRegistry E nqns db
      → IsRegistry E (erase spec.nqn nqns) (E.delete (name_of E i) db).1
  IsRegistry-delete nqns db i m spec held hs gone h = record {
    named = λ id v e. ground (arith, at id, h.named id v);
    specified = λ id v e p. ground (arith, at id, h.specified id v);
    registered = λ id v sp e p. ground (
      arith,
      at id,
      h.registered id v sp,
      has_nqn-erase sp.nqn spec.nqn nqns,
      h.unique i id m v spec sp held,
      str_eq_iff spec.nqn sp.nqn,
      str_eq_iff (name_of E i) (name_of E id),
    );
    unique = λ id id' v v' sp sp' e e' p p' q.
        ground (arith, at id, at id', h.unique id id' v v' sp sp');
  }
    where
      at :
          (id : PlainId)
          → E.holds nvme_subsystem (E.delete (name_of E i) db).1 (name_of E id) ≡ (
              if str_eq (name_of E i) (name_of E id)
              then none
              else E.holds nvme_subsystem db (name_of E id))
      at id = L.holds-delete nvme_subsystem (name_of E i) (name_of E id) db gone
