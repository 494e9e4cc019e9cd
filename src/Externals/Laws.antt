-- ===== src/Externals/Laws.antt =====
-- The documented behaviour of the packages that the theorems rely on, each as a hypothesis.
use opi_nvidia_bridge.Base.{
  String, Option, ◌≡◌, none, some, if◌then◌else◌, str_eq, true, false, Bool,
}
use opi_nvidia_bridge.Base.Text.{has_slash}
use opi_nvidia_bridge.Api.Messages.{
  Kind, Message, nvme_subsystem, nvme_controller, nvme_namespace, virtio_blk,
}
use opi_nvidia_bridge.Error.{Error}
use opi_nvidia_bridge.Externals.{Externals, value, failure}

abbrev pub same_kind : Kind → Kind → Bool
same_kind nvme_subsystem nvme_subsystem = true
same_kind nvme_controller nvme_controller = true
same_kind nvme_namespace nvme_namespace = true
same_kind virtio_blk virtio_blk = true
same_kind _ _ = false

-- An identifier without slashes.
abbrev pub PlainId : Type 0
PlainId = (id : String) × (has_slash id ≡ false)

module _ (E : Externals) where
  -- A store: a read that succeeds returns what is held and changes none of it; a write that
  -- succeeds is seen under its key alone; a write that fails changes nothing.
  pub record IsStore : Type 0 where
    pub get-value :
        (k : Kind) (key : String) (db : E.Db) (o : Option (Message k))
        → (E.get k key db).0 ≡ value o
        → o ≡ E.holds k db key
    pub holds-get :
        (k j : Kind) (key other : String) (db : E.Db)
        → E.holds j (E.get k key db).1 other ≡ E.holds j db other
    pub holds-set :
        (k : Kind) (key other : String) (m : Message k) (db : E.Db)
        → (E.set k key m db).0 ≡ value tt
        → E.holds k (E.set k key m db).1 other
          ≡ (if str_eq key other then some m else E.holds k db other)
    -- Of the other kinds nothing is known under the key itself.
    pub holds-set_ne :
        (k j : Kind) (key other : String) (m : Message k) (db : E.Db)
        → str_eq key other ≡ false
        → E.holds j (E.set k key m db).1 other ≡ E.holds j db other
    pub holds-set_failure :
        (k j : Kind) (key other : String) (m : Message k) (db : E.Db) (e : Error)
        → (E.set k key m db).0 ≡ failure e
        → E.holds j (E.set k key m db).1 other ≡ E.holds j db other
    pub holds-delete :
        (j : Kind) (key other : String) (db : E.Db)
        → (E.delete key db).0 ≡ value tt
        → E.holds j (E.delete key db).1 other
          ≡ (if str_eq key other then none else E.holds j db other)
    pub holds-delete_failure :
        (j : Kind) (key other : String) (db : E.Db) (e : Error)
        → (E.delete key db).0 ≡ failure e
        → E.holds j (E.delete key db).1 other ≡ E.holds j db other

  -- A clone equals its original.
  pub record ClonesFaithfully : Type 0 where
    pub clone_eq : (k : Kind) (m : Message k) → E.proto_clone k m ≡ m

  -- Identifiers have no slash, which separates the parts of a name: neither those that a client may
  -- set, nor generated ones, nor one that is read out of a name.
  pub record IdsPlain : Type 0 where
    pub settable : (id : String) → E.validate_user_settable id ≡ none → has_slash id ≡ false
    pub generated : (entropy : E.Entropy) → has_slash (E.new_system_generated entropy).0 ≡ false
    pub subsystem_id : (name : String) → has_slash (E.get_subsystem_id_from_nvme_name name) ≡ false

  abbrev pub subsystem_name : PlainId → String
  subsystem_name i = E.resource_id_to_subsystem_name i.0

  abbrev pub controller_name : PlainId → String → String
  controller_name i j = E.resource_id_to_controller_name i.0 j

  abbrev pub namespace_name : PlainId → String → String
  namespace_name i j = E.resource_id_to_namespace_name i.0 j

  -- Resource names of different kinds differ: the helpers build them with different patterns, which
  -- separate by slashes, from identifiers without slashes.
  pub record NamesApart : Type 0 where
    pub controller-subsystem :
        (s c : String) (i : PlainId)
        → str_eq (E.resource_id_to_controller_name s c) (subsystem_name i) ≡ false
    pub namespace-subsystem :
        (s n : String) (i : PlainId)
        → str_eq (E.resource_id_to_namespace_name s n) (subsystem_name i) ≡ false
    pub controller-namespace :
        (s t : PlainId) (c n : String) → str_eq (controller_name s c) (namespace_name t n) ≡ false
