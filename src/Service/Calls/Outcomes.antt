-- ===== src/Service/Calls/Outcomes.antt =====
-- What a create and a delete of pkg/frontend come to, for any kind of object.
use opi_nvidia_bridge.Base.{String, ◌≡◌, ap, false, lookup, none, some, str_eq, insert, erase}
use opi_nvidia_bridge.Api.Messages.{
  Kind, Message, NvmeSubsystemSpec, nvme_subsystem, nvme_controller, nvme_namespace, virtio_blk,
}
use opi_nvidia_bridge.Exec.{Result, ok}
use opi_nvidia_bridge.Externals.{Externals}
use opi_nvidia_bridge.Server.{State}
use opi_nvidia_bridge.Server.Outcomes.{Fails, Untouched, OnlyRead}
use opi_nvidia_bridge.Subsystem.Create.{has_nqn}
use opi_nvidia_bridge.Service.Spec.{message_name}
use opi_nvidia_bridge.Service.Refines.{held}

module _ (E : Externals) where
  -- A subsystem brings its NQN, which was free, to the registry.
  abbrev pub Registers : (k : Kind) → Message k → State E → State E → Type 0
  Registers nvme_subsystem m s t =
      (spec : NvmeSubsystemSpec) × (m.spec ≡ some spec)
      × (has_nqn spec.nqn s.server.nqns ≡ false)
      × (t.server.nqns ≡ insert spec.nqn false s.server.nqns)
  Registers k m s t = t.server.nqns ≡ s.server.nqns

  -- It takes its NQN from the registry.
  abbrev pub Unregisters : (k : Kind) → Message k → State E → State E → Type 0
  Unregisters nvme_subsystem m s t =
      (spec : NvmeSubsystemSpec) × (m.spec ≡ some spec)
      × (t.server.nqns ≡ erase spec.nqn s.server.nqns)
  Unregisters k m s t = t.server.nqns ≡ s.server.nqns

  -- What is kept under other names is as before.
  abbrev pub Apart : String → State E → State E → Type 0
  Apart name s t =
      (l : Kind) (other : String) → str_eq name other ≡ false → held E t l other ≡ held E s l other

  -- An object was put under its name.
  pub record Put (k : Kind) (name : String) (m : Message k) (s t : State E) : Type 0 where
    pub named : message_name k m ≡ name
    pub kept : held E t k name ≡ some m
    pub others : Apart name s t
    pub registered : Registers k m s t

  -- An object was taken away.
  pub record Taken (k : Kind) (name : String) (m : Message k) (s t : State E) : Type 0 where
    pub gone : held E t k name ≡ none
    pub others : Apart name s t
    pub unregistered : Unregisters k m s t

  -- A create of an object of a name: it fails and changes nothing; or it answers what is kept there,
  -- and only reads; or nothing is kept there, and unless it fails the object is put there.
  pub data Creates (k : Kind) (name : String) (s : State E) (r : Result (Message k)) (t : State E)
      : Type 0 where
    fails : Fails r → Untouched E s t → Creates k name s r t
    exists :
        (m : Message k)
        → held E s k name ≡ some m
        → r ≡ ok m
        → OnlyRead E s t
        → Creates k name s r t
    makes :
        held E s k name ≡ none
        → ((m : Message k) → r ≡ ok m → Put k name m s t)
        → Creates k name s r t

  -- A delete of a name: it fails and changes nothing; or nothing is kept there; or unless it fails
  -- the object that is kept there is taken away, provided that this is its name.
  pub data Deletes (k : Kind) (name : String) (s : State E) (r : Result (Unit {0})) (t : State E)
      : Type 0 where
    fails : Fails r → Untouched E s t → Deletes k name s r t
    missing : held E s k name ≡ none → OnlyRead E s t → Deletes k name s r t
    takes :
        (m : Message k)
        → held E s k name ≡ some m
        → (message_name k m ≡ name → r ≡ ok tt → Taken k name m s t)
        → Deletes k name s r t

module _ (E : Externals) (s t : State E) where
  -- Other keys of the store are read as before.
  pub Apart-stored :
      (name : String)
      → t.server.virtio_ctrls ≡ s.server.virtio_ctrls
      → ((j : Kind) (other : String)
          → str_eq name other ≡ false
          → E.holds j t.db other ≡ E.holds j s.db other)
      → Apart E name s t
  Apart-stored name c h nvme_subsystem other ne = h nvme_subsystem other ne
  Apart-stored name c h nvme_controller other ne = h nvme_controller other ne
  Apart-stored name c h nvme_namespace other ne = h nvme_namespace other ne
  Apart-stored name c h virtio_blk other ne = ap (lookup other) c

  -- Other keys of the map are read as before, and the store is.
  pub Apart-map :
      (name : String)
      → ((j : Kind) (key : String) → E.holds j t.db key ≡ E.holds j s.db key)
      → ((other : String)
          → str_eq name other ≡ false
          → lookup other t.server.virtio_ctrls ≡ lookup other s.server.virtio_ctrls)
      → Apart E name s t
  Apart-map name same h nvme_subsystem other ne = same nvme_subsystem other
  Apart-map name same h nvme_controller other ne = same nvme_controller other
  Apart-map name same h nvme_namespace other ne = same nvme_namespace other
  Apart-map name same h virtio_blk other ne = h other ne
