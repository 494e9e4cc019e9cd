-- ===== src/Service/Spec.antt =====
-- What the service of pkg/frontend promises, without store, device and lists: objects of four kinds
-- under their names, and a set of registered NQNs.
use opi_nvidia_bridge.Base.{
  String, ◌≡◌, refl, Bool, true, false, Option, none, some, List, [], ◌∷◌, str_eq, if◌then◌else◌,
}
use opi_nvidia_bridge.Api.Messages.{
  Kind, Message, NvmeSubsystem, NvmeSubsystemSpec, nvme_subsystem, nvme_controller, nvme_namespace,
  virtio_blk,
}
use opi_nvidia_bridge.Externals.Laws.{same_kind}

abbrev pub message_name : (k : Kind) → Message k → String
message_name nvme_subsystem m = m.name
message_name nvme_controller m = m.name
message_name nvme_namespace m = m.name
message_name virtio_blk m = m.name

abbrev pub Objects : Type 0
Objects = (k : Kind) → String → Option (Message k)

pub record View : Type 0 where
  pub objects : Objects
  pub registered : String → Bool

-- The object of a kind and a name, set or taken away.
unfoldable pub place : (k : Kind) → String → Option (Message k) → Objects → Objects
place nvme_subsystem name o f nvme_subsystem other =
    if str_eq name other then o else f nvme_subsystem other
place nvme_controller name o f nvme_controller other =
    if str_eq name other then o else f nvme_controller other
place nvme_namespace name o f nvme_namespace other =
    if str_eq name other then o else f nvme_namespace other
place virtio_blk name o f virtio_blk other = if str_eq name other then o else f virtio_blk other
place _ name o f l other = f l other

abbrev pub register : String → Bool → (String → Bool) → String → Bool
register nqn b f other = if str_eq nqn other then b else f other

-- A call, as the specification sees it: a create of an object of a kind, a delete of a name, or a call
-- that only reads.
pub data Call : Type 0 where
  creates : Kind → Call
  deletes : Kind → String → Call
  reads : Call

module _ (IsName : Kind → String → Type 0) where
  -- What one call may do.
  pub data Transition (v : View) : Call → View → Type 0 where
    stays : {c : Call} → Transition v c v
    -- A subsystem is made under a free name, with an NQN that was free and is registered.
    makes :
        (name : String) (m : NvmeSubsystem) (spec : NvmeSubsystemSpec)
        → IsName nvme_subsystem name
        → v.objects nvme_subsystem name ≡ none
        → m.name ≡ name
        → m.spec ≡ some spec
        → v.registered spec.nqn ≡ false
        → Transition v (creates nvme_subsystem) (record {
          objects = place nvme_subsystem name (some m) v.objects;
          registered = register spec.nqn true v.registered;
        })
    -- The subsystem is not kept, for want of the store; its NQN, which was free, is registered.
    claims :
        (nqn : String)
        → v.registered nqn ≡ false
        → Transition v
            (creates nvme_subsystem)
            (record v { registered = register nqn true v.registered })
    -- The subsystem of the name is taken away, and its NQN is free.
    drops :
        (name : String) (m : NvmeSubsystem) (spec : NvmeSubsystemSpec)
        → IsName nvme_subsystem name
        → v.objects nvme_subsystem name ≡ some m
        → m.spec ≡ some spec
        → Transition v (deletes nvme_subsystem name) (record {
          objects = place nvme_subsystem name none v.objects;
          registered = register spec.nqn false v.registered;
        })
    -- The subsystem of the name stays, for want of the store; its NQN is free.
    frees :
        (name : String) (m : NvmeSubsystem) (spec : NvmeSubsystemSpec)
        → IsName nvme_subsystem name
        → v.objects nvme_subsystem name ≡ some m
        → m.spec ≡ some spec
        → Transition v
            (deletes nvme_subsystem name)
            (record v { registered = register spec.nqn false v.registered })
    -- An object of another kind is put under a free name, or the one of the name is taken away.
    puts :
        (k : Kind) (name : String) (m : Message k)
        → same_kind k nvme_subsystem ≡ false
        → IsName k name
        → v.objects k name ≡ none
        → message_name k m ≡ name
        → Transition v (creates k) (record v { objects = place k name (some m) v.objects })
    removes :
        (k : Kind) (name : String) (m : Message k)
        → same_kind k nvme_subsystem ≡ false
        → IsName k name
        → v.objects k name ≡ some m
        → Transition v (deletes k name) (record v { objects = place k name none v.objects })

  -- What a sequence of calls may do, the last one first: one transition for each of them.
  pub data Run (v : View) : List Call → View → Type 0 where
    start : Run v [] v
    next :
        {calls : List Call} {c : Call} {w u : View}
        → Run v calls w
        → Transition w c u
        → Run v (c ∷ calls) u

-- Kinds compare.
pub data Compares : Kind → Kind → Type 0 where
  same : {k : Kind} → Compares k k
  differ : {k l : Kind} → same_kind k l ≡ false → Compares k l

pub kinds : (k l : Kind) → Compares k l
kinds nvme_subsystem nvme_subsystem = same
kinds nvme_controller nvme_controller = same
kinds nvme_namespace nvme_namespace = same
kinds virtio_blk virtio_blk = same
kinds _ _ = differ refl

pub place-same :
    (k : Kind) (name other : String) (o : Option (Message k)) (f : Objects)
    → place k name o f k other ≡ (if str_eq name other then o else f k other)
unfolding place
place-same nvme_subsystem name other o f = refl
place-same nvme_controller name other o f = refl
place-same nvme_namespace name other o f = refl
place-same virtio_blk name other o f = refl

pub place-differ :
    (k l : Kind) (name other : String) (o : Option (Message k)) (f : Objects)
    → same_kind k l ≡ false
    → place k name o f l other ≡ f l other
unfolding place
place-differ nvme_subsystem nvme_subsystem name other o f e = absurd (cc e)
place-differ nvme_controller nvme_controller name other o f e = absurd (cc e)
place-differ nvme_namespace nvme_namespace name other o f e = absurd (cc e)
place-differ virtio_blk virtio_blk name other o f e = absurd (cc e)
place-differ _ _ name other o f e = refl
