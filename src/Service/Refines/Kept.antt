-- ===== src/Service/Refines/Kept.antt =====
-- What the service of pkg/frontend keeps, in every state that it reaches.
use opi_nvidia_bridge.Base.{String, ◌≡◌, sym, ◌∙◌, some}
use opi_nvidia_bridge.Api.Messages.{Kind, Message}
use opi_nvidia_bridge.Externals.{Externals}
use opi_nvidia_bridge.Externals.Laws.{IsStore, ClonesFaithfully, IdsPlain, NamesApart}
use opi_nvidia_bridge.Server.{State}
use opi_nvidia_bridge.Service.{Reachable}
use opi_nvidia_bridge.Service.Formed.{IsFormed}
use opi_nvidia_bridge.Service.Spec.{View, message_name}
use opi_nvidia_bridge.Service.Refines.{IsName, held, Represents}
use opi_nvidia_bridge.Service.Refines.Runs.{Reachable-Run}

module _ (E : Externals) where
  -- What is kept under a name of its kind carries that name and is well formed.
  abbrev pub KeepsFormed : State E → Type 0
  KeepsFormed s =
      (k : Kind) (name : String) (m : Message k)
      → IsName E k name
      → held E s k name ≡ some m
      → (message_name k m ≡ name) × IsFormed k m

  pub Represents-KeepsFormed : (s : State E) (v : View) → Represents E s v → KeepsFormed s
  Represents-KeepsFormed s v h k name m i e = h.sound k name m i (sym (h.objects k name i) ∙ e)

module _ (E : Externals) (L : IsStore E) (C : ClonesFaithfully E) (P : IdsPlain E)
    (N : NamesApart E) where
  -- If the store behaves as a store, clones equal their originals, identifiers have no slash and
  -- names of different kinds differ, then in each state that calls of the twenty-four handlers,
  -- each delete of anything but a virtio-blk controller with a name of the form of its kind made of
  -- such identifiers, reach from one that a view represents: what is kept under a name of its kind
  -- carries that name, and a subsystem has an NQN of at most 223 bytes of the right form, a serial
  -- number of at most 20 and a model number of at most 40 bytes, a controller has an identifier
  -- that is an int32, a namespace has a specification, and a virtio-blk controller has a physical
  -- function.
  pub Reachable-KeepsFormed :
      {s t : State E} (v : View) → Represents E s v → Reachable E s t → KeepsFormed E t
  Reachable-KeepsFormed {t} v h r =
      let (w, _, hw) = Reachable-Run E L C P N v h r in Represents-KeepsFormed E t w hw
