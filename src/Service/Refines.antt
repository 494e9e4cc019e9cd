-- ===== src/Service/Refines.antt =====
-- How the state of the service of pkg/frontend stands for a view, and what a change of it does.
pub mod Changes
pub mod Steps
pub mod Runs
pub mod Kept
pub mod Calm
pub mod Pointers
use opi_nvidia_bridge.Base.{
  String, ◌≡◌, refl, sym, ap, subst, ◌∙◌, ◌⊎◌, inl, inr, Bool, true, false, Bool-cases, Option,
  none, some, str_eq, str_eq_iff, if◌then◌else◌, lookup, arith,
}
use opi_nvidia_bridge.Api.Messages.{
  Kind, Message, nvme_subsystem, nvme_controller, nvme_namespace, virtio_blk,
}
use opi_nvidia_bridge.Externals.{Externals}
use opi_nvidia_bridge.Externals.Laws.{
  PlainId, NamesApart, same_kind, subsystem_name, controller_name, namespace_name,
}
use opi_nvidia_bridge.Server.{Server, State}
use opi_nvidia_bridge.Server.Outcomes.{Untouched, Stored, Removed}
use opi_nvidia_bridge.Subsystem.Create.{has_nqn}
use opi_nvidia_bridge.Service.Formed.{IsFormed}
use opi_nvidia_bridge.Service.Spec.{
  View, Objects, message_name, place, Compares, same, differ, kinds, place-same, place-differ,
}

module _ (E : Externals) where
  -- The names of a kind that are made of identifiers without slashes. The map of virtio-blk
  -- controllers has no other kind in it.
  abbrev pub IsName : Kind → String → Type 0
  IsName nvme_subsystem name = (i : PlainId) × (name ≡ subsystem_name E i)
  IsName nvme_controller name = (i : PlainId) × (j : String) × (name ≡ controller_name E i j)
  IsName nvme_namespace name = (i : PlainId) × (j : String) × (name ≡ namespace_name E i j)
  IsName virtio_blk name = Unit

  abbrev pub held : State E → Objects
  held s virtio_blk name = lookup name s.server.virtio_ctrls
  held s k name = E.holds k s.db name

  -- The objects under names of their kind are those of the view, carry their names and are well
  -- formed; the NQNs are those of the view.
  pub record Represents (s : State E) (v : View) : Type 0 where
    pub objects : (k : Kind) (name : String) → IsName k name → held s k name ≡ v.objects k name
    pub sound :
        (k : Kind) (name : String) (m : Message k)
        → IsName k name
        → v.objects k name ≡ some m
        → (message_name k m ≡ name) × IsFormed k m
    pub registered : (nqn : String) → has_nqn nqn s.server.nqns ≡ v.registered nqn

  -- One object changes, and no other under a name of its kind.
  pub record Changed (k : Kind) (name : String) (o : Option (Message k)) (s t : State E)
      : Type 0 where
    pub at : held t k name ≡ o
    pub others :
        (l : Kind) (other : String)
        → IsName l other
        → (same_kind k l ≡ false) ⊎ (str_eq name other ≡ false)
        → held t l other ≡ held s l other

  pub Represents-Changed :
      (k : Kind) (name : String) (o : Option (Message k)) (s t : State E) (v : View)
      (reg : String → Bool)
      → Changed k name o s t
      → ((m : Message k) → o ≡ some m → (message_name k m ≡ name) × IsFormed k m)
      → ((nqn : String) → has_nqn nqn t.server.nqns ≡ reg nqn)
      → Represents s v
      → Represents t (record { objects = place k name o v.objects; registered = reg })
  Represents-Changed k name o s t v reg c hn hr h = record {
    objects = λ l other i. object (kinds k l) other i;
    sound = λ l other m i e. sound_at (kinds k l) other m i e;
    registered = hr;
  }
    where
      placed :
          (other : String) (b : Bool)
          → str_eq name other ≡ b
          → place k name o v.objects k other ≡ (if b then o else v.objects k other)
      placed other b p =
          subst (λ c. place k name o v.objects k other ≡ (if c then o else v.objects k other)) p
            (place-same k name other o v.objects)

      object :
          {l : Kind}
          → Compares k l
          → (other : String) → IsName l other
          → held t l other ≡ place k name o v.objects l other
      object {l} (differ e) other i =
          c.others l other i (inl e)
          ∙ h.objects l other i
          ∙ sym (place-differ k l name other o v.objects e)
      object {l} same other i = elim (Bool-cases (str_eq name other)) [
        | inl p ↦
            subst (λ n. held t k n ≡ o) ((str_eq_iff name other).0 p) c.at
            ∙ sym (placed other true p)
        | inr p ↦ c.others k other i (inr p) ∙ h.objects k other i ∙ sym (placed other false p)
      ]

      sound_at :
          {l : Kind}
          → Compares k l
          → (other : String) (m : Message l) → IsName l other
          → place k name o v.objects l other ≡ some m
          → (message_name l m ≡ other) × IsFormed l m
      sound_at {l} (differ e) other m i p =
          h.sound l other m i (sym (place-differ k l name other o v.objects e) ∙ p)
      sound_at {l} same other m i p = elim (Bool-cases (str_eq name other)) [
        | inl q ↦
            let (hname, formed) = hn m (sym (placed other true q) ∙ p) in
            (hname ∙ (str_eq_iff name other).0 q, formed)
        | inr q ↦ h.sound k other m i (sym (placed other false q) ∙ p)
      ]

  -- Nothing but the registered NQNs changes.
  pub Represents-registered :
      (s t : State E) (v : View) (reg : String → Bool)
      → ((l : Kind) (other : String) → held t l other ≡ held s l other)
      → ((nqn : String) → has_nqn nqn t.server.nqns ≡ reg nqn)
      → Represents s v
      → Represents t (record { objects = v.objects; registered = reg })
  Represents-registered s t v reg same_objects hr h = record {
    objects = λ l other i. same_objects l other ∙ h.objects l other i;
    sound = h.sound;
    registered = hr;
  }
