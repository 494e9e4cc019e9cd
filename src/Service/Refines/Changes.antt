-- ===== src/Service/Refines/Changes.antt =====
-- The changes that the handlers of pkg/frontend make, as changes of one object.
use opi_nvidia_bridge.Base.{
  String, ◌≡◌, refl, ap, ◌∙◌, ◌⊎◌, inl, inr, false, Option, none, some, str_eq, if◌then◌else◌,
  lookup, insert, erase, lookup-insert, lookup-erase, str_eq_iff, arith,
}
use opi_nvidia_bridge.Api.Messages.{
  Kind, Message, VirtioBlk, nvme_subsystem, nvme_controller, nvme_namespace, virtio_blk,
}
use opi_nvidia_bridge.Externals.{Externals}
use opi_nvidia_bridge.Externals.Laws.{NamesApart, same_kind}
use opi_nvidia_bridge.Server.{Server, State}
use opi_nvidia_bridge.Server.Outcomes.{Untouched, Stored, Removed}
use opi_nvidia_bridge.Subsystem.Create.{has_nqn}
use opi_nvidia_bridge.Service.Named.{str_eq-apart}
use opi_nvidia_bridge.Service.Spec.{View}
use opi_nvidia_bridge.Service.Refines.{IsName, held, Represents, Changed, Represents-registered}

-- The kinds that are in the store.
abbrev pub IsStored : Kind → Type 0
IsStored k = same_kind k virtio_blk ≡ false

along :
    {a b name other : String}
    → name ≡ a
    → other ≡ b
    → str_eq a b ≡ false
    → str_eq name other ≡ false
along e e' h = cc (e, e', h)

module _ (E : Externals) (N : NamesApart E) where
  -- Names of stored objects of different kinds differ.
  names_apart :
      (k l : Kind) (name other : String)
      → IsStored k
      → IsStored l
      → same_kind k l ≡ false
      → IsName E k name
      → IsName E l other
      → str_eq name other ≡ false
  names_apart nvme_subsystem nvme_subsystem _ _ _ _ d _ _ = absurd (cc d)
  names_apart nvme_controller nvme_controller _ _ _ _ d _ _ = absurd (cc d)
  names_apart nvme_namespace nvme_namespace _ _ _ _ d _ _ = absurd (cc d)
  names_apart virtio_blk _ _ _ sk _ _ _ _ = absurd (cc sk)
  names_apart _ virtio_blk _ _ _ sl _ _ _ = absurd (cc sl)
  names_apart nvme_subsystem nvme_controller name other _ _ _ (i, e) (s, c, e') =
      along e e' (str_eq-apart _ _ (N.controller-subsystem s.0 c i))
  names_apart nvme_subsystem nvme_namespace name other _ _ _ (i, e) (s, n, e') =
      along e e' (str_eq-apart _ _ (N.namespace-subsystem s.0 n i))
  names_apart nvme_controller nvme_subsystem name other _ _ _ (s, c, e) (i, e') =
      along e e' (N.controller-subsystem s.0 c i)
  names_apart nvme_controller nvme_namespace name other _ _ _ (s, c, e) (s', n, e') =
      along e e' (N.controller-namespace s s' c n)
  names_apart nvme_namespace nvme_subsystem name other _ _ _ (s, n, e) (i, e') =
      along e e' (N.namespace-subsystem s.0 n i)
  names_apart nvme_namespace nvme_controller name other _ _ _ (s, n, e) (s', c, e') =
      along e e' (str_eq-apart _ _ (N.controller-namespace s' s c n))

module _ (E : Externals) (s t : State E) where
  -- The store is read as before, the map of virtio-blk controllers too.
  pub held-same :
      t.server.virtio_ctrls ≡ s.server.virtio_ctrls
      → ((j : Kind) (key : String) → E.holds j t.db key ≡ E.holds j s.db key)
      → (l : Kind) (other : String) → held E t l other ≡ held E s l other
  held-same c h nvme_subsystem other = h nvme_subsystem other
  held-same c h nvme_controller other = h nvme_controller other
  held-same c h nvme_namespace other = h nvme_namespace other
  held-same c h virtio_blk other = ap (lookup other) c

  pub Represents-untouched : (v : View) → Untouched E s t → Represents E s v → Represents E t v
  Represents-untouched v u h =
      Represents-registered E s t v v.registered
        (held-same (ap (λ (x : Server). x.virtio_ctrls) u.same_server) u.same_store)
        (λ nqn. ap (λ (x : Server). has_nqn nqn x.nqns) u.same_server ∙ h.registered nqn) h

module _ (E : Externals) (N : NamesApart E) (s t : State E) where
  -- One key of the store changes.
  Changed-key :
      (k : Kind) (name : String) (o : Option (Message k))
      → IsStored k
      → IsName E k name
      → t.server.virtio_ctrls ≡ s.server.virtio_ctrls
      → E.holds k t.db name ≡ o
      → ((j : Kind) (other : String)
          → str_eq name other ≡ false
          → E.holds j t.db other ≡ E.holds j s.db other)
      → Changed E k name o s t
  Changed-key k name o sk i c at others = record {
    at = stored_at k sk o at;
    others = λ l other j d. other_at l other j d;
  }
    where
      stored_at :
          (k : Kind)
          → IsStored k
          → (o : Option (Message k)) → E.holds k t.db name ≡ o
          → held E t k name ≡ o
      stored_at nvme_subsystem _ _ p = p
      stored_at nvme_controller _ _ p = p
      stored_at nvme_namespace _ _ p = p
      stored_at virtio_blk e _ _ = absurd (cc e)

      ne :
          (l : Kind) (other : String)
          → IsStored l
          → IsName E l other
          → (same_kind k l ≡ false) ⊎ (str_eq name other ≡ false)
          → str_eq name other ≡ false
      ne l other sl j (inl d) = names_apart E N k l name other sk sl d i j
      ne l other sl j (inr p) = p

      other_at :
          (l : Kind) (other : String)
          → IsName E l other
          → (same_kind k l ≡ false) ⊎ (str_eq name other ≡ false)
          → held E t l other ≡ held E s l other
      other_at nvme_subsystem other j d =
          others nvme_subsystem other (ne nvme_subsystem other refl j d)
      other_at nvme_controller other j d =
          others nvme_controller other (ne nvme_controller other refl j d)
      other_at nvme_namespace other j d =
          others nvme_namespace other (ne nvme_namespace other refl j d)
      other_at virtio_blk other _ _ = ap (lookup other) c

  pub Changed-stored :
      (k : Kind) (name : String) (m : Message k)
      → IsStored k
      → IsName E k name
      → t.server.virtio_ctrls ≡ s.server.virtio_ctrls
      → Stored E k name m s t
      → Changed E k name (some m) s t
  Changed-stored k name m sk i c st = Changed-key k name (some m) sk i c st.held st.others

  pub Changed-removed :
      (k : Kind) (name : String)
      → IsStored k
      → IsName E k name
      → t.server.virtio_ctrls ≡ s.server.virtio_ctrls
      → Removed E name s t
      → Changed E k name none s t
  Changed-removed k name sk i c rm = Changed-key k name none sk i c (rm.gone k) rm.others

module _ (E : Externals) (s t : State E)
    (same_store : (j : Kind) (key : String) → E.holds j t.db key ≡ E.holds j s.db key) where
  -- One key of the map changes.
  Changed-map :
      (name : String) (o : Option VirtioBlk)
      → ((other : String)
          → lookup other t.server.virtio_ctrls
            ≡ (if str_eq name other then o else lookup other s.server.virtio_ctrls))
      → Changed E virtio_blk name o s t
  Changed-map name o h = record {
    at = ground (arith, h name, str_eq_iff name name);
    others = λ l other i d. other_at l other d;
  }
    where
      other_at :
          (l : Kind) (other : String)
          → (same_kind virtio_blk l ≡ false) ⊎ (str_eq name other ≡ false)
          → held E t l other ≡ held E s l other
      other_at nvme_subsystem other d = same_store nvme_subsystem other
      other_at nvme_controller other d = same_store nvme_controller other
      other_at nvme_namespace other d = same_store nvme_namespace other
      other_at virtio_blk other (inl d) = absurd (cc d)
      other_at virtio_blk other (inr d) = ground (arith, h other, d)

  pub Changed-inserted :
      (name : String) (blk : VirtioBlk)
      → t.server.virtio_ctrls ≡ insert name blk s.server.virtio_ctrls
      → Changed E virtio_blk name (some blk) s t
  Changed-inserted name blk e =
      Changed-map name (some blk)
        (λ other. ap (lookup other) e ∙ lookup-insert name other blk s.server.virtio_ctrls)

  pub Changed-erased :
      (name : String)
      → t.server.virtio_ctrls ≡ erase name s.server.virtio_ctrls
      → Changed E virtio_blk name none s t
  Changed-erased name e =
      Changed-map name none
        (λ other. ap (lookup other) e ∙ lookup-erase name other s.server.virtio_ctrls)
