-- ===== src/Service/Repeats.antt =====
-- A create of pkg/frontend that is sent again: "idempotent API call when exists".
use opi_nvidia_bridge.Base.{◌≡◌, sym, ap, ◌∙◌, false, some, ◌⊎◌, inl, inr, str_eq}
use opi_nvidia_bridge.Api.Messages.{Kind, Message}
use opi_nvidia_bridge.Exec.{Result, ok}
use opi_nvidia_bridge.Exec.Rules.{some-inj, ok-inj}
use opi_nvidia_bridge.Externals.{Externals}
use opi_nvidia_bridge.Externals.Laws.{IsStore, ClonesFaithfully}
use opi_nvidia_bridge.Server.{Server, State}
use opi_nvidia_bridge.Server.Outcomes.{Fails, Untouched, OnlyRead}
use opi_nvidia_bridge.Service.Calls.{Creation, resource_id, requested_name, create}
use opi_nvidia_bridge.Service.Calls.Outcomes.{fails, exists, makes}
use opi_nvidia_bridge.Service.Calls.Creates.{create-Comes}
use opi_nvidia_bridge.Service.Refines.{held}
use opi_nvidia_bridge.Service.Refines.Changes.{held-same}

module _ (E : Externals) where
  -- A method fails and changes nothing, or answers the object, and only reads.
  abbrev pub Answers : (k : Kind) → Message k → State E → Result (Message k) × State E → Type 0
  Answers k m t (r, u) = (Fails r × Untouched E t u) ⊎ ((r ≡ ok m) × OnlyRead E t u)

module _ (E : Externals) (L : IsStore E) (C : ClonesFaithfully E) (k : Kind) (req : Creation k)
    (m : Message k) (s : State E) (hi : str_eq (resource_id k req) "" ≡ false) where
  -- What a create has answered is kept under the name.
  create-held :
      (create E k req s).0 ≡ ok m → held E (create E k req s).1 k (requested_name E k req) ≡ some m
  create-held p = elim (create-Comes E L C s k req hi) [
    | fails f _ ↦ absurd (f m p)
    | exists existing present q o ↦
        held-same E s (create E k req s).1
          (ap (λ (x : Server). x.virtio_ctrls) o.untouched.same_server) o.untouched.same_store k
          (requested_name E k req)
        ∙ present
        ∙ ap some (ok-inj (sym q ∙ p))
    | makes _ put ↦ (put m p).kept
  ]

  -- If the store behaves as a store, clones equal their originals and the request gives an
  -- identifier, then for each of the four kinds, where the create of the kind has answered an
  -- object, the same request in the state after it fails with the maps and the store as they were,
  -- or answers that same object without calling the device, with the maps and the store as they
  -- were.
  pub create-Repeats :
      (create E k req s).0 ≡ ok m
      → let t = (create E k req s).1 in Answers E k m t (create E k req t)
  create-Repeats p = elim (create-Comes E L C (create E k req s).1 k req hi) [
    | fails f u ↦ inl (f, u)
    | exists existing present q o ↦ inr (q ∙ ap ok (some-inj (sym present ∙ create-held p)), o)
    | makes absent _ ↦ absurd (cc (absent, create-held p))
  ]
