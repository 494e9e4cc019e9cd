-- ===== src/Service/Unimplemented.antt =====
-- The handlers of pkg/frontend that are not implemented: the updates of all kinds, and the
-- statistics of subsystems and controllers.
use opi_nvidia_bridge.Base.{
  String, ◌≡◌, refl, sym, subst, ◌∙◌, ◌⊎◌, inl, inr, Bool, Option, none, some, lookup, is_some,
}
use opi_nvidia_bridge.Api.Messages.{
  Kind, Message, nvme_subsystem, nvme_controller, nvme_namespace, virtio_blk,
}
use opi_nvidia_bridge.Api.Requests.{Request, UpdateRequest}
use opi_nvidia_bridge.Error.{unable_to_find_key, not_implemented}
use opi_nvidia_bridge.Exec.{Result, ok, pure, fail, deref, check, require, ◌>>=◌, ◌>>◌}
use opi_nvidia_bridge.Exec.Rules.{
  Ends, done, bind_rule, check_rule, deref_rule, require_rule, ok-inj,
}
use opi_nvidia_bridge.Externals.{Externals}
use opi_nvidia_bridge.Externals.Laws.{IsStore}
use opi_nvidia_bridge.Server.{State, Method, store_get}
use opi_nvidia_bridge.Server.Rules.{get_server_rule}
use opi_nvidia_bridge.Server.Outcomes.{Fails, OnlyRead, OnlyRead-refl}
use opi_nvidia_bridge.Server.Steps.{store_get_answer_rule}
use opi_nvidia_bridge.Subsystem.Queries.{update_nvme_subsystem}
use opi_nvidia_bridge.Controller.Queries.{update_nvme_controller}
use opi_nvidia_bridge.Namespace.Queries.{update_nvme_namespace}
use opi_nvidia_bridge.Virtio.Queries.{update_virtio_blk}
use opi_nvidia_bridge.Subsystem.Validate as Subsystems
use opi_nvidia_bridge.Controller.Validate as Controllers
use opi_nvidia_bridge.Namespace.Validate as Namespaces
use opi_nvidia_bridge.Virtio.Validate as Blks
use opi_nvidia_bridge.Service.Spec.{message_name}
use opi_nvidia_bridge.Service.Refines.{held}
use opi_nvidia_bridge.Service.Rejected.{
  Stops, Accepts, Stops-err, Stops-panic, Stops-Fails, IsRead, Rejects, Rejects-Fails, invalid,
  unset, misnamed, stops, unread, missing, masked, refuses,
}

module _ (E : Externals) {k : Kind} (message : String) (req : UpdateRequest k) (s : State E) where
  failing :
      {o : Result (Message k) × State E}
      → Ends (λ (r, t). Rejects E message req s r × OnlyRead E s t) o
      → Rejects E message req s o.0 × Fails o.0 × OnlyRead E s o.1
  failing ends = (ends.holds.0, Rejects-Fails E message req s _ ends.holds.0, ends.holds.1)

  -- After the lookup.
  abbrev rest : String → Bool → Method E (Message k)
  rest name found = do
    require found (unable_to_find_key name)
    check (E.validate_field_mask k req.update_mask req.resource)
    fail (not_implemented message)

  abbrev RejectsRead : Result (Message k) × State E → Type 0
  RejectsRead (r, t) = Rejects E message req s r × OnlyRead E s t

  rest-Rejects :
      (m : Message k) (found : Option (Message k)) (t : State E)
      → Accepts E req m
      → held E s k (message_name k m) ≡ found
      → OnlyRead E s t
      → Ends RejectsRead (rest (message_name k m) (is_some found) t)
  rest-Rejects m none t hr hf o =
      require_rule _ _ _ _ (λ e. absurd (cc e)) (λ _. done (missing m hr hf refl, o))
  rest-Rejects m (some existing) t hr hf o =
      require_rule _ _ _ _
        (λ _.
          check_rule _ _ _ (λ v. done (refuses m existing hr hf v refl, o))
            (λ e v. done (masked m existing e hr hf v refl, o)))
        (λ e. absurd (cc e))

  -- The checks before the lookup, which read the name of the resource.
  abbrev validated : Method E String
  validated = do
    check (E.validate_required_fields (Request.update k req))
    m ← deref req.resource
    check (E.validate_resource_name (message_name k m))
    pure (message_name k m)

  abbrev Validates : Result String × State E → Type 0
  Validates (r, t) =
      (t ≡ s) × (Stops E req r ⊎ ((m : Message k) × Accepts E req m × (r ≡ ok (message_name k m))))

  validated-Validates : Ends Validates (validated s)
  validated-Validates =
      check_rule _ _ _
        (λ h.
          deref_rule _ _ _
            (λ m hr.
              check_rule _ _ _
                (λ hv.
                  let accepted : Accepts E req m = record {
                    required = h;
                    resource = hr;
                    well_named = hv;
                  } in
                  done (refl, inr (m, accepted, refl)))
                (λ e hv. done (refl, inl (misnamed m e h hr hv refl))))
            (λ hn. done (refl, inl (unset h hn refl))))
        (λ e h. done (refl, inl (invalid e h refl)))

  stopped :
      {r : Result String}
      → Stops E req r ⊎ ((m : Message k) × Accepts E req m × (r ≡ ok (message_name k m)))
      → ((name : String) → r ≡ ok name → ⊥)
      → Stops E req r
  stopped (inl h) f = h
  stopped (inr (m, _, p)) f = absurd (f (message_name k m) p)

  validated_rule :
      (f : String → Method E (Message k))
      → ((m : Message k) → Accepts E req m → Ends RejectsRead (f (message_name k m) s))
      → Ends RejectsRead ((validated >>= f) s)
  validated_rule f h =
      let (same, v) = validated-Validates.holds in
      bind_rule validated f s
        (λ name e. elim v [
          | inl st ↦ absurd (Stops-Fails E req _ st name e)
          | inr (m, accepted, p) ↦
              subst (λ t. Ends RejectsRead (f name t)) (sym same)
                (subst (λ n. Ends RejectsRead (f n s)) (ok-inj (sym p ∙ e)) (h m accepted))
        ])
        (λ e p.
          let st = subst (λ r. Stops E req r) p (stopped v (λ name q. cc (p, q))) in
          done (stops (Stops-err E req e st), read same))
        (λ p.
          let st = subst (λ r. Stops E req r) p (stopped v (λ name q. cc (p, q))) in
          done (stops (Stops-panic E req st), read same))
    where
      read : {t : State E} → t ≡ s → OnlyRead E s t
      read e = subst (λ t. OnlyRead E s t) (sym e) (OnlyRead-refl E s)

  -- The updates of what is in the store.
  stored-Rejects :
      IsStore E
      → IsRead k
      → ((name : String) → held E s k name ≡ E.holds k s.db name)
      → Ends RejectsRead
          ((validated >>= λ name. store_get E k name >>= λ found. rest name (is_some found)) s)
  stored-Rejects L in_store at = validated_rule _ (λ m accepted.
      store_get_answer_rule E L k (message_name k m) _ s
        (λ found t hf o. rest-Rejects m found t accepted (at (message_name k m) ∙ hf) o)
        (λ e t he o. done (unread m e in_store accepted he refl, o)))

module _ (E : Externals) (L : IsStore E) (s : State E) where
  abbrev pub Refused : {k : Kind} → (UpdateRequest k → Method E (Message k)) → String → Type 0
  Refused {k} update message =
      (req : UpdateRequest k)
      → let (r, t) = update req s in Rejects E message req s r × Fails r × OnlyRead E s t

  update_nvme_subsystem-Rejects :
      Refused (update_nvme_subsystem E) "UpdateNvmeSubsystem method is not implemented"
  unfolding update_nvme_subsystem Subsystems.validate_update
  update_nvme_subsystem-Rejects req =
      failing E _ req s (stored-Rejects E {k = nvme_subsystem} _ req s L refl (λ _. refl))

  update_nvme_controller-Rejects :
      Refused (update_nvme_controller E) "UpdateNvmeController method is not implemented"
  unfolding update_nvme_controller Controllers.validate_update
  update_nvme_controller-Rejects req =
      failing E _ req s (stored-Rejects E {k = nvme_controller} _ req s L refl (λ _. refl))

  update_nvme_namespace-Rejects :
      Refused (update_nvme_namespace E) "UpdateNvmeNamespace method is not implemented"
  unfolding update_nvme_namespace Namespaces.validate_update
  update_nvme_namespace-Rejects req =
      failing E _ req s (stored-Rejects E {k = nvme_namespace} _ req s L refl (λ _. refl))

  update_virtio_blk-Rejects :
      Refused (update_virtio_blk E) "UpdateVirtioBlk method is not implemented"
  unfolding update_virtio_blk Blks.validate_update
  update_virtio_blk-Rejects req = failing E _ req s ends
    where
      message : String
      message = "UpdateVirtioBlk method is not implemented"

      ends : Ends (RejectsRead E {k = virtio_blk} message req s) (update_virtio_blk E req s)
      ends = validated_rule E {k = virtio_blk} message req s _ (λ m hr. get_server_rule E _ _ (
          rest-Rejects E {k = virtio_blk} message req s m (lookup m.name s.server.virtio_ctrls) s hr
            refl (OnlyRead-refl E s)))

  -- If the store behaves as a store, each of the four update handlers changes none of the maps and
  -- the store, does not call the device and never succeeds: it panics since the request has no
  -- resource, or returns the error of the checks of its fields or its name; or returns the error of
  -- the store, where reading the name of the resource from the store fails; or returns a not-found
  -- error since nothing is kept under that name; or, where something is, returns the error of the
  -- mask, or says that it is not implemented where the mask is valid.
  pub updates-Reject :
      Refused (update_nvme_subsystem E) "UpdateNvmeSubsystem method is not implemented"
      × Refused (update_nvme_controller E) "UpdateNvmeController method is not implemented"
      × Refused (update_nvme_namespace E) "UpdateNvmeNamespace method is not implemented"
      × Refused (update_virtio_blk E) "UpdateVirtioBlk method is not implemented"
  updates-Reject = (
    update_nvme_subsystem-Rejects, update_nvme_controller-Rejects, update_nvme_namespace-Rejects,
    update_virtio_blk-Rejects,
  )
