-- ===== src/Service/Rejected.antt =====
-- The ends of the update handlers of pkg/frontend, which are not implemented: the statement.
use opi_nvidia_bridge.Base.{String, ◌≡◌, refl, ap, false, none, some}
use opi_nvidia_bridge.Api.Messages.{Kind, Message, virtio_blk}
use opi_nvidia_bridge.Api.Requests.{Request, UpdateRequest}
use opi_nvidia_bridge.Error.{Error, unable_to_find_key, not_implemented}
use opi_nvidia_bridge.Exec.{Result, err, panic}
use opi_nvidia_bridge.Externals.{Externals, failure}
use opi_nvidia_bridge.Externals.Laws.{same_kind}
use opi_nvidia_bridge.Server.{State}
use opi_nvidia_bridge.Server.Outcomes.{Fails}
use opi_nvidia_bridge.Service.Spec.{message_name}
use opi_nvidia_bridge.Service.Refines.{held}

module _ (E : Externals) {k : Kind} (req : UpdateRequest k) where
  -- An update ends before the lookup: a required field is missing, or there is no resource, or its
  -- name is not valid.
  pub data Stops {A : Type 0} (r : Result A) : Type 0 where
    invalid :
        (e : Error)
        → E.validate_required_fields (Request.update k req) ≡ some e
        → r ≡ err e
        → Stops r
    unset :
        E.validate_required_fields (Request.update k req) ≡ none
        → req.resource ≡ none
        → r ≡ panic
        → Stops r
    misnamed :
        (m : Message k) (e : Error)
        → E.validate_required_fields (Request.update k req) ≡ none
        → req.resource ≡ some m
        → E.validate_resource_name (message_name k m) ≡ some e
        → r ≡ err e
        → Stops r

  -- What the checks before the lookup have accepted.
  pub record Accepts (m : Message k) : Type 0 where
    pub required : E.validate_required_fields (Request.update k req) ≡ none
    pub resource : req.resource ≡ some m
    pub well_named : E.validate_resource_name (message_name k m) ≡ none

  err-inj : {A : Type 0} {e e' : Error} → (r : Result A) → r ≡ err e → r ≡ err e' → e ≡ e'
  err-inj r p q = cc (p, q)

  pub Stops-err : {A B : Type 0} (e : Error) → Stops {A = A} (err e) → Stops {A = B} (err e)
  Stops-err e (invalid e' h p) = invalid e' h (ap err (err-inj _ refl p))
  Stops-err e (unset h hn p) = absurd (cc p)
  Stops-err e (misnamed m e' h hr hv p) = misnamed m e' h hr hv (ap err (err-inj _ refl p))

  pub Stops-panic : {A B : Type 0} → Stops {A = A} panic → Stops {A = B} panic
  Stops-panic (invalid e' h p) = absurd (cc p)
  Stops-panic (unset h hn p) = unset h hn refl
  Stops-panic (misnamed m e' h hr hv p) = absurd (cc p)

  pub Stops-Fails : {A : Type 0} (r : Result A) → Stops r → Fails r
  Stops-Fails r (invalid _ _ e) a p = cc (e, p)
  Stops-Fails r (unset _ _ e) a p = cc (e, p)
  Stops-Fails r (misnamed _ _ _ _ _ e) a p = cc (e, p)

-- The kinds of which an object is read from the store.
abbrev pub IsRead : Kind → Type 0
IsRead k = same_kind k virtio_blk ≡ false

module _ (E : Externals) {k : Kind} (message : String) (req : UpdateRequest k) (s : State E) where
  -- An update fails on every path: at the checks before the lookup, or with the error that the store
  -- answers, or since nothing is kept under the name, or since the mask of the fields is not valid,
  -- or as not implemented.
  pub data Rejects (r : Result (Message k)) : Type 0 where
    stops : Stops E req r → Rejects r
    unread :
        (m : Message k) (e : Error)
        → IsRead k
        → Accepts E req m
        → (E.get k (message_name k m) s.db).0 ≡ failure e
        → r ≡ err e
        → Rejects r
    missing :
        (m : Message k)
        → Accepts E req m
        → held E s k (message_name k m) ≡ none
        → r ≡ err (unable_to_find_key (message_name k m))
        → Rejects r
    masked :
        (m existing : Message k) (e : Error)
        → Accepts E req m
        → held E s k (message_name k m) ≡ some existing
        → E.validate_field_mask k req.update_mask req.resource ≡ some e
        → r ≡ err e
        → Rejects r
    refuses :
        (m existing : Message k)
        → Accepts E req m
        → held E s k (message_name k m) ≡ some existing
        → E.validate_field_mask k req.update_mask req.resource ≡ none
        → r ≡ err (not_implemented message)
        → Rejects r

  pub Rejects-Fails : (r : Result (Message k)) → Rejects r → Fails r
  Rejects-Fails r (stops h) a p = Stops-Fails E req r h a p
  Rejects-Fails r (unread _ _ _ _ _ e) a p = cc (e, p)
  Rejects-Fails r (missing _ _ _ e) a p = cc (e, p)
  Rejects-Fails r (masked _ _ _ _ _ _ e) a p = cc (e, p)
  Rejects-Fails r (refuses _ _ _ _ _ e) a p = cc (e, p)
