-- ===== src/Virtio/Delete/Paths.antt =====
-- What `DeleteVirtioBlk` of pkg/frontend/virtio.go does, on every path.
use opi_nvidia_bridge.Base.{
  String, ◌≡◌, refl, ap, true, Bool, Option, none, some, [], ◌∷◌, ◌++◌, lookup, erase,
}
use opi_nvidia_bridge.Api.Messages.{Kind, VirtioBlk}
use opi_nvidia_bridge.Api.Requests.{DeleteRequest}
use opi_nvidia_bridge.Models.{Rpc, controller_virtio_blk_delete}
use opi_nvidia_bridge.Exec.{Result, ok}
use opi_nvidia_bridge.Exec.Rules.{Ends, done}
use opi_nvidia_bridge.Externals.{Externals, value}
use opi_nvidia_bridge.Server.{Server, State, set_server}
use opi_nvidia_bridge.Server.Rules.{get_server_rule}
use opi_nvidia_bridge.Server.Outcomes.{Fails, Untouched, Untouched-refl, OnlyRead, OnlyRead-refl}
use opi_nvidia_bridge.Server.Steps.{same_rule, condition_last, rpc_rule}
use opi_nvidia_bridge.Virtio.Delete.{delete_found, or_missing, delete_virtio_blk}
use opi_nvidia_bridge.Virtio.Validate.Same.{validate_delete-same}

-- The call names the controller as the request does, in full.
abbrev pub delete_call : String → Rpc
delete_call name = controller_virtio_blk_delete (record { name = name; force = true })

abbrev pub dropping : VirtioBlk → Server → Server
dropping blk server = record server { virtio_ctrls = erase blk.name server.virtio_ctrls }

module _ (E : Externals) (req : DeleteRequest) (s : State E) where
  -- The three ends of `DeleteVirtioBlk`: it fails and changes nothing; nothing is in the map under
  -- the name, which the request allows; or the entry is dropped, whatever truth value the device
  -- answers.
  pub data Deletes (r : Result (Unit {0})) (t : State E) : Type 0 where
    fails : Fails r → Untouched E s t → Deletes r t
    missing :
        lookup req.name s.server.virtio_ctrls ≡ none
        → req.allow_missing ≡ true
        → r ≡ ok tt
        → OnlyRead E s t
        → Deletes r t
    drops :
        (blk : VirtioBlk) (deleted : Bool)
        → lookup req.name s.server.virtio_ctrls ≡ some blk
        → (E.call (delete_call req.name) s.device).0 ≡ value deleted
        → t.calls ≡ s.calls ++ delete_call req.name ∷ []
        → t.server ≡ dropping blk s.server
        → ((j : Kind) (key : String) → E.holds j t.db key ≡ E.holds j s.db key)
        → r ≡ ok tt
        → Deletes r t

  or_missing-Deletes :
      (found : Option VirtioBlk)
      → lookup req.name s.server.virtio_ctrls ≡ found
      → Ends (λ (r, t). Deletes r t) (or_missing E req found s)
  unfolding delete_found set_server
  or_missing-Deletes none hl =
      condition_last E _ _ _ (λ allowed. done (missing hl allowed refl (OnlyRead-refl E s)))
        (λ r f. done (fails f (Untouched-refl E s)))
  or_missing-Deletes (some blk) hl =
      rpc_rule E (delete_call req.name) _ _
        (λ deleted t he _ u hc.
          get_server_rule E _ _
            (done (drops blk deleted hl he hc (ap (dropping blk) u.same_server) u.same_store refl)))
        (λ r t f u. done (fails f u))

  -- DeleteVirtioBlk ends in one of three ways: it fails, with the maps and the store as they were;
  -- it succeeds without calling the device, where nothing is in the map under the name and the
  -- request allows that; or the device was called once with the name of the request and answered
  -- any truth value, and the method succeeds and drops from the map the name of the controller that
  -- it found.
  pub delete_virtio_blk-Deletes : let (r, t) = delete_virtio_blk E req s in Deletes r t
  unfolding delete_virtio_blk
  delete_virtio_blk-Deletes = ends.holds
    where
      ends : Ends (λ (r, t). Deletes r t) (delete_virtio_blk E req s)
      ends =
          same_rule E _ _ _ (validate_delete-same E s req)
            (λ _ _. get_server_rule E _ _ (or_missing-Deletes _ refl))
            (λ r f. done (fails f (Untouched-refl E s)))
