-- ===== src/Virtio/Create/Paths.antt =====
-- What `CreateVirtioBlk` of pkg/frontend/virtio.go does, on every path.
use opi_nvidia_bridge.Base.{
  ℤ, pos, String, ◌≡◌, refl, sym, ap, ◌∙◌, false, Option, none, some, [], ◌∷◌, ◌++◌, arith, lookup,
  insert, str_eq, if◌then◌else◌,
}
use opi_nvidia_bridge.Api.Messages.{Kind, VirtioBlk, PciEndpoint, virtio_blk}
use opi_nvidia_bridge.Api.Requests.{CreateRequest}
use opi_nvidia_bridge.Models.{Rpc, controller_virtio_blk_create}
use opi_nvidia_bridge.Exec.{Result, ok}
use opi_nvidia_bridge.Exec.Rules.{Ends, done}
use opi_nvidia_bridge.Externals.{Externals, value}
use opi_nvidia_bridge.Externals.Laws.{ClonesFaithfully}
use opi_nvidia_bridge.Server.{Server, State}
use opi_nvidia_bridge.Server.Rules.{get_server_rule, set_server_rule}
use opi_nvidia_bridge.Server.Outcomes.{
  answered_from, Fails, Untouched, Untouched-refl, Untouched-trans, OnlyRead,
}
use opi_nvidia_bridge.Server.Steps.{
  same_rule, generated_rule, pointer_rule, condition_rule, rpc_rule,
}
use opi_nvidia_bridge.Virtio.Create.{create_new, or_create, create_virtio_blk}
use opi_nvidia_bridge.Virtio.Validate.Same.{validate_create-same}

-- The call that creates a controller with the identifier of the resource as its serial number.
abbrev pub create_call : String → VirtioBlk → ℤ → Rpc
create_call resource_id blk physical_function = controller_virtio_blk_create (record {
  emulation_manager = "mlx5_0";
  bdev_type = "spdk";
  pf_id = physical_function;
  vf_id = pos 0;
  num_queues = blk.max_io_qps;
  bdev = blk.volume_name_ref;
  serial = resource_id;
})

abbrev pub keeping : VirtioBlk → Server → Server
keeping blk server = record server { virtio_ctrls = insert blk.name blk server.virtio_ctrls }

module _ (E : Externals) where
  abbrev pub id_of : CreateRequest virtio_blk → String → String
  id_of req id = if str_eq req.resource_id "" then id else req.resource_id

  abbrev pub named : CreateRequest virtio_blk → String → VirtioBlk → VirtioBlk
  named req id blk = record blk { name = E.resource_id_to_volume_name (id_of req id) }

  -- The device created the controller, and it was entered in the map. The store is not used.
  pub record Made (resource_id : String) (blk : VirtioBlk) (s : State E) (r : Result VirtioBlk)
      (t : State E) : Type 0 where
    pub endpoint : PciEndpoint
    pub endpoint_eq : blk.pcie_id ≡ some endpoint
    pub physical_function : ℤ
    pub physical_function_eq : endpoint.physical_function ≡ some physical_function
    pub name : String
    pub answered : (E.call (create_call resource_id blk physical_function) s.device).0 ≡ value name
    pub accepted : str_eq name "" ≡ false
    pub calls : t.calls ≡ s.calls ++ create_call resource_id blk physical_function ∷ []
    pub server : t.server ≡ keeping blk s.server
    pub same_store : (j : Kind) (key : String) → E.holds j t.db key ≡ E.holds j s.db key
    pub result : r ≡ ok blk

  -- The three ends of `CreateVirtioBlk`: it fails and changes nothing; it returns the controller
  -- that is in the map; or it makes a new one.
  pub data Creates (req : CreateRequest virtio_blk) (s : State E) (r : Result VirtioBlk)
      (t : State E) : Type 0 where
    fails : Fails r → Untouched E s t → Creates req s r t
    exists :
        (blk existing : VirtioBlk) (id : String)
        → req.resource ≡ some blk
        → lookup (named req id blk).name s.server.virtio_ctrls ≡ some existing
        → r ≡ ok existing
        → OnlyRead E s t
        → Creates req s r t
    makes :
        (blk : VirtioBlk) (id : String)
        → req.resource ≡ some blk
        → lookup (named req id blk).name s.server.virtio_ctrls ≡ none
        → Made (id_of req id) (named req id blk) s r t
        → Creates req s r t

module _ (E : Externals) (C : ClonesFaithfully E) where
  create_new-Creates :
      (req : CreateRequest virtio_blk) (s t : State E) (blk : VirtioBlk) (id : String)
      → OnlyRead E s t
      → req.resource ≡ some blk
      → lookup (named E req id blk).name s.server.virtio_ctrls ≡ none
      → Ends (λ (r, t). Creates E req s r t) (create_new E (id_of E req id) (named E req id blk) t)
  unfolding create_new
  create_new-Creates req s t blk id o hr hl =
      pointer_rule E _ _ _
        (λ endpoint he.
          pointer_rule E _ _ _
            (λ pf hp.
              rpc_rule E (create_call (id_of E req id) (named E req id blk) pf) _ _
                (λ name t' ha _ u hc.
                  condition_rule E _ _ _ _
                    (λ hn. get_server_rule E _ _ (
                      set_server_rule E _ _ _ (
                        done (
                          makes blk id hr hl (record {
                            endpoint = endpoint;
                            endpoint_eq = he;
                            physical_function = pf;
                            physical_function_eq = hp;
                            name = name;
                            answered =
                                answered_from E
                                  (create_call (id_of E req id) (named E req id blk) pf) o ha;
                            accepted = ground arith;
                            calls = rw (sym o.same_calls) hc;
                            server =
                                ap (keep (named E req id blk))
                                  (u.same_server ∙ o.untouched.same_server)
                                ∙ ap
                                    (λ x. record s.server {
                                      virtio_ctrls =
                                          insert (named E req id blk).name x s.server.virtio_ctrls;
                                    })
                                    (C.clone_eq virtio_blk (named E req id blk));
                            same_store = λ j key. u.same_store j key ∙ o.untouched.same_store j key;
                            result = ap ok (C.clone_eq virtio_blk (named E req id blk));
                          })))))
                    (λ r f. done (fails f (Untouched-trans E o.untouched u))))
                (λ r t' f u. done (fails f (Untouched-trans E o.untouched u))))
            (λ r f. done (fails f o.untouched)))
        (λ r f. done (fails f o.untouched))
    where
      keep : VirtioBlk → Server → Server
      keep b server = record server {
        virtio_ctrls = insert b.name (E.proto_clone virtio_blk b) server.virtio_ctrls;
      }

  or_create-Creates :
      (req : CreateRequest virtio_blk) (s t : State E) (blk : VirtioBlk) (id : String)
      (found : Option VirtioBlk)
      → OnlyRead E s t
      → req.resource ≡ some blk
      → lookup (named E req id blk).name s.server.virtio_ctrls ≡ found
      → Ends
          (λ (r, t). Creates E req s r t)
          (or_create E (id_of E req id) (named E req id blk) found t)
  or_create-Creates req s t blk id none o hr hl = create_new-Creates req s t blk id o hr hl
  or_create-Creates req s t blk id (some existing) o hr hl =
      done (exists blk existing id hr hl refl o)

  -- If clones equal their originals, CreateVirtioBlk ends in one of three ways: it fails, with the
  -- maps and the store as they were; it returns the controller that is in the map under the name,
  -- without calling the device; or nothing is in the map under the name, the device was called
  -- once, with the physical function of the request and the identifier of the resource as serial
  -- number, it answered a name that is not empty, and the requested controller is returned and
  -- entered in the map under its name, with the store as it was.
  pub create_virtio_blk-Creates :
      (req : CreateRequest virtio_blk) (s : State E)
      → let (r, t) = create_virtio_blk E req s in Creates E req s r t
  unfolding create_virtio_blk
  create_virtio_blk-Creates req s = ends.holds
    where
      ends : Ends (λ (r, t). Creates E req s r t) (create_virtio_blk E req s)
      ends =
          same_rule E _ _ _ (validate_create-same E s req)
            (λ _ _. generated_rule E _ _ (λ id t _ o.
              pointer_rule E _ _ _
                (λ blk hr. get_server_rule E _ _ (
                  or_create-Creates req s t blk id _ o hr (
                    ap (λ (x : Server). lookup (named E req id blk).name x.virtio_ctrls)
                      (sym o.untouched.same_server))))
                (λ r f. done (fails f o.untouched))))
            (λ r f. done (fails f (Untouched-refl E s)))
