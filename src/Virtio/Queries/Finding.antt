-- ===== src/Virtio/Queries/Finding.antt =====
-- What `GetVirtioBlk` of pkg/frontend/virtio.go does, on every path.
use opi_nvidia_bridge.Base.{
  String, ◌&&◌, true, ◌≡◌, refl, ◌⊎◌, inl, inr, Bool-cases, both_true, ap, none, some, List, [],
  ◌∷◌, ◌++◌, All, lookup, is_some, str_eq, str_eq_iff, arith,
}
use opi_nvidia_bridge.Base.Text.{path_base}
use opi_nvidia_bridge.Api.Messages.{VirtioBlk}
use opi_nvidia_bridge.Api.Requests.{GetRequest}
use opi_nvidia_bridge.Models.{NvdaControllerListResult, controller_list}
use opi_nvidia_bridge.Exec.{Result, ok}
use opi_nvidia_bridge.Exec.Rules.{Ends, done}
use opi_nvidia_bridge.Externals.{Externals, value}
use opi_nvidia_bridge.Server.{State}
use opi_nvidia_bridge.Server.Rules.{get_server_rule}
use opi_nvidia_bridge.Server.Outcomes.{Fails, Untouched, Untouched-refl}
use opi_nvidia_bridge.Server.Steps.{Fails-err, same_rule, condition_rule, rpc_rule}
use opi_nvidia_bridge.Virtio.Queries.{listed, find_listed, or_not_listed, get_virtio_blk}
use opi_nvidia_bridge.Virtio.Validate.Same.{validate_get-same}

-- The entry is a virtio-blk controller with the name.
abbrev pub HasName : String → NvdaControllerListResult → Type 0
HasName name r = (r.name ≡ name) × (r.type ≡ "virtio_blk")

-- No entry of the list is a virtio-blk controller with the name.
abbrev pub Lacks : String → List NvdaControllerListResult → Type 0
Lacks name result = All (λ (r : NvdaControllerListResult). ¬ HasName name r) result

-- The first virtio-blk controller of the list that has the name.
pub record First (name : String) (result : List NvdaControllerListResult) : Type 0 where
  pub before : List NvdaControllerListResult
  pub found : NvdaControllerListResult
  pub after : List NvdaControllerListResult
  pub result_eq : result ≡ before ++ found ∷ after
  pub has_name : HasName name found
  pub lacks : Lacks name before

find_listed-cases :
    (E : Externals) (name : String) (result : List NvdaControllerListResult)
    → ((first : First name result) × (find_listed E name result ≡ some (listed E first.found)))
      ⊎ (Lacks name result × (find_listed E name result ≡ none))
unfolding find_listed
find_listed-cases E name [] = inr (tt, refl)
find_listed-cases E name (r ∷ result) =
    elim (Bool-cases (str_eq r.name name && str_eq r.type "virtio_blk")) [
      | inl same ↦
          let (same_name, same_type) =
            both_true (str_eq r.name name) (str_eq r.type "virtio_blk") same in
          inl (
            record {
              before = [];
              found = r;
              after = result;
              result_eq = refl;
              has_name = (
                (str_eq_iff r.name name).0 same_name,
                (str_eq_iff r.type "virtio_blk").0 same_type,
              );
              lacks = tt;
            },
            ground (arith, same),
          )
      | inr differ ↦
          let other : ¬ HasName name r = λ (same_name, same_type). ground (
            arith,
            differ,
            (str_eq_iff r.name name).1 same_name,
            (str_eq_iff r.type "virtio_blk").1 same_type,
          ) in
          elim (find_listed-cases E name result) [
            | inl (first, e) ↦ inl (
              record {
                before = r ∷ first.before;
                found = first.found;
                after = first.after;
                result_eq = ap (λ l. r ∷ l) first.result_eq;
                has_name = first.has_name;
                lacks = (other, first.lacks);
              },
              ground (arith, differ, e),
            )
            | inr (lacks, e) ↦ inr ((other, lacks), ground (arith, differ, e))
          ]
    ]

module _ (E : Externals) (req : GetRequest) (s : State E) where
  -- What the device is asked: to list its controllers, once one is in the map under the name.
  pub record Asked (result : List NvdaControllerListResult) (t : State E) : Type 0 where
    pub kept : is_some (lookup req.name s.server.virtio_ctrls) ≡ true
    pub answered : (E.call controller_list s.device).0 ≡ value result
    pub calls : t.calls ≡ s.calls ++ controller_list ∷ []

  -- `GetVirtioBlk` changes nothing. It fails, also when the device lists no virtio-blk controller
  -- with the last part of the name, or it returns the first one that the device lists.
  pub data Gets (r : Result VirtioBlk) (t : State E) : Type 0 where
    fails : Fails r → Untouched E s t → Gets r t
    unlisted :
        (result : List NvdaControllerListResult)
        → Asked result t
        → Lacks (path_base req.name) result
        → Fails r
        → Untouched E s t
        → Gets r t
    finds :
        (result : List NvdaControllerListResult)
        → Asked result t
        → (first : First (path_base req.name) result) → r ≡ ok (listed E first.found)
        → Untouched E s t
        → Gets r t

module _ (E : Externals) where
  -- GetVirtioBlk leaves the maps and the store as they were, and it fails; or a controller is in
  -- the map under the name, it has asked the device once for its controllers, and it fails since
  -- none is a virtio-blk controller with the last part of the name; or it has asked and returns the
  -- first virtio-blk controller of the answer with the last part of the name.
  pub get_virtio_blk-Gets :
      (req : GetRequest) (s : State E) → let (r, t) = get_virtio_blk E req s in Gets E req s r t
  unfolding get_virtio_blk
  get_virtio_blk-Gets req s = ends.holds
    where
      answer :
          (result : List NvdaControllerListResult) (t : State E)
          → Asked E req s result t
          → Untouched E s t
          → Ends
              (λ (r, t). Gets E req s r t)
              (or_not_listed E req.name (find_listed E (path_base req.name) result) t)
      answer result t asked u = elim (find_listed-cases E (path_base req.name) result) [
        | inl (first, e) ↦ rw e (done (finds result asked first refl u))
        | inr (lacks, e) ↦ rw e (done (unlisted result asked lacks (Fails-err _) u))
      ]

      ends : Ends (λ (r, t). Gets E req s r t) (get_virtio_blk E req s)
      ends =
          same_rule E _ _ _ (validate_get-same E s req)
            (λ _ _. get_server_rule E _ _ (
              condition_rule E _ _ _ _
                (λ kept.
                  rpc_rule E controller_list _ _
                    (λ result t he _ u hc.
                      answer result t (record { kept = kept; answered = he; calls = hc }) u)
                    (λ r t f u. done (fails f u)))
                (λ r f. done (fails f (Untouched-refl E s)))))
            (λ r f. done (fails f (Untouched-refl E s)))
