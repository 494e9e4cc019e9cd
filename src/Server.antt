-- ===== src/Server.antt =====
-- pkg/frontend/frontend.go: the server, and the calls through which its methods reach the store,
-- the device and the generators.
pub mod Rules
pub mod Outcomes
pub mod Steps
pub mod Paging
pub mod Keeps
use opi_nvidia_bridge.Base.{
  ℤ, String, Bool, true, false, Option, none, some, List, [], ◌∷◌, ◌++◌, Assoc, ◌+ℤ◌, to_int64,
  insert,
}
use opi_nvidia_bridge.Api.Messages.{Kind, Message, VirtioBlk}
use opi_nvidia_bridge.Models.{Rpc, Reply}
use opi_nvidia_bridge.Exec.{Result, ok, err, panic, Exec, pure, lift, ◌>>=◌, ◌>>◌}
use opi_nvidia_bridge.Externals.{Externals, Answer, value, failure}

-- The maps of `Server`. Its `store` and `rpc` are the externals, whose states stand beside it.
pub record Server : Type 0 where
  pub virtio_ctrls : Assoc VirtioBlk
  pub nqns : Assoc Bool
  pub pagination : Assoc ℤ

-- The maps that `NewServer` makes.
pub new_server_maps : Server
new_server_maps = record { virtio_ctrls = []; nqns = []; pagination = [] }

abbrev pub answered {ℓ} : {A : Type ℓ} → Answer A → Result A
answered (value a) = ok a
answered (failure e) = err e

module _ (E : Externals) where
  -- `calls` records the JSON-RPC calls made so far, the first one first. Nothing reads it.
  pub record State : Type 0 where
    pub server : Server
    pub db : E.Db
    pub device : E.Device
    pub entropy : E.Entropy
    pub calls : List Rpc

  -- `NewServer`: it panics on a nil JSON-RPC client, then on a nil store. A client and a store are
  -- given by the states of what they reach.
  unfoldable pub new_server : Option E.Device → Option E.Db → E.Entropy → Result State
  unfolding new_server_maps
  new_server none _ entropy = panic
  new_server (some device) none entropy = panic
  new_server (some device) (some db) entropy =
      ok (record {
        server = new_server_maps;
        db = db;
        device = device;
        entropy = entropy;
        calls = [];
      })

  abbrev pub Method : Type 0 → Type 0
  Method A = Exec State A

  -- `s.store.Get(key, new(M))`: the message if it was found.
  unfoldable pub store_get : (k : Kind) → String → Method (Option (Message k))
  store_get k key s = let (a, db) = E.get k key s.db in (answered a, record s { db = db })

  -- `s.store.Set(key, m)`
  unfoldable pub store_set : (k : Kind) → String → Message k → Method (Unit {0})
  store_set k key m s = let (a, db) = E.set k key m s.db in (answered a, record s { db = db })

  -- `s.store.Delete(key)`
  unfoldable pub store_delete : String → Method (Unit {0})
  store_delete key s = let (a, db) = E.delete key s.db in (answered a, record s { db = db })

  -- `s.rpc.Call(ctx, method, &params, &result)`
  unfoldable pub rpc : (r : Rpc) → Method (Reply r)
  rpc r s =
      let (a, device) = E.call r s.device in
      (answered a, record s { device = device; calls = s.calls ++ r ∷ [] })

  unfoldable pub new_system_generated : Method String
  new_system_generated s =
      let (id, entropy) = E.new_system_generated s.entropy in
      (ok id, record s { entropy = entropy })

  unfoldable pub new_uuid : Method String
  new_uuid s = let (id, entropy) = E.new_uuid s.entropy in (ok id, record s { entropy = entropy })

  unfoldable pub get_server : Method Server
  get_server s = (ok s.server, s)

  unfoldable pub set_server : Server → Method (Unit {0})
  set_server server s = (ok tt, record s { server = server })

  -- `token = uuid.New().String(); s.Pagination[token] = offset + size`, if there are more elements.
  -- The list handlers do nothing else with the token.
  unfoldable pub remember_offset : Bool → ℤ → ℤ → Method (Unit {0})
  unfolding to_int64 insert
  remember_offset false offset size = pure tt
  remember_offset true offset size = do
    token ← new_uuid
    server ← get_server
    set_server
        (record server { pagination = insert token (to_int64 (offset +ℤ size)) server.pagination })

  -- `utils.ExtractPagination(in.PageSize, in.PageToken, s.Pagination)`
  unfoldable pub extract_pagination : ℤ → String → Method (ℤ × ℤ)
  extract_pagination page_size page_token = do
    server ← get_server
    lift (answered (E.extract_pagination page_size page_token server.pagination))

  -- The page of a list, and the note of where the next one begins.
  unfoldable pub limit_pagination : {A : Type 0} → List A → ℤ → ℤ → Method (List A)
  unfolding remember_offset
  limit_pagination result offset size = do
    (page, has_more_elements) ← lift (E.limit_pagination result offset size)
    remember_offset has_more_elements offset size
    pure page
