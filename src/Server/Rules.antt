-- ===== src/Server/Rules.antt =====
-- Rules for a method that begins by reading or by replacing the maps of the server, and for one
-- that reads the store.
use opi_nvidia_bridge.Base.{String, Option, ◌≡◌, sym, ◌∙◌}
use opi_nvidia_bridge.Api.Messages.{Kind, Message}
use opi_nvidia_bridge.Error.{Error}
use opi_nvidia_bridge.Exec.{Result, ok, err, panic, ◌>>=◌, ◌>>◌}
use opi_nvidia_bridge.Exec.Rules.{Ends}
use opi_nvidia_bridge.Externals.{Externals, Answer, value, failure}
use opi_nvidia_bridge.Externals.Laws.{IsStore}
use opi_nvidia_bridge.Server.{Server, State, Method, answered, get_server, set_server, store_get}

module _ {μ} (E : Externals) {B : Type 0} {Q : Result B × State E → Type μ} where
  pub get_server_rule :
      (f : Server → Method E B) (s : State E)
      → Ends Q (f s.server s)
      → Ends Q ((get_server E >>= f) s)
  unfolding ◌>>=◌ get_server
  get_server_rule f s h = h

  pub set_server_rule :
      (server : Server) (n : Method E B) (s : State E)
      → Ends Q (n (record s { server = server }))
      → Ends Q ((set_server E server >> n) s)
  unfolding ◌>>=◌ set_server
  set_server_rule server n s h = h

pub answered-value {ℓ} : {A : Type ℓ} (a : Answer A) (x : A) → answered a ≡ ok x → a ≡ value x
answered-value (value y) x e = cc e
answered-value (failure f) x e = cc e

pub answered-failure {ℓ} :
    {A : Type ℓ} (a : Answer A) (e : Error) → answered a ≡ err e → a ≡ failure e
answered-failure (value y) e p = cc p
answered-failure (failure f) e p = cc p

pub answered-not-panic {ℓ} : {A : Type ℓ} (a : Answer A) → answered a ≡ panic → ⊥
answered-not-panic (value y) p = cc p
answered-not-panic (failure f) p = cc p

module _ (E : Externals) (L : IsStore E) where
  -- What the store returned is what it holds afterwards.
  pub store_get-holds :
      (k : Kind) (key : String) (s : State E) (found : Option (Message k))
      → (store_get E k key s).0 ≡ ok found
      → E.holds k (store_get E k key s).1.db key ≡ found
  unfolding store_get
  store_get-holds k key s found e =
      L.holds-get k k key key s.db
      ∙ sym (L.get-value k key s.db found (answered-value (E.get k key s.db).0 found e))
