-- ===== src/Server/Keeps.antt =====
-- Methods that keep what the service is about: the registry, the map of virtio-blk controllers and
-- what the store holds. They may note offsets of pages, call the device and use up randomness.
use opi_nvidia_bridge.Base.{
  ℤ, String, ◌≡◌, refl, ap, ◌∙◌, Bool, true, false, Option, none, some, List,
}
use opi_nvidia_bridge.Api.Messages.{Kind}
use opi_nvidia_bridge.Models.{Rpc}
use opi_nvidia_bridge.Error.{Error}
use opi_nvidia_bridge.Exec.{
  Result, ok, err, panic, pure, fail, lift, deref, check, require, continue, ◌>>=◌,
}
use opi_nvidia_bridge.Externals.{Externals}
use opi_nvidia_bridge.Externals.Laws.{IsStore}
use opi_nvidia_bridge.Server.{
  Server, State, Method, store_get, rpc, get_server, set_server, new_uuid, remember_offset,
  extract_pagination, limit_pagination,
}
use opi_nvidia_bridge.Server.Outcomes.{Untouched}

module _ (E : Externals) where
  pub record Observes (s t : State E) : Type 0 where
    pub same_nqns : t.server.nqns ≡ s.server.nqns
    pub same_virtio_ctrls : t.server.virtio_ctrls ≡ s.server.virtio_ctrls
    pub same_store : (j : Kind) (key : String) → E.holds j t.db key ≡ E.holds j s.db key

  pub Observes-trans : {s t u : State E} → Observes s t → Observes t u → Observes s u
  Observes-trans a b = record {
    same_nqns = b.same_nqns ∙ a.same_nqns;
    same_virtio_ctrls = b.same_virtio_ctrls ∙ a.same_virtio_ctrls;
    same_store = λ j key. b.same_store j key ∙ a.same_store j key;
  }

  pub Observes-untouched : {s t : State E} → Untouched E s t → Observes s t
  Observes-untouched u = record {
    same_nqns = ap (λ (x : Server). x.nqns) u.same_server;
    same_virtio_ctrls = ap (λ (x : Server). x.virtio_ctrls) u.same_server;
    same_store = u.same_store;
  }

  pub record Keeps {A : Type 0} (m : Method E A) : Type 0 where
    pub keeps : (s : State E) → Observes s (m s).1

module _ {E : Externals} where
  unmoved : (s : State E) → Observes E s s
  unmoved s = record { same_nqns = refl; same_virtio_ctrls = refl; same_store = λ j key. refl }

  pub Keeps-pure : {A : Type 0} (a : A) → Keeps E (pure a)
  Keeps-pure a = record { keeps = unmoved }

  pub Keeps-fail : {A : Type 0} (e : Error) → Keeps E {A = A} (fail e)
  Keeps-fail e = record { keeps = unmoved }

  pub Keeps-check : (o : Option Error) → Keeps E (check o)
  unfolding check
  Keeps-check none = record { keeps = unmoved }
  Keeps-check (some e) = record { keeps = unmoved }

  pub Keeps-require : (b : Bool) (e : Error) → Keeps E (require b e)
  unfolding require
  Keeps-require true e = record { keeps = unmoved }
  Keeps-require false e = record { keeps = unmoved }

  pub Keeps-deref : {A : Type 0} (p : Option A) → Keeps E (deref p)
  unfolding deref
  Keeps-deref none = record { keeps = unmoved }
  Keeps-deref (some a) = record { keeps = unmoved }

  pub Keeps-lift : {A : Type 0} (r : Result A) → Keeps E (lift r)
  unfolding lift
  Keeps-lift r = record { keeps = unmoved }

  pub Keeps-get_server : Keeps E (get_server E)
  unfolding get_server
  Keeps-get_server = record { keeps = unmoved }

  pub Keeps-rpc : (r : Rpc) → Keeps E (rpc E r)
  unfolding rpc
  Keeps-rpc r = record {
    keeps = λ s. record { same_nqns = refl; same_virtio_ctrls = refl; same_store = λ j key. refl };
  }

  pub Keeps-store_get : IsStore E → (k : Kind) (key : String) → Keeps E (store_get E k key)
  unfolding store_get
  Keeps-store_get L k key = record {
    keeps = λ s. record {
      same_nqns = refl;
      same_virtio_ctrls = refl;
      same_store = λ j other. L.holds-get k j key other s.db;
    };
  }

  continued :
      {A B : Type 0} (r : Result A) (f : A → Method E B)
      → ((a : A) → Keeps E (f a))
      → (s : State E) → Observes E s (continue r f s).1
  continued (ok a) f h s = (h a).keeps s
  continued (err e) f h s = unmoved s
  continued panic f h s = unmoved s

  infixl 5 ◌then◌
  pub ◌then◌ :
      {A B : Type 0} {m : Method E A} {f : A → Method E B}
      → Keeps E m
      → ((a : A) → Keeps E (f a))
      → Keeps E (m >>= f)
  unfolding ◌>>=◌
  ◌then◌ {m} {f} k h = record {
    keeps = λ s. Observes-trans E (k.keeps s) (continued (m s).0 f h (m s).1);
  }

  Keeps-remember_offset :
      (more : Bool) (offset size : ℤ) → Keeps E (remember_offset E more offset size)
  unfolding remember_offset ◌>>=◌ new_uuid get_server set_server
  Keeps-remember_offset false offset size = record { keeps = unmoved }
  Keeps-remember_offset true offset size = record {
    keeps = λ s. record { same_nqns = refl; same_virtio_ctrls = refl; same_store = λ j key. refl };
  }

  pub Keeps-extract_pagination :
      (page_size : ℤ) (page_token : String) → Keeps E (extract_pagination E page_size page_token)
  unfolding extract_pagination
  Keeps-extract_pagination page_size page_token = Keeps-get_server then λ server. Keeps-lift _

  pub Keeps-limit_pagination :
      {A : Type 0} (result : List A) (offset size : ℤ)
      → Keeps E (limit_pagination E result offset size)
  unfolding limit_pagination
  Keeps-limit_pagination result offset size = Keeps-lift _ then λ (page, more).
      Keeps-remember_offset more offset size then λ _. Keeps-pure page
