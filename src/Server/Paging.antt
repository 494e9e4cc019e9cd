-- ===== src/Server/Paging.antt =====
-- Rules for the parts of a list handler that deal with pages.
use opi_nvidia_bridge.Base.{ℤ, String, ◌≡◌, refl, Bool, true, false, List}
use opi_nvidia_bridge.Api.Messages.{Kind}
use opi_nvidia_bridge.Error.{Error}
use opi_nvidia_bridge.Exec.{Result, ok, err, panic, pure, continue, ◌>>=◌, ◌>>◌}
use opi_nvidia_bridge.Exec.Rules.{Ends}
use opi_nvidia_bridge.Externals.{Externals, Answer, value, failure}
use opi_nvidia_bridge.Server.{
  State, Method, answered, get_server, new_uuid, set_server, remember_offset, extract_pagination,
  limit_pagination,
}

module _ (E : Externals) where
  -- Only an offset may have been noted.
  pub record OnlyPaged (s t : State E) : Type 0 where
    pub same_nqns : t.server.nqns ≡ s.server.nqns
    pub same_virtio_ctrls : t.server.virtio_ctrls ≡ s.server.virtio_ctrls
    pub same_store : (j : Kind) (key : String) → E.holds j t.db key ≡ E.holds j s.db key
    pub same_calls : t.calls ≡ s.calls

  remember_offset-OnlyPaged :
      (more : Bool) (offset size : ℤ) (s : State E)
      → OnlyPaged s (remember_offset E more offset size s).1
  unfolding remember_offset ◌>>=◌ new_uuid get_server set_server
  remember_offset-OnlyPaged false offset size s = record {
    same_nqns = refl;
    same_virtio_ctrls = refl;
    same_store = λ j key. refl;
    same_calls = refl;
  }
  remember_offset-OnlyPaged true offset size s = record {
    same_nqns = refl;
    same_virtio_ctrls = refl;
    same_store = λ j key. refl;
    same_calls = refl;
  }

module _ {μ} (E : Externals) {B : Type 0} {Q : Result B × State E → Type μ} where
  pub extract_rule :
      (page_size : ℤ) (page_token : String) (f : ℤ × ℤ → Method E B) (s : State E)
      → ((size offset : ℤ)
          → E.extract_pagination page_size page_token s.server.pagination ≡ value (size, offset)
          → Ends Q (f (size, offset) s))
      → ((e : Error) → Ends Q (err e, s))
      → Ends Q ((extract_pagination E page_size page_token >>= f) s)
  unfolding ◌>>=◌ extract_pagination get_server
  extract_rule page_size page_token f s h k =
      split (E.extract_pagination page_size page_token s.server.pagination) refl
    where
      split :
          (a : Answer (ℤ × ℤ))
          → E.extract_pagination page_size page_token s.server.pagination ≡ a
          → Ends Q (continue (answered a) f s)
      split (value (size, offset)) e = h size offset e
      split (failure e') e = k e'

  pub page_rule :
      {A : Type 0} (result : List A) (offset size : ℤ) (f : List A → Method E B) (s : State E)
      → ((page : List A) (more : Bool) (t : State E)
          → E.limit_pagination result offset size ≡ ok (page, more)
          → OnlyPaged E s t
          → Ends Q (f page t))
      → ((e : Error) → Ends Q (err e, s))
      → (E.limit_pagination result offset size ≡ panic → Ends Q (panic, s))
      → Ends Q ((limit_pagination E result offset size >>= f) s)
  unfolding ◌>>=◌ limit_pagination remember_offset new_uuid get_server set_server
  page_rule {A} result offset size f s h k p = split (E.limit_pagination result offset size) refl
    where
      split :
          (r : Result (List A × Bool))
          → E.limit_pagination result offset size ≡ r
          → Ends Q (
              let (r', t) =
                continue r (λ (page, more). remember_offset E more offset size >> pure page) s in
              continue r' f t)
      split (ok (page, true)) e = h page true _ e same
        where
          same : OnlyPaged E s (remember_offset E true offset size s).1
          same = remember_offset-OnlyPaged E true offset size s
      split (ok (page, false)) e =
          h page false _ e (remember_offset-OnlyPaged E false offset size s)
      split (err e') e = k e'
      split panic e = p e
