-- ===== src/Server/Outcomes.antt =====
-- How the state after a method compares to the state before it: what was read, what was stored and
-- what was removed.
use opi_nvidia_bridge.Base.{String, ◌≡◌, refl, subst, ◌∙◌, none, some, false, str_eq}
use opi_nvidia_bridge.Api.Messages.{Kind, Message}
use opi_nvidia_bridge.Exec.{Result, ok}
use opi_nvidia_bridge.Models.{Rpc, Reply}
use opi_nvidia_bridge.Externals.{Externals, value}
use opi_nvidia_bridge.Externals.Laws.{IsStore}
use opi_nvidia_bridge.Server.{State, store_get}

-- A method did not succeed: it returned an error or panicked.
abbrev pub Fails {ℓ} : {A : Type ℓ} → Result A → Type ℓ
Fails {A} r = (a : A) → r ≡ ok a → ⊥

module _ (E : Externals) where
  -- The maps of the server and what the store holds are the same.
  pub record Untouched (s t : State E) : Type 0 where
    pub same_server : t.server ≡ s.server
    pub same_store : (j : Kind) (key : String) → E.holds j t.db key ≡ E.holds j s.db key

  -- Nor was the device called.
  pub record OnlyRead (s t : State E) : Type 0 where
    pub untouched : Untouched s t
    pub same_device : t.device ≡ s.device
    pub same_calls : t.calls ≡ s.calls

  -- A message was stored, and the rest of the store is the same.
  pub record Stored (k : Kind) (key : String) (m : Message k) (s t : State E) : Type 0 where
    pub held : E.holds k t.db key ≡ some m
    pub others :
        (j : Kind) (other : String)
        → str_eq key other ≡ false
        → E.holds j t.db other ≡ E.holds j s.db other

  -- What was stored under a key is gone, and the rest of the store is the same.
  pub record Removed (key : String) (s t : State E) : Type 0 where
    pub gone : (j : Kind) → E.holds j t.db key ≡ none
    pub others :
        (j : Kind) (other : String)
        → str_eq key other ≡ false
        → E.holds j t.db other ≡ E.holds j s.db other

  pub Untouched-refl : (s : State E) → Untouched s s
  Untouched-refl s = record { same_server = refl; same_store = λ j key. refl }

  pub Untouched-trans : {s t u : State E} → Untouched s t → Untouched t u → Untouched s u
  Untouched-trans a b = record {
    same_server = b.same_server ∙ a.same_server;
    same_store = λ j key. b.same_store j key ∙ a.same_store j key;
  }

  pub OnlyRead-refl : (s : State E) → OnlyRead s s
  OnlyRead-refl s = record { untouched = Untouched-refl s; same_device = refl; same_calls = refl }

  pub OnlyRead-trans : {s t u : State E} → OnlyRead s t → OnlyRead t u → OnlyRead s u
  OnlyRead-trans a b = record {
    untouched = Untouched-trans a.untouched b.untouched;
    same_device = b.same_device ∙ a.same_device;
    same_calls = b.same_calls ∙ a.same_calls;
  }

  pub OnlyRead-generated :
      (s : State E) (entropy : E.Entropy) → OnlyRead s (record s { entropy = entropy })
  OnlyRead-generated s entropy = record {
    untouched = record { same_server = refl; same_store = λ j key. refl };
    same_device = refl;
    same_calls = refl;
  }

  -- What the device answered after reads, it answers before them.
  pub answered_from :
      (c : Rpc) {s t : State E} {a : Reply c}
      → OnlyRead s t
      → (E.call c t.device).0 ≡ value a
      → (E.call c s.device).0 ≡ value a
  answered_from c {a} o h = subst (λ (d : E.Device). (E.call c d).0 ≡ value a) o.same_device h

  pub Stored-from :
      {k : Kind} {key : String} {m : Message k} {s s' t : State E}
      → Untouched s s'
      → Stored k key m s' t
      → Stored k key m s t
  Stored-from a b = record {
    held = b.held;
    others = λ j other ne. b.others j other ne ∙ a.same_store j other;
  }

  pub Removed-from :
      {key : String} {s s' t : State E} → Untouched s s' → Removed key s' t → Removed key s t
  Removed-from a b = record {
    gone = b.gone;
    others = λ j other ne. b.others j other ne ∙ a.same_store j other;
  }

module _ (E : Externals) (L : IsStore E) where
  pub OnlyRead-store_get :
      (k : Kind) (key : String) (s : State E) → OnlyRead E s (store_get E k key s).1
  unfolding store_get
  OnlyRead-store_get k key s = record {
    untouched = record {
      same_server = refl;
      same_store = λ j other. L.holds-get k j key other s.db;
    };
    same_device = refl;
    same_calls = refl;
  }
