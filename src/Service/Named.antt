-- ===== src/Service/Named.antt =====
-- The names that controllers and namespaces carry and are stored under, for the handlers of
-- pkg/frontend, and what changes under a key do to them.
use opi_nvidia_bridge.Base.{
  String, ◌≡◌, sym, ap, subst, ◌∙◌, false, Bool-cases, inl, inr, none, some, arith, str_eq,
  str_eq_iff,
}
use opi_nvidia_bridge.Api.Messages.{Kind, Message, nvme_subsystem}
use opi_nvidia_bridge.Exec.Rules.{some-inj}
use opi_nvidia_bridge.Externals.{Externals}
use opi_nvidia_bridge.Externals.Laws.{PlainId, subsystem_name}
use opi_nvidia_bridge.Server.{Server, State}
use opi_nvidia_bridge.Server.Outcomes.{Untouched, Stored, Removed}
use opi_nvidia_bridge.Subsystem.Registry.{IsRegistry, IsRegistry-of_same}

pub str_eq-apart : (a b : String) → str_eq a b ≡ false → str_eq b a ≡ false
str_eq-apart a b h = ground (arith, h, str_eq_iff a b, str_eq_iff b a)

module _ (E : Externals) where
  -- The messages of a kind are named as they are stored, under the names that `form` gives.
  unfoldable pub IsNamed :
      (k : Kind) → (Message k → String) → (PlainId → String → String) → E.Db → Type 0
  IsNamed k name form db =
      (i : PlainId) (j : String) (m : Message k)
      → E.holds k db (form i j) ≡ some m
      → name m ≡ form i j

module _ (E : Externals) (k : Kind) (name : Message k → String)
    (form : PlainId → String → String) where
  pub IsNamed-same :
      (db db' : E.Db)
      → ((i : PlainId) (j : String) → E.holds k db' (form i j) ≡ E.holds k db (form i j))
      → IsNamed E k name form db
      → IsNamed E k name form db'
  unfolding IsNamed
  IsNamed-same db db' same h i j m e = h i j m (cc (same i j, e))

  pub IsNamed-untouched :
      (s t : State E) → Untouched E s t → IsNamed E k name form s.db → IsNamed E k name form t.db
  IsNamed-untouched s t u = IsNamed-same s.db t.db (λ i j. u.same_store k (form i j))

  -- A message of the kind is stored under its name.
  pub IsNamed-stored :
      (s t : State E) (key : String) (m : Message k)
      → Stored E k key m s t
      → name m ≡ key
      → IsNamed E k name form s.db
      → IsNamed E k name form t.db
  unfolding IsNamed
  IsNamed-stored s t key m st hn h i j m' e = elim (Bool-cases (str_eq key (form i j))) [
    | inl same ↦
        let at : key ≡ form i j = (str_eq_iff key (form i j)).0 same in
        let held : E.holds k t.db (form i j) ≡ some m =
          subst (λ x. E.holds k t.db x ≡ some m) at st.held in
        ap name (some-inj (sym e ∙ held)) ∙ hn ∙ at
    | inr differ ↦ h i j m' (cc (st.others k (form i j) differ, e))
  ]

  -- A message of another kind is stored.
  pub IsNamed-stored_apart :
      (s t : State E) (l : Kind) (key : String) (m : Message l)
      → Stored E l key m s t
      → ((i : PlainId) (j : String) → str_eq key (form i j) ≡ false)
      → IsNamed E k name form s.db
      → IsNamed E k name form t.db
  IsNamed-stored_apart s t l key m st apart =
      IsNamed-same s.db t.db (λ i j. st.others k (form i j) (apart i j))

  pub IsNamed-removed :
      (s t : State E) (key : String)
      → Removed E key s t
      → IsNamed E k name form s.db
      → IsNamed E k name form t.db
  unfolding IsNamed
  IsNamed-removed s t key rm h i j m e = elim (Bool-cases (str_eq key (form i j))) [
    | inl same ↦
        let at : key ≡ form i j = (str_eq_iff key (form i j)).0 same in
        absurd (cc (e, subst (λ x. E.holds k t.db x ≡ none) at (rm.gone k)))
    | inr differ ↦ h i j m (cc (rm.others k (form i j) differ, e))
  ]

module _ (E : Externals) (s t : State E) where
  pub IsRegistry-untouched :
      Untouched E s t → IsRegistry E s.server.nqns s.db → IsRegistry E t.server.nqns t.db
  IsRegistry-untouched u h =
      subst (λ (x : Server). IsRegistry E x.nqns t.db) (sym u.same_server)
        (IsRegistry-of_same E _ s.db t.db (λ id. u.same_store nvme_subsystem _) h)

  -- What is stored or removed under a key that is no subsystem's name.
  pub IsRegistry-apart :
      (key : String)
      → t.server.nqns ≡ s.server.nqns
      → ((id : PlainId) → str_eq key (subsystem_name E id) ≡ false)
      → ((other : String)
          → str_eq key other ≡ false
          → E.holds nvme_subsystem t.db other ≡ E.holds nvme_subsystem s.db other)
      → IsRegistry E s.server.nqns s.db
      → IsRegistry E t.server.nqns t.db
  IsRegistry-apart key server apart others h =
      subst (λ x. IsRegistry E x t.db) (sym server)
        (IsRegistry-of_same E _ s.db t.db (λ id. others _ (apart id)) h)
