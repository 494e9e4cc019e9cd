-- ===== src/Exec.antt =====
-- A Go method on the server. It changes the state, and returns a value, returns an error, or
-- panics. What was written before an error or a panic stays written.
pub mod Rules
use opi_nvidia_bridge.Base.{Bool, true, false, Option, none, some}
use opi_nvidia_bridge.Error.{Error}

pub data Result {ℓ} (A : Type ℓ) : Type ℓ where
  ok : A → Result A
  err : Error → Result A
  panic : Result A

abbrev pub Exec {ℓ κ} : Type ℓ → Type κ → Type (ℓ ⊔ κ)
Exec S A = S → Result A × S

module _ {ℓ κ} {S : Type ℓ} {A : Type κ} where
  abbrev pub pure : A → Exec S A
  pure a s = (ok a, s)

  -- `return nil, err`
  abbrev pub fail : Error → Exec S A
  fail e s = (err e, s)

  -- A value that another package computes, with its error or its panic.
  unfoldable pub lift : Result A → Exec S A
  lift r s = (r, s)

  -- `*p`, `p.Field`: a nil pointer panics.
  unfoldable pub deref : Option A → Exec S A
  deref p s = elim p [ none ↦ (panic, s) | some a ↦ (ok a, s) ]

-- `if err != nil { return nil, err }`
unfoldable pub check {ℓ} : {S : Type ℓ} → Option Error → Exec S (Unit {0})
check o s = elim o [ none ↦ (ok tt, s) | some e ↦ (err e, s) ]

-- `if !result { return nil, err }`
unfoldable pub require {ℓ} : {S : Type ℓ} → Bool → Error → Exec S (Unit {0})
require b e s = elim b [ true ↦ (ok tt, s) | false ↦ (err e, s) ]

module _ {ℓ κ μ} {S : Type ℓ} {A : Type κ} {B : Type μ} where
  abbrev pub continue : Result A → (A → Exec S B) → Exec S B
  continue r f s = elim r [ ok a ↦ f a s | err e ↦ (err e, s) | panic ↦ (panic, s) ]

  infixl 5 ◌>>=◌ ◌>>◌
  -- Opening this opens the methods above too.
  unfoldable pub ◌>>=◌ : Exec S A → (A → Exec S B) → Exec S B
  unfolding lift deref check require
  ◌>>=◌ m f s = let (r, s') = m s in continue r f s'

  abbrev pub ◌>>◌ : Exec S A → Exec S B → Exec S B
  m >> n = m >>= λ _. n
