-- ===== src/Service/Refines/Steps.antt =====
-- Each handler of pkg/frontend that creates or deletes does what the specification of the service
-- lets one call do.
pub mod Subsystems
pub mod Children
pub mod Blks
use opi_nvidia_bridge.Base.{
  String, ◌≡◌, ap, ◌∙◌, Bool, some, true, false, Assoc, insert, erase, if◌then◌else◌, str_eq, arith,
}
use opi_nvidia_bridge.Exec.Rules.{some-inj}
use opi_nvidia_bridge.Externals.{Externals}
use opi_nvidia_bridge.Server.{State}
use opi_nvidia_bridge.Server.Outcomes.{Untouched}
use opi_nvidia_bridge.Subsystem.Create.{has_nqn}
use opi_nvidia_bridge.Subsystem.Registry.{has_nqn-insert, has_nqn-erase}
use opi_nvidia_bridge.Service.Spec.{View, Call, Transition, stays, register}
use opi_nvidia_bridge.Service.Refines.{IsName, Represents}
use opi_nvidia_bridge.Service.Refines.Changes.{Represents-untouched}

module _ (E : Externals) where
  -- A state that a view represents leads to one that a view represents which one transition of the
  -- call reaches.
  abbrev pub Simulates : Call → View → State E → Type 0
  Simulates c v t = (v' : View) × Transition (IsName E) v c v' × Represents E t v'

  pub untouched-Simulates :
      {c : Call} (s t : State E) (v : View) → Untouched E s t → Represents E s v → Simulates c v t
  untouched-Simulates s t v u h = (v, stays, Represents-untouched E s t v u h)

module _ (nqns : Assoc Bool) (registered : String → Bool)
    (h : (nqn : String) → has_nqn nqn nqns ≡ registered nqn) where
  pub registered-insert :
      (nqn other : String)
      → has_nqn other (insert nqn false nqns) ≡ register nqn true registered other
  registered-insert nqn other = ground (arith, has_nqn-insert other nqn false nqns, h other)

  pub registered-erase :
      (nqn other : String) → has_nqn other (erase nqn nqns) ≡ register nqn false registered other
  registered-erase nqn other = ground (arith, has_nqn-erase other nqn nqns, h other)
