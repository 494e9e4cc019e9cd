-- ===== src/Subsystem/Validate/Sound.antt =====
-- What a create request satisfies that passes `validateCreateNvmeSubsystemRequest`.
use Prim.Native.String.{len}
use opi_nvidia_bridge.Base.{
  String, ◌≡◌, ap, sym, subst, ◌∙◌, ◌↔◌, true, none, some, arith, ◌≤◌, codes,
}
use opi_nvidia_bridge.Api.Messages.{NvmeSubsystem, NvmeSubsystemSpec, nvme_subsystem}
use opi_nvidia_bridge.Api.Requests.{CreateRequest}
use opi_nvidia_bridge.Exec.{ok}
use opi_nvidia_bridge.Exec.Rules.{Ends, done, check_rule, deref_rule, check_end, some-inj}
use opi_nvidia_bridge.Externals.{Externals}
use opi_nvidia_bridge.Server.{State}
use opi_nvidia_bridge.Regexp.{Matches, match_string}
use opi_nvidia_bridge.Regexp.Derivative.{matches_iff}
use opi_nvidia_bridge.Nqn.{nqn_pattern, is_nqn}
use opi_nvidia_bridge.Subsystem.Validate.{validate_spec, validate_create}

-- The lengths are within the limits of the NVMe specification, and the NQN has the form of one.
pub record IsValidSpec (spec : NvmeSubsystemSpec) : Type 0 where
  pub nqn_length : len spec.nqn ≤ 223
  pub serial_number_length : len spec.serial_number ≤ 20
  pub model_number_length : len spec.model_number ≤ 40
  pub nqn_form : Matches nqn_pattern (codes spec.nqn)

is_nqn-Matches : (nqn : String) → (is_nqn nqn ≡ true) ↔ Matches nqn_pattern (codes nqn)
unfolding is_nqn match_string
is_nqn-Matches nqn = matches_iff nqn_pattern (codes nqn)

-- The checks of a subsystem's specification accept it exactly when its NQN has at most 223 bytes,
-- its serial number at most 20 and its model number at most 40, and the NQN is a text of the
-- pattern of the source, by the meaning of regular expressions.
pub validate_spec_iff : (spec : NvmeSubsystemSpec) → (validate_spec spec ≡ none) ↔ IsValidSpec spec
unfolding validate_spec
validate_spec_iff spec = (
  λ h. record {
    nqn_length = ground arith;
    serial_number_length = ground arith;
    model_number_length = ground arith;
    nqn_form = (is_nqn-Matches spec.nqn).0 (ground arith);
  },
  λ v. ground (
    arith,
    v.nqn_length,
    v.serial_number_length,
    v.model_number_length,
    (is_nqn-Matches spec.nqn).1 v.nqn_form,
  ),
)

module _ (E : Externals) (s : State E) where
  pub validate_create-IsValidSpec :
      (req : CreateRequest nvme_subsystem) (u : Unit {0}) (subsystem : NvmeSubsystem)
      (spec : NvmeSubsystemSpec)
      → (validate_create E req s).0 ≡ ok u
      → req.resource ≡ some subsystem
      → subsystem.spec ≡ some spec
      → IsValidSpec spec
  unfolding validate_create
  validate_create-IsValidSpec req u subsystem spec h hr hs = ends.holds h
    where
      same :
          (sub : NvmeSubsystem) (sp : NvmeSubsystemSpec)
          → req.resource ≡ some sub
          → sub.spec ≡ some sp
          → validate_spec sp ≡ none
          → validate_spec spec ≡ none
      same sub sp p q v =
          subst (λ x. validate_spec x ≡ none)
            (some-inj (sym q ∙ ap (λ (x : NvmeSubsystem). x.spec) (some-inj (sym p ∙ hr)) ∙ hs)) v

      ends : Ends (λ (r, t). r ≡ ok u → IsValidSpec spec) (validate_create E req s)
      ends =
          check_rule _ _ _
            (λ _.
              check_rule _ _ _
                (λ _.
                  deref_rule _ _ _
                    (λ sub p.
                      deref_rule _ _ _
                        (λ sp q.
                          check_end _ _
                            (λ v. done (λ _. (validate_spec_iff spec).0 (same sub sp p q v)))
                            (λ _ _. done (λ c. cc c)))
                        (λ _. done (λ c. cc c)))
                    (λ _. done (λ c. cc c)))
                (λ _ _. done (λ c. cc c)))
            (λ _ _. done (λ c. cc c))
