-- ===== src/Externals.antt =====
-- What the bridge calls and does not implement: the key-value store (gokv), the device behind
-- JSON-RPC (gospdk), generators of identifiers, the validators of the API's conventions (aip-go),
-- and the helpers of opi-spdk-bridge/pkg/utils. Each is an operation of a record, which the
-- handlers take as a parameter.
pub mod Laws
use opi_nvidia_bridge.Base.{ℤ, String, Bool, Option, List, Assoc, ◌≡◌, refl, ◌⊎◌, inl, inr}
use opi_nvidia_bridge.Api.Messages.{Kind, Message}
use opi_nvidia_bridge.Api.Requests.{Request}
use opi_nvidia_bridge.Models.{Rpc, Reply}
use opi_nvidia_bridge.Error.{Error}
use opi_nvidia_bridge.Exec.{Result}

-- What a call that may fail, and does not panic, hands back.
pub data Answer {ℓ} (A : Type ℓ) : Type ℓ where
  value : A → Answer A
  failure : Error → Answer A

pub Answer-cases {ℓ} :
    {A : Type ℓ} (a : Answer A) → ((x : A) × (a ≡ value x)) ⊎ ((e : Error) × (a ≡ failure e))
Answer-cases (value x) = inl (x, refl)
Answer-cases (failure e) = inr (e, refl)

pub record Externals : Type 1 where
  -- `gokv.Store`, by the state of its database. A read may change that state too: a client that
  -- has lost its connection fails now and may serve later.
  pub Db : Type 0
  pub get : (k : Kind) → String → Db → Answer (Option (Message k)) × Db
  pub set : (k : Kind) → String → Message k → Db → Answer (Unit {0}) × Db
  pub delete : String → Db → Answer (Unit {0}) × Db
  -- What the database holds under a key, read as a message of a kind.
  pub holds : (k : Kind) → Db → String → Option (Message k)
  -- `spdk.JSONRPC`, by the state of the device.
  pub Device : Type 0
  pub call : (r : Rpc) → Device → Answer (Reply r) × Device
  -- `resourceid.NewSystemGenerated` and `uuid.New().String()`.
  pub Entropy : Type 0
  pub new_system_generated : Entropy → String × Entropy
  pub new_uuid : Entropy → String × Entropy
  -- `fieldbehavior.ValidateRequiredFields`, `resourceid.ValidateUserSettable`,
  -- `resourcename.Validate` and `fieldmask.Validate`: an error, or nil.
  pub validate_required_fields : Request → Option Error
  pub validate_user_settable : String → Option Error
  pub validate_resource_name : String → Option Error
  pub validate_field_mask : (k : Kind) → Option (List String) → Option (Message k) → Option Error
  -- Of `utils`.
  pub resource_id_to_subsystem_name : String → String
  pub resource_id_to_controller_name : String → String → String
  pub resource_id_to_namespace_name : String → String → String
  pub resource_id_to_volume_name : String → String
  pub get_subsystem_id_from_nvme_name : String → String
  -- The size and the offset, from the page size, the token and the offsets by token.
  pub extract_pagination : ℤ → String → Assoc ℤ → Answer (ℤ × ℤ)
  -- The page, and whether more elements follow. A slice out of range panics.
  pub limit_pagination : {A : Type 0} → List A → ℤ → ℤ → Result (List A × Bool)
  pub proto_clone : (k : Kind) → Message k → Message k
