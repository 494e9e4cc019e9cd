-- ===== src/Subsystem/Create/Success.antt =====
-- When `CreateNvmeSubsystem` of pkg/frontend/nvme_subsystem.go succeeds.
use opi_nvidia_bridge.Base.{
  String, ◌≡◌, refl, ap, ◌∙◌, true, false, [], ◌∷◌, ◌++◌, none, some, str_eq,
}
use opi_nvidia_bridge.Api.Messages.{NvmeSubsystem, NvmeSubsystemSpec, nvme_subsystem}
use opi_nvidia_bridge.Api.Requests.{Request, CreateRequest}
use opi_nvidia_bridge.Models.{spdk_get_version}
use opi_nvidia_bridge.Exec.{Result, ok, ◌>>=◌}
use opi_nvidia_bridge.Externals.{Externals, value}
use opi_nvidia_bridge.Externals.Laws.{ClonesFaithfully}
use opi_nvidia_bridge.Server.{
  State, store_get, store_set, rpc, new_system_generated, get_server, set_server,
}
use opi_nvidia_bridge.Subsystem.Create.{has_nqn, save, create_new, create_nvme_subsystem}
use opi_nvidia_bridge.Subsystem.Create.Outcome.{create_call, created}
use opi_nvidia_bridge.Subsystem.Validate.{validate_spec, validate_create}
use opi_nvidia_bridge.Subsystem.Validate.Sound.{IsValidSpec, validate_spec_iff}

module _ (E : Externals) (s : State E) where
  validate_create-accepts :
      (req : CreateRequest nvme_subsystem) (subsystem : NvmeSubsystem) (spec : NvmeSubsystemSpec)
      → E.validate_required_fields (Request.create nvme_subsystem req) ≡ none
      → str_eq req.resource_id "" ≡ false
      → E.validate_user_settable req.resource_id ≡ none
      → req.resource ≡ some subsystem
      → subsystem.spec ≡ some spec
      → validate_spec spec ≡ none
      → validate_create E req s ≡ (ok tt, s)
  unfolding validate_create ◌>>=◌
  validate_create-accepts req subsystem spec hr hi hu hs hp hv = rw (hr, hi, hu, hs, hp, hv) refl

module _ (E : Externals) (C : ClonesFaithfully E) where
  save-succeeds :
      (subsystem : NvmeSubsystem) (nqn version : String) (s : State E)
      → (E.set nvme_subsystem subsystem.name (created subsystem version) s.db).0 ≡ value tt
      → (save E subsystem nqn version s).0 ≡ ok (created subsystem version)
  unfolding save ◌>>=◌ store_set get_server set_server
  save-succeeds subsystem nqn version s h = rw (C.clone_eq nvme_subsystem subsystem, h) refl

  -- The state in which the handler comes to save.
  abbrev called : NvmeSubsystemSpec → State E → State E
  called spec s = record s {
    device = (E.call spdk_get_version (E.call (create_call spec) s.device).1).1;
    calls = (s.calls ++ create_call spec ∷ []) ++ spdk_get_version ∷ [];
  }

  create_new-save :
      (subsystem : NvmeSubsystem) (spec : NvmeSubsystemSpec) (version : String) (s : State E)
      → subsystem.spec ≡ some spec
      → has_nqn spec.nqn s.server.nqns ≡ false
      → (E.call (create_call spec) s.device).0 ≡ value true
      → (E.call spdk_get_version (E.call (create_call spec) s.device).1).0 ≡ value version
      → create_new E subsystem s ≡ save E subsystem spec.nqn version (called spec s)
  unfolding create_new ◌>>=◌ get_server rpc
  create_new-save subsystem spec version s hs free he hv = simp (hs, free, he, hv) refl

  -- If clones equal their originals, the request gives an identifier and passes the checks of other
  -- packages, its specification is valid, the store answers that nothing is under the name, the NQN
  -- is not registered, the device creates the subsystem and tells its version, and the store takes
  -- the subsystem, then CreateNvmeSubsystem returns the requested subsystem under that name with
  -- that version.
  pub create_nvme_subsystem-succeeds :
      (req : CreateRequest nvme_subsystem) (subsystem : NvmeSubsystem) (spec : NvmeSubsystemSpec)
      (version : String) (s : State E)
      → let name = E.resource_id_to_subsystem_name req.resource_id in
        let named : NvmeSubsystem = record subsystem { name = name } in
        E.validate_required_fields (Request.create nvme_subsystem req) ≡ none
        → str_eq req.resource_id "" ≡ false
        → E.validate_user_settable req.resource_id ≡ none
        → req.resource ≡ some subsystem
        → subsystem.spec ≡ some spec
        → IsValidSpec spec
        → (E.get nvme_subsystem name s.db).0 ≡ value none
        → has_nqn spec.nqn s.server.nqns ≡ false
        → (E.call (create_call spec) s.device).0 ≡ value true
        → (E.call spdk_get_version (E.call (create_call spec) s.device).1).0 ≡ value version
        → (E.set nvme_subsystem name (created named version) (E.get nvme_subsystem name s.db).1).0
          ≡ value tt
        → (create_nvme_subsystem E req s).0 ≡ ok (created named version)
  unfolding create_nvme_subsystem ◌>>=◌ new_system_generated store_get
  create_nvme_subsystem-succeeds req subsystem spec version s hr hi hu hres hspec valid hg free he
        hv h =
      rw
        (
          validate_create-accepts E s req subsystem spec hr hi hu hres hspec
              ((validate_spec_iff spec).1 valid),
          hi,
          hres,
          hg,
        )
        (ap (λ (o : Result NvmeSubsystem × State E). o.0)
            (create_new-save
              (record subsystem { name = E.resource_id_to_subsystem_name req.resource_id }) spec
              version
              (store_get E nvme_subsystem (E.resource_id_to_subsystem_name req.resource_id)
                (new_system_generated E s).1).1
              hspec free he hv)
          ∙ save-succeeds
              (record subsystem { name = E.resource_id_to_subsystem_name req.resource_id }) spec.nqn
              version _ h)
