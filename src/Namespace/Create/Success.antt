-- ===== src/Namespace/Create/Success.antt =====
-- When `CreateNvmeNamespace` of pkg/frontend/nvme_namespace.go succeeds.
use opi_nvidia_bridge.Base.{◌≡◌, refl, true, false, none, some, str_eq}
use opi_nvidia_bridge.Api.Messages.{
  NvmeNamespace, NvmeNamespaceSpec, NvmeSubsystem, NvmeSubsystemSpec, nvme_namespace,
  nvme_subsystem,
}
use opi_nvidia_bridge.Api.Requests.{Request, CreateChildRequest}
use opi_nvidia_bridge.Exec.{ok, ◌>>=◌}
use opi_nvidia_bridge.Externals.{Externals, value}
use opi_nvidia_bridge.Externals.Laws.{ClonesFaithfully}
use opi_nvidia_bridge.Server.{State, store_get, store_set, rpc, new_system_generated}
use opi_nvidia_bridge.Namespace.Create.{attach, create_nvme_namespace}
use opi_nvidia_bridge.Namespace.Create.Outcome.{attach_call, created}
use opi_nvidia_bridge.Namespace.Validate.{validate_create}

module _ (E : Externals) (C : ClonesFaithfully E) where
  validate_create-accepts :
      (req : CreateChildRequest nvme_namespace) (s : State E)
      → E.validate_required_fields (Request.create_child nvme_namespace req) ≡ none
      → str_eq req.resource_id "" ≡ false
      → E.validate_user_settable req.resource_id ≡ none
      → E.validate_resource_name req.parent ≡ none
      → validate_create E req s ≡ (ok tt, s)
  unfolding validate_create ◌>>=◌
  validate_create-accepts req s hr hi hu hn = rw (hr, hi, hu, hn) refl

  attach-succeeds :
      (namespace : NvmeNamespace) (spec : NvmeNamespaceSpec) (subsystem : NvmeSubsystem)
      (subsystem_spec : NvmeSubsystemSpec) (s : State E)
      → namespace.spec ≡ some spec
      → subsystem.spec ≡ some subsystem_spec
      → (E.call (attach_call spec subsystem_spec) s.device).0 ≡ value true
      → (E.set nvme_namespace namespace.name (created namespace) s.db).0 ≡ value tt
      → (attach E namespace subsystem s).0 ≡ ok (created namespace)
  unfolding attach ◌>>=◌ rpc store_set
  attach-succeeds namespace spec subsystem subsystem_spec s hs hss he h =
      simp (C.clone_eq nvme_namespace namespace, hss, hs, he, rw hs at h) refl

  -- If clones equal their originals, the request gives an identifier and a specification and passes
  -- the checks of other packages, the store answers that nothing is under the name and answers the
  -- parent, a subsystem with a specification, the device attaches the namespace and the store takes
  -- it, then CreateNvmeNamespace returns the requested namespace under that name, enabled and
  -- online.
  pub create_nvme_namespace-succeeds :
      (req : CreateChildRequest nvme_namespace) (namespace : NvmeNamespace)
      (spec : NvmeNamespaceSpec) (subsystem : NvmeSubsystem) (subsystem_spec : NvmeSubsystemSpec)
      (s : State E)
      → let name =
          E.resource_id_to_namespace_name
            (E.get_subsystem_id_from_nvme_name req.parent)
            req.resource_id in
        let named : NvmeNamespace = record namespace { name = name } in
        let db = (E.get nvme_namespace name s.db).1 in
        E.validate_required_fields (Request.create_child nvme_namespace req) ≡ none
        → str_eq req.resource_id "" ≡ false
        → E.validate_user_settable req.resource_id ≡ none
        → E.validate_resource_name req.parent ≡ none
        → req.resource ≡ some namespace
        → namespace.spec ≡ some spec
        → (E.get nvme_namespace name s.db).0 ≡ value none
        → (E.get nvme_subsystem req.parent db).0 ≡ value (some subsystem)
        → subsystem.spec ≡ some subsystem_spec
        → (E.call (attach_call spec subsystem_spec) s.device).0 ≡ value true
        → (E.set nvme_namespace name (created named) (E.get nvme_subsystem req.parent db).1).0
          ≡ value tt
        → (create_nvme_namespace E req s).0 ≡ ok (created named)
  unfolding create_nvme_namespace ◌>>=◌ new_system_generated store_get
  create_nvme_namespace-succeeds req namespace spec subsystem subsystem_spec s hr hi hu hn hres hs
        hg hg' hss he h =
      rw (validate_create-accepts req s hr hi hu hn, hi, hres, hg, hg')
        (attach-succeeds
          (record namespace {
            name =
                E.resource_id_to_namespace_name (E.get_subsystem_id_from_nvme_name req.parent)
                  req.resource_id;
          })
          spec subsystem subsystem_spec _ hs hss he h)
