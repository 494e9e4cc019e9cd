-- ===== src/Controller/Create/Success.antt =====
-- When `CreateNvmeController` of pkg/frontend/nvme_controller.go succeeds.
use opi_nvidia_bridge.Base.{◌≡◌, refl, pos, ltb_ℤ, false, none, some, str_eq}
use opi_nvidia_bridge.Api.Messages.{
  NvmeController, NvmeControllerSpec, NvmeSubsystem, NvmeSubsystemSpec, PciEndpoint, pcie,
  nvme_controller, nvme_subsystem,
}
use opi_nvidia_bridge.Api.Requests.{Request, CreateChildRequest}
use opi_nvidia_bridge.Models.{NvdaControllerNvmeCreateResult}
use opi_nvidia_bridge.Exec.{ok, ◌>>=◌}
use opi_nvidia_bridge.Externals.{Externals, value}
use opi_nvidia_bridge.Externals.Laws.{ClonesFaithfully}
use opi_nvidia_bridge.Server.{State, store_get, store_set, rpc, new_system_generated}
use opi_nvidia_bridge.Controller.Create.{attach, create_nvme_controller}
use opi_nvidia_bridge.Controller.Create.Outcome.{create_call, created}
use opi_nvidia_bridge.Controller.Validate.{validate_create, check_transport}

module _ (E : Externals) (C : ClonesFaithfully E) where
  validate_create-accepts :
      (req : CreateChildRequest nvme_controller) (controller : NvmeController)
      (spec : NvmeControllerSpec) (endpoint : PciEndpoint) (s : State E)
      → E.validate_required_fields (Request.create_child nvme_controller req) ≡ none
      → str_eq req.resource_id "" ≡ false
      → E.validate_user_settable req.resource_id ≡ none
      → req.resource ≡ some controller
      → controller.spec ≡ some spec
      → spec.trtype ≡ pcie
      → spec.pcie_id ≡ some endpoint
      → E.validate_resource_name req.parent ≡ none
      → validate_create E req s ≡ (ok tt, s)
  unfolding validate_create ◌>>=◌ check_transport
  validate_create-accepts req controller spec endpoint s hr hi hu hres hs ht hp hn =
      rw (hr, hi, hu, hres, hs, ht, hp, hn) refl

  attach-succeeds :
      (controller : NvmeController) (spec : NvmeControllerSpec) (subsystem : NvmeSubsystem)
      (subsystem_spec : NvmeSubsystemSpec) (answer : NvdaControllerNvmeCreateResult) (s : State E)
      → controller.spec ≡ some spec
      → subsystem.spec ≡ some subsystem_spec
      → (E.call (create_call controller subsystem_spec) s.device).0 ≡ value answer
      → ltb_ℤ answer.cntlid (pos 0) ≡ false
      → (E.set nvme_controller controller.name (created controller spec answer.cntlid) s.db).0
        ≡ value tt
      → (attach E controller subsystem s).0 ≡ ok (created controller spec answer.cntlid)
  unfolding attach ◌>>=◌ rpc store_set
  attach-succeeds controller spec subsystem subsystem_spec answer s hs hss he ha h =
      simp (hss, he, ha, C.clone_eq nvme_controller controller, hs, h) refl

  -- If clones equal their originals, the request gives an identifier, has the PCIe transport and
  -- endpoint and passes the checks of other packages, the store answers that nothing is under the
  -- name and answers the parent, a subsystem with a specification, the device answers an identifier
  -- that is not negative, and the store takes the controller, then CreateNvmeController returns the
  -- requested controller under that name, active, with the identifier as an int32.
  pub create_nvme_controller-succeeds :
      (req : CreateChildRequest nvme_controller) (controller : NvmeController)
      (spec : NvmeControllerSpec) (endpoint : PciEndpoint) (subsystem : NvmeSubsystem)
      (subsystem_spec : NvmeSubsystemSpec) (answer : NvdaControllerNvmeCreateResult) (s : State E)
      → let name =
          E.resource_id_to_controller_name
            (E.get_subsystem_id_from_nvme_name req.parent)
            req.resource_id in
        let named : NvmeController = record controller { name = name } in
        let db = (E.get nvme_controller name s.db).1 in
        E.validate_required_fields (Request.create_child nvme_controller req) ≡ none
        → str_eq req.resource_id "" ≡ false
        → E.validate_user_settable req.resource_id ≡ none
        → req.resource ≡ some controller
        → controller.spec ≡ some spec
        → spec.trtype ≡ pcie
        → spec.pcie_id ≡ some endpoint
        → E.validate_resource_name req.parent ≡ none
        → (E.get nvme_controller name s.db).0 ≡ value none
        → (E.get nvme_subsystem req.parent db).0 ≡ value (some subsystem)
        → subsystem.spec ≡ some subsystem_spec
        → (E.call (create_call named subsystem_spec) s.device).0 ≡ value answer
        → ltb_ℤ answer.cntlid (pos 0) ≡ false
        → (E.set nvme_controller name
            (created named spec answer.cntlid)
            (E.get nvme_subsystem req.parent db).1).0
          ≡ value tt
        → (create_nvme_controller E req s).0 ≡ ok (created named spec answer.cntlid)
  unfolding create_nvme_controller ◌>>=◌ new_system_generated store_get
  create_nvme_controller-succeeds req controller spec endpoint subsystem subsystem_spec answer s hr
        hi hu hres hs ht hp hn hg hg' hss he ha h =
      rw
        (
          validate_create-accepts req controller spec endpoint s hr hi hu hres hs ht hp hn,
          hi,
          hres,
          hg,
          hg',
        )
        (attach-succeeds
          (record controller {
            name =
                E.resource_id_to_controller_name (E.get_subsystem_id_from_nvme_name req.parent)
                  req.resource_id;
          })
          spec subsystem subsystem_spec answer _ hs hss he ha h)
