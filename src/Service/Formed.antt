-- ===== src/Service/Formed.antt =====
-- What the handlers of pkg/frontend read through pointers without a check, in objects that they have
-- kept themselves, and the bounds of what they keep.
use opi_nvidia_bridge.Base.{ℤ, ◌≡◌, some, IsInt32}
use opi_nvidia_bridge.Api.Messages.{
  Kind, Message, NvmeSubsystemSpec, NvmeControllerSpec, NvmeNamespaceSpec, PciEndpoint,
  nvme_subsystem, nvme_controller, nvme_namespace, virtio_blk,
}
use opi_nvidia_bridge.Subsystem.Validate.Sound.{IsValidSpec}

-- A subsystem has a specification within the limits, a controller an identifier that is an int32, a
-- namespace a specification, and a virtio-blk controller a physical function.
abbrev pub IsFormed : (k : Kind) → Message k → Type 0
IsFormed nvme_subsystem m = (spec : NvmeSubsystemSpec) × (m.spec ≡ some spec) × IsValidSpec spec
IsFormed nvme_controller m =
    (spec : NvmeControllerSpec) × (id : ℤ) × (m.spec ≡ some spec)
    × (spec.nvme_controller_id ≡ some id)
    × IsInt32 id
IsFormed nvme_namespace m = (spec : NvmeNamespaceSpec) × (m.spec ≡ some spec)
IsFormed virtio_blk m =
    (endpoint : PciEndpoint) × (physical_function : ℤ) × (m.pcie_id ≡ some endpoint)
    × (endpoint.physical_function ≡ some physical_function)
