-- ===== src/Api/Messages.antt =====
-- The resources. Getters of the generated code read a nil pointer as a zero value, a plain field
-- access panics: the handlers say which one they use.
use opi_nvidia_bridge.Base.{ℤ, pos, String, Bool, Option}

pub record NvmeSubsystemSpec : Type 0 where
  pub nqn : String
  pub serial_number : String
  pub model_number : String

pub record NvmeSubsystemStatus : Type 0 where
  pub firmware_revision : String

pub record NvmeSubsystem : Type 0 where
  pub name : String
  pub spec : Option NvmeSubsystemSpec
  pub status : Option NvmeSubsystemStatus

-- The three numbers are `*wrapperspb.Int32Value`.
pub record PciEndpoint : Type 0 where
  pub physical_function : Option ℤ
  pub virtual_function : Option ℤ
  pub port_id : Option ℤ

-- An open enum: PCIE, or any other number.
pub data NvmeTransportType : Type 0 where
  pcie : NvmeTransportType
  other : ℤ → NvmeTransportType

-- `pcie_id` is what `GetPcieId` returns of the endpoint; `nvme_controller_id` is an `*int32`.
pub record NvmeControllerSpec : Type 0 where
  pub trtype : NvmeTransportType
  pub pcie_id : Option PciEndpoint
  pub nvme_controller_id : Option ℤ

pub record NvmeControllerStatus : Type 0 where
  pub active : Bool

pub record NvmeController : Type 0 where
  pub name : String
  pub spec : Option NvmeControllerSpec
  pub status : Option NvmeControllerStatus

pub record NvmeNamespaceSpec : Type 0 where
  pub host_nsid : ℤ
  pub volume_name_ref : String
  pub uuid : String
  pub nguid : String
  pub eui64 : ℤ

pub data NamespaceState : Type 0 where
  state_enabled : NamespaceState
  other : ℤ → NamespaceState

pub data NamespaceOperState : Type 0 where
  oper_state_online : NamespaceOperState
  other : ℤ → NamespaceOperState

pub record NvmeNamespaceStatus : Type 0 where
  pub state : NamespaceState
  pub oper_state : NamespaceOperState

pub record NvmeNamespace : Type 0 where
  pub name : String
  pub spec : Option NvmeNamespaceSpec
  pub status : Option NvmeNamespaceStatus

pub record VirtioBlk : Type 0 where
  pub name : String
  pub pcie_id : Option PciEndpoint
  pub volume_name_ref : String
  pub max_io_qps : ℤ

pub record VolumeStats : Type 0 where
  pub read_ops_count : ℤ
  pub write_ops_count : ℤ

-- The kinds of resource, and the message of each.
pub data Kind : Type 0 where
  nvme_subsystem nvme_controller nvme_namespace virtio_blk : Kind

abbrev pub Message : Kind → Type 0
Message nvme_subsystem = NvmeSubsystem
Message nvme_controller = NvmeController
Message nvme_namespace = NvmeNamespace
Message virtio_blk = VirtioBlk

-- The zero value of the enum.
abbrev pub unspecified : NvmeTransportType
unspecified = NvmeTransportType.other (pos 0)
