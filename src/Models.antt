-- ===== src/Models.antt =====
-- pkg/models/spdk.go: the parameters and results of the JSON-RPC methods of the device.
use opi_nvidia_bridge.Base.{ℤ, String, Bool, List}

pub record NvdaSubsystemNvmeCreateParams : Type 0 where
  pub nqn : String
  pub serial_number : String
  pub model_number : String

abbrev pub NvdaSubsystemNvmeCreateResult : Type 0
NvdaSubsystemNvmeCreateResult = Bool

pub record NvdaSubsystemNvmeDeleteParams : Type 0 where
  pub nqn : String

abbrev pub NvdaSubsystemNvmeDeleteResult : Type 0
NvdaSubsystemNvmeDeleteResult = Bool

pub record SubsystemController : Type 0 where
  pub name : String
  pub cntlid : ℤ
  pub pci_bdf : String
  pub pci_index : ℤ

pub record NvdaSubsystemNvmeListResult : Type 0 where
  pub nqn : String
  pub serial_number : String
  pub model_number : String
  pub controllers : List SubsystemController

pub record NvdaControllerNvmeCreateParams : Type 0 where
  pub nqn : String
  pub emulation_manager : String
  pub pf_id : ℤ
  pub vf_id : ℤ
  pub nr_io_queues : ℤ
  pub max_namespaces : ℤ

pub record NvdaControllerNvmeCreateResult : Type 0 where
  pub name : String
  pub cntlid : ℤ

pub record NvdaControllerNvmeDeleteParams : Type 0 where
  pub subnqn : String
  pub cntlid : ℤ

abbrev pub NvdaControllerNvmeDeleteResult : Type 0
NvdaControllerNvmeDeleteResult = Bool

pub record NvdaControllerListResult : Type 0 where
  pub subnqn : String
  pub cntlid : ℤ
  pub name : String
  pub emulation_manager : String
  pub type : String
  pub pci_index : ℤ
  pub pci_bdf : String

pub record NvdaControllerNvmeNamespaceAttachParams : Type 0 where
  pub bdev_type : String
  pub bdev : String
  pub nsid : ℤ
  pub subnqn : String
  pub cntlid : ℤ
  pub uuid : String
  pub nguid : String
  pub eui64 : String

abbrev pub NvdaControllerNvmeNamespaceAttachResult : Type 0
NvdaControllerNvmeNamespaceAttachResult = Bool

pub record NvdaControllerNvmeNamespaceDetachParams : Type 0 where
  pub nsid : ℤ
  pub subnqn : String
  pub cntlid : ℤ

abbrev pub NvdaControllerNvmeNamespaceDetachResult : Type 0
NvdaControllerNvmeNamespaceDetachResult = Bool

pub record NvdaControllerNvmeNamespaceListParams : Type 0 where
  pub subnqn : String
  pub cntlid : ℤ

pub record NamespaceEntry : Type 0 where
  pub nsid : ℤ
  pub bdev : String
  pub bdev_type : String
  pub qn : String
  pub protocol : String

pub record NvdaControllerNvmeNamespaceListResult : Type 0 where
  pub name : String
  pub cntlid : ℤ
  pub namespaces : List NamespaceEntry

pub record BdevStats : Type 0 where
  pub bdev_name : String
  pub read_ios : ℤ
  pub completed_read_ios : ℤ
  pub write_ios : ℤ
  pub completed_write_ios : ℤ
  pub flush_ios : ℤ
  pub completed_flush_ios : ℤ
  pub err_read_ios : ℤ
  pub err_write_ios : ℤ
  pub err_flush_ios : ℤ

pub record ControllerStats : Type 0 where
  pub name : String
  pub bdevs : List BdevStats

pub record NvdaControllerNvmeStatsResult : Type 0 where
  pub controllers : List ControllerStats

pub record NvdaControllerVirtioBlkCreateParams : Type 0 where
  pub emulation_manager : String
  pub bdev_type : String
  pub pf_id : ℤ
  pub vf_id : ℤ
  pub num_queues : ℤ
  pub bdev : String
  pub serial : String

abbrev pub NvdaControllerVirtioBlkCreateResult : Type 0
NvdaControllerVirtioBlkCreateResult = String

pub record NvdaControllerVirtioBlkDeleteParams : Type 0 where
  pub name : String
  pub force : Bool

abbrev pub NvdaControllerVirtioBlkDeleteResult : Type 0
NvdaControllerVirtioBlkDeleteResult = Bool

-- A call by its method and its parameters. The constructors have the names of the methods.
pub data Rpc : Type 0 where
  subsystem_nvme_create : NvdaSubsystemNvmeCreateParams → Rpc
  subsystem_nvme_delete : NvdaSubsystemNvmeDeleteParams → Rpc
  subsystem_nvme_list : Rpc
  spdk_get_version : Rpc
  controller_nvme_create : NvdaControllerNvmeCreateParams → Rpc
  controller_nvme_delete : NvdaControllerNvmeDeleteParams → Rpc
  controller_list : Rpc
  controller_nvme_namespace_attach : NvdaControllerNvmeNamespaceAttachParams → Rpc
  controller_nvme_namespace_detach : NvdaControllerNvmeNamespaceDetachParams → Rpc
  controller_nvme_namespace_list : NvdaControllerNvmeNamespaceListParams → Rpc
  controller_nvme_get_iostat : Rpc
  controller_virtio_blk_create : NvdaControllerVirtioBlkCreateParams → Rpc
  controller_virtio_blk_delete : NvdaControllerVirtioBlkDeleteParams → Rpc
  controller_virtio_blk_get_iostat : Rpc

-- What the `result` of a call that returned no error holds. Of the version the bridge reads one
-- text, `ver.Version`.
abbrev pub Reply : Rpc → Type 0
Reply (subsystem_nvme_create _) = NvdaSubsystemNvmeCreateResult
Reply (subsystem_nvme_delete _) = NvdaSubsystemNvmeDeleteResult
Reply subsystem_nvme_list = List NvdaSubsystemNvmeListResult
Reply spdk_get_version = String
Reply (controller_nvme_create _) = NvdaControllerNvmeCreateResult
Reply (controller_nvme_delete _) = NvdaControllerNvmeDeleteResult
Reply controller_list = List NvdaControllerListResult
Reply (controller_nvme_namespace_attach _) = NvdaControllerNvmeNamespaceAttachResult
Reply (controller_nvme_namespace_detach _) = NvdaControllerNvmeNamespaceDetachResult
Reply (controller_nvme_namespace_list _) = NvdaControllerNvmeNamespaceListResult
Reply controller_nvme_get_iostat = NvdaControllerNvmeStatsResult
Reply (controller_virtio_blk_create _) = NvdaControllerVirtioBlkCreateResult
Reply (controller_virtio_blk_delete _) = NvdaControllerVirtioBlkDeleteResult
Reply controller_virtio_blk_get_iostat = NvdaControllerNvmeStatsResult
