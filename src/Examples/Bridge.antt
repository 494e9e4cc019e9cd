-- ===== src/Examples/Bridge.antt =====
-- The packages as concrete functions: a store in memory that never fails, a device that answers
-- yes to all but the deletion of a virtio-blk controller, and names of one subsystem.
use Prim.Native.Char.{Char, code}
use opi_nvidia_bridge.Base.{
  pos, String, ◌<>◌, ◌≡◌, refl, true, false, Option, none, some, [], ◌∷◌, Assoc, lookup, insert,
  erase, lookup-insert, lookup-erase, length, take, drop, ltb, read, arith, str_eq, str_eq_iff,
  Bool-cases, inl, inr, pos_part, ◌+◌,
}
use opi_nvidia_bridge.Api.Messages.{
  Kind, Message, NvmeSubsystem, NvmeController, NvmeNamespace, VirtioBlk, nvme_subsystem,
  nvme_controller, nvme_namespace, virtio_blk,
}
use opi_nvidia_bridge.Models.{
  Rpc, Reply, subsystem_nvme_create, subsystem_nvme_delete, subsystem_nvme_list, spdk_get_version,
  controller_nvme_create, controller_nvme_delete, controller_list, controller_nvme_namespace_attach,
  controller_nvme_namespace_detach, controller_nvme_namespace_list, controller_nvme_get_iostat,
  controller_virtio_blk_create, controller_virtio_blk_delete, controller_virtio_blk_get_iostat,
}
use opi_nvidia_bridge.Exec.{ok}
use opi_nvidia_bridge.Externals.{Externals, Answer, value}
use opi_nvidia_bridge.Externals.Laws.{IsStore, ClonesFaithfully, IdsPlain, NamesApart}
use opi_nvidia_bridge.Base.Text.{has_slash}
use opi_nvidia_bridge.Base.{if◌then◌else◌}
use opi_nvidia_bridge.Error.{external}
use opi_nvidia_bridge.Subsystem.Registry.Delete.{DeletesReliably}

pub data Entry : Type 0 where
  subsystem : NvmeSubsystem → Entry
  controller : NvmeController → Entry
  namespace : NvmeNamespace → Entry
  blk : VirtioBlk → Entry

abbrev pub entry : (k : Kind) → Message k → Entry
entry nvme_subsystem m = subsystem m
entry nvme_controller m = controller m
entry nvme_namespace m = namespace m
entry virtio_blk m = blk m

-- An entry read as a message of a kind.
abbrev pub read_as : (k : Kind) → Entry → Option (Message k)
read_as nvme_subsystem (subsystem m) = some m
read_as nvme_controller (controller m) = some m
read_as nvme_namespace (namespace m) = some m
read_as virtio_blk (blk m) = some m
read_as nvme_subsystem _ = none
read_as nvme_controller _ = none
read_as nvme_namespace _ = none
read_as virtio_blk _ = none

read_as-entry : (k : Kind) (m : Message k) → read_as k (entry k m) ≡ some m
read_as-entry nvme_subsystem m = refl
read_as-entry nvme_controller m = refl
read_as-entry nvme_namespace m = refl
read_as-entry virtio_blk m = refl

abbrev pub held : (k : Kind) → Assoc Entry → String → Option (Message k)
held k db key = read (lookup key db) (read_as k)

-- The answers of the device.
abbrev pub answer : (r : Rpc) → Answer (Reply r)
answer (subsystem_nvme_create _) = value true
answer (subsystem_nvme_delete _) = value true
answer subsystem_nvme_list = value (
    record { nqn = "nqn.b"; serial_number = "SN"; model_number = "MN"; controllers = [] }
    ∷ record { nqn = "nqn.a"; serial_number = "SN"; model_number = "MN"; controllers = [] }
    ∷ [])
answer spdk_get_version = value "SPDK v20.10"
answer (controller_nvme_create _) = value (record { name = "ctrl"; cntlid = pos 17 })
answer (controller_nvme_delete _) = value true
answer controller_list = value (
    record {
      subnqn = "nqn.b";
      cntlid = pos 17;
      name = "ctrl";
      emulation_manager = "mlx5_0";
      type = "nvme";
      pci_index = pos 0;
      pci_bdf = "";
    }
    ∷ record {
      subnqn = "";
      cntlid = pos 0;
      name = "blk";
      emulation_manager = "mlx5_0";
      type = "virtio_blk";
      pci_index = pos 1;
      pci_bdf = "";
    }
    ∷ [])
answer (controller_nvme_namespace_attach _) = value true
answer (controller_nvme_namespace_detach _) = value true
answer (controller_nvme_namespace_list _) = value (record {
  name = "ctrl";
  cntlid = pos 17;
  namespaces =
      record { nsid = pos 22; bdev = "Malloc1"; bdev_type = "spdk"; qn = ""; protocol = "nvme" }
      ∷ [];
})
answer controller_nvme_get_iostat = value (record { controllers = [] })
answer (controller_virtio_blk_create _) = value "blk"
answer (controller_virtio_blk_delete _) = value false
answer controller_virtio_blk_get_iostat = value (record { controllers = [] })

abbrev pub bridge : Externals
bridge = record {
  Db = Assoc Entry;
  get = λ k key db. (value (held k db key), db);
  set = λ k key m db. (value tt, insert key (entry k m) db);
  delete = λ key db. (value tt, erase key db);
  holds = held;
  Device = Unit {0};
  call = λ r device. (answer r, device);
  Entropy = Unit {0};
  new_system_generated = λ entropy. ("generated", entropy);
  new_uuid = λ entropy. ("token", entropy);
  validate_required_fields = λ req. none;
  validate_user_settable = λ id. if has_slash id then some (external "a slash") else none;
  validate_resource_name = λ name. none;
  validate_field_mask = λ k mask m. none;
  resource_id_to_subsystem_name = λ id. String.◌∷◌ "S" ("ubsystems/" <> id);
  resource_id_to_controller_name =
      λ subsystem_id id. String.◌∷◌ "C" ("ontrollers/" <> subsystem_id <> "/" <> id);
  resource_id_to_namespace_name =
      λ subsystem_id id. String.◌∷◌ "N" ("amespaces/" <> subsystem_id <> "/" <> id);
  resource_id_to_volume_name = λ id. "volumes/" <> id;
  get_subsystem_id_from_nvme_name = λ name. "subsystem-test";
  extract_pagination = λ page_size page_token offsets. value (pos 50, pos 0);
  limit_pagination = λ result offset size. ok (
    take (pos_part size) (drop (pos_part offset) result),
    ltb (pos_part offset + pos_part size) (length result),
  );
  proto_clone = λ k m. m;
}

pub bridge-IsStore : IsStore bridge
bridge-IsStore = record {
  get-value = λ k key db o e. cc e;
  holds-get = λ k j key other db. refl;
  holds-set = λ k key other m db e.
      ground (arith, lookup-insert key other (entry k m) db, read_as-entry k m);
  holds-set_ne =
      λ k j key other m db ne. ground (arith, lookup-insert key other (entry k m) db, ne);
  holds-set_failure = λ k j key other m db e failed. absurd (cc failed);
  holds-delete = λ j key other db e. ground (arith, lookup-erase key other db);
  holds-delete_failure = λ j key other db e failed. absurd (cc failed);
}

pub bridge-ClonesFaithfully : ClonesFaithfully bridge
bridge-ClonesFaithfully = record { clone_eq = λ k m. refl }

pub bridge-DeletesReliably : DeletesReliably bridge
bridge-DeletesReliably key db = refl

-- Texts with different first characters differ.
first-apart :
    (c d : Char) (s t : String)
    → (code c ≡ code d → ⊥)
    → str_eq (String.◌∷◌ c s) (String.◌∷◌ d t) ≡ false
first-apart c d s t h = elim (Bool-cases (str_eq (String.◌∷◌ c s) (String.◌∷◌ d t))) [
  | inl same ↦ let e = (str_eq_iff (String.◌∷◌ c s) (String.◌∷◌ d t)).0 same in absurd (h (cc e))
  | inr differ ↦ differ
]

pub bridge-NamesApart : NamesApart bridge
bridge-NamesApart = record {
  controller-subsystem = λ s c i. first-apart "C" "S" _ _ (λ e. omega arith);
  namespace-subsystem = λ s n i. first-apart "N" "S" _ _ (λ e. omega arith);
  controller-namespace = λ s t c n. first-apart "C" "N" _ _ (λ e. omega arith);
}

pub bridge-IdsPlain : IdsPlain bridge
bridge-IdsPlain = record {
  settable = λ id e. ground (arith, e);
  generated = λ entropy. refl;
  subsystem_id = λ name. refl;
}
