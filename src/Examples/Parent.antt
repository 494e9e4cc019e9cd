-- ===== src/Examples/Parent.antt =====
-- A stored subsystem, for controllers and namespaces to be created under.
use opi_nvidia_bridge.Base.{none, some, [], ◌∷◌}
use opi_nvidia_bridge.Api.Messages.{NvmeSubsystem, NvmeSubsystemSpec}
use opi_nvidia_bridge.Server.{State}
use opi_nvidia_bridge.Examples.Bridge.{subsystem, bridge}

abbrev pub parent_spec : NvmeSubsystemSpec
parent_spec = record { nqn = "nqn.b"; serial_number = ""; model_number = "" }

abbrev pub parent : NvmeSubsystem
parent = record { name = "Subsystems/subsystem-test"; spec = some parent_spec; status = none }

-- The subsystem is stored.
abbrev pub first : State bridge
first = record {
  server = record { virtio_ctrls = []; nqns = []; pagination = [] };
  db = ("Subsystems/subsystem-test", subsystem parent) ∷ [];
  device = tt;
  entropy = tt;
  calls = [];
}
