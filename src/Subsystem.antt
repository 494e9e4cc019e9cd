-- ===== src/Subsystem.antt =====
-- pkg/frontend/nvme_subsystem.go and nvme_subsystem_validate.go: the handlers of NVMe subsystems.
pub mod Validate
pub mod Create
pub mod Delete
pub mod Queries
pub mod Registry
