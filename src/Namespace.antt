-- ===== src/Namespace.antt =====
-- pkg/frontend/nvme_namespace.go and nvme_namespace_validate.go: the handlers of NVMe namespaces.
pub mod Validate
pub mod Create
pub mod Delete
pub mod Queries
pub mod Stats
