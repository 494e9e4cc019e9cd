-- ===== src/Controller.antt =====
-- pkg/frontend/nvme_controller.go and nvme_controller_validate.go: the handlers of NVMe controllers.
pub mod Validate
pub mod Create
pub mod Delete
pub mod Queries
