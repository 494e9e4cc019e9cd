-- ===== src/Virtio.antt =====
-- pkg/frontend/virtio.go and virtio_validate.go: the handlers of virtio-blk devices, which the
-- server keeps in a map of its own.
pub mod Validate
pub mod Create
pub mod Delete
pub mod Queries
pub mod Keyed
