-- ===== src/Api.antt =====
-- The messages of the storage API (storage/v1alpha1) that the bridge reads and builds, with the
-- fields that its sources name. A pointer to a message or to a wrapper is an `Option`.
pub mod Messages
pub mod Requests
