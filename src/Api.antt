-- ===== src/Api.antt =====
-- The resources of api/v1alpha1 and the metadata of every Kubernetes object, as far as the
-- controllers and webhooks read or write them.
pub mod Meta
pub mod Discovery
pub mod Endpoint
pub mod Network
pub mod Hardware
pub mod Instance
