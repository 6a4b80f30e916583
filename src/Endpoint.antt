-- ===== src/Endpoint.antt =====
-- controllers/baremetalendpoint: `Controller` gives an endpoint its first phase and lets a deleted
-- one go, `Network` moves it through its phases and hands out an address.
pub mod Search
pub mod Controller
pub mod Network
pub mod Phases
pub mod Lifecycle
pub mod Life
pub mod Address
pub mod Change
pub mod Cluster
pub mod Total
mod Example
mod Tests
