-- ===== src/Instance.antt =====
-- The reconcilers of controllers/baremetalinstance.
pub mod Controller
pub mod Hardware
pub mod Life
pub mod Provisioner
pub mod Release
pub mod Scheduler
mod Tests
