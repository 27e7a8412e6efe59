-- ===== src/Manager.antt =====
-- client/manager: the service that runs the tunnels.
pub mod Switch
pub mod Power
pub mod Supervisor
pub mod Fallback
pub mod Routes
