-- ===== src/Scheduler.antt =====
-- The scheduler: src/control_plane/application/services/scheduler_service.py.
mod Cron
mod Tick
pub mod Bounds
pub mod Once
pub mod Exclusive
mod Examples
unfoldable pub use Cron.*
unfoldable pub use Tick.*
