-- ===== src/Backup.antt =====
-- A backup run: src/app/application/services/backup_service.py.
mod Defs
mod Service
mod Quiet
mod Tried
pub mod Restart
mod Examples
unfoldable pub use Defs.*
unfoldable pub use Service.*
