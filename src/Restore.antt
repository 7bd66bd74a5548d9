-- ===== src/Restore.antt =====
-- A restore run: src/app/application/services/restore_service.py.
mod Defs
mod Planning
mod Results
mod Conditions
mod Service
pub mod Harmless
pub mod Admission
pub mod Gate
mod Examples
unfoldable pub use Defs.*
unfoldable pub use Planning.*
unfoldable pub use Results.*
unfoldable pub use Conditions.*
unfoldable pub use Service.*
