-- ===== src/WorkerAuth.antt =====
-- The credentials of workers: src/control_plane/infrastructure/security/worker_auth.py, kept in
-- memory.
mod Defs
mod Credentials
mod Enrollments
pub mod Single
pub mod Replay
pub mod Retry
mod Examples
unfoldable pub use Defs.*
unfoldable pub use Credentials.*
unfoldable pub use Enrollments.*
