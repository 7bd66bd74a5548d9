-- ===== src/Jobs.antt =====
-- The job queue of the control plane: the record of src/control_plane/domain/models.py and the
-- repository `InMemoryJobRepository` of src/control_plane/infrastructure/repositories/in_memory.py.
-- A datetime is a number of microseconds, as `utcnow()` reads it (naive, in UTC).
mod Defs
mod Summary
mod Repository
pub mod Cases
pub mod Invariant
mod Run
mod Queue
pub mod Claim
pub mod Lease
pub mod Grants
pub mod Log
pub mod Steps
pub mod Lifecycle
mod Examples
pub use Defs.*
unfoldable pub use Summary.*
unfoldable pub use Repository.*
