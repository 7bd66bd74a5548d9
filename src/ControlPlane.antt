-- ===== src/ControlPlane.antt =====
-- The control plane's service: src/control_plane/application/services/control_plane_service.py.
-- Its repositories are those in memory, which hand out the records that they hold. A call reads the
-- clock once, as the argument `now`.
mod Defs
mod Workers
mod Dispatch
mod Leases
mod Completion
mod Progress
mod Submission
mod Deletion
mod Targets
pub mod Lifecycle
pub mod Syncing
pub mod Ending
pub mod Kept
pub mod Reported
pub mod Calls
pub mod Completed
pub mod Outcomes
pub mod Revocation
pub mod Revoking
mod Examples
pub use Defs.*
unfoldable pub use Workers.*
unfoldable pub use Dispatch.*
unfoldable pub use Leases.*
unfoldable pub use Completion.*
unfoldable pub use Progress.*
unfoldable pub use Submission.*
unfoldable pub use Deletion.*
unfoldable pub use Targets.*
