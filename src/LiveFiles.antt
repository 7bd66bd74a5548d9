-- ===== src/LiveFiles.antt =====
-- The live view of a target's files: src/control_plane/application/services/live_file_service.py.
mod Defs
mod Sessions
mod Service
mod Tables
mod Room
mod Opening
mod Open
pub mod Replay
pub mod Bounds
mod Examples
unfoldable pub use Defs.*
unfoldable pub use Sessions.*
unfoldable pub use Service.*
