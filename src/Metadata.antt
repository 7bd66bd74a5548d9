-- ===== src/Metadata.antt =====
-- The in-memory repositories of snapshots, statistics, cache generations and index statuses, of
-- src/control_plane/infrastructure/repositories/in_memory.py.
mod Defs
mod Stores
pub mod Generations
mod Examples
unfoldable pub use Defs.*
unfoldable pub use Stores.*
