-- ===== src/Secrets.antt =====
-- The secrets of the control plane and what refers to them.
mod Defs
mod Usages
pub mod Deletion
mod Examples
unfoldable pub use Defs.*
unfoldable pub use Usages.*
