-- ===== src/CommandPolicy.antt =====
-- The policy on runtime commands:
-- src/worker_agent/application/policies/runtime_command_policy.py.
mod Paths
mod Commands
mod Scope
mod Tokens
pub mod Confined
pub mod Locks
mod Examples
unfoldable pub use Paths.*
unfoldable pub use Commands.*
unfoldable pub use Scope.*
unfoldable pub use Tokens.*
