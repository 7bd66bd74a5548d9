-- ===== src/RestoreOwnership.antt =====
-- Who owns the restored files: src/app/domain/restore_ownership.py.
mod Defs
mod Policy
mod Layers
mod Scopes
mod Resolve
pub mod Identity
pub mod Validity
pub mod RoundTrip
mod Layered
mod Agreement
mod Default
pub mod Precedence
mod Examples
unfoldable pub use Defs.*
unfoldable pub use Policy.*
unfoldable pub use Layers.*
unfoldable pub use Scopes.*
unfoldable pub use Resolve.*
