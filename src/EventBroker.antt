-- ===== src/EventBroker.antt =====
-- The broker of job events: src/control_plane/application/services/job_event_broker.py.
mod Broker
pub mod Queues
mod Examples
unfoldable pub use Broker.*
