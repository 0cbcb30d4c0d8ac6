-- ===== src/PubSub.antt =====
-- pubsub.py: the hub between connections.
mod Hub
pub mod Members
pub mod Publish
unfoldable pub use Hub.*
