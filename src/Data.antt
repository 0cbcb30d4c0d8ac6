-- ===== src/Data.antt =====
-- data.py: the key/value store with lazy expiration.
mod Store
mod Expiry
mod Snapshot
pub mod View
pub mod Spec
mod Refine
pub mod Distinct
pub mod Trace
pub mod Recovery
unfoldable pub use Store.*
unfoldable pub use Expiry.*
unfoldable pub use Snapshot.*
