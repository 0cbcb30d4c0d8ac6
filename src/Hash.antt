-- ===== src/Hash.antt =====
-- commands/hash.py: the hash commands. A hash is the dict of its fields.
pub mod View
pub mod Count
pub mod Purge
pub mod Spec
pub mod Refine
pub mod Loops
pub mod Trace
pub mod NonEmpty
pub mod Calls
pub mod Counters
pub mod Compact
pub mod Effects
pub mod Replies
mod Fields
mod Basic
mod Grammar
mod Expiry
unfoldable pub use Fields.*
unfoldable pub use Basic.*
unfoldable pub use Grammar.*
unfoldable pub use Expiry.*
