-- ===== src/Sets.antt =====
-- commands/set.py: the set commands. A set is the list of its members, each once.
pub mod Laws
pub mod Settle
pub mod Moves
pub mod Cardinality
mod Algebra
mod Basic
mod Store
unfoldable pub use Algebra.*
unfoldable pub use Basic.*
unfoldable pub use Store.*
