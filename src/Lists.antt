-- ===== src/Lists.antt =====
-- commands/lists.py: the list commands. A deque is the list of its elements, head first.
pub mod NonEmpty
pub mod Compact
pub mod Calls
pub mod Range
pub mod Pops
pub mod Occurrences
pub mod Positions
mod Deque
mod Basic
mod Edit
mod Move
mod Search
unfoldable pub use Deque.*
unfoldable pub use Basic.*
unfoldable pub use Edit.*
unfoldable pub use Move.*
unfoldable pub use Search.*
