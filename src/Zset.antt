-- ===== src/Zset.antt =====
-- zset.py: the sorted-set container.
pub mod Lexical
pub mod Ranked
pub mod Insert
pub mod Agree
pub mod Parts
pub mod Calls
pub mod Rank
pub mod Windows
pub mod Scores
mod Order
mod Index
unfoldable pub use Order.*
unfoldable pub use Index.*
