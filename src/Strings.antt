-- ===== src/Strings.antt =====
-- commands/basic.py: the commands on strings and on keys of any kind.
pub mod Assign
mod Basic
pub mod Counters
pub mod Deadlines
pub mod Expiries
pub mod Held
pub mod Keyspace
pub mod Options
pub mod Ranges
pub mod Request
unfoldable pub use Basic.*
