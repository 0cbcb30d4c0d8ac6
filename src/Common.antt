-- ===== src/Common.antt =====
-- commands/common.py and constants.py: what the command modules share.
pub mod Errors
mod Integer
mod Values
mod Running
pub mod Canonical
pub mod Keeps
pub mod NonEmpty
pub mod Reads
unfoldable pub use Integer.*
unfoldable pub use Values.*
unfoldable pub use Running.*
