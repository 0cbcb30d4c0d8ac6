-- ===== src/Bits.antt =====
-- commands/bit.py: SETBIT, GETBIT, BITFIELD and BITFIELD_RO.
mod Basic
pub mod Calls
pub mod Cells
pub mod Modes
pub mod Reads
mod Field
mod Grammar
unfoldable pub use Basic.*
unfoldable pub use Field.*
unfoldable pub use Grammar.*
