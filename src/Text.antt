-- ===== src/Text.antt =====
-- What the program uses of Python's `bytes` and `int`: case, white space, `split`, decimal numbers.
mod Ascii
mod Decimal
pub mod Print
unfoldable pub use Ascii.*
unfoldable pub use Decimal.*
