-- ===== src/Dict.antt =====
-- Python's dict: an association list in insertion order. Assigning to a key that is there keeps its
-- place, a new key goes to the end, and `del` takes the key out.
mod Defs
mod Laws
mod Keys
unfoldable pub use Defs.*
pub use Laws.*
pub use Keys.*
