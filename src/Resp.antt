-- ===== src/Resp.antt =====
-- resp.py: the RESP encoder, the pure-Python parser, and the incremental reader.
mod Encode
mod Parse
mod Reader
mod Marker
mod Extend
pub mod Fuel
pub mod Chunks
pub mod RoundTrip
unfoldable pub use Encode.*
unfoldable pub use Parse.*
unfoldable pub use Reader.*
