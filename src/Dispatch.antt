-- ===== src/Dispatch.antt =====
-- commands/__init__.py: the session of a connection and the dispatch of a request, transactions
-- included; WATCH and UNWATCH of commands/basic.py.
mod Frames
mod State
mod Checks
mod Run
pub mod Watch
pub mod Forgotten
pub mod Replay
pub mod Isolation
pub mod Idle
unfoldable pub use Frames.*
unfoldable pub use State.*
unfoldable pub use Checks.*
unfoldable pub use Run.*
