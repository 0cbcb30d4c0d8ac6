-- ===== src/Persist.antt =====
-- db.py: the SQLite backend, whose dumps run in worker threads while the event loop serves commands.
mod Steps
pub mod Fresh
unfoldable pub use Steps.*
