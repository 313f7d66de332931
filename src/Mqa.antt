-- ===== src/Mqa.antt =====
-- runtime-src/mqa.py: the logits of the QSA indexer.
pub mod Prefill
mod Split
mod Stores
mod Windows
pub mod Decode
mod Pages
mod Groups
mod Tiles
mod Contexts
mod Decoded
mod Tests
