-- ===== src/Qsa.antt =====
-- runtime-src/kernel.py: the expansion of selected key blocks to token indices.
pub mod Expand
mod Compact
mod Rows
mod Lookup
mod Columns
mod Row
mod Agree
mod Tests
