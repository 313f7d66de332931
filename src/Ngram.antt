-- ===== src/Ngram.antt =====
-- runtime-src/qwen4_exp.py: the n-gram ids of the per-layer embedding, and the history they read.
mod Bits
pub mod Multipliers
pub mod Heads
pub mod Shift
mod Back
pub mod Hash
mod Slices
pub mod Ranges
mod Columns
mod Keys
pub mod Batch
pub mod Prepare
pub mod Commit
mod Packed
mod Filled
pub mod Stream
pub mod Rows
pub mod Extend
pub mod History
pub mod Chunks
pub mod Decode
pub mod Agree
mod Store
mod Tests
mod PassTests
