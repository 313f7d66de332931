-- ===== src/Ple.antt =====
-- runtime-src/qwen4_exp_ple_table.py: the embedding table on the host and in its file.
pub mod Prefetch
pub mod Sidecar
pub mod Sealing
pub mod Trim
pub mod Table
mod Tests
