-- ===== src/KvPool.antt =====
-- runtime-src/memory_pool.py: the arithmetic around the KV buffers.
pub mod Spans
mod Tests
