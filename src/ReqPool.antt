-- ===== src/ReqPool.antt =====
-- runtime-src/memory_pool.py: the request table's slots.
pub mod Slots
pub mod Conserve
pub mod Hybrid
pub mod PingPong
pub mod HybridSlots
pub mod HybridLoop
pub mod HybridAlloc
pub mod HybridFree
mod Tests
