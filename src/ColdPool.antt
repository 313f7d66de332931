-- ===== src/ColdPool.antt =====
-- The expert cold pool, patches/expert_cold_pool.py.
pub mod State
pub mod Staging
pub mod Tables
pub mod Ownership
pub mod Weights
pub mod Invariant
pub mod Steps
pub mod Serving
pub mod Lru
pub mod Router
pub mod Shrink
pub mod Lanes
pub mod Demand
pub mod Hook
pub mod Reach
pub mod Progress
pub mod Degrade
mod Tests
mod RouterTests
