-- ===== src/Tier.antt =====
-- patches/expert_tier.py: the first version of the expert pool, with a ring of slots.
pub mod State
pub mod Table
pub mod Eager
pub mod Captured
mod Tests
