-- ===== src/TokenMap.antt =====
-- scripts/build_token_map.py: the choice of the draft vocabulary.
pub mod Select
mod Sorting
mod Filling
mod Chosen
mod Outcomes
mod Tests
