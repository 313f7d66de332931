-- ===== src/Checkpoint.antt =====
-- runtime-src/mamba_checkpoint_pool.py: checkpoints of the recurrent state.
pub mod State
pub mod Arrival
pub mod Transfer
pub mod Sizes
pub mod Budget
mod Tests
mod SizeTests
