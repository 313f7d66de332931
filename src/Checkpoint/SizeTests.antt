-- ===== src/Checkpoint/SizeTests.antt =====
-- Runs of the sizes of a small checkpoint pool.
use sglang_flashnext_nvfp4kv.Prelude.{◌≡◌, refl, true, List, [], ◌∷◌, some, arith, inl}
use sglang_flashnext_nvfp4kv.Checkpoint.Sizes.{
  PoolShape, SideTensor, conv_state, context, unsupported, checkpoint_pool, mem_usage_bytes,
  estimate_mem_usage_bytes, ple_extra, MambaArgs, maybe_init_int8_mamba_checkpoint_pool,
  int8_checkpoint_store, store_mem_usage_bytes, ple_mirrors, ple_source,
}
use sglang_flashnext_nvfp4kv.Checkpoint.Budget.{
  estimate-mem_usage_bytes, Decided, maybe_init-decides,
}

abbrev small_shape : PoolShape
small_shape = record {
  num_layers = 2;
  num_slots = 3;
  num_heads = 1;
  head_v_dim = 4;
  head_k_dim = 4;
  conv_shapes = (4 ∷ 2 ∷ []) ∷ [];
  conv_itemsize = 2;
  temporal_itemsize = 2;
}

-- A side state by layer and slot, one by slot and one of another kind.
abbrev side_states : List SideTensor
side_states =
    conv_state record { shape = 2 ∷ 9 ∷ 5 ∷ []; itemsize = 2 }
    ∷ context record { shape = 9 ∷ 2 ∷ []; itemsize = 8 }
    ∷ unsupported
    ∷ []

estimate-mem_usage_bytes_example :
    (estimate_mem_usage_bytes small_shape (ple_extra 3 side_states)).total
    ≡ mem_usage_bytes (checkpoint_pool small_shape side_states)
estimate-mem_usage_bytes_example =
    estimate-mem_usage_bytes small_shape side_states
      (omega arith, (omega arith, (omega arith, omega arith)))

small_pool_bytes : mem_usage_bytes (checkpoint_pool small_shape side_states) ≡ 464
unfolding mem_usage_bytes checkpoint_pool int8_checkpoint_store store_mem_usage_bytes ple_mirrors
    ple_source
small_pool_bytes = refl

abbrev settings : MambaArgs
settings = record { enable_int8_mamba_checkpoint = true; int8_mamba_ckpt_size = 3 }

maybe_init-decides_example :
    Decided small_shape side_states
      (some 464)
      (maybe_init_int8_mamba_checkpoint_pool (some settings) 8 small_shape side_states (some 464))
maybe_init-decides_example =
    maybe_init-decides settings 8 3 small_shape side_states (some 464)
      (omega arith, (omega arith, (omega arith, omega arith))) refl (inl (omega arith, refl))
