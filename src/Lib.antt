-- ===== src/Lib.antt =====
-- The expert pools, the request and table memory and the sparse indexer of the patched serving engine.
--
-- The program keeps a subset of a mixture-of-experts layer's experts on the GPU and the rest in pinned
-- host memory. At load time `maybe_shrink_after_process` rebuilds every expert tensor to the kept rows
-- and some free slots (ColdPool.Shrink). While serving, the router adds a bias column that closes the
-- absent experts and sends the ids it selects through a remap table to physical rows (ColdPool.Router).
-- It also stashes the demand it sees (ColdPool.Demand); after a forward pass the hook
-- (ColdPool.Hook) reads the stash and copies experts in demand into slots, evicting the least recently
-- staged (ColdPool.Staging). `_phase_b` demotes kept experts that starve (ColdPool.Degrade).
--
-- An earlier version of the pool (Tier) keeps cold experts in host memory and copies some into a ring
-- of rows in every step.
-- Checkpoints of the recurrent state are copied between the active pool and a pool of checkpoint slots
-- (Checkpoint), and requests get their rows of the request table, a slot of the recurrent state and a
-- ping-pong buffer of such slots from ReqPool. KvPool has the byte arithmetic of the KV buffers.
-- Ple keeps a large embedding table in a file, with a sidecar that says which checkpoint it holds, and
-- Qsa turns the key blocks that sparse attention selects into token indices, from the logits of Mqa.
-- A script chooses the ids of a draft vocabulary (TokenMap). The per-layer embedding hashes each token
-- with the ones before it, through a history of the request that every forward pass reads and
-- commits (Ngram).
--
-- Files and sources:
--   ColdPool and below   patches/expert_cold_pool.py. State: LayerPool, `_BIAS_CACHE`, `_REMAP_CACHE`,
--     the stats. Staging: _unmask, _mask, _evict_row, _pick_row, _return_row, _row_from_host and the
--     staging loop. Router: _remap_or_none, remap_topk_ids, remap_packed_ids, the identity gate,
--     apply_keep_mask. Shrink: build_tables, _inventory_gate, LayerPool.__init__, the body of
--     maybe_shrink_after_process for one module. Demand: stash_demand. Hook: after_forward_hook for one
--     layer. Degrade: _phase_b. Ownership, Tables, Weights, Invariant, Steps, Serving, Lru, Lanes,
--     Reach, Progress, Shrink.Contents, Shrink.Start, Shrink.Arms: proofs.
--   Tier and below       patches/expert_tier.py. State: the tables of LayerTier, its remap, and
--     apply_to_topk_output. Table, Eager, Captured: proofs. `torch.topk` is a parameter whose law says
--     that its entries come in descending order.
--   Checkpoint and below runtime-src/mamba_checkpoint_pool.py. State: store_from_active and
--     load_to_active, the quantization a pair of functions. Transfer, Arrival: proofs. Sizes: the buffers,
--     estimate_mem_usage_bytes and maybe_init_int8_mamba_checkpoint_pool. Budget: proofs.
--   ReqPool and below    runtime-src/memory_pool.py. Slots: ReqToTokenPool. Hybrid and PingPong:
--     HybridReqToTokenPool, with MambaSlotAllocator as a record of operations and their laws.
--     Conserve, HybridSlots, HybridLoop, HybridAlloc, HybridFree: proofs.
--   KvPool and below     runtime-src/memory_pool.py. Spans: KvBufferDesc, KVWriteLoc.
--   Ple and below        runtime-src/qwen4_exp_ple_table.py. Prefetch: pages_for_rows and enqueue of the
--     file prefetcher. Trim: trim_once. Table: allocate_ple_host_table and the two factories. Each with
--     its proofs. Sidecar: ple_sidecar_is_valid, ple_sidecar_write. Sealing: proofs.
--   Qsa and below        runtime-src/kernel.py. Expand: expand_qsa_block_indices with its Torch and its
--     Triton path. Compact, Rows, Lookup, Columns, Row, Agree: proofs.
--   Mqa and below        runtime-src/mqa.py. Prefill: qsa_mqa_prefill, by Torch and by the split-K and mask
--     kernels. Decode: qsa_mqa_decode, by Torch and by the paged kernel. Split, Stores, Windows; Pages,
--     Groups, Tiles, Contexts, Decoded: proofs.
--   TokenMap and below   scripts/build_token_map.py. Select: select_ids. Sorting, Filling, Chosen,
--     Outcomes: proofs.
--   Ngram and below      runtime-src/qwen4_exp.py. Multipliers, Heads, Shift, Hash: the methods of
--     Qwen4ExpNGramEmbedding that make the ids. Batch and Prepare: _prepare_ple_batch and the windows of
--     compute_ngram_ids. Commit: _commit_ple_batch, _ple_track_targets. Chunks: passes in a row, as
--     Qwen4ExpModel.forward makes them. Bits, Back, Slices, Ranges, Columns, Keys, Packed, Filled,
--     Stream, Rows, Extend, History, Decode, Agree: proofs. Store: a pool of contexts for the tests.
--   Prelude and below    shared names, lists, dictionaries, integers.
--
-- The model: Python dictionaries are association lists in insertion order; GPU tensors are lists of
-- rows of a type `R`, floats a type `V`, and torch's operations on them are fields of the records
-- `Device` and `Scores`. Loops run over lists, or over counters that the code
-- computes; only the trim's loop has fuel, the table's size, which its growing offsets cannot exceed.
-- The 32-bit packed ids wrap around as int32. The indexer's scores are a parameter, the same on both
-- of its paths. In Ngram a 64-bit integer is its bit pattern, products wrap at 2 ^ 64, and
-- `sympy.nextprime` and the pool of the contexts are parameters with laws.
--
-- Not modelled: logging, garbage collection and the pinned buffer's layout, two names of
-- ALL_PARAMS bound to one parameter, the counter that runs the hook on every eighth call, the
-- checksum self-check; the loading of the keep file and of the frequency table; of the request
-- pools the token matrix and the state tensors; the tensors of the KV pools; the top-k selection and
-- the attention itself, the rounding of the scores and the padding of their heads; of the PLE table
-- its threads, msync and the device check; the checkpoint pool's slot allocator; of the n-gram
-- embedding the fused hash kernel, the windows that the layers share and the gather of
-- lookups between ranks; the model's layers, the model runner, the deployment scripts, benchmarks and
-- tests.
pub mod Prelude
pub mod ColdPool
pub mod ReqPool
pub mod Tier
pub mod Checkpoint
pub mod Ple
pub mod KvPool
pub mod Qsa
pub mod Mqa
pub mod TokenMap
pub mod Ngram
