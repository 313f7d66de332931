-- ===== src/Ngram/PassTests.antt =====
-- Runs of forward passes on a small store of contexts.
use sglang_flashnext_nvfp4kv.Prelude.{
  ℕ, ◌+◌, ◌≤◌, ◌≡◌, refl, true, false, List, [], ◌∷◌, none, some, arith, length, subst,
}
use sglang_flashnext_nvfp4kv.Prelude.Int.{pos}
use sglang_flashnext_nvfp4kv.Ngram.Batch.{
  ForwardBatch, ForwardMode, ok, ple_forward_mode, processed_token_count,
}
use sglang_flashnext_nvfp4kv.Ngram.Prepare.{Settings, prepare_ple_batch, token_windows}
use sglang_flashnext_nvfp4kv.Ngram.Commit.{commit_ple_batch, ple_track_targets}
use sglang_flashnext_nvfp4kv.Ngram.Stream.{sequence_windows, next_context}
use sglang_flashnext_nvfp4kv.Ngram.Rows.{windows_of, contexts_after}
use sglang_flashnext_nvfp4kv.Ngram.Extend.{PlainExtend, extend_rows, extend_batch}
use sglang_flashnext_nvfp4kv.Ngram.History.{extend_pass}
use sglang_flashnext_nvfp4kv.Ngram.Chunks.{
  run_passes, Chunk, Chunked, no_chunks, chunk, Holds, run_passes_chunked,
}
use sglang_flashnext_nvfp4kv.Ngram.Decode.{PlainDecode}
use sglang_flashnext_nvfp4kv.Ngram.Agree.{fused, decode_batch, decode_rows, decode_fast_path_agrees}
use sglang_flashnext_nvfp4kv.Ngram.Store.{Store, store, store_laws}

abbrev plain_extend_mode : ForwardMode
plain_extend_mode = record { is_idle = false; is_decode = false; is_target_verify = false }

-- A pass over the requests at the given rows of the table.
abbrev pass : List ℕ → List ℕ → ForwardBatch
pass rows lens = record {
  has_tbo_parent_token_range = false;
  spec_algorithm_is_ngram = false;
  spec_info = none;
  forward_mode = plain_extend_mode;
  original_forward_mode = none;
  num_token_non_padded_cpu = none;
  extend_seq_lens_cpu = some lens;
  extend_seq_lens = some lens;
  req_pool_indices = rows;
  out_cache_loc = none;
  mamba_track_indices = none;
  mamba_track_mask = none;
  mamba_track_aligned_lens = none;
}

abbrev settings : Settings
settings = record { ngram_size = some 3; eos_token_id = 2; enable_fusion = true }

abbrev histories : Store
histories i = (i, i + 10)

-- Two requests of two and one tokens before one of padding.
abbrev two_rows : ForwardBatch
two_rows = pass (0 ∷ 3 ∷ []) (2 ∷ 1 ∷ [])

abbrev two_tokens : List ℕ
two_tokens = 5 ∷ 6 ∷ 7 ∷ 0 ∷ []

two_rows_extend : PlainExtend two_rows (2 ∷ 1 ∷ []) two_tokens
unfolding ple_forward_mode
two_rows_extend = record {
  no_overlap = refl;
  no_ngram_speculation = refl;
  topk_one = refl;
  not_idle = refl;
  not_decode = refl;
  not_verify = refl;
  has_lens = refl;
  has_lens_cpu = refl;
  counted = refl;
  has_tokens = omega arith;
  has_requests = omega arith;
}

extend_pass_example :
    (prepare_ple_batch store settings histories two_rows two_tokens
      ≡ ok (some (extend_batch store settings histories two_rows (2 ∷ 1 ∷ []) two_tokens)))
    × (token_windows 3
          (extend_batch store settings histories two_rows (2 ∷ 1 ∷ []) two_tokens)
          (extend_rows store settings histories two_rows (2 ∷ 1 ∷ []) two_tokens)
        ≡ windows_of 2 ((1 ∷ 11 ∷ []) ∷ (4 ∷ 14 ∷ []) ∷ []) (2 ∷ 1 ∷ []) (5 ∷ 6 ∷ 7 ∷ []))
    × (store.get_context
          (commit_ple_batch store histories
            (some (extend_batch store settings histories two_rows (2 ∷ 1 ∷ []) two_tokens))
            two_rows)
          (1 ∷ 4 ∷ [])
        ≡ contexts_after 2 ((1 ∷ 11 ∷ []) ∷ (4 ∷ 14 ∷ []) ∷ []) (2 ∷ 1 ∷ []) (5 ∷ 6 ∷ 7 ∷ []))
unfolding ple_forward_mode ple_track_targets
extend_pass_example =
    extend_pass store store_laws settings histories 2 two_rows (2 ∷ 1 ∷ []) two_tokens
      two_rows_extend (omega arith) refl refl (refl, (refl, tt)) (λ dst offsets e. cc)

chunk_of : (n : ℕ) (ids : List ℕ) → 1 ≤ n → n ≤ length ids → Chunk 0 (pass (0 ∷ []) (n ∷ [])) ids
unfolding ple_forward_mode
chunk_of n ids h k = record {
  chunk_length = n;
  extends = record {
    no_overlap = refl;
    no_ngram_speculation = refl;
    topk_one = refl;
    not_idle = refl;
    not_decode = refl;
    not_verify = refl;
    has_lens = refl;
    has_lens_cpu = refl;
    counted = refl;
    has_tokens = omega arith;
    has_requests = omega arith;
  };
  nonempty = h;
  of_request = refl;
  untracked = refl;
}

abbrev two_passes : List (ForwardBatch × List ℕ)
two_passes = (pass (0 ∷ []) (2 ∷ []), 5 ∷ 6 ∷ []) ∷ (pass (0 ∷ []) (1 ∷ []), 7 ∷ 0 ∷ []) ∷ []

two_passes_chunked : Chunked 0 two_passes (5 ∷ 6 ∷ 7 ∷ [])
unfolding chunk_of
two_passes_chunked =
    chunk (chunk_of 2 (5 ∷ 6 ∷ []) (omega arith) (omega arith))
      (chunk (chunk_of 1 (7 ∷ 0 ∷ []) (omega arith) (omega arith)) no_chunks)

run_passes_chunked_example :
    (pool' : Store) × (run_passes store settings 3 histories two_passes
      ≡ ok (sequence_windows 2 (1 ∷ 11 ∷ []) (5 ∷ 6 ∷ 7 ∷ []), pool'))
    × Holds store 2 0 1 pool' (next_context 2 (1 ∷ 11 ∷ []) (5 ∷ 6 ∷ 7 ∷ []))
run_passes_chunked_example =
    run_passes_chunked store store_laws settings 2 0 1 histories (1 ∷ 11 ∷ []) two_passes
      (5 ∷ 6 ∷ 7 ∷ []) refl record { width = refl; has_slot = refl; has_history = refl }
      two_passes_chunked

abbrev decode_pass : ForwardBatch
decode_pass = record (pass (0 ∷ 3 ∷ []) []) {
  forward_mode = record { is_idle = false; is_decode = true; is_target_verify = false };
  num_token_non_padded_cpu = some (pos 2);
  out_cache_loc = some (40 ∷ 0 ∷ []);
}

decode_pass_decodes : PlainDecode decode_pass 2 (8 ∷ 9 ∷ [])
unfolding ple_forward_mode processed_token_count
decode_pass_decodes = record {
  no_overlap = refl;
  no_ngram_speculation = refl;
  topk_one = refl;
  not_idle = refl;
  decodes = refl;
  not_verify = refl;
  counted = refl;
  has_tokens = omega arith;
  has_requests = omega arith;
  has_locations =
      λ loc e. let q : (40 ∷ 0 ∷ []) ≡ loc = cc in subst (λ l. 2 ≤ length l) q (omega arith);
}

decode_fast_path_agrees_example :
    (prepare_ple_batch store (fused settings true) histories decode_pass (8 ∷ 9 ∷ [])
      ≡ ok (some (decode_batch store settings histories decode_pass 2 (8 ∷ 9 ∷ []) true)))
    × (prepare_ple_batch store (fused settings false) histories decode_pass (8 ∷ 9 ∷ [])
        ≡ ok (some (decode_batch store settings histories decode_pass 2 (8 ∷ 9 ∷ []) false)))
    × (token_windows 3
          (decode_batch store settings histories decode_pass 2 (8 ∷ 9 ∷ []) true)
          (decode_rows store settings histories decode_pass 2 (8 ∷ 9 ∷ []))
        ≡ token_windows 3
            (decode_batch store settings histories decode_pass 2 (8 ∷ 9 ∷ []) false)
            (decode_rows store settings histories decode_pass 2 (8 ∷ 9 ∷ [])))
    × (commit_ple_batch store histories
          (some (decode_batch store settings histories decode_pass 2 (8 ∷ 9 ∷ []) true))
          decode_pass
        ≡ commit_ple_batch store histories
            (some (decode_batch store settings histories decode_pass 2 (8 ∷ 9 ∷ []) false))
            decode_pass)
decode_fast_path_agrees_example =
    decode_fast_path_agrees store store_laws settings histories 2 decode_pass 2 (8 ∷ 9 ∷ [])
      decode_pass_decodes refl refl
