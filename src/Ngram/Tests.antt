-- ===== src/Ngram/Tests.antt =====
-- Runs of the n-gram embedding on small inputs.
use sglang_flashnext_nvfp4kv.Prelude.{
  ℕ, zero, suc, ◌+◌, ◌*◌, ◌%◌, ◌≤◌, ◌<◌, ◌≡◌, refl, [], ◌∷◌, map, arith, get_or, range,
}
use sglang_flashnext_nvfp4kv.Ngram.Multipliers.{
  splitmix64, multiplier, build_layer_multipliers, build_layer_multipliers-fit, max_long,
  half_bound,
}
use sglang_flashnext_nvfp4kv.Ngram.Heads.{
  NgramConfig, NgramEmbedding, embedding_of, ngram_embedding, built, head_tables,
  build_head_vocab_and_offsets, find_nth_prime_after, build_head_vocab_and_offsets-strict,
}
use sglang_flashnext_nvfp4kv.Ngram.Shift.{
  eos_pos, cummax, segment_start, shifted_at, shift_right_ignore_eos,
}
use sglang_flashnext_nvfp4kv.Ngram.Back.{token_back, shift_right_ignore_eos-token_back}
use sglang_flashnext_nvfp4kv.Ngram.Hash.{
  hash_contexts, blocks, head_ids, mixed, mix_from, xor_rows, mul_int64, remainder_int64,
}
use sglang_flashnext_nvfp4kv.Ngram.Ranges.{HeadRange, hash_contexts-range}
use sglang_flashnext_nvfp4kv.Ngram.Keys.{ngram_ids, hash_contexts-key}

-- The published first output of the generator for the seed 0.
splitmix64_zero : splitmix64 0 ≡ 0xe220a8397b1dcdaf
unfolding splitmix64
splitmix64_zero = refl

abbrev small_config : NgramConfig
small_config = record {
  ngram_size = 3;
  heads_per_ngram = 2;
  vocab_size = 100;
  ngram_vocab_size_base = 11;
  divisible_by = 8;
  eos_token_id = 2;
  seed = 1234;
}

-- A function with a larger answer, in place of the next prime.
abbrev next : ℕ → ℕ
next n = n + 2

larger : (n : ℕ) → n < next n
larger n = omega arith

abbrev small : NgramEmbedding
small = embedding_of next small_config 8 0

small_built : ngram_embedding next small_config 8 0 ≡ built small
unfolding ngram_embedding
small_built = refl

build_layer_multipliers-fit_example :
    (multiplier 100 1234 1 % 2 ≡ 1) × (99 * multiplier 100 1234 1 ≤ max_long)
unfolding build_layer_multipliers
build_layer_multipliers-fit_example =
    build_layer_multipliers-fit 100 1234 0 3 1 (multiplier 100 1234 1) 99 refl (omega arith)
      (omega arith)

build_head_vocab_and_offsets-strict_example : 16 < 20
unfolding build_head_vocab_and_offsets head_tables find_nth_prime_after
build_head_vocab_and_offsets-strict_example =
    build_head_vocab_and_offsets-strict next 4 11 0 1 2 0 16 20 larger refl refl (omega arith)

shift_right_ignore_eos-token_back_example :
    shift_right_ignore_eos 2 (5 ∷ 2 ∷ 7 ∷ 8 ∷ []) 1
    ≡ map (λ i. token_back 2 (5 ∷ 2 ∷ 7 ∷ 8 ∷ []) i 1) (range 4)
shift_right_ignore_eos-token_back_example =
    shift_right_ignore_eos-token_back 2 (5 ∷ 2 ∷ 7 ∷ 8 ∷ []) 1

shifts_within_segment : shift_right_ignore_eos 2 (5 ∷ 2 ∷ 7 ∷ 8 ∷ []) 1 ≡ 2 ∷ 5 ∷ 2 ∷ 7 ∷ []
unfolding shift_right_ignore_eos shifted_at segment_start cummax eos_pos
shifts_within_segment = refl

hash_contexts-key_example :
    hash_contexts small (5 ∷ 2 ∷ 7 ∷ []) ≡ ngram_ids small (5 ∷ 2 ∷ 7 ∷ []) 2 2
unfolding embedding_of
hash_contexts-key_example =
    hash_contexts-key next small_config 8 0 small (5 ∷ 2 ∷ 7 ∷ []) small_built (omega arith)
      (omega arith) in_vocab
  where
    in_vocab : (i : ℕ) → get_or (5 ∷ 2 ∷ 7 ∷ []) i 2 < 100
    in_vocab zero = omega arith
    in_vocab (suc zero) = omega arith
    in_vocab (suc (suc zero)) = omega arith
    in_vocab (suc (suc (suc i))) = omega arith

hash_contexts-range_example : HeadRange (12 ∷ 14 ∷ 16 ∷ 18 ∷ []) (0 ∷ 12 ∷ 26 ∷ 42 ∷ []) 2 35 64
unfolding embedding_of build_head_vocab_and_offsets head_tables find_nth_prime_after hash_contexts
    blocks head_ids mixed mix_from xor_rows mul_int64 remainder_int64 shift_right_ignore_eos
    shifted_at segment_start cummax eos_pos build_layer_multipliers multiplier splitmix64 half_bound
hash_contexts-range_example =
    hash_contexts-range next small_config 8 0 small (5 ∷ 2 ∷ 7 ∷ []) 2 35 larger small_built refl
