-- ===== src/Ngram/Batch.antt =====
-- runtime-src/qwen4_exp.py: `_get_ple_forward_mode`, `_get_processed_token_count` and the layout that
-- `_prepare_ple_batch` gives to the tokens of a forward pass. A forward mode is known by its three tests.
use sglang_flashnext_nvfp4kv.Prelude.{
  ℕ, suc, ◌+◌, ◌-◌, ◌*◌, ◌/◌, ◌%◌, Bool, true, false, ◌&&◌, not, List, [], ◌∷◌, map, Option, none,
  some, length, take, range, replicate, get_or, nat_eq, ◌==◌, leb, if◌then◌else◌, min, max,
}
use sglang_flashnext_nvfp4kv.Prelude.Int.{ℤ, pos, negsuc}

pub data PleError : Type 0 where
  two_batch_overlap ngram_speculation topk_not_one no_spec_info incomplete_strides : PleError
  lengths_mismatch no_lengths index_error wrong_context_width : PleError
  invalid_token_counts : ℤ → ℕ → PleError

pub data Checked (A : Type 0) : Type 0 where
  raised : PleError → Checked A
  ok : A → Checked A

abbrev pub and_then : {A B : Type 0} → Checked A → (A → Checked B) → Checked B
and_then (raised e) f = raised e
and_then (ok a) f = f a

pub record ForwardMode : Type 0 where
  pub is_idle : Bool
  pub is_decode : Bool
  pub is_target_verify : Bool

-- `topk` is 1 where the speculative information has none.
pub record SpecInfo : Type 0 where
  pub topk : ℕ
  pub draft_token_num : ℤ

pub record ForwardBatch : Type 0 where
  pub has_tbo_parent_token_range : Bool
  pub spec_algorithm_is_ngram : Bool
  pub spec_info : Option SpecInfo
  pub forward_mode : ForwardMode
  pub original_forward_mode : Option ForwardMode
  pub num_token_non_padded_cpu : Option ℤ
  pub extend_seq_lens_cpu : Option (List ℕ)
  pub extend_seq_lens : Option (List ℕ)
  pub req_pool_indices : List ℕ
  pub out_cache_loc : Option (List ℕ)
  pub mamba_track_indices : Option (List ℕ)
  pub mamba_track_mask : Option (List Bool)
  pub mamba_track_aligned_lens : Option (List ℤ)

abbrev pub mode_or : Option ForwardMode → ForwardMode → ForwardMode
mode_or none m = m
mode_or (some original) m = original

unfoldable pub ple_forward_mode : ForwardBatch → ForwardMode
ple_forward_mode b = mode_or b.original_forward_mode b.forward_mode

abbrev pub sum : List ℕ → ℕ
sum [] = 0
sum (x ∷ xs) = x + sum xs

-- `num_token_non_padded_cpu`, or the sum of the lengths.
abbrev pub token_count : Option ℤ → Option (List ℕ) → Option ℤ
token_count (some n) lens = some n
token_count none (some lens) = some (pos (sum lens))
token_count none none = none

abbrev pub checked_count : Option ℤ → ℕ → Checked ℕ
checked_count none physical_tokens = ok physical_tokens
checked_count (some (negsuc n)) physical_tokens =
    raised (invalid_token_counts (negsuc n) physical_tokens)
checked_count (some (pos n)) physical_tokens =
    if leb n physical_tokens then ok n else raised (invalid_token_counts (pos n) physical_tokens)

unfoldable pub processed_token_count : ForwardBatch → ℕ → Checked ℕ
processed_token_count b physical_tokens =
    checked_count (token_count b.num_token_non_padded_cpu b.extend_seq_lens_cpu) physical_tokens

-- Which request each token belongs to, and where it stands in the request's row.
pub record Layout : Type 0 where
  pub lengths : List ℕ
  pub row_width : ℕ
  pub req_indices : List ℕ
  pub token_offsets : List ℕ

-- Rows of w tokens. Where the mode is rewritten to a plain extend the lengths are the full rows.
abbrev pub verify_lengths : Bool → Option (List ℕ) → ℕ → ℕ → List ℕ
verify_lengths true (some lens) n w = take n lens
verify_lengths true none n w = replicate n w
verify_lengths false lens n w = replicate n w

unfoldable pub verify_rows : ForwardBatch → ℕ → ℕ → Checked Layout
verify_rows b processed w =
    let lens = verify_lengths b.forward_mode.is_target_verify b.extend_seq_lens (processed / w) w in
    if w == 0
    then raised incomplete_strides
    else if not (processed % w == 0)
    then raised incomplete_strides
    else if not (length lens == processed / w)
    then raised lengths_mismatch
    else ok record {
      lengths = lens;
      row_width = w;
      req_indices = map (λ p. p / w) (range processed);
      token_offsets = map (λ p. p - p / w * w) (range processed);
    }

abbrev pub verify_layout : ForwardBatch → ℕ → Option SpecInfo → Checked Layout
verify_layout b processed none = raised no_spec_info
verify_layout b processed (some info) = draft_rows info.draft_token_num
  where
    draft_rows : ℤ → Checked Layout
    draft_rows (negsuc n) = raised incomplete_strides
    draft_rows (pos w) = verify_rows b processed w

abbrev pub decode_layout : ℕ → Layout
decode_layout processed = record {
  lengths = replicate processed 1;
  row_width = 1;
  req_indices = range processed;
  token_offsets = map (λ p. 0) (range processed);
}

-- The running sums, from what came before.
unfoldable pub cumsum : ℕ → List ℕ → List ℕ
cumsum total [] = []
cumsum total (x ∷ xs) = (total + x) ∷ cumsum (total + x) xs

-- `torch.searchsorted` from the right: the first place whose entry is larger.
unfoldable pub searchsorted_right : List ℕ → ℕ → ℕ
searchsorted_right [] p = 0
searchsorted_right (x ∷ xs) p =
    let rest = searchsorted_right xs p in if leb x p then suc rest else 0

abbrev pub largest : List ℕ → ℕ
largest [] = 0
largest (x ∷ xs) = max x (largest xs)

abbrev pub extend_width : Option (List ℕ) → ℕ → ℕ
extend_width (some lens) processed = largest lens
extend_width none processed = processed

unfoldable pub query_start_loc : List ℕ → List ℕ
query_start_loc lens = 0 ∷ cumsum 0 lens

unfoldable pub req_index : List ℕ → ℕ → ℕ
req_index lens p = min (searchsorted_right (query_start_loc lens) p - 1) (length lens - 1)

unfoldable pub token_offset : List ℕ → ℕ → ℕ
token_offset lens p = p - get_or (query_start_loc lens) (req_index lens p) 0

-- With tokens and no sequence the selection by index fails.
abbrev pub extend_layout : Option (List ℕ) → Option (List ℕ) → ℕ → Checked Layout
extend_layout none lens_cpu processed = raised no_lengths
extend_layout (some lens) lens_cpu processed =
    if length lens == 0 && not (processed == 0)
    then raised index_error
    else ok record {
      lengths = lens;
      row_width = extend_width lens_cpu processed;
      req_indices = map (req_index lens) (range processed);
      token_offsets = map (token_offset lens) (range processed);
    }

unfoldable pub layout_of : ForwardBatch → ForwardMode → ℕ → Checked Layout
layout_of b mode processed =
    if mode.is_target_verify
    then verify_layout b processed b.spec_info
    else if mode.is_decode
    then ok (decode_layout processed)
    else extend_layout b.extend_seq_lens b.extend_seq_lens_cpu processed
