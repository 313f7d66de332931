-- ===== src/Ngram/Prepare.antt =====
-- runtime-src/qwen4_exp.py: `_prepare_ple_batch`, and the windows that `compute_ngram_ids` hashes. The
-- pool of the contexts is not part of the repository: a record of its operations, as the code calls them.
use sglang_flashnext_nvfp4kv.Prelude.{
  ℕ, zero, suc, ◌-◌, Bool, true, false, ◌&&◌, ◌||◌, not, List, [], ◌∷◌, ◌++◌, map, Option, none,
  some, length, take, drop, replicate, get_or, set, nat_eq, ◌==◌, ltb, if◌then◌else◌,
}
use sglang_flashnext_nvfp4kv.Ngram.Batch.{
  two_batch_overlap, ngram_speculation, topk_not_one, index_error, wrong_context_width, Checked,
  raised, ok, and_then, ForwardMode, SpecInfo, ForwardBatch, ple_forward_mode,
  processed_token_count, Layout, layout_of,
}

-- `get_mamba_indices`, `get_ngram_context`, `set_ngram_context` and `set_ngram_intermediate_context`.
pub record ContextPool (C : Type 0) : Type 0 where
  pub mamba_index : C → ℕ → ℕ
  pub context_width : C → ℕ
  pub get_context : C → List ℕ → List (List ℕ)
  pub set_context : C → List ℕ → List (List ℕ) → C
  pub set_intermediate : C → List (List (List ℕ)) → C

pub record PleBatch : Type 0 where
  pub mode : ForwardMode
  pub use_decode_fast_path : Bool
  pub physical_tokens : ℕ
  pub processed_tokens : ℕ
  pub layout : Layout
  pub valid_tokens : List Bool
  pub state_indices : List ℕ
  pub ngram_context : Option (List (List ℕ))
  pub eos_token_id : ℕ

-- The settings of the call: `ngram_size` and the end of sequence, where the model has n-grams, and
-- whether the fused kernels are enabled.
pub record Settings : Type 0 where
  pub ngram_size : Option ℕ
  pub eos_token_id : ℕ
  pub enable_fusion : Bool

-- `token_offsets < lengths.index_select(0, req_indices)`.
unfoldable pub valid_of : List ℕ → List ℕ → List ℕ → List Bool
valid_of lens [] offsets = []
valid_of lens (r ∷ rs) [] = []
valid_of lens (r ∷ rs) (o ∷ os) = ltb o (get_or lens r 0) ∷ valid_of lens rs os

abbrev pub kept_where : List Bool → List ℕ → List ℕ
kept_where [] xs = []
kept_where (b ∷ bs) [] = []
kept_where (b ∷ bs) (x ∷ xs) = (if b then x else 0) ∷ kept_where bs xs

abbrev pub both : List Bool → List Bool → List Bool
both [] bs = []
both (x ∷ xs) [] = []
both (x ∷ xs) (b ∷ bs) = (x && b) ∷ both xs bs

abbrev pub nonzero : List ℕ → List Bool
nonzero = map (λ x. not (x == 0))

abbrev pub any : List Bool → Bool
any [] = false
any (b ∷ bs) = b || any bs

-- `reshape(n, w)`.
abbrev pub reshape {ℓ} : {A : Type ℓ} → ℕ → ℕ → List A → List (List A)
reshape zero w xs = []
reshape (suc n) w xs = take w xs ∷ reshape n w (drop w xs)

-- Padded sequences go to the reserved slot 0.
abbrev pub real_rows : ForwardMode → Option (List ℕ) → Layout → ℕ → List Bool
real_rows mode none l processed = nonzero l.lengths
real_rows mode (some loc) l processed =
    let count = length l.lengths in
    if mode.is_decode
    then both (nonzero l.lengths) (nonzero (take count loc))
    else if mode.is_target_verify
    then both (nonzero l.lengths)
        (map any (reshape count l.row_width (nonzero (take processed loc))))
    else nonzero l.lengths

abbrev pub fast_rows : Option (List ℕ) → List ℕ → List ℕ
fast_rows none states = states
fast_rows (some loc) states = kept_where (nonzero (take (length states) loc)) states

-- `padded[r, o] = v`.
abbrev pub put : List (List ℕ) → ℕ → ℕ → ℕ → List (List ℕ)
put rows r o v = set rows r (set (get_or rows r []) o v)

-- The tokens written to their places, an invalid one as an end of sequence.
unfoldable pub scatter : ℕ → List (List ℕ) → List ℕ → List ℕ → List Bool → List ℕ → List (List ℕ)
scatter eos rows (r ∷ rs) (o ∷ os) (b ∷ bs) (t ∷ ts) =
    scatter eos (put rows r o (if b then t else eos)) rs os bs ts
scatter eos rows rs os bs ts = rows

abbrev pub all_below : ℕ → List ℕ → Bool
all_below n [] = true
all_below n (x ∷ xs) = ltb x n && all_below n xs

unfoldable pub padded_rows : ℕ → Layout → List Bool → List ℕ → List (List ℕ)
padded_rows eos l valid tokens =
    scatter eos (replicate (length l.lengths) (replicate l.row_width eos)) l.req_indices
      l.token_offsets valid tokens

-- `cat` along the columns.
unfoldable pub cat_columns : List (List ℕ) → List (List ℕ) → List (List ℕ)
cat_columns [] rows = []
cat_columns (h ∷ hs) [] = []
cat_columns (h ∷ hs) (row ∷ rows) = (h ++ row) ∷ cat_columns hs rows

abbrev pub topk_of : Option SpecInfo → ℕ
topk_of none = 1
topk_of (some info) = info.topk

module _ {C : Type 0} (api : ContextPool C) (s : Settings) where
  abbrev pub state_rows : C → ForwardBatch → ForwardMode → Bool → Layout → ℕ → List ℕ
  state_rows pool b mode fast l processed =
      let count = length l.lengths in
      let states = map (api.mamba_index pool) (take count b.req_pool_indices) in
      if fast
      then fast_rows b.out_cache_loc states
      else kept_where (real_rows mode b.out_cache_loc l processed) states

  -- The histories beside the tokens; the fast path takes the tokens as the one column.
  abbrev pub context_rows :
      C → Bool → Layout → List Bool → List ℕ → List ℕ → ℕ → Checked (List (List ℕ))
  context_rows pool fast l valid states tokens ngram_size =
      let padded =
        if fast then map (λ t. t ∷ []) tokens else padded_rows s.eos_token_id l valid tokens in
      if not fast && not (all_below l.row_width l.token_offsets)
      then raised index_error
      else if not (api.context_width pool == ngram_size - 1)
      then raised wrong_context_width
      else ok (cat_columns (api.get_context pool states) padded)

  abbrev pub ngram_rows :
      C → Bool → Layout → List Bool → List ℕ → List ℕ → Option ℕ → Checked (Option (List (List ℕ)))
  ngram_rows pool fast l valid states tokens none = ok none
  ngram_rows pool fast l valid states tokens (some n) =
      and_then (context_rows pool fast l valid states tokens n) (λ rows. ok (some rows))

  unfoldable pub prepare_layout :
      C → ForwardBatch → ForwardMode → List ℕ → ℕ → Layout → Checked (Option PleBatch)
  prepare_layout pool b mode input_ids processed l =
      let fast = s.enable_fusion && mode.is_decode in
      let tokens = take processed input_ids in
      let valid =
        if fast
        then replicate processed true
        else valid_of l.lengths l.req_indices l.token_offsets in
      let states = state_rows pool b mode fast l processed in
      and_then (ngram_rows pool fast l valid states tokens s.ngram_size) (λ rows. ok (
        some record {
          mode = mode;
          use_decode_fast_path = fast;
          physical_tokens = length input_ids;
          processed_tokens = processed;
          layout = l;
          valid_tokens = valid;
          state_indices = states;
          ngram_context = rows;
          eos_token_id = s.eos_token_id;
        }))

  unfoldable pub prepare_ple_batch : C → ForwardBatch → List ℕ → Checked (Option PleBatch)
  prepare_ple_batch pool b input_ids =
      let mode = ple_forward_mode b in
      if b.has_tbo_parent_token_range
      then raised two_batch_overlap
      else if b.spec_algorithm_is_ngram
      then raised ngram_speculation
      else if not (topk_of b.spec_info == 1)
      then raised topk_not_one
      else if mode.is_idle
      then ok none
      else and_then (processed_token_count b (length input_ids)) (λ processed.
        and_then (layout_of b mode processed)
          (λ l. prepare_layout pool b mode input_ids processed l))

-- `unfold(1, n, 1)[r, o]`: the window of n columns from column o on.
abbrev pub window : ℕ → List ℕ → ℕ → List ℕ
window n row o = take n (drop o row)

unfoldable pub picked_windows : ℕ → List (List ℕ) → List ℕ → List ℕ → List (List ℕ)
picked_windows n rows [] offsets = []
picked_windows n rows (r ∷ rs) [] = []
picked_windows n rows (r ∷ rs) (o ∷ os) =
    window n (get_or rows r []) o ∷ picked_windows n rows rs os

-- The contexts of `compute_ngram_ids`, one for each token.
unfoldable pub token_windows : ℕ → PleBatch → List (List ℕ) → List (List ℕ)
token_windows n batch rows =
    if batch.use_decode_fast_path
    then rows
    else picked_windows n rows batch.layout.req_indices batch.layout.token_offsets
