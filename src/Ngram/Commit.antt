-- ===== src/Ngram/Commit.antt =====
-- runtime-src/qwen4_exp.py: `_commit_ple_batch` and `_ple_track_targets`.
use sglang_flashnext_nvfp4kv.Prelude.{
  ℕ, ◌+◌, ◌-◌, Bool, List, [], ◌∷◌, map, Option, none, some, length, take, drop, replicate, nat_eq,
  ◌==◌, if◌then◌else◌, min, get_or,
}
use sglang_flashnext_nvfp4kv.Prelude.Int.{ℤ, pos, negsuc}
use sglang_flashnext_nvfp4kv.Ngram.Batch.{ForwardBatch}
use sglang_flashnext_nvfp4kv.Ngram.Prepare.{ContextPool, PleBatch, kept_where, reshape, window}

abbrev pub clamp_zero : ℤ → ℕ
clamp_zero (pos n) = n
clamp_zero (negsuc n) = 0

-- `aligned.clamp(min=0).minimum(lengths)`.
abbrev pub track_offsets : List ℤ → List ℕ → List ℕ
track_offsets [] lens = []
track_offsets (z ∷ zs) [] = []
track_offsets (z ∷ zs) (n ∷ lens) = min (clamp_zero z) n ∷ track_offsets zs lens

abbrev pub aligned_offsets : Option (List ℤ) → List ℕ → Option (List ℕ)
aligned_offsets none lens = none
aligned_offsets (some zs) lens = some (track_offsets (take (length lens) zs) lens)

abbrev pub with_target : {A B : Type 0} → A → Option B → Option (A × B)
with_target a none = none
with_target a (some b) = some (a, b)

-- The slots of the snapshot, 0 where it is masked off, and the columns it starts at.
abbrev pub targets : PleBatch → Option (List ℤ) → List ℕ → List Bool → Option (List ℕ × List ℕ)
targets batch aligned indices mask =
    let lens = batch.layout.lengths in
    let dst = kept_where (take (length lens) mask) (take (length lens) indices) in
    if batch.mode.is_decode
    then some (dst, lens)
    else with_target dst (aligned_offsets aligned lens)

abbrev pub targets_of :
    PleBatch → Option (List ℤ) → Option (List ℕ) → Option (List Bool) → Option (List ℕ × List ℕ)
targets_of batch aligned none mask = none
targets_of batch aligned (some indices) none = none
targets_of batch aligned (some indices) (some mask) = targets batch aligned indices mask

unfoldable pub ple_track_targets : ForwardBatch → PleBatch → Option (List ℕ × List ℕ)
ple_track_targets b batch =
    targets_of batch b.mamba_track_aligned_lens b.mamba_track_indices b.mamba_track_mask

-- `context.gather(1, offsets + arange(n))`, on rows that are wide enough.
unfoldable pub gather_rows : ℕ → List (List ℕ) → List ℕ → List (List ℕ)
gather_rows n [] offsets = []
gather_rows n (row ∷ rows) [] = []
gather_rows n (row ∷ rows) (o ∷ offsets) = window n row o ∷ gather_rows n rows offsets

-- One row of the verify snapshots: each step's context, or ends of sequence at an invalid step.
abbrev pub steps_of : ℕ → ℕ → List ℕ → ℕ → List Bool → List (List ℕ)
steps_of n eos row o [] = []
steps_of n eos row o (b ∷ bs) =
    (if b then window n row (o + 1) else replicate n eos) ∷ steps_of n eos row (o + 1) bs

abbrev pub step_contexts : ℕ → ℕ → List (List ℕ) → List (List Bool) → List (List (List ℕ))
step_contexts n eos [] valid = []
step_contexts n eos (row ∷ rows) [] = []
step_contexts n eos (row ∷ rows) (v ∷ valid) =
    steps_of n eos row 0 v ∷ step_contexts n eos rows valid

module _ {C : Type 0} (api : ContextPool C) where
  abbrev pub set_tracked : C → List (List ℕ) → Option (List ℕ × List ℕ) → C
  set_tracked pool rows none = pool
  set_tracked pool rows (some (indices, offsets)) = api.set_context pool indices rows

  abbrev pub gather_tracked : ℕ → C → List (List ℕ) → Option (List ℕ × List ℕ) → C
  gather_tracked n pool rows none = pool
  gather_tracked n pool rows (some (indices, offsets)) =
      api.set_context pool indices (gather_rows n rows offsets)

  -- `context_len` is the width of the rows less the tokens' columns.
  unfoldable pub commit_rows : C → PleBatch → ForwardBatch → List (List ℕ) → C
  commit_rows pool batch b rows =
      let l = batch.layout in
      let context_len = length (get_or rows 0 []) - l.row_width in
      let track = ple_track_targets b batch in
      let advanced = map (drop l.row_width) rows in
      let next = gather_rows context_len rows l.lengths in
      if batch.mode.is_target_verify
      then api.set_intermediate pool (
          step_contexts context_len batch.eos_token_id rows
            (reshape (length l.lengths) l.row_width batch.valid_tokens))
      else if batch.use_decode_fast_path
      then set_tracked (api.set_context pool batch.state_indices advanced) advanced track
      else gather_tracked context_len (api.set_context pool batch.state_indices next) rows track

  abbrev pub commit_context : C → PleBatch → ForwardBatch → Option (List (List ℕ)) → C
  commit_context pool batch b none = pool
  commit_context pool batch b (some rows) =
      if batch.processed_tokens == 0 then pool else commit_rows pool batch b rows

  unfoldable pub commit_ple_batch : C → Option PleBatch → ForwardBatch → C
  commit_ple_batch pool none b = pool
  commit_ple_batch pool (some batch) b = commit_context pool batch b batch.ngram_context
