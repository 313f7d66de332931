-- ===== src/Ngram/Extend.antt =====
-- A packed forward pass: what `_prepare_ple_batch` and `_commit_ple_batch` do to the histories.
use sglang_flashnext_nvfp4kv.Prelude.{
  ℕ, zero, suc, ◌+◌, ◌-◌, ◌≤◌, ◌≡◌, ◌∙◌, refl, true, false, ◌&&◌, not, List, [], ◌∷◌, ◌++◌, some,
  arith, length, length-take, take, range, count_up, replicate, nat_eq, ◌==◌, ltb, leb, max,
  contains,
}
use sglang_flashnext_nvfp4kv.Prelude.Int.{pos}
use sglang_flashnext_nvfp4kv.ColdPool.Ownership.{Distinct}
use sglang_flashnext_nvfp4kv.Ngram.Batch.{
  ok, ForwardBatch, Layout, ple_forward_mode, sum, token_count, processed_token_count, layout_of,
  largest,
}
use sglang_flashnext_nvfp4kv.Ngram.Packed.{
  req_indices-packed, token_offsets-packed, rows_from, places,
}
use sglang_flashnext_nvfp4kv.Ngram.Filled.{AllAtMost, filled, valid-packed, scatter-packed}
use sglang_flashnext_nvfp4kv.Ngram.Prepare.{
  ContextPool, PleBatch, Settings, prepare_layout, prepare_ple_batch, topk_of, padded_rows,
  cat_columns, all_below, state_rows,
}
use sglang_flashnext_nvfp4kv.Ngram.Rows.{AllOfWidth}

abbrev pub Apart : List ℕ → List ℕ → Type 0
Apart xs ys = (x : ℕ) → contains x xs ≡ true → contains x ys ≡ false

-- What the code relies on of the pool of the contexts: a write to different slots is read back there, is
-- not seen at other slots, and leaves the width and the request table as they are.
pub record ContextLaws {C : Type 0} (api : ContextPool C) : Type 0 where
  pub of_width :
      (pool : C) (slots : List ℕ) → AllOfWidth (api.context_width pool) (api.get_context pool slots)
  pub length_get : (pool : C) (slots : List ℕ) → length (api.get_context pool slots) ≡ length slots
  pub read_back :
      (pool : C) (slots : List ℕ) (rows : List (List ℕ))
      → Distinct slots
      → length rows ≡ length slots
      → AllOfWidth (api.context_width pool) rows
      → api.get_context (api.set_context pool slots rows) slots ≡ rows
  pub read_other :
      (pool : C) (slots others : List ℕ) (rows : List (List ℕ))
      → Apart slots others
      → api.get_context (api.set_context pool slots rows) others ≡ api.get_context pool others
  pub keeps_width :
      (pool : C) (slots : List ℕ) (rows : List (List ℕ))
      → api.context_width (api.set_context pool slots rows) ≡ api.context_width pool
  pub keeps_table :
      (pool : C) (slots : List ℕ) (rows : List (List ℕ)) (r : ℕ)
      → api.mamba_index (api.set_context pool slots rows) r ≡ api.mamba_index pool r

-- A forward pass that extends requests by the given numbers of tokens, the tokens packed one request after
-- the other before the padding, with its metadata filled in.
pub record PlainExtend (b : ForwardBatch) (lens : List ℕ) (input_ids : List ℕ) : Type 0 where
  pub no_overlap : b.has_tbo_parent_token_range ≡ false
  pub no_ngram_speculation : b.spec_algorithm_is_ngram ≡ false
  pub topk_one : topk_of b.spec_info ≡ 1
  pub not_idle : (ple_forward_mode b).is_idle ≡ false
  pub not_decode : (ple_forward_mode b).is_decode ≡ false
  pub not_verify : (ple_forward_mode b).is_target_verify ≡ false
  pub has_lens : b.extend_seq_lens ≡ some lens
  pub has_lens_cpu : b.extend_seq_lens_cpu ≡ some lens
  pub counted : token_count b.num_token_non_padded_cpu (some lens) ≡ some (pos (sum lens))
  pub has_tokens : sum lens ≤ length input_ids
  pub has_requests : length lens ≤ length b.req_pool_indices

abbrev pub extend_layout_of : List ℕ → Layout
extend_layout_of lens = record {
  lengths = lens;
  row_width = largest lens;
  req_indices = rows_from 0 lens;
  token_offsets = places lens;
}

has_sequence : (lens : List ℕ) → ((length lens == 0) && not (sum lens == 0)) ≡ false
has_sequence [] = refl
has_sequence (l ∷ lens) = ground arith

module _ {b : ForwardBatch} {lens input_ids : List ℕ} (p : PlainExtend b lens input_ids) where
  extend_count : processed_token_count b (length input_ids) ≡ ok (sum lens)
  unfolding processed_token_count
  extend_count =
      let e : leb (sum lens) (length input_ids) ≡ true = ground (arith, p.has_tokens) in
      rw (p.has_lens_cpu, p.counted, e) refl

  extend_layout : layout_of b (ple_forward_mode b) (sum lens) ≡ ok (extend_layout_of lens)
  unfolding layout_of
  extend_layout =
      rw
        (
          p.not_verify,
          p.not_decode,
          p.has_lens,
          p.has_lens_cpu,
          req_indices-packed lens,
          token_offsets-packed lens,
          has_sequence lens,
        )
        refl

  pub extend_prepared :
      {C : Type 0} (api : ContextPool C) (s : Settings) (pool : C)
      → prepare_ple_batch api s pool b input_ids
        ≡ prepare_layout api s pool b
            (ple_forward_mode b)
            input_ids
            (sum lens)
            (extend_layout_of lens)
  unfolding prepare_ple_batch
  extend_prepared api s pool =
      let t : (topk_of b.spec_info == 1) ≡ true = ground (arith, p.topk_one) in
      simp (p.no_overlap, p.no_ngram_speculation, t, p.not_idle, extend_count, extend_layout)

all_below-append :
    (n : ℕ) (xs ys : List ℕ)
    → all_below n xs ≡ true
    → all_below n ys ≡ true
    → all_below n (xs ++ ys) ≡ true
all_below-append n [] ys h k = k
all_below-append n (x ∷ xs) ys h k = ground (arith, all_below-append n xs ys)

all_below-count_up : (w n i : ℕ) → i + n ≤ w → all_below w (count_up n i) ≡ true
all_below-count_up w zero i h = refl
all_below-count_up w (suc n) i h =
    let e : ltb i w ≡ true = ground arith in rw e (all_below-count_up w n (suc i) (omega arith))

all_below-places : (w : ℕ) (lens : List ℕ) → AllAtMost lens w → all_below w (places lens) ≡ true
all_below-places w [] h = refl
all_below-places w (l ∷ lens) h =
    all_below-append w (range l) (places lens) (all_below-count_up w l 0 (omega (arith, h.0)))
      (all_below-places w lens h.1)

AllAtMost-up : (w v : ℕ) (lens : List ℕ) → w ≤ v → AllAtMost lens w → AllAtMost lens v
AllAtMost-up w v [] h k = omega arith
AllAtMost-up w v (l ∷ lens) h k = (omega (arith, k.0), AllAtMost-up w v lens h k.1)

pub largest-AllAtMost : (lens : List ℕ) → AllAtMost lens (largest lens)
largest-AllAtMost [] = omega arith
largest-AllAtMost (l ∷ lens) = (
  omega arith,
  AllAtMost-up (largest lens) (max l (largest lens)) lens (omega arith) (largest-AllAtMost lens),
)

-- The batch that the preparation gives.
module _ {C : Type 0} (api : ContextPool C) (s : Settings) (pool : C) (b : ForwardBatch)
    (lens input_ids : List ℕ) where
  abbrev pub extend_states : List ℕ
  extend_states =
      state_rows api s pool b (ple_forward_mode b) false (extend_layout_of lens) (sum lens)

  abbrev pub extend_rows : List (List ℕ)
  extend_rows =
      cat_columns (api.get_context pool extend_states)
        (filled s.eos_token_id (largest lens) lens (take (sum lens) input_ids))

  abbrev pub extend_batch : PleBatch
  extend_batch = record {
    mode = ple_forward_mode b;
    use_decode_fast_path = false;
    physical_tokens = length input_ids;
    processed_tokens = sum lens;
    layout = extend_layout_of lens;
    valid_tokens = replicate (sum lens) true;
    state_indices = extend_states;
    ngram_context = some extend_rows;
    eos_token_id = s.eos_token_id;
  }

  pub extend_batch-prepared :
      (n : ℕ)
      → PlainExtend b lens input_ids
      → s.ngram_size ≡ some n
      → api.context_width pool ≡ n - 1
      → prepare_ple_batch api s pool b input_ids ≡ ok (some extend_batch)
  unfolding prepare_layout padded_rows
  extend_batch-prepared n p h w =
      let f : (s.enable_fusion && (ple_forward_mode b).is_decode) ≡ false =
        ground (arith, p.not_decode) in
      let g : all_below (largest lens) (places lens) ≡ true =
        all_below-places (largest lens) lens (largest-AllAtMost lens) in
      let e : (api.context_width pool == n - 1) ≡ true = ground (arith, w) in
      let m : length (take (sum lens) input_ids) ≡ sum lens =
        omega (arith, length-take (sum lens) input_ids, p.has_tokens) in
      extend_prepared p api s pool
      ∙ simp (
        f,
        h,
        g,
        e,
        valid-packed lens,
        scatter-packed s.eos_token_id (largest lens) lens (take (sum lens) input_ids)
            (largest-AllAtMost lens) m,
      )
