-- ===== src/Ngram/Agree.antt =====
-- With the fused kernels enabled a decode pass skips the mask, the scatter and the gather.
use sglang_flashnext_nvfp4kv.Prelude.{
  ℕ, suc, ◌-◌, ◌≡◌, ◌∙◌, refl, ap, sym, subst, Bool, true, false, not, List, [], ◌∷◌, map, Option,
  none, some, arith, length, length-map, length-take, length-replicate, take, drop, range,
  replicate, get_or, nat_eq, ◌==◌, Option-cases, Bool-cases, inl, inr,
}
use sglang_flashnext_nvfp4kv.Prelude.Int.{ℤ}
use sglang_flashnext_nvfp4kv.Ngram.Batch.{
  ok, ForwardBatch, ple_forward_mode, layout_of, decode_layout,
}
use sglang_flashnext_nvfp4kv.Ngram.Prepare.{
  ContextPool, PleBatch, Settings, prepare_layout, prepare_ple_batch, topk_of, kept_where, nonzero,
  fast_rows, real_rows, cat_columns, token_windows, picked_windows,
}
use sglang_flashnext_nvfp4kv.Ngram.Commit.{
  commit_rows, commit_ple_batch, ple_track_targets, targets_of, gather_rows, set_tracked,
  gather_tracked,
}
use sglang_flashnext_nvfp4kv.Ngram.Rows.{AllOfWidth}
use sglang_flashnext_nvfp4kv.Ngram.Extend.{ContextLaws}
use sglang_flashnext_nvfp4kv.Ngram.History.{length-kept_where}
use sglang_flashnext_nvfp4kv.Ngram.Decode.{
  PlainDecode, valid-ones, all_below-zeros, padded-ones, kept_where-all, both-all, nonzero-ones,
  picked-all, gather-ones, length-first, singles-AllOfWidth, length-cat_columns,
}

-- The settings with the fused kernels enabled or not.
abbrev pub fused : Settings → Bool → Settings
fused s on = record { ngram_size = s.ngram_size; eos_token_id = s.eos_token_id; enable_fusion = on }

module _ {C : Type 0} (api : ContextPool C) (s : Settings) (pool : C) (b : ForwardBatch) (n : ℕ)
    (input_ids : List ℕ) where
  abbrev pub decode_states : List ℕ
  decode_states = fast_rows b.out_cache_loc (map (api.mamba_index pool) (take n b.req_pool_indices))

  abbrev pub decode_rows : List (List ℕ)
  decode_rows =
      cat_columns (api.get_context pool decode_states) (map (λ t. t ∷ []) (take n input_ids))

  -- The batch of either path; only the flag tells them apart.
  abbrev pub decode_batch : Bool → PleBatch
  decode_batch on = record {
    mode = ple_forward_mode b;
    use_decode_fast_path = on;
    physical_tokens = length input_ids;
    processed_tokens = n;
    layout = decode_layout n;
    valid_tokens = replicate n true;
    state_indices = decode_states;
    ngram_context = some decode_rows;
    eos_token_id = s.eos_token_id;
  }

module _ {b : ForwardBatch} {n : ℕ} {input_ids : List ℕ} (p : PlainDecode b n input_ids) where
  decode_prepared :
      {C : Type 0} (api : ContextPool C) (s : Settings) (pool : C)
      → prepare_ple_batch api s pool b input_ids
        ≡ prepare_layout api s pool b (ple_forward_mode b) input_ids n (decode_layout n)
  unfolding prepare_ple_batch layout_of
  decode_prepared api s pool =
      let t : (topk_of b.spec_info == 1) ≡ true = ground (arith, p.topk_one) in
      simp (p.no_overlap, p.no_ngram_speculation, t, p.not_idle, p.counted, p.not_verify, p.decodes)

  length-slots : (f : ℕ → ℕ) → length (map f (take n b.req_pool_indices)) ≡ n
  length-slots f = omega (
    arith,
    length-map (take n b.req_pool_indices) f,
    length-take n b.req_pool_indices,
    p.has_requests,
  )

  -- Both paths send the same requests to the reserved slot.
  states_agree :
      (slots : List ℕ)
      → length slots ≡ n
      → kept_where (real_rows (ple_forward_mode b) b.out_cache_loc (decode_layout n) n) slots
        ≡ fast_rows b.out_cache_loc slots
  states_agree slots l = elim (Option-cases b.out_cache_loc) [
    | inl e ↦ rw (e, nonzero-ones n) (kept_where-all n slots l)
    | inr e ↦
        let loc = e.0 in
        let m : length (nonzero (take n loc)) ≡ n = omega (
          arith,
          length-map (take n loc) (λ x. not (x == 0)),
          length-take n loc,
          p.has_locations loc e.1,
        ) in
        simp (
          e.1,
          p.decodes,
          length-replicate {A = ℕ} n 1,
          nonzero-ones n,
          both-all n (nonzero (take n loc)) m,
          l,
        )
  ]

  length-fast_rows :
      (slots : List ℕ) → length slots ≡ n → length (fast_rows b.out_cache_loc slots) ≡ n
  length-fast_rows slots l = elim (Option-cases b.out_cache_loc) [
    | inl e ↦ rw e l
    | inr e ↦
        let loc = e.0 in
        let m : length (nonzero (take (length slots) loc)) ≡ length slots = omega (
          arith,
          length-map (take (length slots) loc) (λ x. not (x == 0)),
          length-take (length slots) loc,
          p.has_locations loc e.1,
          l,
        ) in
        rw e.1 (length-kept_where (nonzero (take (length slots) loc)) slots m ∙ l)
  ]

  module _ {C : Type 0} (api : ContextPool C) (laws : ContextLaws api) (s : Settings) (pool : C)
      (c : ℕ) (size : s.ngram_size ≡ some (suc c)) (width : api.context_width pool ≡ c) where
    prepared_by :
        (on : Bool)
        → prepare_ple_batch api (fused s on) pool b input_ids
          ≡ ok (some (decode_batch api s pool b n input_ids on))
    unfolding prepare_layout
    prepared_by on =
        let slots = map (api.mamba_index pool) (take n b.req_pool_indices) in
        let tokens = take n input_ids in
        let lt : length tokens ≡ n = omega (arith, length-take n input_ids, p.has_tokens) in
        let ones : length (replicate {A = ℕ} n 1) ≡ n = length-replicate n 1 in
        let e : (api.context_width pool == suc c - 1) ≡ true = ground (arith, width) in
        elim (Bool-cases on) [
          | inl q ↦ decode_prepared api (fused s on) pool ∙ simp (q, p.decodes, size, ones, e)
          | inr q ↦
              decode_prepared api (fused s on) pool
              ∙ simp (
                q,
                p.decodes,
                size,
                ones,
                valid-ones n,
                all_below-zeros n 0,
                e,
                padded-ones s.eos_token_id n tokens lt,
                states_agree slots (length-slots (api.mamba_index pool)),
              )
        ]

    rows_wide : AllOfWidth (suc c) (decode_rows api s pool b n input_ids)
    rows_wide =
        subst (λ k. AllOfWidth (suc k) (decode_rows api s pool b n input_ids)) width
          (singles-AllOfWidth (api.context_width pool) _ (take n input_ids) (laws.of_width pool _))

    length_rows : length (decode_rows api s pool b n input_ids) ≡ n
    length_rows =
        let slots = map (api.mamba_index pool) (take n b.req_pool_indices) in
        let ls = length-fast_rows slots (length-slots (api.mamba_index pool)) in
        let hs = laws.length_get pool (decode_states api s pool b n input_ids) in
        length-cat_columns _ (take n input_ids)
          (omega (arith, hs, ls, length-take n input_ids, p.has_tokens))
        ∙ hs
        ∙ ls

    windows_agree :
        (on : Bool)
        → token_windows
            (suc c)
            (decode_batch api s pool b n input_ids on)
            (decode_rows api s pool b n input_ids)
          ≡ decode_rows api s pool b n input_ids
    unfolding token_windows
    windows_agree true = refl
    windows_agree false =
        let rows = decode_rows api s pool b n input_ids in
        ap (λ k. picked_windows (suc c) rows (range k) (map (λ p. 0) (range k))) (sym length_rows)
        ∙ picked-all c [] rows 0 refl rows_wide

    -- A decode pass is snapshot after its one token, on either path.
    abbrev snapshot : Option (List ℕ) → Option (List Bool) → Option (List ℕ × List ℕ)
    snapshot none mask = none
    snapshot (some indices) none = none
    snapshot (some indices) (some mask) =
        let ones = replicate n 1 in
        some (kept_where (take (length ones) mask) (take (length ones) indices), ones)

    targets_agree :
        (on : Bool) (aligned : Option (List ℤ)) (indices : Option (List ℕ))
        (mask : Option (List Bool))
        → targets_of (decode_batch api s pool b n input_ids on) aligned indices mask
          ≡ snapshot indices mask
    targets_agree on aligned none mask = refl
    targets_agree on aligned (some indices) none = refl
    targets_agree on aligned (some indices) (some mask) = rw p.decodes refl

    tracked_agree :
        (rows advanced : List (List ℕ)) (q : C) (indices : Option (List ℕ))
        (mask : Option (List Bool))
        → gather_rows c rows (replicate n 1) ≡ advanced
        → set_tracked api q advanced (snapshot indices mask)
          ≡ gather_tracked api c q rows (snapshot indices mask)
    tracked_agree rows advanced q none mask h = refl
    tracked_agree rows advanced q (some indices) none h = refl
    tracked_agree rows advanced q (some indices) (some mask) h = rw h refl

    commits_agree :
        commit_ple_batch api pool (some (decode_batch api s pool b n input_ids true)) b
        ≡ commit_ple_batch api pool (some (decode_batch api s pool b n input_ids false)) b
    unfolding commit_ple_batch commit_rows ple_track_targets
    commits_agree =
        let rows = decode_rows api s pool b n input_ids in
        let states = decode_states api s pool b n input_ids in
        let advanced = map (drop 1) rows in
        elim (Bool-cases (n == 0)) [
          | inl q ↦ rw q refl
          | inr q ↦
              let first : length (get_or rows 0 []) - 1 ≡ c =
                omega (arith, length-first c rows rows_wide (ground (arith, length_rows))) in
              let next : gather_rows c rows (replicate n 1) ≡ advanced =
                ap (λ k. gather_rows c rows (replicate k 1)) (sym length_rows)
                ∙ gather-ones c rows rows_wide in
              let t =
                targets_agree true b.mamba_track_aligned_lens b.mamba_track_indices
                  b.mamba_track_mask in
              simp (q, p.not_verify, first, next, t)
                (tracked_agree rows advanced (api.set_context pool states advanced)
                  b.mamba_track_indices b.mamba_track_mask next)
        ]

-- A decode pass gives the same result with the fused kernels and without: on either path the
-- preparation succeeds with the same batch but for the path's flag, the windows that are hashed are
-- the same, and the commit leaves the same pool, snapshots included. Conditions: the laws of the pool, which is
-- n-1 wide; a decode pass with a token and a slot's metadata for each request.
pub decode_fast_path_agrees :
    {C : Type 0} (api : ContextPool C)
    → ContextLaws api
    → (s : Settings) (pool : C) (c : ℕ) (b : ForwardBatch) (n : ℕ) (input_ids : List ℕ)
    → PlainDecode b n input_ids
    → s.ngram_size ≡ some (suc c)
    → api.context_width pool ≡ c
    → (prepare_ple_batch api (fused s true) pool b input_ids
        ≡ ok (some (decode_batch api s pool b n input_ids true)))
      × (prepare_ple_batch api (fused s false) pool b input_ids
          ≡ ok (some (decode_batch api s pool b n input_ids false)))
      × (token_windows
            (suc c)
            (decode_batch api s pool b n input_ids true)
            (decode_rows api s pool b n input_ids)
          ≡ token_windows
              (suc c)
              (decode_batch api s pool b n input_ids false)
              (decode_rows api s pool b n input_ids))
      × (commit_ple_batch api pool (some (decode_batch api s pool b n input_ids true)) b
          ≡ commit_ple_batch api pool (some (decode_batch api s pool b n input_ids false)) b)
decode_fast_path_agrees api laws s pool c b n input_ids p size width = (
  prepared_by p api laws s pool c size width true,
  prepared_by p api laws s pool c size width false,
  windows_agree p api laws s pool c size width true
      ∙ sym (windows_agree p api laws s pool c size width false),
  commits_agree p api laws s pool c size width,
)
