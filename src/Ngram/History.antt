-- ===== src/Ngram/History.antt =====
-- The windows of a packed forward pass and the histories that it leaves behind.
use sglang_flashnext_nvfp4kv.Prelude.{
  ℕ, suc, ◌+◌, ◌-◌, ◌≤◌, ◌≡◌, ◌∙◌, refl, ap, sym, Bool, false, List, [], ◌∷◌, ◌++◌, map, Option,
  none, some, arith, length, length-append, length-map, length-take, length-replicate, take, drop,
  replicate, get_or, nat_eq, ◌==◌, Option-cases, inl, inr, not,
}
use sglang_flashnext_nvfp4kv.ColdPool.Ownership.{Distinct}
use sglang_flashnext_nvfp4kv.Ngram.Batch.{ForwardBatch, ple_forward_mode, sum, largest, ok}
use sglang_flashnext_nvfp4kv.Ngram.Filled.{AllAtMost, filled}
use sglang_flashnext_nvfp4kv.Ngram.Prepare.{
  ContextPool, Settings, kept_where, nonzero, real_rows, cat_columns, token_windows,
  prepare_ple_batch,
}
use sglang_flashnext_nvfp4kv.Ngram.Commit.{
  commit_rows, commit_ple_batch, ple_track_targets, gather_rows, gather_tracked,
}
use sglang_flashnext_nvfp4kv.Ngram.Stream.{length-next_context}
use sglang_flashnext_nvfp4kv.Ngram.Rows.{
  AllOfWidth, windows_of, contexts_after, picked_windows-filled, gather_rows-filled,
}
use sglang_flashnext_nvfp4kv.Ngram.Extend.{
  Apart, ContextLaws, PlainExtend, extend_layout_of, extend_states, extend_rows, extend_batch,
  extend_batch-prepared, largest-AllAtMost,
}

pub length-kept_where :
    (bs : List Bool) (xs : List ℕ) → length bs ≡ length xs → length (kept_where bs xs) ≡ length xs
length-kept_where [] [] h = refl
length-kept_where [] (x ∷ xs) h = absurd (omega arith)
length-kept_where (b ∷ bs) [] h = absurd (omega arith)
length-kept_where (b ∷ bs) (x ∷ xs) h = ap suc (length-kept_where bs xs (omega arith))

length-contexts_after :
    (c : ℕ) (hs : List (List ℕ)) (lens tokens : List ℕ)
    → length hs ≡ length lens
    → length (contexts_after c hs lens tokens) ≡ length lens
unfolding contexts_after
length-contexts_after c [] lens tokens h = h
length-contexts_after c (x ∷ hs) [] tokens h = absurd (omega arith)
length-contexts_after c (x ∷ hs) (l ∷ lens) tokens h =
    ap suc (length-contexts_after c hs lens (drop l tokens) (omega arith))

contexts_after-AllOfWidth :
    (c : ℕ) (hs : List (List ℕ)) (lens tokens : List ℕ)
    → AllOfWidth c hs
    → AllOfWidth c (contexts_after c hs lens tokens)
unfolding contexts_after
contexts_after-AllOfWidth c [] lens tokens h = h
contexts_after-AllOfWidth c (x ∷ hs) [] tokens h = omega arith
contexts_after-AllOfWidth c (x ∷ hs) (l ∷ lens) tokens h = (
  length-next_context c x h.0 (take l tokens),
  contexts_after-AllOfWidth c hs lens (drop l tokens) h.1,
)

-- A row has the history's columns and those of the tokens.
length-first_row :
    (eos w c : ℕ) (hs : List (List ℕ)) (lens tokens : List ℕ)
    → length hs ≡ length lens
    → AllOfWidth c hs
    → AllAtMost lens w
    → length tokens ≡ sum lens
    → 1 ≤ sum lens
    → length (get_or (cat_columns hs (filled eos w lens tokens)) 0 []) ≡ c + w
unfolding cat_columns filled
length-first_row eos w c [] [] tokens h k b n p = absurd (omega arith)
length-first_row eos w c (x ∷ hs) [] tokens h k b n p = absurd (omega arith)
length-first_row eos w c [] (l ∷ lens) tokens h k b n p = absurd (omega arith)
length-first_row eos w c (x ∷ hs) (l ∷ lens) tokens h k b n p = omega (
  arith,
  k.0,
  b.0,
  length-append x (take l tokens ++ replicate (w - l) eos),
  length-append (take l tokens) (replicate (w - l) eos),
  length-take l tokens,
  length-replicate (w - l) eos,
)

module _ {C : Type 0} (api : ContextPool C) (laws : ContextLaws api) (s : Settings) (pool : C)
    {b : ForwardBatch} {lens input_ids : List ℕ} (p : PlainExtend b lens input_ids) where
  abbrev histories : List (List ℕ)
  histories = api.get_context pool (extend_states api s pool b lens input_ids)

  pub extend_real_rows :
      real_rows (ple_forward_mode b) b.out_cache_loc (extend_layout_of lens) (sum lens)
      ≡ nonzero lens
  extend_real_rows = elim (Option-cases b.out_cache_loc) [
    | inl e ↦ rw e refl
    | inr e ↦ simp (e.1, p.not_decode, p.not_verify)
  ]

  length-extend_states : length (extend_states api s pool b lens input_ids) ≡ length lens
  length-extend_states =
      let slots = map (api.mamba_index pool) (take (length lens) b.req_pool_indices) in
      let l : length slots ≡ length lens = omega (
        arith,
        length-map (take (length lens) b.req_pool_indices) (api.mamba_index pool),
        length-take (length lens) b.req_pool_indices,
        p.has_requests,
      ) in
      ap (λ bs. length (kept_where bs slots)) extend_real_rows
      ∙ length-kept_where (nonzero lens) slots (omega (arith, length-map lens (λ x. not (x == 0))))
      ∙ l

  length-tokens : length (take (sum lens) input_ids) ≡ sum lens
  length-tokens = omega (arith, length-take (sum lens) input_ids, p.has_tokens)

  length-histories : length histories ≡ length lens
  length-histories = laws.length_get pool _ ∙ length-extend_states

  extend_windows :
      token_windows
        (suc (api.context_width pool))
        (extend_batch api s pool b lens input_ids)
        (extend_rows api s pool b lens input_ids)
      ≡ windows_of (api.context_width pool) histories lens (take (sum lens) input_ids)
  unfolding token_windows
  extend_windows =
      picked_windows-filled s.eos_token_id (largest lens) (api.context_width pool) lens
        (take (sum lens) input_ids) histories [] 0 refl length-histories (laws.of_width pool _)
        length-tokens

  -- Where the commit writes, when there are tokens.
  pub extend_committed :
      1 ≤ sum lens
      → commit_ple_batch api pool (some (extend_batch api s pool b lens input_ids)) b
        ≡ gather_tracked api
            (api.context_width pool)
            (api.set_context pool
              (extend_states api s pool b lens input_ids)
              (contexts_after (api.context_width pool) histories lens (take (sum lens) input_ids)))
            (extend_rows api s pool b lens input_ids)
            (ple_track_targets b (extend_batch api s pool b lens input_ids))
  unfolding commit_ple_batch commit_rows
  extend_committed h =
      let c = api.context_width pool in
      let tokens = take (sum lens) input_ids in
      let rows = extend_rows api s pool b lens input_ids in
      let e : (sum lens == 0) ≡ false = ground arith in
      let width : length (get_or rows 0 []) - largest lens ≡ c = omega (
        arith,
        length-first_row s.eos_token_id (largest lens) c histories lens tokens length-histories
            (laws.of_width pool _) (largest-AllAtMost lens) length-tokens h,
      ) in
      simp (
        e,
        p.not_verify,
        width,
        gather_rows-filled s.eos_token_id (largest lens) c lens tokens histories length-histories
            (laws.of_width pool _) length-tokens,
      )

tracked_elsewhere :
    {C : Type 0} (api : ContextPool C)
    → ContextLaws api
    → (n : ℕ) (pool : C) (rows : List (List ℕ)) (slots : List ℕ) (track : Option (List ℕ × List ℕ))
    → ((dst offsets : List ℕ) → track ≡ some (dst, offsets) → Apart dst slots)
    → api.get_context (gather_tracked api n pool rows track) slots ≡ api.get_context pool slots
tracked_elsewhere api laws n pool rows slots none h = refl
tracked_elsewhere api laws n pool rows slots (some (dst, offsets)) h =
    laws.read_other pool dst slots (gather_rows n rows offsets) (h dst offsets refl)

-- A packed forward pass, prepared and then committed: the preparation succeeds, each token's window
-- is the n-1 tokens before it and itself, counted through the request's history and its own tokens
-- only, and the commit leaves each request with its last n-1 tokens. Conditions: the laws of the
-- pool, which is n-1 wide; a pass of at least one token with its metadata filled in, whose requests
-- have different slots, the snapshot's slots being others.
pub extend_pass :
    {C : Type 0} (api : ContextPool C)
    → ContextLaws api
    → (s : Settings) (pool : C) (c : ℕ) (b : ForwardBatch) (lens input_ids : List ℕ)
    → PlainExtend b lens input_ids
    → 1 ≤ sum lens
    → s.ngram_size ≡ some (suc c)
    → api.context_width pool ≡ c
    → Distinct (extend_states api s pool b lens input_ids)
    → ((dst offsets : List ℕ)
        → ple_track_targets b (extend_batch api s pool b lens input_ids) ≡ some (dst, offsets)
        → Apart dst (extend_states api s pool b lens input_ids))
    → (prepare_ple_batch api s pool b input_ids
        ≡ ok (some (extend_batch api s pool b lens input_ids)))
      × (token_windows
            (suc c)
            (extend_batch api s pool b lens input_ids)
            (extend_rows api s pool b lens input_ids)
          ≡ windows_of c
              (api.get_context pool (extend_states api s pool b lens input_ids))
              lens
              (take (sum lens) input_ids))
      × (api.get_context
            (commit_ple_batch api pool (some (extend_batch api s pool b lens input_ids)) b)
            (extend_states api s pool b lens input_ids)
          ≡ contexts_after c
              (api.get_context pool (extend_states api s pool b lens input_ids))
              lens
              (take (sum lens) input_ids))
extend_pass api laws s pool c b lens input_ids p h size width distinct apart =
    let states = extend_states api s pool b lens input_ids in
    let w = api.context_width pool in
    let old = api.get_context pool states in
    let tokens = take (sum lens) input_ids in
    let next = contexts_after w old lens tokens in
    let l : length next ≡ length states =
      length-contexts_after w old lens tokens (length-histories api laws s pool p)
      ∙ sym (length-extend_states api laws s pool p) in
    let read : api.get_context
          (commit_ple_batch api pool (some (extend_batch api s pool b lens input_ids)) b) states
        ≡ next =
      ap (λ q. api.get_context q states) (extend_committed api laws s pool p h)
      ∙ tracked_elsewhere api laws w _ _ states _ apart
      ∙ laws.read_back pool states next distinct l
          (contexts_after-AllOfWidth w old lens tokens (laws.of_width pool states)) in
    (
      extend_batch-prepared api s pool b lens input_ids (suc c) p size (omega (arith, width)),
      ap
            (λ k.
              token_windows (suc k) (extend_batch api s pool b lens input_ids)
                (extend_rows api s pool b lens input_ids))
            (sym width)
          ∙ extend_windows api laws s pool p
          ∙ ap (λ k. windows_of k old lens tokens) width,
      read ∙ ap (λ k. contexts_after k old lens tokens) width,
    )
