-- ===== src/Ngram/Chunks.antt =====
-- runtime-src/qwen4_exp.py: forward passes one after the other, each prepared, read and committed.
use mathlib.Core.List.{append-nil}
use sglang_flashnext_nvfp4kv.Prelude.{
  ℕ, zero, suc, ◌≤◌, ◌≡◌, ◌∙◌, refl, ap, sym, subst, false, List, [], ◌∷◌, ◌++◌, Option, none, some,
  arith, length, take, nat_eq, ◌==◌,
}
use sglang_flashnext_nvfp4kv.ColdPool.Ownership.{Distinct}
use sglang_flashnext_nvfp4kv.Ngram.Batch.{Checked, ok, and_then, ForwardBatch, sum}
use sglang_flashnext_nvfp4kv.Ngram.Prepare.{
  ContextPool, PleBatch, Settings, prepare_ple_batch, token_windows,
}
use sglang_flashnext_nvfp4kv.Ngram.Commit.{commit_ple_batch, ple_track_targets, gather_tracked}
use sglang_flashnext_nvfp4kv.Ngram.Stream.{
  sequence_windows, next_context, length-next_context, next_context-nil, sequence_windows-nil,
  sequence_windows-append, next_context-append,
}
use sglang_flashnext_nvfp4kv.Ngram.Rows.{AllOfWidth, windows_of, contexts_after}
use sglang_flashnext_nvfp4kv.Ngram.Extend.{
  ContextLaws, PlainExtend, extend_states, extend_rows, extend_batch,
}
use sglang_flashnext_nvfp4kv.Ngram.History.{extend_pass, extend_real_rows, extend_committed}

module _ {C : Type 0} (api : ContextPool C) (s : Settings) (n : ℕ) where
  -- The contexts that are hashed in one pass, and the pool after its commit.
  abbrev pub read_and_commit : C → ForwardBatch → Option PleBatch → List (List ℕ) × C
  read_and_commit pool b none = ([], commit_ple_batch api pool none b)
  read_and_commit pool b (some batch) =
      (windows_in batch.ngram_context, commit_ple_batch api pool (some batch) b)
    where
      windows_in : Option (List (List ℕ)) → List (List ℕ)
      windows_in none = []
      windows_in (some rows) = token_windows n batch rows

  unfoldable pub run_pass : C → ForwardBatch → List ℕ → Checked (List (List ℕ) × C)
  run_pass pool b input_ids =
      and_then (prepare_ple_batch api s pool b input_ids) (λ o. ok (read_and_commit pool b o))

  unfoldable pub run_passes : C → List (ForwardBatch × List ℕ) → Checked (List (List ℕ) × C)
  run_passes pool [] = ok ([], pool)
  run_passes pool ((b, input_ids) ∷ passes) =
      and_then (run_pass pool b input_ids)
        (λ r. and_then (run_passes r.1 passes) (λ q. ok (r.0 ++ q.0, q.1)))

-- A chunk of one request's tokens, of the request at row r of the table, with no snapshot taken.
pub record Chunk (r : ℕ) (b : ForwardBatch) (input_ids : List ℕ) : Type 0 where
  pub chunk_length : ℕ
  pub extends : PlainExtend b (chunk_length ∷ []) input_ids
  pub nonempty : 1 ≤ chunk_length
  pub of_request : take 1 b.req_pool_indices ≡ r ∷ []
  pub untracked : b.mamba_track_indices ≡ none

abbrev pub chunk_tokens :
    {r : ℕ} {b : ForwardBatch} {input_ids : List ℕ} → Chunk r b input_ids → List ℕ
chunk_tokens {input_ids = ids} k = take k.chunk_length ids

-- The passes cut a sequence of tokens into chunks.
pub data Chunked (r : ℕ) : List (ForwardBatch × List ℕ) → List ℕ → Type 0 where
  no_chunks : Chunked r [] []
  chunk :
      {b : ForwardBatch} {input_ids : List ℕ} {passes : List (ForwardBatch × List ℕ)}
      {rest : List ℕ}
      → (k : Chunk r b input_ids) → Chunked r passes rest
      → Chunked r ((b, input_ids) ∷ passes) (take k.chunk_length input_ids ++ rest)

take-take_same : (n : ℕ) (xs : List ℕ) → take n (take n xs) ≡ take n xs
take-take_same zero xs = refl
take-take_same (suc n) [] = refl
take-take_same (suc n) (x ∷ xs) = rw (take-take_same n xs)

none_some {ℓ κ} : {A : Type ℓ} {B : Type κ} {a : A} → none ≡ some a → B
none_some e = cc

module _ {C : Type 0} (api : ContextPool C) (c r slot : ℕ) where
  -- The pool is c wide, the request has the slot, and the slot's history is h.
  pub record Holds (pool : C) (h : List ℕ) : Type 0 where
    pub width : api.context_width pool ≡ c
    pub has_slot : api.mamba_index pool r ≡ slot
    pub has_history : api.get_context pool (slot ∷ []) ≡ h ∷ []

length-history :
    {C : Type 0} (api : ContextPool C)
    → ContextLaws api
    → (c r slot : ℕ) (pool : C) (h : List ℕ) → Holds api c r slot pool h
    → length h ≡ c
length-history api laws c r slot pool h w =
    (subst (AllOfWidth (api.context_width pool)) w.has_history (laws.of_width pool (slot ∷ []))).0
    ∙ w.width

module _ {C : Type 0} (api : ContextPool C) (laws : ContextLaws api) (s : Settings)
    (c r slot : ℕ) where
  module _ {pool : C} {h : List ℕ} (w : Holds api c r slot pool h) {b : ForwardBatch}
      {input_ids : List ℕ} (k : Chunk r b input_ids) where
    abbrev lens : List ℕ
    lens = k.chunk_length ∷ []

    chunk_states : extend_states api s pool b lens input_ids ≡ slot ∷ []
    chunk_states =
        let e : (k.chunk_length == 0) ≡ false = ground (arith, k.nonempty) in
        rw (extend_real_rows api laws s pool k.extends, k.of_request, w.has_slot, e) refl

    chunk_untracked : ple_track_targets b (extend_batch api s pool b lens input_ids) ≡ none
    unfolding ple_track_targets
    chunk_untracked = rw k.untracked refl

    chunk_sum : sum lens ≡ k.chunk_length
    chunk_sum = omega arith

    chunk_committed :
        commit_ple_batch api pool (some (extend_batch api s pool b lens input_ids)) b
        ≡ api.set_context pool
            (slot ∷ [])
            (contexts_after c (h ∷ []) lens (take k.chunk_length input_ids))
    chunk_committed =
        let tokens = take (sum lens) input_ids in
        let width = api.context_width pool in
        let write = λ (states : List ℕ) (hs : List (List ℕ)) (v : ℕ) (n : ℕ).
          api.set_context pool states (contexts_after v hs lens (take n input_ids)) in
        let rows = extend_rows api s pool b lens input_ids in
        let states = extend_states api s pool b lens input_ids in
        extend_committed api laws s pool k.extends (omega (arith, k.nonempty))
        ∙ ap
            (λ track.
              gather_tracked api width (write states (api.get_context pool states) width (sum lens))
                rows track)
            chunk_untracked
        ∙ ap (λ st. write st (api.get_context pool st) width (sum lens)) chunk_states
        ∙ ap (λ hs. write (slot ∷ []) hs width (sum lens)) w.has_history
        ∙ ap (λ v. write (slot ∷ []) (h ∷ []) v (sum lens)) w.width
        ∙ ap (λ n. write (slot ∷ []) (h ∷ []) c n) chunk_sum

    -- What the pass reads and writes is the slot's history and the chunk.
    in_slot :
        {A : Type 0} (f : List (List ℕ) → List ℕ → A)
        → f
            (api.get_context pool (extend_states api s pool b lens input_ids))
            (take (sum lens) input_ids)
          ≡ f (h ∷ []) (take k.chunk_length input_ids)
    in_slot f =
        ap (λ st. f (api.get_context pool st) (take (sum lens) input_ids)) chunk_states
        ∙ ap (λ hs. f hs (take (sum lens) input_ids)) w.has_history
        ∙ ap (λ n. f (h ∷ []) (take n input_ids)) chunk_sum

    after_chunk :
        s.ngram_size ≡ some (suc c)
        → Holds api c r slot
            (commit_ple_batch api pool (some (extend_batch api s pool b lens input_ids)) b)
            (next_context c h (take k.chunk_length input_ids))
    unfolding contexts_after
    after_chunk size =
        let tokens = take k.chunk_length input_ids in
        let rows = contexts_after c (h ∷ []) lens tokens in
        let wide : AllOfWidth (api.context_width pool) rows = (
          length-next_context c h (length-history api laws c r slot pool h w)
                (take k.chunk_length tokens)
              ∙ sym w.width,
          omega arith,
        ) in
        let read : api.get_context (api.set_context pool (slot ∷ []) rows) (slot ∷ []) ≡ rows =
          laws.read_back pool (slot ∷ []) rows (refl, tt) refl wide in
        subst (λ q. Holds api c r slot q (next_context c h tokens)) (sym chunk_committed)
          record {
            width = laws.keeps_width pool (slot ∷ []) rows ∙ w.width;
            has_slot = laws.keeps_table pool (slot ∷ []) rows r ∙ w.has_slot;
            has_history =
                read ∙ ap (λ t. next_context c h t ∷ []) (take-take_same k.chunk_length input_ids);
          }

    -- One chunk: its windows, and the history after it.
    chunk_pass :
        s.ngram_size ≡ some (suc c)
        → (pool' : C) × (run_pass api s (suc c) pool b input_ids
            ≡ ok (sequence_windows c h (take k.chunk_length input_ids), pool'))
          × Holds api c r slot pool' (next_context c h (take k.chunk_length input_ids))
    unfolding run_pass windows_of
    chunk_pass size =
        let tokens = take k.chunk_length input_ids in
        let distinct = subst Distinct (sym chunk_states) (refl, tt) in
        let q =
          extend_pass api laws s pool c b lens input_ids k.extends (omega (arith, k.nonempty)) size
            w.width distinct (λ dst offsets e. none_some (sym chunk_untracked ∙ e)) in
        let windows : token_windows (suc c) (extend_batch api s pool b lens input_ids)
              (extend_rows api s pool b lens input_ids)
            ≡ sequence_windows c h tokens =
          q.1
          ∙ in_slot (λ hs ts. windows_of c hs lens ts)
          ∙ append-nil (sequence_windows c h (take k.chunk_length tokens))
          ∙ ap (sequence_windows c h) (take-take_same k.chunk_length input_ids) in
        (
          commit_ple_batch api pool (some (extend_batch api s pool b lens input_ids)) b,
          rw (q.0, windows) refl,
          after_chunk size,
        )

-- However a request's tokens are cut into chunks, each extended by a forward pass of its own that
-- is prepared, read and committed, the passes succeed, the windows that they hash are those of the
-- whole sequence, and the history left in the request's slot is that of the whole sequence.
-- Conditions: the laws of the pool, which is n-1 wide and whose slot for the request has the
-- history at the start; passes over the one request, of at least one token, with their metadata
-- filled in and no snapshot.
pub run_passes_chunked :
    {C : Type 0} (api : ContextPool C) (laws : ContextLaws api) (s : Settings) (c r slot : ℕ)
    (pool : C) (h : List ℕ) (passes : List (ForwardBatch × List ℕ)) (tokens : List ℕ)
    → s.ngram_size ≡ some (suc c)
    → Holds api c r slot pool h
    → Chunked r passes tokens
    → (pool' : C) × (run_passes api s (suc c) pool passes ≡ ok (sequence_windows c h tokens, pool'))
      × Holds api c r slot pool' (next_context c h tokens)
unfolding run_passes
run_passes_chunked api laws s c r slot pool h passes tokens size w no_chunks =
    let l = length-history api laws c r slot pool h w in
    (
      pool,
      ap (λ ws. ok (ws, pool)) (sym (sequence_windows-nil c h)),
      subst (Holds api c r slot pool) (sym (next_context-nil c h l)) w,
    )
run_passes_chunked api laws s c r slot pool h passes tokens size w
      (chunk {input_ids = ids} {passes = later} {rest = rest} k ks) =
    let xs = take k.chunk_length ids in
    let l = length-history api laws c r slot pool h w in
    let first = chunk_pass api laws s c r slot w k size in
    let others =
      run_passes_chunked api laws s c r slot first.0 (next_context c h xs) later rest size first.2
        ks in
    (
      others.0,
      rw (first.1, others.1)
          (ap (λ ws. ok (ws, others.0)) (sym (sequence_windows-append c h l xs rest))),
      subst (Holds api c r slot others.0) (sym (next_context-append c h l xs rest)) others.2,
    )
