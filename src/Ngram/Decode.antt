-- ===== src/Ngram/Decode.antt =====
-- The fast path of a decode pass against the general path, which fills, scatters and gathers.
use mathlib.Core.List.{append_assoc}
use sglang_flashnext_nvfp4kv.Prelude.{
  ℕ, zero, suc, ◌≤◌, ◌≡◌, ◌∙◌, refl, ap, sym, Bool, true, false, List, [], ◌∷◌, ◌++◌, map, some,
  arith, length, length-append, drop, range, count_up, replicate, get_or, nat_eq,
}
use sglang_flashnext_nvfp4kv.Ngram.Batch.{
  ok, ForwardBatch, ple_forward_mode, sum, processed_token_count, decode_layout,
}
use sglang_flashnext_nvfp4kv.Ngram.Packed.{rows_from, places}
use sglang_flashnext_nvfp4kv.Ngram.Filled.{
  AllAtMost, filled, valid-packed, scatter-packed, get_or-append_at,
}
use sglang_flashnext_nvfp4kv.Ngram.Prepare.{
  topk_of, kept_where, nonzero, both, padded_rows, cat_columns, picked_windows, scatter, all_below,
  valid_of,
}
use sglang_flashnext_nvfp4kv.Ngram.Commit.{gather_rows}
use sglang_flashnext_nvfp4kv.Ngram.Rows.{AllOfWidth}
use sglang_flashnext_nvfp4kv.Ngram.Stream.{take_all}

-- A decode pass of n requests, one token each.
pub record PlainDecode (b : ForwardBatch) (n : ℕ) (input_ids : List ℕ) : Type 0 where
  pub no_overlap : b.has_tbo_parent_token_range ≡ false
  pub no_ngram_speculation : b.spec_algorithm_is_ngram ≡ false
  pub topk_one : topk_of b.spec_info ≡ 1
  pub not_idle : (ple_forward_mode b).is_idle ≡ false
  pub decodes : (ple_forward_mode b).is_decode ≡ true
  pub not_verify : (ple_forward_mode b).is_target_verify ≡ false
  pub counted : processed_token_count b (length input_ids) ≡ ok n
  pub has_tokens : n ≤ length input_ids
  pub has_requests : n ≤ length b.req_pool_indices
  pub has_locations : (loc : List ℕ) → b.out_cache_loc ≡ some loc → n ≤ length loc

-- One token for each request is a packed pass with lengths one.
rows_from-ones : (n r : ℕ) → rows_from r (replicate n 1) ≡ count_up n r
rows_from-ones zero r = refl
rows_from-ones (suc n) r = rw (rows_from-ones n (suc r)) refl

places-ones : (n i : ℕ) → places (replicate n 1) ≡ map (λ p. 0) (count_up n i)
places-ones zero i = refl
places-ones (suc n) i = rw (places-ones n (suc i)) refl

sum-ones : (n : ℕ) → sum (replicate n 1) ≡ n
sum-ones zero = refl
sum-ones (suc n) = omega (arith, sum-ones n)

AllAtMost-ones : (n : ℕ) → AllAtMost (replicate n 1) 1
AllAtMost-ones zero = omega arith
AllAtMost-ones (suc n) = (omega arith, AllAtMost-ones n)

filled-ones :
    (eos n : ℕ) (tokens : List ℕ)
    → length tokens ≡ n
    → filled eos 1 (replicate n 1) tokens ≡ map (λ t. t ∷ []) tokens
unfolding filled
filled-ones eos zero [] h = refl
filled-ones eos (suc n) [] h = absurd (omega arith)
filled-ones eos zero (t ∷ tokens) h = absurd (omega arith)
filled-ones eos (suc n) (t ∷ tokens) h = rw (filled-ones eos n tokens (omega arith)) refl

pub valid-ones :
    (n : ℕ) → valid_of (replicate n 1) (range n) (map (λ p. 0) (range n)) ≡ replicate n true
valid-ones n =
    ap (λ rs. valid_of (replicate n 1) rs (map (λ p. 0) (range n))) (sym (rows_from-ones n 0))
    ∙ ap (valid_of (replicate n 1) (rows_from 0 (replicate n 1))) (sym (places-ones n 0))
    ∙ valid-packed (replicate n 1)
    ∙ ap (λ k. replicate k true) (sum-ones n)

pub all_below-zeros : (n i : ℕ) → all_below 1 (map (λ p. 0) (count_up n i)) ≡ true
all_below-zeros zero i = refl
all_below-zeros (suc n) i = all_below-zeros n (suc i)

pub padded-ones :
    (eos n : ℕ) (tokens : List ℕ)
    → length tokens ≡ n
    → padded_rows eos (decode_layout n) (replicate n true) tokens ≡ map (λ t. t ∷ []) tokens
unfolding padded_rows
padded-ones eos n tokens h =
    let ones = replicate n 1 in
    let start = replicate (length ones) (replicate 1 eos) in
    ap (λ rs. scatter eos start rs (map (λ p. 0) (range n)) (replicate n true) tokens)
      (sym (rows_from-ones n 0))
    ∙ ap (λ os. scatter eos start (rows_from 0 ones) os (replicate n true) tokens)
        (sym (places-ones n 0))
    ∙ ap (λ k. scatter eos start (rows_from 0 ones) (places ones) (replicate k true) tokens)
        (sym (sum-ones n))
    ∙ scatter-packed eos 1 ones tokens (AllAtMost-ones n) (h ∙ sym (sum-ones n))
    ∙ filled-ones eos n tokens h

pub kept_where-all : (n : ℕ) (xs : List ℕ) → length xs ≡ n → kept_where (replicate n true) xs ≡ xs
kept_where-all zero [] h = refl
kept_where-all (suc n) [] h = refl
kept_where-all zero (x ∷ xs) h = absurd (omega arith)
kept_where-all (suc n) (x ∷ xs) h = rw (kept_where-all n xs (omega arith)) refl

pub both-all : (n : ℕ) (bs : List Bool) → length bs ≡ n → both (replicate n true) bs ≡ bs
both-all zero [] h = refl
both-all (suc n) [] h = refl
both-all zero (b ∷ bs) h = absurd (omega arith)
both-all (suc n) (b ∷ bs) h = rw (both-all n bs (omega arith)) refl

pub nonzero-ones : (n : ℕ) → nonzero (replicate n 1) ≡ replicate n true
nonzero-ones zero = refl
nonzero-ones (suc n) = rw (nonzero-ones n) refl

-- Rows of c + 1 columns: the only window is the row, and the next context drops the first column.
pub picked-all :
    (c : ℕ) (done rows : List (List ℕ)) (r : ℕ)
    → length done ≡ r
    → AllOfWidth (suc c) rows
    → picked_windows
        (suc c)
        (done ++ rows)
        (count_up (length rows) r)
        (map (λ p. 0) (count_up (length rows) r))
      ≡ rows
unfolding picked_windows
picked-all c done [] r h w = refl
picked-all c done (row ∷ rows) r h w =
    let rest =
      ap
        (λ all.
          picked_windows (suc c) all (count_up (length rows) (suc r))
            (map (λ p. 0) (count_up (length rows) (suc r))))
        (sym (append_assoc done (row ∷ []) rows))
      ∙ picked-all c (done ++ (row ∷ [])) rows (suc r)
          (omega (arith, length-append done (row ∷ []))) w.1 in
    rw (get_or-append_at done rows row [] r h, rest, take_all (suc c) row (omega (arith, w.0))) refl

pub gather-ones :
    (c : ℕ) (rows : List (List ℕ))
    → AllOfWidth (suc c) rows
    → gather_rows c rows (replicate (length rows) 1) ≡ map (drop 1) rows
unfolding gather_rows
gather-ones c [] w = refl
gather-ones c ([] ∷ rows) w = absurd (omega (arith, w.0))
gather-ones c ((x ∷ row) ∷ rows) w =
    rw (take_all c row (omega (arith, w.0)), gather-ones c rows w.1) refl

pub length-first :
    (c : ℕ) (rows : List (List ℕ))
    → AllOfWidth (suc c) rows
    → 1 ≤ length rows
    → length (get_or rows 0 []) ≡ suc c
length-first c [] w h = absurd (omega arith)
length-first c (row ∷ rows) w h = w.0

pub singles-AllOfWidth :
    (c : ℕ) (hs : List (List ℕ)) (tokens : List ℕ)
    → AllOfWidth c hs
    → AllOfWidth (suc c) (cat_columns hs (map (λ t. t ∷ []) tokens))
unfolding cat_columns
singles-AllOfWidth c [] tokens w = omega arith
singles-AllOfWidth c (h ∷ hs) [] w = omega arith
singles-AllOfWidth c (h ∷ hs) (t ∷ tokens) w =
    (omega (arith, length-append h (t ∷ []), w.0), singles-AllOfWidth c hs tokens w.1)

pub length-cat_columns :
    (hs : List (List ℕ)) (tokens : List ℕ)
    → length hs ≡ length tokens
    → length (cat_columns hs (map (λ t. t ∷ []) tokens)) ≡ length hs
unfolding cat_columns
length-cat_columns [] tokens h = refl
length-cat_columns (x ∷ hs) [] h = absurd (omega arith)
length-cat_columns (x ∷ hs) (t ∷ tokens) h = ap suc (length-cat_columns hs tokens (omega arith))
