-- ===== src/Mqa/Prefill.antt =====
-- runtime-src/mqa.py: the prefill logits, by Torch and by the TileLang kernels. The score of a query and a
-- key before the division (`raw`: the products, the ReLU and the sum over the heads) and the division
-- (`scaled`) are parameters, the same on both paths: their rounding is not modelled. Starts, ends and
-- columns are natural numbers without a width. A store past a row's end is dropped.
use sglang_flashnext_nvfp4kv.Prelude.{
  ℕ, zero, suc, ◌+◌, ◌-◌, ◌*◌, ◌/◌, ◌%◌, min, max, Bool, ◌&&◌, ◌||◌, List, [], ◌∷◌, ◌++◌, map,
  Option, none, some, ltb, leb, nat_eq, ◌==◌, if◌then◌else◌, length, set, get_elem?, take, drop,
  replicate, count_up,
}

-- A query with its window of columns, from `start` up to `end`.
pub record QueryRow (Q : Type 0) : Type 0 where
  pub query : Q
  pub row_start : ℕ
  pub row_end : ℕ

unfoldable pub ceildiv : ℕ → ℕ → ℕ
ceildiv n k = (n + k - 1) / k

-- The columns of the kernel's window, by the CTA that stores them.
module _ (block_n split start_min tiles : ℕ) where
  -- `n` tiles from tile `lo` on.
  unfoldable pub tile_columns : ℕ → ℕ → List ℕ
  tile_columns zero lo = []
  tile_columns (suc n) lo = count_up block_n (start_min + lo * block_n) ++ tile_columns n (suc lo)

  unfoldable pub tile_bound : ℕ → ℕ
  tile_bound by = tiles * by / split

  unfoldable pub cta_columns : ℕ → List ℕ
  unfolding tile_columns tile_bound
  cta_columns by =
      let lo_t = tile_bound by in
      let hi_t = tile_bound (by + 1) in
      if ltb lo_t hi_t then tile_columns (hi_t - lo_t) lo_t else []

  -- `n` CTAs from `by` on.
  unfoldable pub grid_columns : ℕ → ℕ → List ℕ
  unfolding cta_columns
  grid_columns zero by = []
  grid_columns (suc n) by = cta_columns by ++ grid_columns n (by + 1)

module _ {F : Type 0} (minus_inf : F) where
  -- `masked_fill(~valid, -inf)` from column `i` on.
  unfoldable pub mask_row : ℕ → ℕ → ℕ → List F → List F
  mask_row i start end [] = []
  mask_row i start end (x ∷ xs) =
      (if ltb i start || leb end i then minus_inf else x) ∷ mask_row (suc i) start end xs

  unfoldable pub mask_rows : {Q : Type 0} → List (QueryRow Q) → List (List F) → List (List F)
  unfolding mask_row
  mask_rows (r ∷ rs) (l ∷ ls) = mask_row 0 r.row_start r.row_end l ∷ mask_rows rs ls
  mask_rows _ _ = []

module _ {Q : Type 0} where
  -- The smallest start and the largest end of a block's rows, neither past the keys. The kernel's
  -- first value of `end_max` is below every end.
  unfoldable pub start_min_of : ℕ → List (QueryRow Q) → ℕ
  start_min_of keys [] = 2147483647
  start_min_of keys (r ∷ rs) = min (min r.row_start keys) (start_min_of keys rs)

  unfoldable pub end_max_of : ℕ → List (QueryRow Q) → ℕ
  end_max_of keys [] = 0
  end_max_of keys (r ∷ rs) = max (min r.row_end keys) (end_max_of keys rs)

module _ {Q K F : Type 0} (raw : Q → K → F) where
  -- `Logits[row, column] = reduced[n, qi]`, where there is such a column.
  unfoldable pub store_at : Option K → Q → ℕ → List F → List F
  store_at none q c row = row
  store_at (some k) q c row = set row c (raw q k)

  -- The stores of one query's row.
  unfoldable pub store_columns : Q → List K → List ℕ → List F → List F
  unfolding store_at
  store_columns q keys [] row = row
  store_columns q keys (c ∷ cs) row = store_columns q keys cs (store_at (get_elem? keys c) q c row)

module _ {Q K F : Type 0} (raw : Q → K → F) (zero_logit : F) where
  -- The CTAs of one block of rows. An empty window has no tile.
  unfoldable pub run_block : ℕ → ℕ → List K → List (QueryRow Q) → List (List F)
  unfolding start_min_of end_max_of store_columns grid_columns ceildiv
  run_block block_n split keys rows =
      let start_min = start_min_of (length keys) rows in
      let tiles = ceildiv (end_max_of (length keys) rows - start_min) block_n in
      map
        (λ r.
          store_columns raw r.query keys (grid_columns block_n split start_min tiles split 0)
            (replicate (length keys) zero_logit))
        rows

  -- `n` blocks of `block_q` rows.
  unfoldable pub run_blocks : ℕ → ℕ → ℕ → ℕ → List K → List (QueryRow Q) → List (List F)
  unfolding run_block
  run_blocks block_n split block_q zero keys rows = []
  run_blocks block_n split block_q (suc n) keys rows =
      run_block block_n split keys (take block_q rows)
      ++ run_blocks block_n split block_q n keys (drop block_q rows)

module _ {Q : Type 0} (zero_query : Q) where
  -- `starts[-1:]`, `ends[-1:]`, with a query of zeros.
  unfoldable pub pad_row : List (QueryRow Q) → QueryRow Q
  pad_row [] = record { query = zero_query; row_start = 0; row_end = 0 }
  pad_row (r ∷ []) = record r { query = zero_query }
  pad_row (r ∷ s ∷ rs) = pad_row (s ∷ rs)

-- `(-rows) % block_q`.
unfoldable pub padding_of : ℕ → ℕ → ℕ
padding_of rows block_q = if rows % block_q == 0 then 0 else block_q - rows % block_q

module _ {Q K F : Type 0} (raw : Q → K → F) (scaled : F → F) (zero_logit minus_inf : F)
    (zero_query : Q) where
  -- `torch_qsa_mqa_prefill`.
  unfoldable pub torch_prefill : List (QueryRow Q) → List K → List (List F)
  unfolding mask_rows
  torch_prefill rows keys =
      mask_rows minus_inf rows (map (λ r. map (λ k. scaled (raw r.query k)) keys) rows)

  -- `tilelang_qsa_mqa_prefill`.
  unfoldable pub tilelang_prefill : ℕ → List (QueryRow Q) → List K → List (List F)
  unfolding run_blocks pad_row padding_of ceildiv mask_rows
  tilelang_prefill heads rows keys =
      let block_q = max 1 (128 / heads) in
      let padding = padding_of (length rows) block_q in
      let padded = rows ++ replicate padding (pad_row zero_query rows) in
      if length rows == 0 || length keys == 0
      then map (λ r. replicate (length keys) minus_inf) rows
      else mask_rows minus_inf rows (
          map (map scaled) (
            take (length rows) (
              run_blocks raw zero_logit 64 64 block_q (ceildiv (length padded) block_q) keys
                padded)))

  -- `qsa_mqa_prefill`.
  unfoldable pub qsa_mqa_prefill : Bool → Bool → ℕ → List (QueryRow Q) → List K → List (List F)
  unfolding tilelang_prefill torch_prefill
  qsa_mqa_prefill is_cuda has_tilelang heads rows keys =
      if is_cuda && has_tilelang then tilelang_prefill heads rows keys else torch_prefill rows keys
