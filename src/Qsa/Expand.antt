-- ===== src/Qsa/Expand.antt =====
-- runtime-src/kernel.py: the expansion of selected blocks to tokens, by Torch on a whole row and by the
-- Triton kernel one column at a time. Query positions and sequence lengths are natural numbers, block
-- indices are signed: a negative one selects nothing. `next_power_of_2` is the compiler's.
use sglang_flashnext_nvfp4kv.Prelude.{
  ℕ, suc, ◌+◌, ◌-◌, ◌*◌, ◌/◌, ◌%◌, min, Bool, true, false, ◌&&◌, List, [], ◌∷◌, ◌++◌, map, ltb, leb,
  if◌then◌else◌, not, nat_eq, ◌==◌, length, get_or, take, range,
}
use sglang_flashnext_nvfp4kv.Prelude.Int.{ℤ, pos, negsuc}

-- The fill value of an index tensor.
abbrev pub minus_one : ℤ
minus_one = negsuc 0

unfoldable pub block_topk_of : ℕ → ℕ → ℕ
block_topk_of ratio token_topk = (token_topk + ratio - 1) / ratio

unfoldable pub final_topk_of : ℕ → ℕ → ℕ
final_topk_of ratio token_topk = token_topk + ratio - 1

-- `blocks * compress_ratio + offsets`, or -1 where the block is negative.
unfoldable pub block_tokens : ℕ → ℤ → List ℤ
block_tokens ratio (pos b) = map (λ o. pos (b * ratio + o)) (range ratio)
block_tokens ratio (negsuc b) = map (λ o. minus_one) (range ratio)

unfoldable pub all_tokens : ℕ → List ℤ → List ℤ
unfolding block_tokens
all_tokens ratio [] = []
all_tokens ratio (b ∷ bs) = block_tokens ratio b ++ all_tokens ratio bs

-- `where((expanded >= 0) & (expanded < sequence_length), expanded, -1)`.
unfoldable pub within : ℕ → ℤ → ℤ
within seq (pos t) = if ltb t seq then pos t else minus_one
within seq (negsuc t) = minus_one

unfoldable pub tail_start_of : ℕ → ℕ → ℕ
tail_start_of ratio visible = visible / ratio * ratio

-- Entry `o` of the tokens past the last complete block.
unfoldable pub tail_entry : ℕ → ℕ → ℕ → ℕ → ℤ
tail_entry start count seq o =
    if ltb o count && ltb (start + o) seq then pos (start + o) else minus_one

unfoldable pub is_valid_entry : ℤ → Bool
is_valid_entry (pos t) = true
is_valid_entry (negsuc t) = false

-- `where(result >= 0, order, order + final_topk)`, each key with its entry.
unfoldable pub sort_keys : ℕ → ℕ → List ℤ → List (ℕ × ℤ)
unfolding is_valid_entry
sort_keys final i [] = []
sort_keys final i (x ∷ xs) =
    (if is_valid_entry x then i else i + final, x) ∷ sort_keys final (suc i) xs

-- `gather` through a stable `argsort`: the entries in the order of their keys, equal keys in their order.
unfoldable pub insert_key : ℕ × ℤ → List (ℕ × ℤ) → List (ℕ × ℤ)
insert_key e [] = e ∷ []
insert_key e (x ∷ xs) = if leb e.0 x.0 then e ∷ x ∷ xs else x ∷ insert_key e xs

unfoldable pub sort_by_key : List (ℕ × ℤ) → List (ℕ × ℤ)
unfolding insert_key
sort_by_key [] = []
sort_by_key (e ∷ es) = insert_key e (sort_by_key es)

unfoldable pub compact : ℕ → List ℤ → List ℤ
unfolding sort_keys sort_by_key
compact final xs = map (λ e. e.1) (sort_by_key (sort_keys final 0 xs))

-- One row of `torch_expand_qsa_block_indices`.
unfoldable pub torch_row : ℕ → ℕ → List ℤ → ℕ → ℕ → List ℤ
unfolding all_tokens within tail_start_of tail_entry compact final_topk_of
torch_row ratio token_topk blocks position seq =
    let expanded = map (within seq) (take token_topk (all_tokens ratio blocks)) in
    let visible = position + 1 in
    let start = tail_start_of ratio visible in
    let tail = map (tail_entry start (visible - start) seq) (range (ratio - 1)) in
    compact (final_topk_of ratio token_topk) (expanded ++ tail)

-- A masked load of the row of blocks.
unfoldable pub load_block : List ℤ → Bool → ℕ → ℤ
load_block blocks mask col = if mask then get_or blocks col minus_one else minus_one

-- `tl.sum` of the columns that hold a block.
unfoldable pub count_blocks : ℕ → List ℤ → List ℕ → ℕ
unfolding load_block is_valid_entry
count_blocks block_topk blocks [] = 0
count_blocks block_topk blocks (c ∷ cs) =
    let rest = count_blocks block_topk blocks cs in
    if ltb c block_topk && is_valid_entry (load_block blocks (ltb c block_topk) c)
    then suc rest
    else rest

-- The column's tail value: `tail_offset` is `col - valid_token_count`, tested to be at least 0 first.
unfoldable pub tail_column : ℕ → ℕ → ℕ → ℕ → ℕ → ℕ → ℤ
tail_column ratio valid start count seq col =
    if leb valid col
      && ltb (col - valid) (ratio - 1)
      && ltb (col - valid) count
      && ltb (start + (col - valid)) seq
    then pos (start + (col - valid))
    else minus_one

-- The column's expanded value, where it is valid and comes before `valid`; the tail's value otherwise.
unfoldable pub expand_column : ℕ → ℕ → ℕ → ℤ → ℤ → ℕ → ℕ → ℤ
expand_column ratio token_topk seq (negsuc b) tail valid col = tail
expand_column ratio token_topk seq (pos b) tail valid col =
    if ltb col token_topk && ltb (b * ratio + col % ratio) seq && ltb col valid
    then pos (b * ratio + col % ratio)
    else tail

-- What `_expand_qsa_block_indices_kernel` stores at column `col`; `size` is OUTPUT_BLOCK_SIZE.
unfoldable pub kernel_column : ℕ → ℕ → ℕ → ℕ → List ℤ → ℕ → ℕ → ℕ → ℤ
unfolding load_block count_blocks tail_start_of tail_column expand_column
kernel_column size block_topk ratio token_topk blocks position seq col =
    let source = col / ratio in
    let block = load_block blocks (ltb col token_topk && ltb source block_topk) source in
    let valid = min (count_blocks block_topk blocks (range size) * ratio) token_topk in
    let visible = position + 1 in
    let start = tail_start_of ratio visible in
    let tail = tail_column ratio valid start (visible - start) seq col in
    expand_column ratio token_topk seq block tail valid col

-- The columns under the store's mask, `cols < FINAL_TOPK`.
unfoldable pub kernel_row : ℕ → ℕ → ℕ → ℕ → List ℤ → ℕ → ℕ → List ℤ
unfolding kernel_column final_topk_of
kernel_row size block_topk ratio token_topk blocks position seq =
    map (kernel_column size block_topk ratio token_topk blocks position seq)
      (take (final_topk_of ratio token_topk) (range size))

-- A [rows, width] tensor.
pub record BlockIndices : Type 0 where
  pub width : ℕ
  pub rows : List (List ℤ)

-- The two errors of a call, or its rows.
pub data Expansion : Type 0 where
  wrong_width : Expansion
  wrong_rows : Expansion
  expanded : List (List ℤ) → Expansion

abbrev pub each_row : (List ℤ → ℕ → ℕ → List ℤ) → List (List ℤ) → List ℕ → List ℕ → List (List ℤ)
each_row f (r ∷ rs) (p ∷ ps) (n ∷ ns) = f r p n ∷ each_row f rs ps ns
each_row f _ _ _ = []

unfoldable pub torch_expand_qsa_block_indices : BlockIndices → List ℕ → List ℕ → ℕ → ℕ → Expansion
unfolding block_topk_of torch_row
torch_expand_qsa_block_indices bs positions lengths ratio token_topk =
    if not (bs.width == block_topk_of ratio token_topk)
    then wrong_width
    else if not (length positions == length bs.rows && length lengths == length bs.rows)
    then wrong_rows
    else expanded (each_row (torch_row ratio token_topk) bs.rows positions lengths)

module _ (next_power_of_2 : ℕ → ℕ) where
  unfoldable pub triton_expand_qsa_block_indices :
      BlockIndices → List ℕ → List ℕ → ℕ → ℕ → List (List ℤ)
  unfolding final_topk_of kernel_row
  triton_expand_qsa_block_indices bs positions lengths ratio token_topk =
      if length bs.rows == 0
      then []
      else each_row
          (kernel_row (next_power_of_2 (final_topk_of ratio token_topk)) bs.width ratio token_topk)
          bs.rows positions lengths

  unfoldable pub expand_qsa_block_indices :
      Bool → BlockIndices → List ℕ → List ℕ → ℕ → ℕ → Expansion
  unfolding block_topk_of triton_expand_qsa_block_indices torch_expand_qsa_block_indices
  expand_qsa_block_indices is_cuda bs positions lengths ratio token_topk =
      if not (bs.width == block_topk_of ratio token_topk)
      then wrong_width
      else if not (length positions == length bs.rows && length lengths == length bs.rows)
      then wrong_rows
      else if is_cuda
      then expanded (triton_expand_qsa_block_indices bs positions lengths ratio token_topk)
      else torch_expand_qsa_block_indices bs positions lengths ratio token_topk
