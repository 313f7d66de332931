-- ===== src/Ngram/Shift.antt =====
-- runtime-src/qwen4_exp.py: `_shift_right_ignore_eos`, on one row. A position of the last end of
-- sequence is kept one higher than in the source, so that 0 stands for its -1.
use sglang_flashnext_nvfp4kv.Prelude.{
  ℕ, ◌+◌, ◌-◌, ◌&&◌, List, [], ◌∷◌, map, length, take, range, get_or, nat_eq, ◌==◌, leb,
  if◌then◌else◌, max,
}

-- `where(eos_mask, idx, -1)`, one higher.
unfoldable pub eos_pos : ℕ → ℕ → List ℕ → List ℕ
eos_pos eos idx [] = []
eos_pos eos idx (t ∷ ts) = (if t == eos then idx + 1 else 0) ∷ eos_pos eos (idx + 1) ts

-- `cummax`, the running maximum, from what came before.
unfoldable pub cummax : ℕ → List ℕ → List ℕ
cummax m [] = []
cummax m (x ∷ xs) = max m x ∷ cummax (max m x) xs

-- The `cat` of one -1 with all but the last column: where each column's segment starts.
unfoldable pub segment_start : ℕ → List ℕ → List ℕ
segment_start eos row = take (length row) (0 ∷ cummax 0 (eos_pos eos 0 row))

-- One column: the gather at the clamped index, under the two masks.
unfoldable pub shifted_at : ℕ → List ℕ → ℕ → ℕ → ℕ
shifted_at eos row n idx =
    if leb n (idx - get_or (segment_start eos row) idx 0) && leb n idx
    then get_or row (idx - n) eos
    else eos

unfoldable pub shift_right_ignore_eos : ℕ → List ℕ → ℕ → List ℕ
shift_right_ignore_eos eos row n =
    if n == 0 then row else map (shifted_at eos row n) (range (length row))
