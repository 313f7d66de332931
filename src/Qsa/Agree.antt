-- ===== src/Qsa/Agree.antt =====
-- runtime-src/kernel.py: a call on a GPU has the result of the Torch path.
use sglang_flashnext_nvfp4kv.Prelude.{
  ℕ, suc, ◌+◌, ◌≤◌, ◌<◌, ◌≡◌, ◌∙◌, refl, ap, sym, inl, inr, true, false, ◌&&◌, List, [], ◌∷◌, arith,
  nat_eq, nat_beq_iff, ◌==◌, Bool-cases, length,
}
use sglang_flashnext_nvfp4kv.Prelude.Int.{ℤ}
use sglang_flashnext_nvfp4kv.Qsa.Expand.{
  block_topk_of, final_topk_of, torch_row, kernel_row, BlockIndices, each_row,
  torch_expand_qsa_block_indices, triton_expand_qsa_block_indices, expand_qsa_block_indices,
}
use sglang_flashnext_nvfp4kv.Qsa.Compact.{padded}
use sglang_flashnext_nvfp4kv.Qsa.Rows.{Whole}
use sglang_flashnext_nvfp4kv.Qsa.Row.{row_agree}

-- A row whose complete blocks come first, in a tensor of `width` columns.
abbrev pub WholeRow : ℕ → ℕ → List ℤ → ℕ → Type 0
WholeRow ratio width row seq =
    (blocks : List ℕ) × (gaps : ℕ) × (row ≡ padded blocks gaps)
    × (length blocks + gaps ≡ width)
    × Whole ratio seq blocks

abbrev pub WholeRows : ℕ → ℕ → List (List ℤ) → List ℕ → Type 0
WholeRows ratio width (r ∷ rs) (n ∷ ns) = WholeRow ratio width r n × WholeRows ratio width rs ns
WholeRows ratio width _ _ = Unit

rows_agree :
    (size width ratio token_topk : ℕ) (rows : List (List ℤ)) (positions lengths : List ℕ)
    → 0 < ratio
    → width ≡ block_topk_of ratio token_topk
    → final_topk_of ratio token_topk ≤ size
    → WholeRows ratio width rows lengths
    → each_row (kernel_row size width ratio token_topk) rows positions lengths
      ≡ each_row (torch_row ratio token_topk) rows positions lengths
rows_agree size width ratio token_topk [] ps ns pos_ratio topk room h = refl
rows_agree size width ratio token_topk (r ∷ rs) [] ns pos_ratio topk room h = refl
rows_agree size width ratio token_topk (r ∷ rs) (p ∷ ps) [] pos_ratio topk room h = refl
rows_agree size width ratio token_topk (r ∷ rs) (p ∷ ps) (n ∷ ns) pos_ratio topk room h =
    let row = h.0 in
    let agree =
      row_agree ratio token_topk row.0 row.1 p n size width pos_ratio row.3 topk room row.4 in
    ap (λ x. x ∷ each_row (kernel_row size width ratio token_topk) rs ps ns)
      (ap (λ x. kernel_row size width ratio token_topk x p n) row.2
        ∙ sym agree
        ∙ ap (λ x. torch_row ratio token_topk x p n) (sym row.2))
    ∙ ap (λ r'. torch_row ratio token_topk r p n ∷ r')
        (rows_agree size width ratio token_topk rs ps ns pos_ratio topk room h.1)

module _ (next_power_of_2 : ℕ → ℕ) where
  triton_rows :
      ((n : ℕ) → n ≤ next_power_of_2 n)
      → (width : ℕ) (rows : List (List ℤ)) (positions lengths : List ℕ) (ratio token_topk : ℕ)
      → 0 < ratio
      → width ≡ block_topk_of ratio token_topk
      → WholeRows ratio width rows lengths
      → triton_expand_qsa_block_indices next_power_of_2
          (record { width = width; rows = rows })
          positions
          lengths
          ratio
          token_topk
        ≡ each_row (torch_row ratio token_topk) rows positions lengths
  unfolding triton_expand_qsa_block_indices
  triton_rows power width [] ps ns ratio token_topk pos_ratio topk h = refl
  triton_rows power width (r ∷ rs) ps ns ratio token_topk pos_ratio topk h =
      let some_row : (suc (length rs) == 0) ≡ false = ground arith in
      let same =
        rows_agree (next_power_of_2 (final_topk_of ratio token_topk)) width ratio token_topk
          (r ∷ rs) ps ns pos_ratio topk (power (final_topk_of ratio token_topk)) h in
      rw (some_row, same) refl

  -- On a GPU the call has the result of the Torch path, errors included, when the compression ratio is positive, every
  -- row holds whole blocks before its sequence length and then -1s, in as many columns as the tensor has, and
  -- the compiler's power of two is not below its argument.
  pub expand_qsa-cuda_agrees :
      ((n : ℕ) → n ≤ next_power_of_2 n)
      → (bs : BlockIndices) (positions lengths : List ℕ) (ratio token_topk : ℕ) → 0 < ratio
      → WholeRows ratio bs.width bs.rows lengths
      → expand_qsa_block_indices next_power_of_2 true bs positions lengths ratio token_topk
        ≡ expand_qsa_block_indices next_power_of_2 false bs positions lengths ratio token_topk
  unfolding expand_qsa_block_indices torch_expand_qsa_block_indices
  expand_qsa-cuda_agrees power bs positions lengths ratio token_topk pos_ratio rows =
      elim (Bool-cases (bs.width == block_topk_of ratio token_topk)) [
        | inr wrong ↦ rw (wrong) refl
        | inl right ↦
            elim (Bool-cases
              (length positions == length bs.rows && length lengths == length bs.rows)) [
                | inr wrong ↦ rw (wrong) refl
                | inl many ↦
                    rw
                      (
                        right,
                        many,
                        triton_rows power bs.width bs.rows positions lengths ratio token_topk
                            pos_ratio
                            ((nat_beq_iff bs.width (block_topk_of ratio token_topk)).0 right) rows,
                      )
                      refl
              ]
      ]
