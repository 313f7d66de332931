-- ===== src/Qsa/Tests.antt =====
-- Concrete rows of both expansions.
use sglang_flashnext_nvfp4kv.Prelude.{ℕ, ◌*◌, ◌≡◌, refl, true, false, [], ◌∷◌, arith}
use sglang_flashnext_nvfp4kv.Prelude.Int.{pos}
use sglang_flashnext_nvfp4kv.Qsa.Expand.{
  BlockIndices, expanded, minus_one, kernel_row, torch_row, expand_qsa_block_indices,
}
use sglang_flashnext_nvfp4kv.Qsa.Agree.{expand_qsa-cuda_agrees}

-- Twice the number stands for the compiler's power of two.
abbrev doubled : ℕ → ℕ
doubled n = n * 2

-- Blocks of 4 tokens, up to 8 tokens of them, and one row with a single block.
abbrev one_block : BlockIndices
one_block = record { width = 2; rows = (pos 3 ∷ minus_one ∷ []) ∷ [] }

torch_example :
    expand_qsa_block_indices doubled false one_block (17 ∷ []) (30 ∷ []) 4 8
    ≡ expanded (
        (pos 12
          ∷ pos 13
          ∷ pos 14
          ∷ pos 15
          ∷ pos 16
          ∷ pos 17
          ∷ minus_one
          ∷ minus_one
          ∷ minus_one
          ∷ minus_one
          ∷ minus_one
          ∷ [])
        ∷ [])
unfolding expand_qsa_block_indices
torch_example = refl

-- A block past the sequence's end: Torch closes the gap, the kernel leaves it.
gap_example :
    torch_row 4 4 (pos 0 ∷ []) 2 2
    ≡ pos 0 ∷ pos 1 ∷ pos 0 ∷ pos 1 ∷ minus_one ∷ minus_one ∷ minus_one ∷ []
unfolding torch_row
gap_example = refl

kernel_gap_example :
    kernel_row 8 1 4 4 (pos 0 ∷ []) 2 2
    ≡ pos 0 ∷ pos 1 ∷ minus_one ∷ minus_one ∷ pos 0 ∷ pos 1 ∷ minus_one ∷ []
unfolding kernel_row
kernel_gap_example = refl

expand_qsa-cuda_agrees_example :
    expand_qsa_block_indices doubled true one_block (17 ∷ []) (30 ∷ []) 4 8
    ≡ expand_qsa_block_indices doubled false one_block (17 ∷ []) (30 ∷ []) 4 8
expand_qsa-cuda_agrees_example =
    expand_qsa-cuda_agrees doubled (λ n. omega arith) one_block (17 ∷ []) (30 ∷ []) 4 8
      (omega arith) ((3 ∷ [], 1, refl, refl, (omega arith, tt)), tt)
