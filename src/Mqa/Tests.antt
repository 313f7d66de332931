-- ===== src/Mqa/Tests.antt =====
-- Concrete logits: keys are numbers, and a score is a product.
use sglang_flashnext_nvfp4kv.Prelude.{
  ℕ, ◌+◌, ◌*◌, ◌≡◌, refl, true, false, List, [], ◌∷◌, arith, count_up,
}
use sglang_flashnext_nvfp4kv.Mqa.Prefill.{QueryRow, qsa_mqa_prefill, grid_columns}
use sglang_flashnext_nvfp4kv.Prelude.Int.{ℤ, pos, negsuc}
use sglang_flashnext_nvfp4kv.Prelude.{◌<◌, get_elem?, subst, some, zero, suc}
use sglang_flashnext_nvfp4kv.Mqa.Decode.{Request, clamp, qsa_mqa_decode, kernel_decode}
use sglang_flashnext_nvfp4kv.Mqa.Decoded.{qsa_mqa_decode-agree}
use sglang_flashnext_nvfp4kv.Mqa.Split.{grid_columns_exact}
use sglang_flashnext_nvfp4kv.Mqa.Windows.{qsa_mqa_prefill-agree}

abbrev product : ℕ → ℕ → ℕ
product q k = q * k

-- 77 stands for -inf.
abbrev two_rows : List (QueryRow ℕ)
two_rows =
    record { query = 2; row_start = 0; row_end = 2 }
    ∷ record { query = 3; row_start = 1; row_end = 3 }
    ∷ []

prefill_run :
    qsa_mqa_prefill product (λ x. x + 1) 0 77 0 false true 8 two_rows (4 ∷ 5 ∷ 6 ∷ [])
    ≡ (9 ∷ 11 ∷ 77 ∷ []) ∷ (77 ∷ 16 ∷ 19 ∷ []) ∷ []
unfolding qsa_mqa_prefill
prefill_run = refl

-- Seven tiles of 2 columns on 3 CTAs.
grid_columns_exact_example : grid_columns 2 3 5 7 3 0 ≡ count_up (7 * 2) 5
grid_columns_exact_example = grid_columns_exact 2 3 5 7 (omega arith)

qsa_mqa_prefill-agree_example :
    qsa_mqa_prefill product (λ x. x + 1) 0 77 0 true true 8 two_rows (4 ∷ 5 ∷ 6 ∷ [])
    ≡ qsa_mqa_prefill product (λ x. x + 1) 0 77 0 false true 8 two_rows (4 ∷ 5 ∷ 6 ∷ [])
qsa_mqa_prefill-agree_example =
    qsa_mqa_prefill-agree product (λ x. x + 1) 0 77 0 8 two_rows (4 ∷ 5 ∷ 6 ∷ [])

-- One page of 8 keys, and a request whose second page is padding.
abbrev one_page : List (List ℕ)
one_page = (1 ∷ 2 ∷ 3 ∷ 4 ∷ 5 ∷ 6 ∷ 7 ∷ 8 ∷ []) ∷ []

abbrev request : Request ℕ
request = record { query = 2; pages = pos 0 ∷ negsuc 0 ∷ []; context_len = 3 }

decode_run :
    qsa_mqa_decode product (λ x. x + 1) 77 one_page false true 8 (λ r g t. 99) 5 (request ∷ [])
    ≡ some ((3 ∷ 5 ∷ 7 ∷ 77 ∷ 77 ∷ []) ∷ [])
unfolding qsa_mqa_decode
decode_run = refl

kernel_run :
    kernel_decode product (λ x. x + 1) 77 one_page 8 (λ g t. 99) 5 request
    ≡ 3 ∷ 5 ∷ 7 ∷ 77 ∷ 77 ∷ []
unfolding kernel_decode
kernel_run = refl

first_pages :
    (i : ℕ) (t : ℤ) → get_elem? (pos 0 ∷ negsuc 0 ∷ []) i ≡ some t → i * 8 < 3 → t ≡ pos (clamp t)
unfolding clamp
first_pages zero t e lt = let same : pos 0 ≡ t = cc in subst (λ u. u ≡ pos (clamp u)) same refl
first_pages (suc i) t e lt = absurd (omega arith)

qsa_mqa_decode-agree_example :
    qsa_mqa_decode product (λ x. x + 1) 77 one_page true true 8 (λ r g t. 99) 5 (request ∷ [])
    ≡ qsa_mqa_decode product (λ x. x + 1) 77 one_page false true 8 (λ r g t. 99) 5 (request ∷ [])
unfolding clamp
qsa_mqa_decode-agree_example =
    qsa_mqa_decode-agree product (λ x. x + 1) 77 one_page 8 (λ r g t. 99) 5 (request ∷ [])
      (omega arith) refl
      (
        record {
          width = omega arith;
          divides = refl;
          sized = (refl, (refl, tt));
          covered = omega arith;
          used = first_pages;
        },
        tt,
      )
