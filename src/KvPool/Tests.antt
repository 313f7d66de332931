-- ===== src/KvPool/Tests.antt =====
-- Concrete spans and locations.
use sglang_flashnext_nvfp4kv.Prelude.{
  ℕ, ◌+◌, ◌*◌, ◌/◌, ◌≤◌, ◌<◌, ◌≡◌, refl, [], ◌∷◌, some, none, arith,
}
use sglang_flashnext_nvfp4kv.KvPool.Spans.{
  KvBufferDesc, prefix_span_bytes, row_count, final_span_bytes, post_init, row_count_exact,
}

-- Pages of 16 tokens.
abbrev paged : KvBufferDesc
paged = record { shape = 4 ∷ 64 ∷ []; row_bytes = 64; tokens_per_row = 16 }

two_pages_and_one : final_span_bytes paged 17 16 ≡ 192
unfolding final_span_bytes
two_pages_and_one = refl

row_count_exact_example :
    ((t : ℕ) → t < 17 → t / 16 * 64 + 64 ≤ prefix_span_bytes paged 17)
    × (row_count paged 17 * 16 < 33)
row_count_exact_example = row_count_exact paged 17 (omega arith)

locations_cut :
    post_init (record { loc = 5 ∷ 6 ∷ []; swa_loc = some (1 ∷ 2 ∷ 0 ∷ []); full_loc = none })
    ≡ record { loc = 5 ∷ 6 ∷ []; swa_loc = some (1 ∷ 2 ∷ []); full_loc = none }
unfolding post_init
locations_cut = refl
