-- ===== src/ColdPool/RouterTests.antt =====
-- Runs of the router's two lanes.
use sglang_flashnext_nvfp4kv.Prelude.{
  ℕ, ◌+◌, ◌*◌, ◌^◌, ◌<◌, ◌≤◌, ◌≡◌, refl, [], ◌∷◌, some, arith, nat_eq, get_elem?,
}
use sglang_flashnext_nvfp4kv.Prelude.Int.{pos, negsuc}
use sglang_flashnext_nvfp4kv.ColdPool.State.{param_eq, key_eq}
use sglang_flashnext_nvfp4kv.ColdPool.Router.{remap_id, remap_packed}
use sglang_flashnext_nvfp4kv.ColdPool.Lanes.{
  remap_id_cases, remap_packed_cases, lanes_differ_on_shared,
}

remap_id_cases_example :
    ((id row : ℕ) → get_elem? (0 ∷ 4 ∷ []) id ≡ some row → remap_id (0 ∷ 4 ∷ []) (pos id) ≡ pos row)
    × ((n : ℕ) → remap_id (0 ∷ 4 ∷ []) (negsuc n) ≡ negsuc n)
    × ((id : ℕ) → 2 ≤ id → remap_id (0 ∷ 4 ∷ []) (pos id) ≡ pos id)
remap_id_cases_example = remap_id_cases (0 ∷ 4 ∷ [])

remap_packed_cases_example :
    ((id low row : ℕ)
      → get_elem? (0 ∷ 4 ∷ []) id ≡ some row
      → id < 2 ^ 15
      → low < 2 ^ 16
      → row < 2 ^ 15
      → remap_packed (0 ∷ 4 ∷ []) (pos (id * 2 ^ 16 + low)) ≡ pos (row * 2 ^ 16 + low))
    × ((n : ℕ) → remap_packed (0 ∷ 4 ∷ []) (negsuc n) ≡ negsuc n)
remap_packed_cases_example = remap_packed_cases (0 ∷ 4 ∷ [])

lanes_differ_on_shared_example :
    (remap_id (0 ∷ 4 ∷ []) (pos 2) ≡ pos 2)
    × (remap_packed (0 ∷ 4 ∷ []) (pos (2 * 2 ^ 16 + 77)) ≡ pos (4 * 2 ^ 16 + 77))
lanes_differ_on_shared_example =
    lanes_differ_on_shared (0 ∷ 4 ∷ []) 2 77 4 refl (omega arith) (omega arith) (omega arith)
      (omega arith)
