-- ===== src/Tier/Tests.antt =====
-- patches/expert_tier.py on four experts, of which 1 and 3 are kept.
use sglang_flashnext_nvfp4kv.Prelude.{
  ℕ, zero, suc, ◌+◌, ◌*◌, ◌%◌, ◌^◌, ◌≡◌, refl, true, false, List, [], ◌∷◌, map, none, some, arith,
  nat_eq, contains, get_elem?, get_or, if◌then◌else◌, ltb,
}
use sglang_flashnext_nvfp4kv.ColdPool.Tables.{index_from}
use sglang_flashnext_nvfp4kv.ColdPool.Shrink.Contents.{Below}
use sglang_flashnext_nvfp4kv.Tier.State.{LayerTier, tier, hits, remap_batch, apply_tier, all_below}
use sglang_flashnext_nvfp4kv.Tier.Eager.{TopkLaw, Descending, eager_drops_cold}
use sglang_flashnext_nvfp4kv.Tier.Captured.{captured_cases}

-- The single greatest entry's index, the first of equal ones.
abbrev best_index : ℕ → ℕ → ℕ → List ℕ → ℕ
best_index i best value [] = best
best_index i best value (x ∷ xs) =
    let higher = best_index (suc i) i x xs in
    let same = best_index (suc i) best value xs in if ltb value x then higher else same

-- A `topk` that returns one index at most.
abbrev topk_one : List ℕ → ℕ → List ℕ
topk_one [] k = []
topk_one (x ∷ xs) zero = []
topk_one (x ∷ xs) (suc k) = best_index 1 0 x xs ∷ []

topk_one-TopkLaw : TopkLaw topk_one
topk_one-TopkLaw = record { descending = descending_at }
  where
    descending_at : (xs : List ℕ) (k : ℕ) → Descending (map (λ g. get_or xs g 0) (topk_one xs k))
    descending_at [] k = tt
    descending_at (x ∷ xs) zero = tt
    descending_at (x ∷ xs) (suc k) = (tt, tt)

abbrev keep : List ℕ
keep = 1 ∷ 3 ∷ []

abbrev pairs : List (List ℕ × List ℕ)
pairs = (101 ∷ 103 ∷ 0 ∷ 0 ∷ [], 100 ∷ 102 ∷ []) ∷ []

abbrev batch : List (ℕ × ℕ)
batch = (0, 7) ∷ (1, 8) ∷ (0, 9) ∷ []

keep-Below : Below 4 keep
keep-Below = (omega arith, (omega arith, tt))

-- Expert 0 is cold and the most wanted, expert 1 is kept: expert 1 gets the slot.
loads_kept : hits topk_one (tier 4 keep (0 ∷ 2 ∷ []) pairs) (0 ∷ 1 ∷ 0 ∷ []) ≡ 1 ∷ []
unfolding hits tier
loads_kept = refl

eager_drops_cold_example :
    (out : List (ℕ × ℕ)) × (t : LayerTier ℕ) × remap_batch topk_one 0 false
        (tier 4 keep (0 ∷ 2 ∷ []) pairs)
        batch
      ≡ some (out, t)
    × ((j g : ℕ) (w : ℕ)
        → get_elem? batch j ≡ some (g, w)
        → contains g keep ≡ false
        → get_elem? out j ≡ some (2, 0))
unfolding all_below
eager_drops_cold_example =
    eager_drops_cold topk_one topk_one-TopkLaw 0 4 keep 0 (2 ∷ []) pairs batch (refl, (refl, tt))
      keep-Below refl

captured_cases_example :
    (out : List (ℕ × ℕ)) × (out_packed : List ℕ) × apply_tier topk_one 0 true
        (some (tier 4 keep (0 ∷ 2 ∷ []) pairs))
        batch
        (some (7 ∷ 65_544 ∷ 9 ∷ []))
      ≡ (out, some out_packed, some (tier 4 keep (0 ∷ 2 ∷ []) pairs))
    × ((j g : ℕ) (w : ℕ)
        → get_elem? batch j ≡ some (g, w)
        → get_elem? out j
          ≡ some (elim (index_from 0 g keep) [ some row ↦ (row, w) | none ↦ (2, 0) ]))
    × ((j row p : ℕ) (w : ℕ)
        → get_elem? out j ≡ some (row, w)
        → get_elem? (7 ∷ 65_544 ∷ 9 ∷ []) j ≡ some p
        → get_elem? out_packed j ≡ some (row * 2 ^ 16 + p % 2 ^ 16))
unfolding all_below
captured_cases_example =
    captured_cases topk_one 0 4 keep 0 (2 ∷ []) pairs batch (7 ∷ 65_544 ∷ 9 ∷ []) (refl, (refl, tt))
      keep-Below refl
