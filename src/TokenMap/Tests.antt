-- ===== src/TokenMap/Tests.antt =====
-- A concrete vocabulary.
use sglang_flashnext_nvfp4kv.Prelude.{
  ℕ, ◌≡◌, refl, true, List, [], ◌∷◌, contains, nat_eq, length, leb, take, Dict,
}
use sglang_flashnext_nvfp4kv.Prelude.{lookup, arith}
use sglang_flashnext_nvfp4kv.Prelude.Int.{pos, negsuc}
use sglang_flashnext_nvfp4kv.TokenMap.Select.{
  chosen_ids, foreign_special, too_many_mandatory, sorted, union, select_ids, select_counted,
  invalid_size,
}
use sglang_flashnext_nvfp4kv.TokenMap.Sorting.{Ascending}
use sglang_flashnext_nvfp4kv.TokenMap.Chosen.{vocabulary, Admissible, select_ids-Ascending}
use sglang_flashnext_nvfp4kv.TokenMap.Outcomes.{Ends, select_ids-Ends}

abbrev counts : Dict ℕ ℕ
counts = (7, 2) ∷ (4, 9) ∷ (90, 50) ∷ []

abbrev valid : List ℕ
valid = 9 ∷ 4 ∷ 7 ∷ 1 ∷ 3 ∷ []

-- The smallest id, the special one, the most frequent valid one.
chosen_run : select_ids counts valid (9 ∷ []) (pos 3) (pos 1) ≡ chosen_ids (1 ∷ 4 ∷ 9 ∷ [])
unfolding select_ids select_counted lookup
chosen_run = refl

foreign_run : select_ids counts valid (2 ∷ []) (pos 3) (pos 1) ≡ foreign_special
unfolding select_ids select_counted
foreign_run = refl

mandatory_run : select_ids counts valid (9 ∷ []) (pos 1) (pos 1) ≡ too_many_mandatory
unfolding select_ids select_counted
mandatory_run = refl

negative_run : select_ids counts valid (9 ∷ []) (pos 3) (negsuc 0) ≡ invalid_size
unfolding select_ids select_counted
negative_run = refl

valid_admissible : Admissible counts valid (9 ∷ []) 3 1
unfolding union sorted
valid_admissible = record {
  specials = λ z h. ground arith;
  base_fits = omega arith;
  size_fits = omega arith;
  mandatory_fits = omega arith;
}

select_ids-Ends_example :
    Ends counts valid
      (9 ∷ [])
      (pos 3)
      (negsuc 0)
      (select_ids counts valid (9 ∷ []) (pos 3) (negsuc 0))
select_ids-Ends_example = select_ids-Ends counts valid (9 ∷ []) (pos 3) (negsuc 0)

select_ids-Ascending_example :
    (ids : List ℕ) × select_ids counts valid (9 ∷ []) (pos 3) (pos 1) ≡ chosen_ids ids
    × Ascending ids
    × (length ids ≡ 3)
    × ((z : ℕ) → contains z ids ≡ true → contains z valid ≡ true)
    × ((z : ℕ) → contains z (9 ∷ []) ≡ true → contains z ids ≡ true)
    × ((z : ℕ)
        → contains z (take 1 (sorted leb (vocabulary counts valid (9 ∷ []) 3 1))) ≡ true
        → contains z ids ≡ true)
select_ids-Ascending_example = select_ids-Ascending counts valid (9 ∷ []) 3 1 valid_admissible
