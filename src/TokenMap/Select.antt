-- ===== src/TokenMap/Select.antt =====
-- scripts/build_token_map.py: `select_ids`. A set is a list without repeated entries; the token ids
-- and their counts are natural numbers, the size and the base count integers, and `counts` is a dictionary. `sorted` is a stable insertion sort.
use sglang_flashnext_nvfp4kv.Prelude.{
  ℕ, Bool, true, ◌&&◌, ◌||◌, not, List, [], ◌∷◌, nat_eq, ◌==◌, ltb, leb, if◌then◌else◌, none, some,
  length, take, contains, Dict, lookup, keys,
}
use sglang_flashnext_nvfp4kv.Prelude.Int.{ℤ, pos, negsuc}

pub data Selection : Type 0 where
  foreign_special : Selection
  invalid_size : Selection
  too_many_mandatory : Selection
  chosen_ids : List ℕ → Selection

-- `chosen.add(x)`.
unfoldable pub add : ℕ → List ℕ → List ℕ
add x s = if contains x s then s else x ∷ s

-- `set(xs)`, and with `s` first, `s | set(xs)`.
unfoldable pub union : List ℕ → List ℕ → List ℕ
unfolding add
union s [] = s
union s (x ∷ xs) = add x (union s xs)

unfoldable pub all_in : List ℕ → List ℕ → Bool
all_in [] s = true
all_in (x ∷ xs) s = contains x s && all_in xs s

module _ (before : ℕ → ℕ → Bool) where
  unfoldable pub insert_sorted : ℕ → List ℕ → List ℕ
  insert_sorted x [] = x ∷ []
  insert_sorted x (y ∷ ys) = if before x y then x ∷ y ∷ ys else y ∷ insert_sorted x ys

  unfoldable pub sorted : List ℕ → List ℕ
  unfolding insert_sorted
  sorted [] = []
  sorted (x ∷ xs) = insert_sorted x (sorted xs)

abbrev pub count_of : Dict ℕ ℕ → ℕ → ℕ
count_of counts t = elim (lookup t counts) [ none ↦ 0 | some n ↦ n ]

-- The key `(-counts[token_id], token_id)`.
unfoldable pub more_frequent : Dict ℕ ℕ → ℕ → ℕ → Bool
more_frequent counts a b =
    ltb (count_of counts b) (count_of counts a)
    || (count_of counts a == count_of counts b && leb a b)

-- A loop that adds the ids that pass the test until there are `size`.
unfoldable pub fill : (ℕ → Bool) → ℕ → List ℕ → List ℕ → List ℕ
unfolding add
fill keep size chosen [] = chosen
fill keep size chosen (t ∷ ts) =
    let next = if keep t then add t chosen else chosen in
    if length chosen == size then chosen else fill keep size next ts

-- `select_ids` with a size and a base count that are not negative.
unfoldable pub select_counted : Dict ℕ ℕ → List ℕ → List ℕ → ℕ → ℕ → Selection
unfolding union all_in sorted more_frequent fill
select_counted counts valid_ids special_ids size base_count =
    let valid = union [] valid_ids in
    let special = union [] special_ids in
    let chosen = union special (take base_count (sorted leb valid)) in
    let frequent =
      fill (λ t. contains t valid) size chosen (sorted (more_frequent counts) (keys counts)) in
    if not (all_in special valid)
    then foreign_special
    else if not (leb base_count size && leb size (length valid))
    then invalid_size
    else if ltb size (length chosen)
    then too_many_mandatory
    else chosen_ids (sorted leb (fill (λ t. true) size frequent (sorted leb valid)))

-- `select_ids`: a negative base count, or a size below the base count, is an invalid size.
unfoldable pub select_ids : Dict ℕ ℕ → List ℕ → List ℕ → ℤ → ℤ → Selection
unfolding select_counted union all_in
select_ids counts valid_ids special_ids (pos size) (pos base_count) =
    select_counted counts valid_ids special_ids size base_count
select_ids counts valid_ids special_ids (pos size) (negsuc b) =
    if all_in (union [] special_ids) (union [] valid_ids) then invalid_size else foreign_special
select_ids counts valid_ids special_ids (negsuc n) base_count =
    if all_in (union [] special_ids) (union [] valid_ids) then invalid_size else foreign_special
