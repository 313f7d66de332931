-- ===== src/TokenMap/Chosen.antt =====
-- scripts/build_token_map.py: the ids that `select_ids` chooses.
use sglang_flashnext_nvfp4kv.Prelude.{
  ℕ, zero, suc, ◌≤◌, ◌≡◌, ◌∙◌, refl, sym, inl, inr, true, false, ◌&&◌, List, [], ◌∷◌, arith, nat_eq,
  ltb, leb, Bool-cases, length, take, contains, Dict, keys,
}
use sglang_flashnext_nvfp4kv.TokenMap.Select.{
  chosen_ids, union, all_in, sorted, more_frequent, fill, select_counted, select_ids,
}
use sglang_flashnext_nvfp4kv.Prelude.Int.{pos}
use sglang_flashnext_nvfp4kv.TokenMap.Sorting.{
  contains-sorted, length-sorted, Ascending, Ascending-sorted, Distinct-union, contains-union,
  all_in-contains, length-subset,
}
use sglang_flashnext_nvfp4kv.TokenMap.Filling.{
  length-fill, Distinct-fill, contains-fill_old, contains-fill_from, fill_complete,
}

contains-take : (n z : ℕ) (xs : List ℕ) → contains z (take n xs) ≡ true → contains z xs ≡ true
contains-take zero z xs h = cc
contains-take (suc n) z [] h = cc
contains-take (suc n) z (x ∷ xs) h = ground (arith, h, contains-take n z xs)

all_in-of :
    (xs s : List ℕ) → ((z : ℕ) → contains z xs ≡ true → contains z s ≡ true) → all_in xs s ≡ true
unfolding all_in
all_in-of [] s h = refl
all_in-of (x ∷ xs) s h =
    let here : contains x s ≡ true = h x (ground arith) in
    let rest = all_in-of xs s (λ z c. h z (ground (arith, c))) in ground (arith, here, rest)

all_in-missing :
    (xs s : List ℕ)
    → all_in xs s ≡ false
    → (z : ℕ) × (contains z xs ≡ true) × (contains z s ≡ false)
unfolding all_in
all_in-missing [] s h = cc
all_in-missing (x ∷ xs) s h = elim (Bool-cases (contains x s)) [
  | inr gone ↦ (x, ground arith, gone)
  | inl here ↦
      let (z, there, gone) = all_in-missing xs s (ground (arith, h, here)) in
      (z, ground (arith, there), gone)
]

-- Some special id is not in the vocabulary, and every special id is.
abbrev pub ForeignSpecial : List ℕ → List ℕ → Type 0
ForeignSpecial valid_ids special_ids =
    (z : ℕ) × (contains z special_ids ≡ true) × (contains z valid_ids ≡ false)

abbrev pub SpecialsValid : List ℕ → List ℕ → Type 0
SpecialsValid valid_ids special_ids =
    (z : ℕ) → contains z special_ids ≡ true → contains z valid_ids ≡ true

-- The sets of a call.
module _ (counts : Dict ℕ ℕ) (valid_ids special_ids : List ℕ) (size base_count : ℕ) where
  abbrev pub vocabulary : List ℕ
  vocabulary = union [] valid_ids

  abbrev pub mandatory : List ℕ
  mandatory = union (union [] special_ids) (take base_count (sorted leb vocabulary))

  abbrev frequent : List ℕ
  frequent =
      fill (λ t. contains t vocabulary) size mandatory (sorted (more_frequent counts) (keys counts))

  abbrev filled : List ℕ
  filled = fill (λ t. true) size frequent (sorted leb vocabulary)

  -- Every special id in the vocabulary, a base count of at most the size, a size of at most the number of
  -- distinct ids, and at most as many mandatory ids as the size.
  pub record Admissible : Type 0 where
    pub specials : (z : ℕ) → contains z special_ids ≡ true → contains z valid_ids ≡ true
    pub base_fits : base_count ≤ size
    pub size_fits : size ≤ length vocabulary
    pub mandatory_fits : length mandatory ≤ size

  in_vocabulary : (z : ℕ) → contains z vocabulary ≡ contains z valid_ids
  in_vocabulary z = contains-union z [] valid_ids

  mandatory_valid :
      Admissible → (z : ℕ) → contains z mandatory ≡ true → contains z vocabulary ≡ true
  mandatory_valid w z h = elim (Bool-cases (contains z (union [] special_ids))) [
    | inl special ↦ in_vocabulary z ∙ w.specials z (sym (contains-union z [] special_ids) ∙ special)
    | inr other ↦
        let base =
          contains-union z (union [] special_ids) (take base_count (sorted leb vocabulary)) in
        sym (contains-sorted leb z vocabulary)
        ∙ contains-take base_count z (sorted leb vocabulary) (ground (base, other, h, arith))
  ]

  filled_valid : Admissible → (z : ℕ) → contains z filled ≡ true → contains z valid_ids ≡ true
  filled_valid w z h =
      sym (in_vocabulary z)
      ∙ elim (contains-fill_from (λ t. true) size z frequent (sorted leb vocabulary) h) [
        | inr offered ↦ sym (contains-sorted leb z vocabulary) ∙ offered.1
        | inl early ↦
            elim (contains-fill_from (λ t. contains t vocabulary) size z mandatory
              (sorted (more_frequent counts) (keys counts)) early) [
                | inr offered ↦ offered.0
                | inl must ↦ mandatory_valid w z must
              ]
      ]

  filled_has_mandatory : (z : ℕ) → contains z mandatory ≡ true → contains z filled ≡ true
  filled_has_mandatory z h =
      contains-fill_old (λ t. true) size z frequent (sorted leb vocabulary)
        (contains-fill_old (λ t. contains t vocabulary) size z mandatory
          (sorted (more_frequent counts) (keys counts)) h)

  filled_size : Admissible → length filled ≡ size
  filled_size w =
      let early =
        length-fill (λ t. contains t vocabulary) size mandatory
          (sorted (more_frequent counts) (keys counts)) w.mandatory_fits in
      let most = length-fill (λ t. true) size frequent (sorted leb vocabulary) early in
      elim (fill_complete size frequent (sorted leb vocabulary)) [
        | inl exact ↦ exact
        | inr all ↦
            let least =
              length-subset vocabulary filled (Distinct-union [] valid_ids tt)
                (λ z c. all z (contains-sorted leb z vocabulary ∙ c)) in
            let fits = w.size_fits in omega (arith, most, least, fits)
      ]

  -- On admissible input `select_ids` succeeds: its ids ascend strictly, there are exactly `size`, each is a
  -- valid id, and among them are the special ids and the `base_count` smallest valid ids.
  pub select_ids-Ascending :
      Admissible
      → (ids : List ℕ) × select_ids counts valid_ids special_ids (pos size) (pos base_count)
          ≡ chosen_ids ids
        × Ascending ids
        × (length ids ≡ size)
        × ((z : ℕ) → contains z ids ≡ true → contains z valid_ids ≡ true)
        × ((z : ℕ) → contains z special_ids ≡ true → contains z ids ≡ true)
        × ((z : ℕ)
            → contains z (take base_count (sorted leb vocabulary)) ≡ true
            → contains z ids ≡ true)
  unfolding select_ids select_counted
  select_ids-Ascending w =
      let subset : all_in (union [] special_ids) vocabulary ≡ true =
        all_in-of (union [] special_ids) vocabulary
          (λ z c. in_vocabulary z ∙ w.specials z (sym (contains-union z [] special_ids) ∙ c)) in
      let sizes : (leb base_count size && leb size (length vocabulary)) ≡ true =
        let b = w.base_fits in let s = w.size_fits in ground (arith, b, s) in
      let room : ltb size (length mandatory) ≡ false =
        let m = w.mandatory_fits in ground (arith, m) in
      let set_distinct =
        Distinct-fill (λ t. true) size frequent (sorted leb vocabulary)
          (Distinct-fill (λ t. contains t vocabulary) size mandatory
            (sorted (more_frequent counts) (keys counts))
            (Distinct-union (union [] special_ids) (take base_count (sorted leb vocabulary))
              (Distinct-union [] special_ids tt))) in
      (
        sorted leb filled,
        rw (subset, sizes, room) refl,
        Ascending-sorted filled set_distinct,
        length-sorted leb filled ∙ filled_size w,
        (λ z h. filled_valid w z (sym (contains-sorted leb z filled) ∙ h)),
        (λ z h. contains-sorted leb z filled ∙ filled_has_mandatory z (special_mandatory z h)),
        λ z h. contains-sorted leb z filled ∙ filled_has_mandatory z (base_mandatory z h),
      )
    where
      special_mandatory : (z : ℕ) → contains z special_ids ≡ true → contains z mandatory ≡ true
      special_mandatory z h =
          let u =
            contains-union z (union [] special_ids) (take base_count (sorted leb vocabulary)) in
          let s = contains-union z [] special_ids in ground (arith, u, s, h)

      base_mandatory :
          (z : ℕ)
          → contains z (take base_count (sorted leb vocabulary)) ≡ true
          → contains z mandatory ≡ true
      base_mandatory z h =
          let u =
            contains-union z (union [] special_ids) (take base_count (sorted leb vocabulary)) in
          ground (arith, u, h)

  pub specials_of :
      all_in (union [] special_ids) vocabulary ≡ true → SpecialsValid valid_ids special_ids
  specials_of subset z h =
      sym (in_vocabulary z)
      ∙ all_in-contains (union [] special_ids) vocabulary z subset
          (contains-union z [] special_ids ∙ h)

  pub foreign_of :
      all_in (union [] special_ids) vocabulary ≡ false → ForeignSpecial valid_ids special_ids
  foreign_of h =
      let (z, there, gone) = all_in-missing (union [] special_ids) vocabulary h in
      (z, sym (contains-union z [] special_ids) ∙ there, sym (in_vocabulary z) ∙ gone)
