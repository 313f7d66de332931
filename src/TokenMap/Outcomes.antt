-- ===== src/TokenMap/Outcomes.antt =====
-- scripts/build_token_map.py: what each call of `select_ids` ends in.
use sglang_flashnext_nvfp4kv.Prelude.{
  ℕ, ◌≤◌, ◌<◌, ◌⊎◌, ◌≡◌, refl, inl, inr, true, List, [], arith, nat_eq, ltb, leb, Bool-cases,
  length, Dict,
}
use sglang_flashnext_nvfp4kv.TokenMap.Select.{
  Selection, chosen_ids, foreign_special, invalid_size, too_many_mandatory, union, all_in,
  select_counted, select_ids,
}
use sglang_flashnext_nvfp4kv.Prelude.Int.{ℤ, pos, negsuc, neg_part, ◌≤ℤ◌}
use sglang_flashnext_nvfp4kv.TokenMap.Chosen.{
  mandatory, Admissible, ForeignSpecial, SpecialsValid, specials_of, foreign_of,
  select_ids-Ascending,
}

-- What a call ends in: a special id outside the vocabulary, sizes out of order, or too many mandatory ids,
-- each as its own error and only if no earlier one applies, or ids on admissible input.
abbrev pub Ends : Dict ℕ ℕ → List ℕ → List ℕ → ℤ → ℤ → Selection → Type 0
Ends counts valid_ids special_ids size base_count result =
    (result ≡ foreign_special) × ForeignSpecial valid_ids special_ids
    ⊎ (result ≡ invalid_size)
      × SpecialsValid valid_ids special_ids
      × (¬ (pos 0 ≤ℤ base_count)
          ⊎ ¬ (base_count ≤ℤ size)
          ⊎ ¬ (size ≤ℤ pos (length (union [] valid_ids))))
    ⊎ (n : ℕ) × (b : ℕ) × (size ≡ pos n)
      × (base_count ≡ pos b)
      × ((result ≡ too_many_mandatory)
            × SpecialsValid valid_ids special_ids
            × (b ≤ n)
            × (n ≤ length (union [] valid_ids))
            × (n < length (mandatory counts valid_ids special_ids n b))
          ⊎ ((ids : List ℕ) × (result ≡ chosen_ids ids))
            × Admissible counts valid_ids special_ids n b)

-- A call with any integers as size and base count fails for a special id outside the vocabulary, else
-- for a negative base count, a base count above the size or a size above the number of distinct ids,
-- else for more mandatory ids than the size, each with its own error; else the input is admissible and
-- the call gives ids.
pub select_ids-Ends :
    (counts : Dict ℕ ℕ) (valid_ids special_ids : List ℕ) (size base_count : ℤ)
    → Ends counts valid_ids special_ids size base_count
        (select_ids counts valid_ids special_ids size base_count)
unfolding select_ids select_counted
select_ids-Ends counts valid_ids special_ids (pos size) (pos base) =
    elim (Bool-cases (all_in (union [] special_ids) (union [] valid_ids))) [
      | inr foreign ↦
          inl (rw foreign refl, foreign_of counts valid_ids special_ids size base foreign)
      | inl subset ↦
          let valid = specials_of counts valid_ids special_ids size base subset in
          elim (Bool-cases (leb base size)) [
            | inr low ↦
                inr (inl (rw (subset, low) refl, valid, inr (inl (λ h. ground (arith, low, h)))))
            | inl fits ↦ elim (Bool-cases (leb size (length (union [] valid_ids)))) [
              | inr high ↦ inr (
                  inl
                    (rw (subset, fits, high) refl, valid, inr (inr (λ h. ground (arith, high, h)))))
              | inl top ↦ inr (inr (size, base, refl, refl, counted subset valid fits top))
            ]
          ]
    ]
  where
    counted :
        all_in (union [] special_ids) (union [] valid_ids) ≡ true
        → SpecialsValid valid_ids special_ids
        → leb base size ≡ true
        → leb size (length (union [] valid_ids)) ≡ true
        → (select_ids counts valid_ids special_ids (pos size) (pos base) ≡ too_many_mandatory)
            × SpecialsValid valid_ids special_ids
            × (base ≤ size)
            × (size ≤ length (union [] valid_ids))
            × (size < length (mandatory counts valid_ids special_ids size base))
          ⊎ ((ids : List ℕ) × (select_ids counts valid_ids special_ids (pos size) (pos base)
                ≡ chosen_ids ids))
            × Admissible counts valid_ids special_ids size base
    counted subset valid fits top =
        elim (Bool-cases (ltb size (length (mandatory counts valid_ids special_ids size base)))) [
          | inl many ↦ inl (
            rw (subset, fits, top, many) refl,
            valid,
            ground (arith, fits),
            ground (arith, top),
            ground (arith, many),
          )
          | inr few ↦
              let w : Admissible counts valid_ids special_ids size base = record {
                specials = valid;
                base_fits = ground (arith, fits);
                size_fits = ground (arith, top);
                mandatory_fits = ground (arith, few);
              } in
              let done = select_ids-Ascending counts valid_ids special_ids size base w in
              inr ((done.0, done.1), w)
        ]
select_ids-Ends counts valid_ids special_ids (pos size) (negsuc b) =
    elim (Bool-cases (all_in (union [] special_ids) (union [] valid_ids))) [
      | inr foreign ↦ inl (rw foreign refl, foreign_of counts valid_ids special_ids size 0 foreign)
      | inl subset ↦ inr (
          inl (
            rw subset refl,
            specials_of counts valid_ids special_ids size 0 subset,
            inl (λ h. omega (arith, h)),
          ))
    ]
select_ids-Ends counts valid_ids special_ids (negsuc n) base =
    elim (Bool-cases (all_in (union [] special_ids) (union [] valid_ids))) [
      | inr foreign ↦ inl (rw foreign refl, foreign_of counts valid_ids special_ids 0 0 foreign)
      | inl subset ↦ inr (
          inl (
            rw subset refl,
            specials_of counts valid_ids special_ids 0 0 subset,
            elim (Bool-cases (leb (neg_part base) 0)) [
              | inl up ↦ inr (inl (λ h. ground (arith, up, h)))
              | inr down ↦ inl (λ h. ground (arith, down, h))
            ],
          ))
    ]
