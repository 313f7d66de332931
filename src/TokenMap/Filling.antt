-- ===== src/TokenMap/Filling.antt =====
-- scripts/build_token_map.py: the loops that add ids until there are enough.
use sglang_flashnext_nvfp4kv.Prelude.{
  ℕ, suc, ◌≤◌, ◌≡◌, ◌⊎◌, refl, subst, inl, inr, Bool, true, false, List, [], ◌∷◌, arith, nat_eq,
  nat_beq_iff, ◌==◌, if◌then◌else◌, Bool-cases, length, contains,
}
use sglang_flashnext_nvfp4kv.ColdPool.Ownership.{Distinct}
use sglang_flashnext_nvfp4kv.TokenMap.Select.{add, fill}

-- The next set of a round.
abbrev step : Bool → ℕ → List ℕ → List ℕ
step b t chosen = if b then add t chosen else chosen

Distinct-step : (b : Bool) (t : ℕ) (chosen : List ℕ) → Distinct chosen → Distinct (step b t chosen)
unfolding add
Distinct-step false t chosen d = d
Distinct-step true t chosen d = elim (Bool-cases (contains t chosen)) [
  | inl old ↦ rw (old) d
  | inr new ↦ rw (new) (new, d)
]

length-step : (b : Bool) (t : ℕ) (chosen : List ℕ) → length (step b t chosen) ≤ suc (length chosen)
unfolding add
length-step b t chosen = ground arith

contains-step_old :
    (b : Bool) (t z : ℕ) (chosen : List ℕ)
    → contains z chosen ≡ true
    → contains z (step b t chosen) ≡ true
unfolding add
contains-step_old b t z chosen h = ground (arith, h)

contains-step_new : (t : ℕ) (chosen : List ℕ) → contains t (step true t chosen) ≡ true
unfolding add
contains-step_new t chosen = ground arith

contains-step_from :
    (b : Bool) (t z : ℕ) (chosen : List ℕ)
    → contains z (step b t chosen) ≡ true
    → (contains z chosen ≡ true) ⊎ ((b ≡ true) × (t ≡ z))
unfolding add
contains-step_from false t z chosen h = inl h
contains-step_from true t z chosen h = elim (Bool-cases (contains z chosen)) [
  | inl old ↦ inl old
  | inr new ↦ inr (refl, (nat_beq_iff t z).0 (ground (arith, h, new)))
]

module _ (keep : ℕ → Bool) (size : ℕ) where
  pub length-fill :
      (chosen ts : List ℕ) → length chosen ≤ size → length (fill keep size chosen ts) ≤ size
  unfolding fill
  length-fill chosen [] le = le
  length-fill chosen (t ∷ ts) le = elim (Bool-cases (length chosen == size)) [
    | inl full ↦ rw (full) le
    | inr room ↦ rw (room) (
        length-fill (step (keep t) t chosen) ts
          (let l = length-step (keep t) t chosen in ground (arith, l, le, room)))
  ]

  pub Distinct-fill : (chosen ts : List ℕ) → Distinct chosen → Distinct (fill keep size chosen ts)
  unfolding fill
  Distinct-fill chosen [] d = d
  Distinct-fill chosen (t ∷ ts) d = elim (Bool-cases (length chosen == size)) [
    | inl full ↦ rw (full) d
    | inr room ↦
        rw (room) (Distinct-fill (step (keep t) t chosen) ts (Distinct-step (keep t) t chosen d))
  ]

  pub contains-fill_old :
      (z : ℕ) (chosen ts : List ℕ)
      → contains z chosen ≡ true
      → contains z (fill keep size chosen ts) ≡ true
  unfolding fill
  contains-fill_old z chosen [] h = h
  contains-fill_old z chosen (t ∷ ts) h = elim (Bool-cases (length chosen == size)) [
    | inl full ↦ rw (full) h
    | inr room ↦
        rw (room) (
          contains-fill_old z (step (keep t) t chosen) ts (contains-step_old (keep t) t z chosen h))
  ]

  -- Nothing is added that fails the test or is not offered.
  pub contains-fill_from :
      (z : ℕ) (chosen ts : List ℕ)
      → contains z (fill keep size chosen ts) ≡ true
      → (contains z chosen ≡ true) ⊎ ((keep z ≡ true) × (contains z ts ≡ true))
  unfolding fill
  contains-fill_from z chosen [] h = inl h
  contains-fill_from z chosen (t ∷ ts) h = elim (Bool-cases (length chosen == size)) [
    | inl full ↦ inl (rw full at h)
    | inr room ↦ elim (contains-fill_from z (step (keep t) t chosen) ts (rw room at h)) [
      | inr later ↦ inr (later.0, ground (arith, later))
      | inl now ↦ elim (contains-step_from (keep t) t z chosen now) [
        | inl old ↦ inl old
        | inr new ↦ inr (subst (λ i. keep i ≡ true) new.1 new.0, offered t z ts new.1)
      ]
    ]
  ]
    where
      offered : (t z : ℕ) (ts : List ℕ) → t ≡ z → contains z (t ∷ ts) ≡ true
      offered t z ts e = let b = (nat_beq_iff t z).1 e in ground (arith, b)

-- A loop without a test fills up or takes every id.
pub fill_complete :
    (size : ℕ) (chosen ts : List ℕ)
    → (length (fill (λ t. true) size chosen ts) ≡ size)
      ⊎ ((z : ℕ) → contains z ts ≡ true → contains z (fill (λ t. true) size chosen ts) ≡ true)
unfolding fill
fill_complete size chosen [] = inr (λ z h. cc)
fill_complete size chosen (t ∷ ts) = elim (Bool-cases (length chosen == size)) [
  | inl full ↦ inl (rw (full) ((nat_beq_iff (length chosen) size).0 full))
  | inr room ↦ elim (fill_complete size (step true t chosen) ts) [
    | inl done ↦ inl (rw (room) done)
    | inr all ↦ inr (λ z h. rw (room) (elim (Bool-cases (t == z)) [
      | inl same ↦
          subst (λ i. contains i (fill (λ t. true) size (step true t chosen) ts) ≡ true)
            ((nat_beq_iff t z).0 same)
            (contains-fill_old (λ t. true) size t (step true t chosen) ts
              (contains-step_new t chosen))
      | inr other ↦ all z (ground (arith, h, other))
    ]))
  ]
]
