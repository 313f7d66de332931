-- ===== src/TokenMap/Sorting.antt =====
-- scripts/build_token_map.py: what `sorted` and `add` do to the entries of a list.
use sglang_flashnext_nvfp4kv.Prelude.{
  ℕ, suc, ◌≤◌, ◌<◌, ◌≡◌, ◌≢◌, ◌∙◌, refl, ap, subst, inl, inr, Bool, true, false, List, [], ◌∷◌,
  arith, nat_eq, nat_beq_iff, ◌==◌, leb, if◌then◌else◌, Bool-cases, length, contains,
}
use sglang_flashnext_nvfp4kv.ColdPool.Ownership.{Distinct}
use sglang_flashnext_nvfp4kv.TokenMap.Select.{add, union, all_in, insert_sorted, sorted}

module _ (before : ℕ → ℕ → Bool) where
  contains-insert_sorted :
      (z x : ℕ) (ys : List ℕ) → contains z (insert_sorted before x ys) ≡ contains z (x ∷ ys)
  unfolding insert_sorted
  contains-insert_sorted z x [] = refl
  contains-insert_sorted z x (y ∷ ys) = ground (arith, contains-insert_sorted z x ys)

  pub contains-sorted : (z : ℕ) (xs : List ℕ) → contains z (sorted before xs) ≡ contains z xs
  unfolding sorted
  contains-sorted z [] = refl
  contains-sorted z (x ∷ xs) =
      contains-insert_sorted z x (sorted before xs) ∙ ground (arith, contains-sorted z xs)

  length-insert_sorted :
      (x : ℕ) (ys : List ℕ) → length (insert_sorted before x ys) ≡ suc (length ys)
  unfolding insert_sorted
  length-insert_sorted x [] = refl
  length-insert_sorted x (y ∷ ys) = ground (arith, length-insert_sorted x ys)

  pub length-sorted : (xs : List ℕ) → length (sorted before xs) ≡ length xs
  unfolding sorted
  length-sorted [] = refl
  length-sorted (x ∷ xs) = length-insert_sorted x (sorted before xs) ∙ ap suc (length-sorted xs)

-- Each entry is below the next.
abbrev pub Ascending : List ℕ → Type 0
Ascending [] = Unit
Ascending (x ∷ []) = Unit
Ascending (x ∷ y ∷ ys) = (x < y) × Ascending (y ∷ ys)

Ascending-insert_sorted :
    (x : ℕ) (ys : List ℕ)
    → contains x ys ≡ false
    → Ascending ys
    → Ascending (insert_sorted leb x ys)
unfolding insert_sorted
Ascending-insert_sorted x [] h a = tt
Ascending-insert_sorted x (y ∷ []) h a = elim (Bool-cases (leb x y)) [
  | inl le ↦ rw (le) (ground (arith, le, h), tt)
  | inr gt ↦ rw (gt) (ground (arith, gt), tt)
]
Ascending-insert_sorted x (y ∷ z ∷ zs) h a =
    let rest = Ascending-insert_sorted x (z ∷ zs) (ground (arith, h)) a.1 in
    elim (Bool-cases (leb x y)) [
      | inl le ↦ rw (le) (ground (arith, le, h), a)
      | inr gt ↦ elim (Bool-cases (leb x z)) [
        | inl le ↦ rw (gt, le) (ground (arith, gt), (rw le at rest))
        | inr gt' ↦ rw (gt, gt') (a.0, (rw gt' at rest))
      ]
    ]

pub Ascending-sorted : (xs : List ℕ) → Distinct xs → Ascending (sorted leb xs)
unfolding sorted
Ascending-sorted [] d = tt
Ascending-sorted (x ∷ xs) d =
    Ascending-insert_sorted x (sorted leb xs) (contains-sorted leb x xs ∙ d.0)
      (Ascending-sorted xs d.1)

pub Distinct-union : (s xs : List ℕ) → Distinct s → Distinct (union s xs)
unfolding union add
Distinct-union s [] d = d
Distinct-union s (x ∷ xs) d = elim (Bool-cases (contains x (union s xs))) [
  | inl old ↦ rw (old) (Distinct-union s xs d)
  | inr new ↦ rw (new) (new, Distinct-union s xs d)
]

pub contains-union :
    (z : ℕ) (s xs : List ℕ)
    → contains z (union s xs) ≡ (if contains z s then true else contains z xs)
unfolding union add
contains-union z s [] = ground arith
contains-union z s (x ∷ xs) =
    ground (arith, contains-union z s xs, contains-union x s xs, nat_beq_iff x z)

pub all_in-contains :
    (xs s : List ℕ) (z : ℕ) → all_in xs s ≡ true → contains z xs ≡ true → contains z s ≡ true
unfolding all_in
all_in-contains [] s z h c = cc
all_in-contains (x ∷ xs) s z h c = elim (Bool-cases (x == z)) [
  | inl same ↦
      let e : x ≡ z = (nat_beq_iff x z).0 same in
      subst (λ i. contains i s ≡ true) e (ground (arith, h))
  | inr other ↦ all_in-contains xs s z (ground (arith, h)) (ground (arith, c, other))
]

-- `ys` less one occurrence of `x`.
abbrev without : ℕ → List ℕ → List ℕ
without x [] = []
without x (y ∷ ys) = if y == x then ys else y ∷ without x ys

length-without :
    (x : ℕ) (ys : List ℕ) → contains x ys ≡ true → suc (length (without x ys)) ≡ length ys
length-without x [] h = cc
length-without x (y ∷ ys) h = ground (arith, h, length-without x ys)

contains-without :
    (x z : ℕ) (ys : List ℕ) → x ≢ z → contains z ys ≡ true → contains z (without x ys) ≡ true
contains-without x z [] ne h = h
contains-without x z (y ∷ ys) ne h =
    let differ : (x == z) ≡ false = elim (Bool-cases (x == z)) [
      | inl e ↦ absurd (ne ((nat_beq_iff x z).0 e))
      | inr e ↦ e
    ] in
    ground (arith, h, differ, contains-without x z ys ne)

-- Distinct ids that a list contains are no more than its entries.
pub length-subset :
    (xs ys : List ℕ)
    → Distinct xs
    → ((z : ℕ) → contains z xs ≡ true → contains z ys ≡ true)
    → length xs ≤ length ys
length-subset [] ys d h = omega arith
length-subset (x ∷ xs) ys d h =
    let here : contains x ys ≡ true = h x (ground arith) in
    let fewer =
      length-subset xs (without x ys) d.1
        (λ z c. contains-without x z ys (λ e. absurd (apart z e c)) (h z (ground (arith, c)))) in
    omega (arith, length-without x ys here, fewer)
  where
    apart : (z : ℕ) → x ≡ z → contains z xs ≡ true → ⊥
    apart z e c =
        let same : contains x xs ≡ true = ap (λ i. contains i xs) e ∙ c in let no_entry = d.0 in cc
