-- ===== src/Ngram/Packed.antt =====
-- The places of packed tokens: the search in the running sums against walking along the lengths.
use mathlib.Core.List.{map-append}
use sglang_flashnext_nvfp4kv.Prelude.{
  ℕ, zero, suc, ◌+◌, ◌-◌, ◌<◌, ◌≡◌, ◌∙◌, refl, ap, sym, true, false, List, [], ◌∷◌, ◌++◌, map,
  arith, length, range, count_up, count_up-plus, replicate, get_or, leb, ltb, if◌then◌else◌,
  Bool-cases, map-count_up, map-shift, inl, inr,
}
use sglang_flashnext_nvfp4kv.Ngram.Batch.{
  sum, cumsum, searchsorted_right, query_start_loc, req_index, token_offset,
}

-- The row of the p-th token, and its place there.
abbrev row_of : List ℕ → ℕ → ℕ
row_of [] p = 0
row_of (l ∷ lens) p = let rest = suc (row_of lens (p - l)) in if ltb p l then 0 else rest

abbrev place_of : List ℕ → ℕ → ℕ
place_of [] p = p
place_of (l ∷ lens) p = let rest = place_of lens (p - l) in if ltb p l then p else rest

searchsorted_right-row_of :
    (lens : List ℕ) (t p : ℕ)
    → p < sum lens
    → (searchsorted_right (cumsum t lens) (t + p) ≡ row_of lens p) × (row_of lens p < length lens)
unfolding searchsorted_right cumsum
searchsorted_right-row_of [] t p h = absurd (omega arith)
searchsorted_right-row_of (l ∷ lens) t p h = elim (Bool-cases (ltb p l)) [
  | inl e ↦ (ground arith, ground arith)
  | inr e ↦
      let e' : t + p ≡ t + l + (p - l) = ground arith in
      let ih = searchsorted_right-row_of lens (t + l) (p - l) (ground arith) in
      let c : leb (t + l) (t + p) ≡ true = ground arith in
      rw (e, c, e') (ap suc ih.0, omega (arith, ih.1))
]

get_or-place_of :
    (lens : List ℕ) (t p : ℕ)
    → p < sum lens
    → get_or (t ∷ cumsum t lens) (row_of lens p) 0 + place_of lens p ≡ t + p
unfolding cumsum
get_or-place_of [] t p h = absurd (omega arith)
get_or-place_of (l ∷ lens) t p h = elim (Bool-cases (ltb p l)) [
  | inl e ↦ rw e refl
  | inr e ↦
      let q : t + l + (p - l) ≡ t + p = ground arith in
      rw e (get_or-place_of lens (t + l) (p - l) (ground arith) ∙ q)
]

-- The code's index and offset of a token.
req_index-row_of : (lens : List ℕ) (p : ℕ) → p < sum lens → req_index lens p ≡ row_of lens p
unfolding req_index query_start_loc searchsorted_right
req_index-row_of lens p h =
    let s = searchsorted_right-row_of lens 0 p h in
    let e : 0 + p ≡ p = omega arith in
    let q : searchsorted_right (cumsum 0 lens) p ≡ row_of lens p =
      ap (searchsorted_right (cumsum 0 lens)) (sym e) ∙ s.0 in
    let c : leb 0 p ≡ true = ground arith in rw (c, q) (omega (arith, s.1))

token_offset-place_of :
    (lens : List ℕ) (p : ℕ) → p < sum lens → token_offset lens p ≡ place_of lens p
unfolding token_offset query_start_loc
token_offset-place_of lens p h =
    rw (req_index-row_of lens p h) (omega (arith, get_or-place_of lens 0 p h))

-- The rows and the places of all tokens, one request after the other.
abbrev pub rows_from : ℕ → List ℕ → List ℕ
rows_from r [] = []
rows_from r (l ∷ lens) = replicate l r ++ rows_from (suc r) lens

abbrev pub places : List ℕ → List ℕ
places [] = []
places (l ∷ lens) = range l ++ places lens

map_const : (r n i : ℕ) → map (λ j. r) (count_up n i) ≡ replicate n r
map_const r zero i = refl
map_const r (suc n) i = rw (map_const r n (suc i))

map_same : (n i : ℕ) → map (λ j. j) (count_up n i) ≡ count_up n i
map_same zero i = refl
map_same (suc n) i = rw (map_same n (suc i))

rows_from-row_of :
    (lens : List ℕ) (r : ℕ) → map (λ p. r + row_of lens p) (range (sum lens)) ≡ rows_from r lens
rows_from-row_of [] r = refl
rows_from-row_of (l ∷ lens) r =
    let f = λ (p : ℕ). r + row_of (l ∷ lens) p in
    let z : 0 + l ≡ l = omega arith in
    let near : map f (count_up l 0) ≡ replicate l r =
      map-count_up f (λ j. r) l 0 (λ j p q. ground arith) ∙ map_const r l 0 in
    let far : map f (count_up (sum lens) l) ≡ rows_from (suc r) lens =
      map-shift f (λ p. suc r + row_of lens p) (sum lens) l 0
        (λ j p.
          let a : l + j - l ≡ j = omega arith in
          let b : ltb (l + j) l ≡ false = ground arith in
          let c : 0 + j ≡ j = omega arith in rw (b, a, c) (omega arith))
      ∙ rows_from-row_of lens (suc r) in
    ap (map f) (count_up-plus l (sum lens) 0)
    ∙ map-append f (count_up l 0) (count_up (sum lens) (0 + l))
    ∙ rw (z, near, far) refl

places-place_of : (lens : List ℕ) → map (place_of lens) (range (sum lens)) ≡ places lens
places-place_of [] = refl
places-place_of (l ∷ lens) =
    let f = place_of (l ∷ lens) in
    let z : 0 + l ≡ l = omega arith in
    let near : map f (count_up l 0) ≡ count_up l 0 =
      map-count_up f (λ j. j) l 0 (λ j p q. ground arith) ∙ map_same l 0 in
    let far : map f (count_up (sum lens) l) ≡ places lens =
      map-shift f (place_of lens) (sum lens) l 0 (λ j p.
        let a : l + j - l ≡ j = omega arith in
        let b : ltb (l + j) l ≡ false = ground arith in
        let c : 0 + j ≡ j = omega arith in rw (b, a, c) refl)
      ∙ places-place_of lens in
    ap (map f) (count_up-plus l (sum lens) 0)
    ∙ map-append f (count_up l 0) (count_up (sum lens) (0 + l))
    ∙ rw (z, near, far) refl

pub req_indices-packed :
    (lens : List ℕ) → map (req_index lens) (range (sum lens)) ≡ rows_from 0 lens
req_indices-packed lens =
    map-count_up (req_index lens) (λ p. 0 + row_of lens p) (sum lens) 0
      (λ j p q. omega (arith, req_index-row_of lens j (omega arith)))
    ∙ rows_from-row_of lens 0

pub token_offsets-packed :
    (lens : List ℕ) → map (token_offset lens) (range (sum lens)) ≡ places lens
token_offsets-packed lens =
    map-count_up (token_offset lens) (place_of lens) (sum lens) 0
      (λ j p q. token_offset-place_of lens j (omega arith))
    ∙ places-place_of lens
