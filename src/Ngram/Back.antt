-- ===== src/Ngram/Back.antt =====
-- The shift of a row against walking back through it token by token.
use sglang_flashnext_nvfp4kv.Prelude.{
  ℕ, zero, suc, ◌+◌, ◌-◌, ◌≤◌, ◌<◌, ◌≡◌, refl, ap, sym, ◌&&◌, List, [], ◌∷◌, map, arith, length,
  take, range, get_or, nat_eq, ◌==◌, leb, if◌then◌else◌, max, count_up, subst, map-count_up, false,
}
use sglang_flashnext_nvfp4kv.Ngram.Shift.{
  eos_pos, cummax, segment_start, shifted_at, shift_right_ignore_eos,
}

-- The token n columns back, an end of sequence on the way standing for all that is before it.
unfoldable pub token_back : ℕ → List ℕ → ℕ → ℕ → ℕ
token_back eos row idx zero = get_or row idx eos
token_back eos row zero (suc n) = eos
token_back eos row (suc i) (suc n) =
    let rest = token_back eos row i n in if get_or row i eos == eos then eos else rest

get_or-take : (n i d : ℕ) (xs : List ℕ) → i < n → get_or (take n xs) i d ≡ get_or xs i d
get_or-take zero i d xs h = absurd (omega arith)
get_or-take (suc n) i d [] h = refl
get_or-take (suc n) zero d (x ∷ xs) h = refl
get_or-take (suc n) (suc i) d (x ∷ xs) h = get_or-take n i d xs (omega arith)

get_or-cummax :
    (m i : ℕ) (xs : List ℕ)
    → i < length xs
    → get_or (cummax m xs) i 0 ≡ max (get_or (m ∷ cummax m xs) i 0) (get_or xs i 0)
unfolding cummax
get_or-cummax m i [] h = absurd (omega arith)
get_or-cummax m zero (x ∷ xs) h = refl
get_or-cummax m (suc i) (x ∷ xs) h = get_or-cummax (max m x) i xs (omega arith)

length-eos_pos : (eos idx : ℕ) (row : List ℕ) → length (eos_pos eos idx row) ≡ length row
unfolding eos_pos
length-eos_pos eos idx [] = refl
length-eos_pos eos idx (t ∷ ts) = ap suc (length-eos_pos eos (idx + 1) ts)

get_or-eos_pos :
    (eos idx i : ℕ) (row : List ℕ)
    → i < length row
    → get_or (eos_pos eos idx row) i 0 ≡ (if get_or row i eos == eos then idx + i + 1 else 0)
unfolding eos_pos
get_or-eos_pos eos idx i [] h = absurd (omega arith)
get_or-eos_pos eos idx zero (t ∷ ts) h = ground arith
get_or-eos_pos eos idx (suc i) (t ∷ ts) h = ground (arith, get_or-eos_pos eos (idx + 1) i ts)

module _ (eos : ℕ) (row : List ℕ) where
  -- The segment's start after column i.
  abbrev start : ℕ → ℕ
  start i = get_or (0 ∷ cummax 0 (eos_pos eos 0 row)) i 0

  start-suc :
      (i : ℕ)
      → i < length row
      → start (suc i) ≡ max (start i) (if get_or row i eos == eos then i + 1 else 0)
  start-suc i h = ground (
    arith,
    length-eos_pos eos 0 row,
    get_or-cummax 0 i (eos_pos eos 0 row) (omega (arith, length-eos_pos eos 0 row)),
    get_or-eos_pos eos 0 i row h,
  )

  start-le : (i : ℕ) → i ≤ length row → start i ≤ i
  start-le zero h = omega arith
  start-le (suc i) h = ground (arith, start-suc i (omega arith), start-le i (omega arith))

  walk_back :
      (n i : ℕ)
      → i < length row
      → (if leb n (i - start i) && leb n i then get_or row (i - n) eos else eos)
        ≡ token_back eos row i n
  unfolding token_back
  walk_back zero i h = ground arith
  walk_back (suc n) zero h = ground arith
  walk_back (suc n) (suc i) h =
      ground
        (arith, start-suc i (omega arith), start-le i (omega arith), walk_back n i (omega arith))

  pub shifted_at-token_back :
      (n i : ℕ) → i < length row → shifted_at eos row n i ≡ token_back eos row i n
  unfolding shifted_at segment_start
  shifted_at-token_back n i h =
      rw (get_or-take (length row) i 0 (0 ∷ cummax 0 (eos_pos eos 0 row)) h) (walk_back n i h)

map-token_back_zero :
    (eos i : ℕ) (xs row : List ℕ)
    → ((j : ℕ) → get_or row (i + j) eos ≡ get_or xs j eos)
    → map (λ j. token_back eos row j 0) (count_up (length xs) i) ≡ xs
unfolding token_back
map-token_back_zero eos i [] row h = refl
map-token_back_zero eos i (x ∷ xs) row h =
    let e : i + 0 ≡ i = omega arith in
    let q : get_or row i eos ≡ x = subst (λ k. get_or row k eos ≡ x) e (h 0) in
    let rest : map (λ j. token_back eos row j 0) (count_up (length xs) (suc i)) ≡ xs =
      map-token_back_zero eos (suc i) xs row (λ j.
        let e' : i + suc j ≡ suc i + j = omega arith in
        subst (λ k. get_or row k eos ≡ get_or xs j eos) e' (h (suc j))) in
    rw (q, rest)

-- Shifting a row right by n, which the code does by a running maximum of the end-of-sequence
-- positions and a masked gather, gives in each column the token n columns back, or the end of sequence
-- where one lies on the way or the row begins.
pub shift_right_ignore_eos-token_back :
    (eos : ℕ) (row : List ℕ) (n : ℕ)
    → shift_right_ignore_eos eos row n ≡ map (λ i. token_back eos row i n) (range (length row))
unfolding shift_right_ignore_eos
shift_right_ignore_eos-token_back eos row zero =
    sym (map-token_back_zero eos 0 row row (λ j. ap (λ k. get_or row k eos) (omega arith)))
shift_right_ignore_eos-token_back eos row (suc n) =
    let e : (suc n == 0) ≡ false = ground arith in
    rw e (
      map-count_up _ _ (length row) 0
        (λ j p q. shifted_at-token_back eos row (suc n) j (omega arith)))
