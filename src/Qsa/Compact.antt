-- ===== src/Qsa/Compact.antt =====
-- runtime-src/kernel.py: what sorting by the keys does to a row of Torch's expansion.
use mathlib.Core.List.{append_assoc, append-nil, map-append}
use sglang_flashnext_nvfp4kv.Prelude.{
  ℕ, zero, suc, ◌+◌, ◌≤◌, ◌≡◌, ◌∙◌, refl, ap, sym, List, [], ◌∷◌, ◌++◌, map, arith, length,
  replicate,
}
use sglang_flashnext_nvfp4kv.Prelude.Int.{ℤ, pos, negsuc}
use sglang_flashnext_nvfp4kv.Qsa.Expand.{
  minus_one, is_valid_entry, sort_keys, insert_key, sort_by_key, compact,
}

-- The entries of a row that hold a token, each with its key, and those that do not.
unfoldable pub kept : ℕ → List ℤ → List (ℕ × ℤ)
kept i [] = []
kept i (pos t ∷ xs) = (i, pos t) ∷ kept (suc i) xs
kept i (negsuc t ∷ xs) = kept (suc i) xs

unfoldable pub blanks : ℕ → ℕ → List ℤ → List (ℕ × ℤ)
blanks final i [] = []
blanks final i (pos t ∷ xs) = blanks final (suc i) xs
blanks final i (negsuc t ∷ xs) = (i + final, negsuc t) ∷ blanks final (suc i) xs

-- A key not above any of the rest goes to the front.
insert_key-blanks :
    (final k i : ℕ) (e : ℤ) (xs : List ℤ)
    → k ≤ i + final
    → insert_key (k, e) (blanks final i xs) ≡ (k, e) ∷ blanks final i xs
unfolding insert_key blanks
insert_key-blanks final k i e [] le = refl
insert_key-blanks final k i e (pos t ∷ xs) le = insert_key-blanks final k (suc i) e xs (omega arith)
insert_key-blanks final k i e (negsuc t ∷ xs) le = ground arith

insert_key-kept :
    (final k i j : ℕ) (e : ℤ) (xs ys : List ℤ)
    → k ≤ i
    → k ≤ j
    → insert_key (k, e) (kept i xs ++ blanks final j ys) ≡ (k, e) ∷ (kept i xs ++ blanks final j ys)
unfolding insert_key kept
insert_key-kept final k i j e [] ys le le' = insert_key-blanks final k j e ys (omega arith)
insert_key-kept final k i j e (pos t ∷ xs) ys le le' = ground arith
insert_key-kept final k i j e (negsuc t ∷ xs) ys le le' =
    insert_key-kept final k (suc i) j e xs ys (omega arith) le'

-- A key above all of them goes past the kept entries.
insert_key-past :
    (k i : ℕ) (e : ℤ) (xs : List ℤ) (rest : List (ℕ × ℤ))
    → i + length xs ≤ k
    → insert_key (k, e) (kept i xs ++ rest) ≡ kept i xs ++ insert_key (k, e) rest
unfolding insert_key kept
insert_key-past k i e [] rest le = refl
insert_key-past k i e (pos t ∷ xs) rest le =
    let ih = insert_key-past k (suc i) e xs rest (omega arith) in ground (arith, ih)
insert_key-past k i e (negsuc t ∷ xs) rest le = insert_key-past k (suc i) e xs rest (omega arith)

sort_by_key-split :
    (final i : ℕ) (xs : List ℤ)
    → i + length xs ≤ final
    → sort_by_key (sort_keys final i xs) ≡ kept i xs ++ blanks final i xs
unfolding sort_by_key sort_keys kept blanks is_valid_entry
sort_by_key-split final i [] le = refl
sort_by_key-split final i (pos t ∷ xs) le =
    ap (insert_key (i, pos t)) (sort_by_key-split final (suc i) xs (omega arith))
    ∙ insert_key-kept final i (suc i) (suc i) (pos t) xs xs (omega arith) (omega arith)
sort_by_key-split final i (negsuc t ∷ xs) le =
    ap (insert_key (i + final, negsuc t)) (sort_by_key-split final (suc i) xs (omega arith))
    ∙ insert_key-past (i + final) (suc i) (negsuc t) xs (blanks final (suc i) xs) (omega arith)
    ∙ ap (λ r. kept (suc i) xs ++ r)
        (insert_key-blanks final (i + final) (suc i) (negsuc t) xs (omega arith))

-- Tokens and then -1s.
abbrev pub padded : List ℕ → ℕ → List ℤ
padded ts j = map pos ts ++ replicate j minus_one

abbrev values : List (ℕ × ℤ) → List ℤ
values = map (λ e. e.1)

kept-gaps : (i j : ℕ) (xs : List ℤ) → kept i (replicate j minus_one ++ xs) ≡ kept (i + j) xs
unfolding kept
kept-gaps i zero xs = ap (λ k. kept k xs) (omega arith)
kept-gaps i (suc j) xs = kept-gaps (suc i) j xs ∙ ap (λ k. kept k xs) (omega arith)

values-kept :
    (i : ℕ) (ts : List ℕ) (xs : List ℤ)
    → values (kept i (map pos ts ++ xs)) ≡ map pos ts ++ values (kept (i + length ts) xs)
unfolding kept
values-kept i [] xs = ap (λ k. values (kept k xs)) (omega arith)
values-kept i (t ∷ ts) xs =
    ap (λ r. pos t ∷ r)
      (values-kept (suc i) ts xs ∙ ap (λ k. map pos ts ++ values (kept k xs)) (omega arith))

blanks-tokens :
    (final i : ℕ) (ts : List ℕ) (xs : List ℤ)
    → blanks final i (map pos ts ++ xs) ≡ blanks final (i + length ts) xs
unfolding blanks
blanks-tokens final i [] xs = ap (λ k. blanks final k xs) (omega arith)
blanks-tokens final i (t ∷ ts) xs =
    blanks-tokens final (suc i) ts xs ∙ ap (λ k. blanks final k xs) (omega arith)

values-blanks :
    (final i j : ℕ) (xs : List ℤ)
    → values (blanks final i (replicate j minus_one ++ xs))
      ≡ replicate j minus_one ++ values (blanks final (i + j) xs)
unfolding blanks
values-blanks final i zero xs = ap (λ k. values (blanks final k xs)) (omega arith)
values-blanks final i (suc j) xs =
    ap (λ r. minus_one ∷ r)
      (values-blanks final (suc i) j xs
        ∙ ap (λ k. replicate j minus_one ++ values (blanks final k xs)) (omega arith))

-- The row of an expansion, flat.
abbrev flat : List ℕ → ℕ → List ℕ → ℕ → List ℤ
flat ts j us k =
    map pos ts ++ (replicate j minus_one ++ (map pos us ++ (replicate k minus_one ++ [])))

padded-flat : (ts us : List ℕ) (j k : ℕ) → padded ts j ++ padded us k ≡ flat ts j us k
padded-flat ts us j k =
    append_assoc (map pos ts) (replicate j minus_one) (padded us k)
    ∙ ap (λ r. map pos ts ++ (replicate j minus_one ++ (map pos us ++ r)))
        (sym (append-nil (replicate k minus_one)))

kept-flat : (ts us : List ℕ) (j k : ℕ) → values (kept 0 (flat ts j us k)) ≡ map pos ts ++ map pos us
unfolding kept
kept-flat ts us j k =
    values-kept 0 ts (replicate j minus_one ++ (map pos us ++ (replicate k minus_one ++ [])))
    ∙ ap (λ r. map pos ts ++ r)
        (ap values (kept-gaps (0 + length ts) j (map pos us ++ (replicate k minus_one ++ [])))
          ∙ values-kept (0 + length ts + j) us (replicate k minus_one ++ [])
          ∙ ap (λ r. map pos us ++ values r) (kept-gaps (0 + length ts + j + length us) k [])
          ∙ append-nil (map pos us))

blanks-flat :
    (final : ℕ) (ts us : List ℕ) (j k : ℕ)
    → values (blanks final 0 (flat ts j us k)) ≡ replicate j minus_one ++ replicate k minus_one
unfolding blanks
blanks-flat final ts us j k =
    let us' = map pos us ++ (replicate k minus_one ++ []) in
    ap values (blanks-tokens final 0 ts (replicate j minus_one ++ us'))
    ∙ values-blanks final (0 + length ts) j us'
    ∙ ap (λ r. replicate j minus_one ++ r)
        (ap values (blanks-tokens final (0 + length ts + j) us (replicate k minus_one ++ []))
          ∙ values-blanks final (0 + length ts + j + length us) k []
          ∙ append-nil (replicate k minus_one))

-- The sort moves the tokens of both parts to the front, in their order, and every -1 after them.
pub compact-padded :
    (final : ℕ) (ts us : List ℕ) (j k : ℕ)
    → length (padded ts j ++ padded us k) ≤ final
    → compact final (padded ts j ++ padded us k)
      ≡ (map pos ts ++ map pos us) ++ (replicate j minus_one ++ replicate k minus_one)
unfolding compact
compact-padded final ts us j k le =
    ap values (sort_by_key-split final 0 (padded ts j ++ padded us k) (omega (arith, le)))
    ∙ map-append (λ e. e.1) (kept 0 (padded ts j ++ padded us k))
        (blanks final 0 (padded ts j ++ padded us k))
    ∙ ap (λ r. values (kept 0 r) ++ values (blanks final 0 r)) (padded-flat ts us j k)
    ∙ ap (λ r. r ++ values (blanks final 0 (flat ts j us k))) (kept-flat ts us j k)
    ∙ ap (λ r. (map pos ts ++ map pos us) ++ r) (blanks-flat final ts us j k)
