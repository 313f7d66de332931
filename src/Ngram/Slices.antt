-- ===== src/Ngram/Slices.antt =====
-- Blocks of heads as slices of the tables.
use native.Mathlib.Nat.{add-mul}
use sglang_flashnext_nvfp4kv.Prelude.{
  ℕ, zero, suc, ◌+◌, ◌-◌, ◌*◌, ◌≤◌, ◌≡◌, ◌∙◌, refl, ap, sym, List, [], ◌∷◌, ◌++◌, arith, length,
  take, drop, take-append-drop, length-take, length-drop,
}

drop-drop : (m n : ℕ) (xs : List ℕ) → drop m (drop n xs) ≡ drop (n + m) xs
drop-drop m zero xs = let e : m ≡ 0 + m = omega arith in ap (λ k. drop k xs) e
drop-drop zero (suc n) [] = let e : suc n ≡ suc n + 0 = omega arith in ap (λ k. drop k []) e
drop-drop (suc m) (suc n) [] = let e : suc n + suc m ≡ suc (n + suc m) = omega arith in rw e refl
drop-drop m (suc n) (x ∷ xs) =
    let e : suc n + m ≡ suc (n + m) = omega arith in rw e (drop-drop m n xs)

-- A block of heads and the blocks after it.
pub split_block :
    (ngram h : ℕ) (xs : List ℕ)
    → 2 ≤ ngram
    → drop ((ngram - 2) * h) xs
      ≡ take h (drop ((ngram - 2) * h) xs) ++ drop ((ngram + 1 - 2) * h) xs
split_block ngram h xs k =
    let e : ngram + 1 - 2 ≡ ngram - 2 + 1 = omega arith in
    let e' : (ngram - 2) * h + h ≡ (ngram + 1 - 2) * h =
      rw e (omega (arith, add-mul (ngram - 2) 1 h)) in
    sym (take-append-drop h (drop ((ngram - 2) * h) xs))
    ∙ ap (λ r. take h (drop ((ngram - 2) * h) xs) ++ r)
        (drop-drop h ((ngram - 2) * h) xs ∙ ap (λ k. drop k xs) e')

pub drop_all : (n : ℕ) (xs : List ℕ) → length xs ≤ n → drop n xs ≡ []
drop_all zero [] h = refl
drop_all zero (x ∷ xs) h = absurd (omega arith)
drop_all (suc n) [] h = refl
drop_all (suc n) (x ∷ xs) h = drop_all n xs (omega arith)

pub same_length :
    (h start : ℕ) (xs ys : List ℕ)
    → length xs ≡ length ys
    → length (take h (drop start xs)) ≡ length (take h (drop start ys))
same_length h start xs ys e = omega (
  arith,
  length-take h (drop start xs),
  length-take h (drop start ys),
  length-drop start xs,
  length-drop start ys,
)
