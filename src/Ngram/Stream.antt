-- ===== src/Ngram/Stream.antt =====
-- The windows of a sequence and the history after it, and how both are put together from chunks.
use mathlib.Core.List.{append_assoc, append-nil, map-append}
use sglang_flashnext_nvfp4kv.Prelude.{
  ℕ, zero, suc, ◌+◌, ◌≤◌, ◌≡◌, ◌∙◌, refl, ap, sym, List, [], ◌∷◌, ◌++◌, map, arith, length,
  length-append, length-drop, take, drop, range, count_up, count_up-plus, map-count_up, map-shift,
}
use sglang_flashnext_nvfp4kv.Ngram.Prepare.{window}

-- For each token, the c tokens before it and itself.
unfoldable pub sequence_windows : ℕ → List ℕ → List ℕ → List (List ℕ)
sequence_windows c history tokens = map (window (suc c) (history ++ tokens)) (range (length tokens))

-- The last c tokens.
unfoldable pub next_context : ℕ → List ℕ → List ℕ → List ℕ
next_context c history tokens = window c (history ++ tokens) (length tokens)

pub sequence_windows-nil : (c : ℕ) (history : List ℕ) → sequence_windows c history [] ≡ []
unfolding sequence_windows
sequence_windows-nil c history = refl

pub take_all : (n : ℕ) (xs : List ℕ) → length xs ≤ n → take n xs ≡ xs
take_all zero [] h = refl
take_all zero (x ∷ xs) h = absurd (omega arith)
take_all (suc n) [] h = refl
take_all (suc n) (x ∷ xs) h = rw (take_all n xs (omega arith))

take-append : (n : ℕ) (xs ys : List ℕ) → n ≤ length xs → take n (xs ++ ys) ≡ take n xs
take-append zero xs ys h = refl
take-append (suc n) [] ys h = absurd (omega arith)
take-append (suc n) (x ∷ xs) ys h = rw (take-append n xs ys (omega arith))

drop-append : (n : ℕ) (xs ys : List ℕ) → n ≤ length xs → drop n (xs ++ ys) ≡ drop n xs ++ ys
drop-append zero xs ys h = refl
drop-append (suc n) [] ys h = absurd (omega arith)
drop-append (suc n) (x ∷ xs) ys h = drop-append n xs ys (omega arith)

drop_nil : (n : ℕ) → [] ≡ drop {A = ℕ} n []
drop_nil zero = refl
drop_nil (suc n) = refl

drop-plus : (m n : ℕ) (xs : List ℕ) → drop (m + n) xs ≡ drop n (drop m xs)
drop-plus zero n xs = let e : 0 + n ≡ n = omega arith in ap (λ k. drop k xs) e
drop-plus (suc m) n [] = let e : suc m + n ≡ suc (m + n) = omega arith in rw e (drop_nil n)
drop-plus (suc m) n (x ∷ xs) =
    let e : suc m + n ≡ suc (m + n) = omega arith in rw e (drop-plus m n xs)

-- Columns after a window do not matter.
pub window-append :
    (n o : ℕ) (xs ys : List ℕ) → o + n ≤ length xs → window n (xs ++ ys) o ≡ window n xs o
window-append n o xs ys h =
    rw (drop-append o xs ys (omega arith))
      (take-append n (drop o xs) ys (omega (arith, length-drop o xs)))

module _ (c : ℕ) (history : List ℕ) (full : length history ≡ c) where
  next_context-drop :
      (tokens : List ℕ) → next_context c history tokens ≡ drop (length tokens) (history ++ tokens)
  unfolding next_context
  next_context-drop tokens =
      take_all c (drop (length tokens) (history ++ tokens)) (
        omega
          (arith, length-drop (length tokens) (history ++ tokens), length-append history tokens))

  pub length-next_context : (tokens : List ℕ) → length (next_context c history tokens) ≡ c
  length-next_context tokens =
      rw (next_context-drop tokens) (
        omega
          (arith, length-drop (length tokens) (history ++ tokens), length-append history tokens))

  pub next_context-nil : next_context c history [] ≡ history
  next_context-nil = next_context-drop [] ∙ append-nil history

  -- What follows the first tokens is the history after them and the later tokens.
  later_columns :
      (xs ys : List ℕ) → drop (length xs) (history ++ (xs ++ ys)) ≡ next_context c history xs ++ ys
  later_columns xs ys =
      ap (drop (length xs)) (sym (append_assoc history xs ys))
      ∙ drop-append (length xs) (history ++ xs) ys (omega (arith, length-append history xs))
      ∙ ap (λ r. r ++ ys) (sym (next_context-drop xs))

module _ (c : ℕ) (history : List ℕ) (full : length history ≡ c) where
  pub next_context-append :
      (xs ys : List ℕ)
      → next_context c history (xs ++ ys) ≡ next_context c (next_context c history xs) ys
  next_context-append xs ys =
      next_context-drop c history full (xs ++ ys)
      ∙ ap (λ k. drop k (history ++ (xs ++ ys))) (length-append xs ys)
      ∙ drop-plus (length xs) (length ys) (history ++ (xs ++ ys))
      ∙ ap (drop (length ys)) (later_columns c history full xs ys)
      ∙ sym (
          next_context-drop c (next_context c history xs) (length-next_context c history full xs)
            ys)

  pub sequence_windows-append :
      (xs ys : List ℕ)
      → sequence_windows c history (xs ++ ys)
        ≡ sequence_windows c history xs ++ sequence_windows c (next_context c history xs) ys
  unfolding sequence_windows
  sequence_windows-append xs ys =
      let m = length xs in
      let n = length ys in
      let f = window (suc c) (history ++ (xs ++ ys)) in
      let early : map f (count_up m 0) ≡ map (window (suc c) (history ++ xs)) (count_up m 0) =
        map-count_up _ _ m 0 (λ j p q.
          ap (λ r. window (suc c) r j) (sym (append_assoc history xs ys))
          ∙ window-append (suc c) j (history ++ xs) ys (omega (arith, length-append history xs))) in
      let late : map f (count_up n (0 + m))
          ≡ map (window (suc c) (next_context c history xs ++ ys)) (count_up n 0) =
        map-shift _ _ n (0 + m) 0 (λ j p.
          let a : 0 + m + j ≡ m + j = omega arith in
          let b : 0 + j ≡ j = omega arith in
          rw (a, b)
            (ap (take (suc c)) (
              drop-plus m j (history ++ (xs ++ ys))
              ∙ ap (drop j) (later_columns c history full xs ys)))) in
      ap (λ k. map f (count_up k 0)) (length-append xs ys)
      ∙ ap (map f) (count_up-plus m n 0)
      ∙ map-append f (count_up m 0) (count_up n (0 + m))
      ∙ rw (early, late) refl
