-- ===== src/Ngram/Filled.antt =====
-- The scatter of packed tokens into padded rows, against cutting the tokens at the lengths.
use mathlib.Core.List.{append_assoc}
use sglang_flashnext_nvfp4kv.Prelude.{
  ℕ, zero, suc, ◌+◌, ◌-◌, ◌≤◌, ◌≡◌, ◌∙◌, refl, ap, sym, Bool, true, List, [], ◌∷◌, ◌++◌, arith,
  length, length-append, length-take, length-drop, take, drop, take-append-drop, range, count_up,
  replicate, get_or, set, ltb,
}
use sglang_flashnext_nvfp4kv.Ngram.Batch.{sum}
use sglang_flashnext_nvfp4kv.Ngram.Packed.{rows_from, places}
use sglang_flashnext_nvfp4kv.Ngram.Prepare.{scatter, put, valid_of}

-- The tokens of each request.
unfoldable pub segments : List ℕ → List ℕ → List (List ℕ)
segments [] tokens = []
segments (l ∷ lens) tokens = take l tokens ∷ segments lens (drop l tokens)

-- Each request's tokens with ends of sequence up to the width.
unfoldable pub filled : ℕ → ℕ → List ℕ → List ℕ → List (List ℕ)
filled eos w [] tokens = []
filled eos w (l ∷ lens) tokens =
    (take l tokens ++ replicate (w - l) eos) ∷ filled eos w lens (drop l tokens)

pub get_or-append_at {ℓ} :
    {A : Type ℓ} (pre post : List A) (x d : A) (r : ℕ)
    → length pre ≡ r
    → get_or (pre ++ (x ∷ post)) r d ≡ x
get_or-append_at [] post x d zero h = refl
get_or-append_at [] post x d (suc r) h = absurd (omega arith)
get_or-append_at (y ∷ pre) post x d zero h = absurd (omega arith)
get_or-append_at (y ∷ pre) post x d (suc r) h = get_or-append_at pre post x d r (omega arith)

set-append_at {ℓ} :
    {A : Type ℓ} (pre post : List A) (x y : A) (r : ℕ)
    → length pre ≡ r
    → set (pre ++ (x ∷ post)) r y ≡ pre ++ (y ∷ post)
set-append_at [] post x y zero h = refl
set-append_at [] post x y (suc r) h = absurd (omega arith)
set-append_at (z ∷ pre) post x y zero h = absurd (omega arith)
set-append_at (z ∷ pre) post x y (suc r) h = rw (set-append_at pre post x y r (omega arith))

put_at :
    (done rest : List (List ℕ)) (pre post : List ℕ) (x y r o : ℕ)
    → length done ≡ r
    → length pre ≡ o
    → put (done ++ ((pre ++ (x ∷ post)) ∷ rest)) r o y ≡ done ++ ((pre ++ (y ∷ post)) ∷ rest)
put_at done rest pre post x y r o h k =
    rw (get_or-append_at done rest (pre ++ (x ∷ post)) [] r h, set-append_at pre post x y o k)
      (set-append_at done rest (pre ++ (x ∷ post)) (pre ++ (y ∷ post)) r h)

-- One request's tokens written from column o on.
scatter_run :
    (eos k : ℕ) (seg pre : List ℕ) (done rest : List (List ℕ)) (rs os ts : List ℕ) (bs : List Bool)
    (l r o w : ℕ)
    → length seg ≡ l
    → length done ≡ r
    → length pre ≡ o
    → w ≡ l + k
    → scatter eos
        (done ++ ((pre ++ replicate w eos) ∷ rest))
        (replicate l r ++ rs)
        (count_up l o ++ os)
        (replicate l true ++ bs)
        (seg ++ ts)
      ≡ scatter eos (done ++ ((pre ++ (seg ++ replicate k eos)) ∷ rest)) rs os bs ts
unfolding scatter
scatter_run eos k [] pre done rest rs os ts bs zero r o w h i j e =
    let q : w ≡ k = omega arith in rw q refl
scatter_run eos k [] pre done rest rs os ts bs (suc l) r o w h i j e = absurd (omega arith)
scatter_run eos k (t ∷ seg) pre done rest rs os ts bs zero r o w h i j e = absurd (omega arith)
scatter_run eos k (t ∷ seg) pre done rest rs os ts bs (suc l) r o zero h i j e =
    absurd (omega arith)
scatter_run eos k (t ∷ seg) pre done rest rs os ts bs (suc l) r o (suc w) h i j e =
    rw
      (
        put_at done rest pre (replicate w eos) eos t r o i j,
        sym (append_assoc pre (t ∷ []) (replicate w eos)),
      )
      (scatter_run eos k seg (pre ++ (t ∷ [])) done rest rs os ts bs l r (suc o) w (omega arith) i
          (omega (arith, length-append pre (t ∷ []))) (omega arith)
        ∙ rw (append_assoc pre (t ∷ []) (seg ++ replicate k eos)) refl)

-- A bound on every length.
abbrev pub AllAtMost : List ℕ → ℕ → Type 0
AllAtMost [] w = 0 ≤ w
AllAtMost (l ∷ lens) w = (l ≤ w) × AllAtMost lens w

replicate-plus {ℓ} :
    {A : Type ℓ} (m n : ℕ) (a : A) → replicate (m + n) a ≡ replicate m a ++ replicate n a
replicate-plus zero n a = let e : 0 + n ≡ n = omega arith in ap (λ k. replicate k a) e
replicate-plus (suc m) n a =
    let e : suc m + n ≡ suc (m + n) = omega arith in rw e (ap (λ r. a ∷ r) (replicate-plus m n a))

scatter_rows :
    (eos w : ℕ) (lens tokens : List ℕ) (done : List (List ℕ)) (r : ℕ)
    → length done ≡ r
    → AllAtMost lens w
    → length tokens ≡ sum lens
    → scatter eos
        (done ++ replicate (length lens) (replicate w eos))
        (rows_from r lens)
        (places lens)
        (replicate (sum lens) true)
        tokens
      ≡ done ++ filled eos w lens tokens
unfolding filled scatter
scatter_rows eos w [] tokens done r h b n = refl
scatter_rows eos w (l ∷ lens) tokens done r h b n =
    let row = take l tokens ++ replicate (w - l) eos in
    let rest = replicate (length lens) (replicate w eos) in
    let later = filled eos w lens (drop l tokens) in
    rw (replicate-plus l (sum lens) true) (
      ap
        (scatter eos (done ++ (replicate w eos ∷ rest)) (replicate l r ++ rows_from (suc r) lens)
          (range l ++ places lens) (replicate l true ++ replicate (sum lens) true))
        (sym (take-append-drop l tokens))
      ∙ scatter_run eos (w - l) (take l tokens) [] done rest (rows_from (suc r) lens) (places lens)
          (drop l tokens) (replicate (sum lens) true) l r 0 w (omega (arith, length-take l tokens))
          h refl (omega (arith, b.0))
      ∙ ap
          (λ rows.
            scatter eos rows (rows_from (suc r) lens) (places lens) (replicate (sum lens) true)
              (drop l tokens))
          (sym (append_assoc done (row ∷ []) rest))
      ∙ scatter_rows eos w lens (drop l tokens) (done ++ (row ∷ [])) (suc r)
          (omega (arith, length-append done (row ∷ []))) b.1 (omega (arith, length-drop l tokens))
      ∙ append_assoc done (row ∷ []) later)

-- Every packed token stands before the end of its request.
valid_run :
    (lens rs os : List ℕ) (l r o len : ℕ)
    → get_or lens r 0 ≡ len
    → o + l ≤ len
    → valid_of lens (replicate l r ++ rs) (count_up l o ++ os)
      ≡ replicate l true ++ valid_of lens rs os
unfolding valid_of
valid_run lens rs os zero r o len h k = refl
valid_run lens rs os (suc l) r o len h k =
    let c : ltb o len ≡ true = ground arith in
    rw (h, c) (ap (λ r. true ∷ r) (valid_run lens rs os l r (suc o) len h (omega arith)))

valid_rows :
    (pre lens : List ℕ) (r : ℕ)
    → length pre ≡ r
    → valid_of (pre ++ lens) (rows_from r lens) (places lens) ≡ replicate (sum lens) true
unfolding valid_of
valid_rows pre [] r h = refl
valid_rows pre (l ∷ lens) r h =
    valid_run (pre ++ (l ∷ lens)) (rows_from (suc r) lens) (places lens) l r 0 l
      (get_or-append_at pre lens l 0 r h) (omega arith)
    ∙ ap (λ v. replicate l true ++ v)
        (ap (λ all. valid_of all (rows_from (suc r) lens) (places lens))
            (sym (append_assoc pre (l ∷ []) lens))
          ∙ valid_rows (pre ++ (l ∷ [])) lens (suc r) (omega (arith, length-append pre (l ∷ []))))
    ∙ sym (replicate-plus l (sum lens) true)

pub valid-packed :
    (lens : List ℕ) → valid_of lens (rows_from 0 lens) (places lens) ≡ replicate (sum lens) true
valid-packed lens = valid_rows [] lens 0 refl

pub scatter-packed :
    (eos w : ℕ) (lens tokens : List ℕ)
    → AllAtMost lens w
    → length tokens ≡ sum lens
    → scatter eos
        (replicate (length lens) (replicate w eos))
        (rows_from 0 lens)
        (places lens)
        (replicate (sum lens) true)
        tokens
      ≡ filled eos w lens tokens
scatter-packed eos w lens tokens b n = scatter_rows eos w lens tokens [] 0 refl b n
