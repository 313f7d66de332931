-- ===== src/Ngram/Rows.antt =====
-- The rows of a batch: its windows and its next contexts, request by request.
use mathlib.Core.List.{append_assoc}
use sglang_flashnext_nvfp4kv.Prelude.{
  ℕ, zero, suc, ◌+◌, ◌-◌, ◌≤◌, ◌≡◌, ◌∙◌, refl, ap, sym, List, [], ◌∷◌, ◌++◌, map, arith, length,
  length-append, length-drop, length-take, take, drop, count_up, replicate, get_or, map-count_up,
}
use sglang_flashnext_nvfp4kv.Ngram.Batch.{sum}
use sglang_flashnext_nvfp4kv.Ngram.Packed.{rows_from, places}
use sglang_flashnext_nvfp4kv.Ngram.Filled.{filled, get_or-append_at}
use sglang_flashnext_nvfp4kv.Ngram.Prepare.{window, picked_windows, cat_columns}
use sglang_flashnext_nvfp4kv.Ngram.Commit.{gather_rows}
use sglang_flashnext_nvfp4kv.Ngram.Stream.{sequence_windows, next_context, window-append}

-- The windows of all tokens, each request's from its own history.
unfoldable pub windows_of : ℕ → List (List ℕ) → List ℕ → List ℕ → List (List ℕ)
windows_of c [] lens tokens = []
windows_of c (h ∷ hs) [] tokens = []
windows_of c (h ∷ hs) (l ∷ lens) tokens =
    sequence_windows c h (take l tokens) ++ windows_of c hs lens (drop l tokens)

unfoldable pub contexts_after : ℕ → List (List ℕ) → List ℕ → List ℕ → List (List ℕ)
contexts_after c [] lens tokens = []
contexts_after c (h ∷ hs) [] tokens = []
contexts_after c (h ∷ hs) (l ∷ lens) tokens =
    next_context c h (take l tokens) ∷ contexts_after c hs lens (drop l tokens)

abbrev pub AllOfWidth : ℕ → List (List ℕ) → Type 0
AllOfWidth c [] = c ≤ c
AllOfWidth c (h ∷ hs) = (length h ≡ c) × AllOfWidth c hs

picked_run :
    (n : ℕ) (rows : List (List ℕ)) (row rs os : List ℕ) (l r o : ℕ)
    → get_or rows r [] ≡ row
    → picked_windows n rows (replicate l r ++ rs) (count_up l o ++ os)
      ≡ map (window n row) (count_up l o) ++ picked_windows n rows rs os
unfolding picked_windows
picked_run n rows row rs os zero r o h = refl
picked_run n rows row rs os (suc l) r o h = rw (h, picked_run n rows row rs os l r (suc o) h) refl

-- The columns that fill a row up to the width are not read.
filled_window :
    (n o : ℕ) (h seg fill : List ℕ)
    → o + n ≤ length h + length seg
    → window n (h ++ (seg ++ fill)) o ≡ window n (h ++ seg) o
filled_window n o h seg fill p =
    ap (λ r. window n r o) (sym (append_assoc h seg fill))
    ∙ window-append n o (h ++ seg) fill (omega (arith, length-append h seg))

pub picked_windows-filled :
    (eos w c : ℕ) (lens tokens : List ℕ) (hs done : List (List ℕ)) (r : ℕ)
    → length done ≡ r
    → length hs ≡ length lens
    → AllOfWidth c hs
    → length tokens ≡ sum lens
    → picked_windows
        (suc c)
        (done ++ cat_columns hs (filled eos w lens tokens))
        (rows_from r lens)
        (places lens)
      ≡ windows_of c hs lens tokens
unfolding windows_of cat_columns filled sequence_windows picked_windows
picked_windows-filled eos w c [] tokens [] done r d e f n = refl
picked_windows-filled eos w c [] tokens (h ∷ hs) done r d e f n = absurd (omega arith)
picked_windows-filled eos w c (l ∷ lens) tokens [] done r d e f n = absurd (omega arith)
picked_windows-filled eos w c (l ∷ lens) tokens (h ∷ hs) done r d e f n =
    let seg = take l tokens in
    let fill = replicate (w - l) eos in
    let later = cat_columns hs (filled eos w lens (drop l tokens)) in
    let len : length seg ≡ l = omega (arith, length-take l tokens) in
    let here : map (window (suc c) (h ++ (seg ++ fill))) (count_up l 0)
        ≡ map (window (suc c) (h ++ seg)) (count_up (length seg) 0) =
      map-count_up _ _ l 0 (λ j p q. filled_window (suc c) j h seg fill (omega (arith, f.0)))
      ∙ ap (λ k. map (window (suc c) (h ++ seg)) (count_up k 0)) (sym len) in
    picked_run (suc c) _ (h ++ (seg ++ fill)) (rows_from (suc r) lens) (places lens) l r 0
      (get_or-append_at done later (h ++ (seg ++ fill)) [] r d)
    ∙ ap (λ v. map (window (suc c) (h ++ (seg ++ fill))) (count_up l 0) ++ v)
        (ap (λ rows. picked_windows (suc c) rows (rows_from (suc r) lens) (places lens))
            (sym (append_assoc done ((h ++ (seg ++ fill)) ∷ []) later))
          ∙ picked_windows-filled eos w c lens (drop l tokens) hs
              (done ++ ((h ++ (seg ++ fill)) ∷ [])) (suc r)
              (omega (arith, length-append done ((h ++ (seg ++ fill)) ∷ []))) (omega arith) f.1
              (omega (arith, length-drop l tokens)))
    ∙ ap (λ v. v ++ windows_of c hs lens (drop l tokens)) here

pub gather_rows-filled :
    (eos w c : ℕ) (lens tokens : List ℕ) (hs : List (List ℕ))
    → length hs ≡ length lens
    → AllOfWidth c hs
    → length tokens ≡ sum lens
    → gather_rows c (cat_columns hs (filled eos w lens tokens)) lens
      ≡ contexts_after c hs lens tokens
unfolding contexts_after cat_columns filled next_context gather_rows
gather_rows-filled eos w c [] tokens [] e f n = refl
gather_rows-filled eos w c [] tokens (h ∷ hs) e f n = absurd (omega arith)
gather_rows-filled eos w c (l ∷ lens) tokens [] e f n = absurd (omega arith)
gather_rows-filled eos w c (l ∷ lens) tokens (h ∷ hs) e f n =
    let seg = take l tokens in
    let len : length seg ≡ l = omega (arith, length-take l tokens) in
    let first : window c (h ++ (seg ++ replicate (w - l) eos)) l
        ≡ window c (h ++ seg) (length seg) =
      filled_window c l h seg (replicate (w - l) eos) (omega (arith, f.0))
      ∙ ap (window c (h ++ seg)) (sym len) in
    let rest =
      gather_rows-filled eos w c lens (drop l tokens) hs (omega arith) f.1
        (omega (arith, length-drop l tokens)) in
    rw (first, rest) refl
