-- ===== src/Mqa/Pages.antt =====
-- runtime-src/mqa.py: the paged cache, read by Torch's gather and by the kernel's tile.
use native.Mathlib.Nat.{add-mul}
use sglang_flashnext_nvfp4kv.Prelude.{
  ℕ, zero, suc, ◌+◌, ◌-◌, ◌*◌, ◌≤◌, ◌<◌, ◌≡◌, ◌∙◌, refl, ap, sym, subst, inl, inr, true, false,
  ◌&&◌, List, [], ◌∷◌, ◌++◌, Option, some, arith, ltb, leb, nat_eq, nat_beq_iff, ◌==◌, Bool-cases,
  length, length-append, get_elem?, get_or,
}
use sglang_flashnext_nvfp4kv.Prelude.Int.{ℤ}
use sglang_flashnext_nvfp4kv.ColdPool.Weights.{All}
use sglang_flashnext_nvfp4kv.Mqa.Decode.{
  Request, clamp, gathered, key_at, or_else, copy_page, copy_pages,
}

pub get_elem?-first {ℓ} :
    {A : Type ℓ} (xs ys : List A) (c : ℕ) → c < length xs → get_elem? (xs ++ ys) c ≡ get_elem? xs c
get_elem?-first [] ys c lt = absurd (omega arith)
get_elem?-first (x ∷ xs) ys zero lt = refl
get_elem?-first (x ∷ xs) ys (suc c) lt = get_elem?-first xs ys c (omega arith)

pub get_elem?-second {ℓ} :
    {A : Type ℓ} (xs ys : List A) (c : ℕ) → get_elem? (xs ++ ys) (length xs + c) ≡ get_elem? ys c
get_elem?-second [] ys c = let e : 0 + c ≡ c = omega arith in ap (get_elem? ys) e
get_elem?-second (x ∷ xs) ys c =
    let e : suc (length xs) + c ≡ suc (length xs + c) = omega arith in
    ap (get_elem? (x ∷ (xs ++ ys))) e ∙ get_elem?-second xs ys c

module _ {K : Type 0} (cache : List (List K)) (page_size : ℕ) where
  -- Every page that the table names, a negative entry read as page 0, has all its keys.
  abbrev pub Sized : List ℤ → Type 0
  Sized = All (λ t. length (get_or cache (clamp t) []) ≡ page_size)

  pub length-gathered :
      (ts : List ℤ) → Sized ts → length (gathered cache ts) ≡ length ts * page_size
  unfolding gathered
  length-gathered [] h = omega arith
  length-gathered (t ∷ ts) h =
      let all = length-append (get_or cache (clamp t) []) (gathered cache ts) in
      let d = add-mul 1 (length ts) page_size in ground (arith, all, d, h.0, length-gathered ts h.1)

  -- Key `o` of the page at entry `i`.
  pub get_elem?-gathered :
      (ts : List ℤ) (i o : ℕ) (k : K)
      → Sized ts
      → o < page_size
      → get_elem? (gathered cache ts) (i * page_size + o) ≡ some k
      → (t : ℤ) × (get_elem? ts i ≡ some t) × (get_elem? (get_or cache (clamp t) []) o ≡ some k)
  unfolding gathered
  get_elem?-gathered [] i o k h lt e = cc
  get_elem?-gathered (t ∷ ts) zero o k h lt e =
      let at : 0 * page_size + o ≡ o = omega arith in
      let page = get_or cache (clamp t) [] in
      (
        t,
        refl,
        sym (get_elem?-first page (gathered cache ts) o (omega (arith, h.0, lt)))
            ∙ ap (get_elem? (page ++ gathered cache ts)) (sym at)
            ∙ e,
      )
  get_elem?-gathered (t ∷ ts) (suc i) o k h lt e =
      let page = get_or cache (clamp t) [] in
      let d = add-mul 1 i page_size in
      let at : suc i * page_size + o ≡ length page + (i * page_size + o) = ground (arith, d, h.0) in
      get_elem?-gathered ts i o k h.1 lt (
        sym (get_elem?-second page (gathered cache ts) (i * page_size + o))
        ∙ ap (get_elem? (page ++ gathered cache ts)) (sym at)
        ∙ e)

  copy_page-outside :
      (page : Option ℤ) (sp row : ℕ) (shared : ℕ → K)
      → (leb (sp * page_size) row && ltb row ((sp + 1) * page_size)) ≡ false
      → copy_page cache page_size page sp shared row ≡ shared row
  unfolding copy_page
  copy_page-outside page sp row shared out = rw (out) refl

  copy_page-inside :
      (page : Option ℤ) (sp row : ℕ) (shared : ℕ → K) (k : K)
      → (leb (sp * page_size) row && ltb row ((sp + 1) * page_size)) ≡ true
      → key_at cache page (row - sp * page_size) ≡ some k
      → copy_page cache page_size page sp shared row ≡ k
  unfolding copy_page or_else
  copy_page-inside page sp row shared k within key = rw (within, key) refl

  module _ {Q F : Type 0} (raw : Q → K → F) (scaled : F → F) (minus_inf : F) (r : Request Q)
      (first : ℕ) where
    abbrev copied : ℕ → ℕ → (ℕ → K) → ℕ → K
    copied = copy_pages raw scaled minus_inf cache page_size r first

    step : (sp row : ℕ) → row < sp * page_size → row < suc sp * page_size
    step sp row lt = let d = add-mul 1 sp page_size in ground (arith, d, lt)

    -- The tile after one sub-page.
    abbrev one_page : ℕ → (ℕ → K) → ℕ → K
    one_page sp = copy_page cache page_size (get_elem? r.pages (first + sp)) sp

    -- The rows before the first copied sub-page keep their keys.
    copy_pages-before :
        (n sp : ℕ) (shared : ℕ → K) (row : ℕ)
        → row < sp * page_size
        → copied n sp shared row ≡ shared row
    unfolding copy_pages
    copy_pages-before zero sp shared row lt = refl
    copy_pages-before (suc n) sp shared row lt =
        let out : (leb (sp * page_size) row && ltb row ((sp + 1) * page_size)) ≡ false =
          ground (arith, lt) in
        elim (Bool-cases (ltb ((first + sp) * page_size) r.context_len)) [
          | inl here ↦ rw (here) (
              copy_pages-before n (suc sp) (one_page sp shared) row (step sp row lt)
              ∙ copy_page-outside (get_elem? r.pages (first + sp)) sp row shared out)
          | inr past ↦ rw (past) (copy_pages-before n (suc sp) shared row (step sp row lt))
        ]

    -- A row of a sub-page that starts in the context holds the key of the table's page.
    pub copy_pages-key :
        (n sp s row : ℕ) (shared : ℕ → K) (k : K)
        → sp ≤ s
        → s < sp + n
        → s * page_size ≤ row
        → row < (s + 1) * page_size
        → (first + s) * page_size < r.context_len
        → key_at cache (get_elem? r.pages (first + s)) (row - s * page_size) ≡ some k
        → copied n sp shared row ≡ k
    unfolding copy_pages
    copy_pages-key zero sp s row shared k from to low high inside key = absurd (omega arith)
    copy_pages-key (suc n) sp s row shared k from to low high inside key =
        elim (Bool-cases (sp == s)) [
          | inl same ↦
              let e : sp ≡ s = (nat_beq_iff sp s).0 same in
              subst (λ i. copied (suc n) i shared row ≡ k) (sym e)
                (own n s row shared k low high inside key)
          | inr other ↦
              let later : suc sp ≤ s = ground (arith, other, from) in
              elim (Bool-cases (ltb ((first + sp) * page_size) r.context_len)) [
                | inl here ↦ rw (here) (
                    copy_pages-key n (suc sp) s row (one_page sp shared) k later (omega arith) low
                      high inside key)
                | inr past ↦ rw (past) (
                    copy_pages-key n (suc sp) s row shared k later (omega arith) low high inside
                      key)
              ]
        ]
      where
        own :
            (n s row : ℕ) (shared : ℕ → K) (k : K)
            → s * page_size ≤ row
            → row < (s + 1) * page_size
            → (first + s) * page_size < r.context_len
            → key_at cache (get_elem? r.pages (first + s)) (row - s * page_size) ≡ some k
            → copied (suc n) s shared row ≡ k
        own n s row shared k low high inside key =
            let within : (leb (s * page_size) row && ltb row ((s + 1) * page_size)) ≡ true =
              ground (arith, low, high) in
            let here : ltb ((first + s) * page_size) r.context_len ≡ true =
              ground (arith, inside) in
            let one_more : s + 1 ≡ suc s = omega arith in
            rw (here) (
              copy_pages-before n (suc s) (one_page s shared) row
                (subst (λ i. row < i * page_size) one_more high)
              ∙ copy_page-inside (get_elem? r.pages (first + s)) s row shared k within key)
