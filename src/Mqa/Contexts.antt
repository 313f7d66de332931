-- ===== src/Mqa/Contexts.antt =====
-- runtime-src/mqa.py: the decode kernel's row is Torch's.
use sglang_flashnext_nvfp4kv.Prelude.{
  ℕ, zero, suc, ◌+◌, ◌-◌, ◌≤◌, ◌<◌, min, ◌≡◌, ◌∙◌, ◌⊎◌, refl, ap, sym, inl, inr, true, false, List,
  [], ◌∷◌, ◌++◌, map, some, arith, ltb, leb, nat_eq, if◌then◌else◌, Bool-cases, length,
  length-append, length-replicate, length-map, length-take, get_elem?, get_elem?-some,
  get_elem?-map, take, replicate,
}
use sglang_flashnext_nvfp4kv.Mqa.Decode.{Request, gathered, mask_past, torch_decode}
use sglang_flashnext_nvfp4kv.Mqa.Pages.{get_elem?-first, get_elem?-second}
use sglang_flashnext_nvfp4kv.Mqa.Groups.{Filled, replicated}

list_ext {ℓ} :
    {A : Type ℓ} (xs ys : List A)
    → length xs ≡ length ys
    → ((p : ℕ) → p < length xs → get_elem? xs p ≡ get_elem? ys p)
    → xs ≡ ys
list_ext [] [] e h = refl
list_ext [] (y ∷ ys) e h = absurd (ground (arith, e))
list_ext (x ∷ xs) [] e h = absurd (ground (arith, e))
list_ext (x ∷ xs) (y ∷ ys) e h =
    let first : some x ≡ some y = h 0 (omega arith) in
    let same : x ≡ y = cc in
    ap (λ a. a ∷ xs) same
    ∙ ap (λ l. y ∷ l) (list_ext xs ys (ground (arith, e)) (λ p lt. h (suc p) (omega arith)))

get_elem?-take_lt {ℓ} :
    {A : Type ℓ} (n : ℕ) (xs : List A) (c : ℕ) → c < n → get_elem? (take n xs) c ≡ get_elem? xs c
get_elem?-take_lt zero xs c lt = absurd (omega arith)
get_elem?-take_lt (suc n) [] c lt = refl
get_elem?-take_lt (suc n) (x ∷ xs) zero lt = refl
get_elem?-take_lt (suc n) (x ∷ xs) (suc c) lt = get_elem?-take_lt n xs c (omega arith)

module _ {F : Type 0} (minus_inf : F) where
  mask_past-Filled :
      (i context_len : ℕ) (xs : List F) (c : ℕ) (x : F)
      → get_elem? xs c ≡ some x
      → get_elem? (mask_past minus_inf i context_len xs) c
        ≡ some (if leb context_len (i + c) then minus_inf else x)
  unfolding mask_past
  mask_past-Filled i context_len [] c x e = cc
  mask_past-Filled i context_len (y ∷ xs) zero x e =
      let same : y ≡ x = cc in
      let at : i ≡ i + 0 = omega arith in
      ap (λ v. some (if leb context_len i then minus_inf else v)) same
      ∙ ap (λ j. some (if leb context_len j then minus_inf else x)) at
  mask_past-Filled i context_len (y ∷ xs) (suc c) x e =
      let at : suc i + c ≡ i + suc c = omega arith in
      mask_past-Filled (suc i) context_len xs c x e
      ∙ ap (λ j. some (if leb context_len j then minus_inf else x)) at

  length-mask_past :
      (i context_len : ℕ) (xs : List F) → length (mask_past minus_inf i context_len xs) ≡ length xs
  unfolding mask_past
  length-mask_past i context_len [] = refl
  length-mask_past i context_len (x ∷ xs) = ap suc (length-mask_past (suc i) context_len xs)

module _ {Q K F : Type 0} (raw : Q → K → F) (scaled : F → F) (minus_inf : F) (cache : List (List K))
    (r : Request Q) where
  -- A row filled up to the context is determined.
  pub Filled-unique :
      (size bound : ℕ) (xs ys : List F)
      → r.context_len ≤ bound
      → r.context_len ≤ length (gathered cache r.pages)
      → Filled raw scaled minus_inf cache r size bound xs
      → Filled raw scaled minus_inf cache r size bound ys
      → xs ≡ ys
  Filled-unique size bound xs ys all have f g =
      list_ext xs ys (f.0 ∙ sym g.0) (λ p lt. at p (omega (arith, lt, f.0)))
    where
      at : (p : ℕ) → p < size → get_elem? xs p ≡ get_elem? ys p
      at p lt = elim (Bool-cases (ltb p r.context_len)) [
        | inl inside ↦
            let in_context : p < r.context_len = ground (arith, inside) in
            let k = get_elem?-some (gathered cache r.pages) p (omega arith) in
            f.1 p k.0 lt (omega arith) in_context k.1
            ∙ sym (g.1 p k.0 lt (omega arith) in_context k.1)
        | inr past ↦
            let out : r.context_len ≤ p = ground (arith, past) in
            f.2 p lt (inr out) ∙ sym (g.2 p lt (inr out))
      ]

  module _ (size bound : ℕ) (all : r.context_len ≤ bound)
      (have : r.context_len ≤ length (gathered cache r.pages)) where
    abbrev scores : List F
    scores =
        mask_past minus_inf 0 r.context_len
          (map (λ k. scaled (raw r.query k)) (gathered cache r.pages))

    length-scores : length scores ≡ length (gathered cache r.pages)
    length-scores =
        length-mask_past minus_inf 0 r.context_len
          (map (λ k. scaled (raw r.query k)) (gathered cache r.pages))
        ∙ length-map (gathered cache r.pages) (λ k. scaled (raw r.query k))

    -- A copied position.
    torch_front :
        (p : ℕ) (k : K)
        → p < min (length scores) size
        → get_elem? (gathered cache r.pages) p ≡ some k
        → get_elem? (torch_decode raw scaled minus_inf cache size r) p
          ≡ some (if leb r.context_len p then minus_inf else scaled (raw r.query k))
    unfolding torch_decode
    torch_front p k lt e =
        let copy = min (length scores) size in
        let taken = length-take copy scores in
        let zero_p : 0 + p ≡ p = omega arith in
        get_elem?-first (take copy scores) (replicate (size - copy) minus_inf) p
          (omega (arith, taken, lt))
        ∙ get_elem?-take_lt copy scores p lt
        ∙ mask_past-Filled minus_inf 0 r.context_len
            (map (λ k. scaled (raw r.query k)) (gathered cache r.pages)) p (scaled (raw r.query k))
            (get_elem?-map (λ k. scaled (raw r.query k)) (gathered cache r.pages) p k e)
        ∙ ap (λ i. some (if leb r.context_len i then minus_inf else scaled (raw r.query k))) zero_p

    torch_back :
        (p : ℕ)
        → p < size
        → min (length scores) size ≤ p
        → get_elem? (torch_decode raw scaled minus_inf cache size r) p ≡ some minus_inf
    unfolding torch_decode
    torch_back p lt le =
        let copy = min (length scores) size in
        let taken = length-take copy scores in
        let at : p ≡ length (take copy scores) + (p - copy) = omega (arith, taken, le) in
        ap (get_elem? (take copy scores ++ replicate (size - copy) minus_inf)) at
        ∙ get_elem?-second (take copy scores) (replicate (size - copy) minus_inf) (p - copy)
        ∙ replicated minus_inf (size - copy) (p - copy) (omega (arith, le, lt))

    pub torch_Filled :
        Filled raw scaled minus_inf cache r size bound
          (torch_decode raw scaled minus_inf cache size r)
    unfolding torch_decode
    torch_Filled = (
      sized,
      (λ p k lt lt' in_context e. inside p k lt in_context e),
      λ p lt h. outside p lt (past p h),
    )
      where
        sized : length (torch_decode raw scaled minus_inf cache size r) ≡ size
        sized =
            let copy = min (length scores) size in
            omega (
              arith,
              length-append (take copy scores) (replicate (size - copy) minus_inf),
              length-take copy scores,
              length-replicate (size - copy) minus_inf,
            )

        inside :
            (p : ℕ) (k : K)
            → p < size
            → p < r.context_len
            → get_elem? (gathered cache r.pages) p ≡ some k
            → get_elem? (torch_decode raw scaled minus_inf cache size r) p
              ≡ some (scaled (raw r.query k))
        inside p k lt in_context e =
            let early : leb r.context_len p ≡ false = ground (arith, in_context) in
            torch_front p k (omega (arith, length-scores, have, in_context, lt)) e
            ∙ ap (λ b. some (if b then minus_inf else scaled (raw r.query k))) early

        past : (p : ℕ) → (bound ≤ p) ⊎ (r.context_len ≤ p) → r.context_len ≤ p
        past p (inl b) = omega arith
        past p (inr b) = b

        outside :
            (p : ℕ)
            → p < size
            → r.context_len ≤ p
            → get_elem? (torch_decode raw scaled minus_inf cache size r) p ≡ some minus_inf
        outside p lt out = elim (Bool-cases (ltb p (min (length scores) size))) [
          | inl front ↦
              let k =
                get_elem?-some (gathered cache r.pages) p (ground (arith, front, length-scores)) in
              let late : leb r.context_len p ≡ true = ground (arith, out) in
              torch_front p k.0 (ground (arith, front)) k.1
              ∙ ap (λ b. some (if b then minus_inf else scaled (raw r.query k.0))) late
          | inr back ↦ torch_back p lt (ground (arith, back))
        ]
