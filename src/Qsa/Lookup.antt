-- ===== src/Qsa/Lookup.antt =====
-- runtime-src/kernel.py: the tokens of a row's blocks, looked up by column.
use native.Mathlib.Nat.{add-mul}
use sglang_flashnext_nvfp4kv.Prelude.{
  ℕ, zero, suc, ◌+◌, ◌*◌, ◌≤◌, ◌<◌, ◌≡◌, ◌∙◌, refl, ap, List, [], ◌∷◌, ◌++◌, map, some, arith,
  length, length-map, length-append, subst, get_elem?-map, get_elem?, take, count_up, range,
}
use sglang_flashnext_nvfp4kv.ColdPool.Weights.{All}
use sglang_flashnext_nvfp4kv.Qsa.Rows.{tokens_of, Whole}

get_elem?-skip {ℓ} :
    {A : Type ℓ} (xs ys : List A) (c : ℕ) → get_elem? (xs ++ ys) (length xs + c) ≡ get_elem? ys c
get_elem?-skip [] ys c = ap (get_elem? ys) (omega arith)
get_elem?-skip (x ∷ xs) ys c =
    let e : suc (length xs) + c ≡ suc (length xs + c) = omega arith in
    ap (get_elem? (x ∷ (xs ++ ys))) e ∙ get_elem?-skip xs ys c

get_elem?-front {ℓ} :
    {A : Type ℓ} (xs ys : List A) (c : ℕ) (x : A)
    → get_elem? xs c ≡ some x
    → get_elem? (xs ++ ys) c ≡ some x
get_elem?-front [] ys c x h = cc
get_elem?-front (y ∷ xs) ys zero x h = h
get_elem?-front (y ∷ xs) ys (suc c) x h = get_elem?-front xs ys c x h

pub get_elem?-take {ℓ} :
    {A : Type ℓ} (n : ℕ) (xs : List A) (c : ℕ) (x : A)
    → get_elem? (take n xs) c ≡ some x
    → (c < n) × (get_elem? xs c ≡ some x)
get_elem?-take zero xs c x h = cc
get_elem?-take (suc n) [] c x h = cc
get_elem?-take (suc n) (y ∷ xs) zero x h = (omega arith, h)
get_elem?-take (suc n) (y ∷ xs) (suc c) x h =
    let ih = get_elem?-take n xs c x h in (omega arith, ih.1)

pub get_elem?-count_up : (n i c : ℕ) → c < n → get_elem? (count_up n i) c ≡ some (i + c)
get_elem?-count_up zero i c lt = absurd (omega arith)
get_elem?-count_up (suc n) i zero lt = ground arith
get_elem?-count_up (suc n) i (suc c) lt =
    let e : suc i + c ≡ i + suc c = omega arith in
    get_elem?-count_up n (suc i) c (omega arith) ∙ ap some e

pub length-count_up : (n i : ℕ) → length (count_up n i) ≡ n
length-count_up zero i = refl
length-count_up (suc n) i = ap suc (length-count_up n (suc i))

-- Token `r` of block `q`.
pub get_elem?-tokens_of :
    (ratio : ℕ) (bs : List ℕ) (q r b : ℕ)
    → r < ratio
    → get_elem? bs q ≡ some b
    → get_elem? (tokens_of ratio bs) (q * ratio + r) ≡ some (b * ratio + r)
unfolding tokens_of
get_elem?-tokens_of ratio [] q r b lt h = cc
get_elem?-tokens_of ratio (x ∷ bs) zero r b lt h =
    let own : List ℕ = map (λ o. x * ratio + o) (range ratio) in
    let here =
      get_elem?-map (λ o. x * ratio + o) (range ratio) r (0 + r)
        (get_elem?-count_up ratio 0 r lt) in
    let same : x ≡ b = cc in
    let start : 0 * ratio + r ≡ r = omega arith in
    let value : x * ratio + (0 + r) ≡ b * ratio + r = rw (same) omega arith in
    ap (get_elem? (own ++ tokens_of ratio bs)) start
    ∙ get_elem?-front own (tokens_of ratio bs) r (x * ratio + (0 + r)) here
    ∙ ap some value
get_elem?-tokens_of ratio (x ∷ bs) (suc q) r b lt h =
    let own : List ℕ = map (λ o. x * ratio + o) (range ratio) in
    let size : length own ≡ ratio =
      length-map (range ratio) (λ o. x * ratio + o) ∙ length-count_up ratio 0 in
    let dist = add-mul 1 q ratio in
    let past : suc q * ratio + r ≡ length own + (q * ratio + r) = ground (arith, dist, size) in
    ap (get_elem? (own ++ tokens_of ratio bs)) past
    ∙ get_elem?-skip own (tokens_of ratio bs) (q * ratio + r)
    ∙ get_elem?-tokens_of ratio bs q r b lt h

pub length-tokens_of : (ratio : ℕ) (bs : List ℕ) → length (tokens_of ratio bs) ≡ length bs * ratio
unfolding tokens_of
length-tokens_of ratio [] = omega arith
length-tokens_of ratio (b ∷ bs) =
    let dist = add-mul 1 (length bs) ratio in
    let size : length (map (λ o. b * ratio + o) (range ratio)) ≡ ratio =
      length-map (range ratio) (λ o. b * ratio + o) ∙ length-count_up ratio 0 in
    let all = length-append (map (λ o. b * ratio + o) (range ratio)) (tokens_of ratio bs) in
    ground (arith, dist, size, all, length-tokens_of ratio bs)

All-own : (seq b n i : ℕ) → b + i + n ≤ seq → All (λ t. t < seq) (map (λ o. b + o) (count_up n i))
All-own seq b zero i le = tt
All-own seq b (suc n) i le = (omega arith, All-own seq b n (suc i) (omega arith))

All-append {ℓ} :
    {A : Type 0} (P : A → Type ℓ) (xs ys : List A) → All P xs → All P ys → All P (xs ++ ys)
All-append P [] ys h k = k
All-append P (x ∷ xs) ys h k = (h.0, All-append P xs ys h.1 k)

pub All-take {ℓ} :
    {A : Type 0} (P : A → Type ℓ) (n : ℕ) (xs : List A) → All P xs → All P (take n xs)
All-take P zero xs h = tt
All-take P (suc n) [] h = tt
All-take P (suc n) (x ∷ xs) h = (h.0, All-take P n xs h.1)

pub All-get_elem? {ℓ} :
    {A : Type 0} (P : A → Type ℓ) (xs : List A) (i : ℕ) (x : A)
    → All P xs
    → get_elem? xs i ≡ some x
    → P x
All-get_elem? P [] i x h e = cc
All-get_elem? P (y ∷ xs) zero x h e = let same : y ≡ x = cc in subst P same h.0
All-get_elem? P (y ∷ xs) (suc i) x h e = All-get_elem? P xs i x h.1 e

pub tokens_of-Whole :
    (ratio seq : ℕ) (bs : List ℕ) → Whole ratio seq bs → All (λ t. t < seq) (tokens_of ratio bs)
unfolding tokens_of
tokens_of-Whole ratio seq [] h = tt
tokens_of-Whole ratio seq (b ∷ bs) h =
    All-append (λ t. t < seq) (map (λ o. b * ratio + o) (range ratio)) (tokens_of ratio bs)
      (All-own seq (b * ratio) ratio 0 (let le = h.0 in omega arith))
      (tokens_of-Whole ratio seq bs h.1)
