-- ===== src/ColdPool/Shrink/Contents.antt =====
-- patches/expert_cold_pool.py: what `build_pool` computes, over tensors whose sharded rows are `W`.
use sglang_flashnext_nvfp4kv.Prelude.{
  ℕ, zero, suc, ◌+◌, ◌≤◌, ◌<◌, ◌≡◌, ◌∙◌, refl, inl, inr, true, false, List, [], ◌∷◌, ◌++◌, map,
  Option, none, some, arith, nat_eq, nat_beq_iff, ◌==◌, if◌then◌else◌, Dict, lookup, contains, keys,
  length, get_elem?, set, replicate, count_up, Bool-cases, length-set,
}
use sglang_flashnext_nvfp4kv.ColdPool.State.{
  Param, param_eq, param_beq, param_beq_iff, Tensor, scalar, rows,
}
use sglang_flashnext_nvfp4kv.ColdPool.Tables.{index_from, is_some}
use sglang_flashnext_nvfp4kv.ColdPool.Ownership.{Distinct}
use sglang_flashnext_nvfp4kv.ColdPool.Weights.{All}
use sglang_flashnext_nvfp4kv.ColdPool.Router.{open_all}
use sglang_flashnext_nvfp4kv.ColdPool.Shrink.{
  number_rows, index_select, cold_rows, host_pool, shrink_tensors,
}

abbrev pub Below : ℕ → List ℕ → Type 0
Below E = All (λ g. g < E)

pub index_from-contains : (i g : ℕ) (gs : List ℕ) → is_some (index_from i g gs) ≡ contains g gs
unfolding index_from
index_from-contains i g [] = refl
index_from-contains i g (x ∷ xs) = ground (arith, index_from-contains (suc i) g xs)

pub index_from_bounds :
    (i g : ℕ) (gs : List ℕ) (j : ℕ) → index_from i g gs ≡ some j → (i ≤ j) × (j < i + length gs)
unfolding index_from
index_from_bounds i g [] j h = cc
index_from_bounds i g (x ∷ xs) j h = ground (arith, index_from_bounds (suc i) g xs j)

pub get_elem?-kept {ℓ} :
    {A : Type ℓ} (w : ℕ → A) (ys : List A) (i g : ℕ) (gs : List ℕ) (j : ℕ)
    → index_from i g gs ≡ some (i + j)
    → get_elem? (map w gs ++ ys) j ≡ some (w g)
unfolding index_from
get_elem?-kept w ys i g [] j h = cc
get_elem?-kept w ys i g (x ∷ xs) zero h = elim (Bool-cases (x == g)) [
  | inl e ↦ let e' : x ≡ g = (nat_beq_iff x g).0 e in rw e' refl
  | inr e ↦ absurd (ground (arith, index_from_bounds (suc i) g xs (i + 0)))
]
get_elem?-kept w ys i g (x ∷ xs) (suc j) h = elim (Bool-cases (x == g)) [
  | inl e ↦ absurd (ground arith)
  | inr e ↦
      let e' : suc i + j ≡ i + suc j = omega arith in
      get_elem?-kept w ys (suc i) g xs j (rw e' (ground arith))
]

pub contains-count_up : (n i r : ℕ) → contains r (count_up n i) ≡ true → (i ≤ r) × (r < i + n)
contains-count_up zero i r h = cc
contains-count_up (suc n) i r h = ground (arith, contains-count_up n (suc i) r)

pub contains-count_up_of : (n i r : ℕ) → i ≤ r → r < i + n → contains r (count_up n i) ≡ true
contains-count_up_of zero i r l h = absurd (omega arith)
contains-count_up_of (suc n) i r l h = ground (arith, contains-count_up_of n (suc i) r)

pub count_up-Distinct : (n i : ℕ) → Distinct (count_up n i)
count_up-Distinct zero i = tt
count_up-Distinct (suc n) i =
    (ground (arith, contains-count_up n (suc i) i), count_up-Distinct n (suc i))

pub get_elem?-replicate {ℓ} :
    {A : Type ℓ} (n i : ℕ) (a : A) → i < n → get_elem? (replicate n a) i ≡ some a
get_elem?-replicate zero i a h = elim h [ ]
get_elem?-replicate (suc n) zero a h = refl
get_elem?-replicate (suc n) (suc i) a h = get_elem?-replicate n i a (omega arith)

pub get_elem?-set {ℓ} :
    {A : Type ℓ} (xs : List A) (i j : ℕ) (v : A)
    → i < length xs
    → get_elem? (set xs i v) j ≡ (if i == j then some v else get_elem? xs j)
get_elem?-set [] i j v h = elim h [ ]
get_elem?-set (x ∷ xs) zero zero v h = refl
get_elem?-set (x ∷ xs) zero (suc j) v h = ground arith
get_elem?-set (x ∷ xs) (suc i) zero v h = ground arith
get_elem?-set (x ∷ xs) (suc i) (suc j) v h = ground (arith, get_elem?-set xs i j v)

-- The remap table: the position of a kept expert, and what was there of any other.
pub get_elem?-number_rows :
    (r g : ℕ) (gs tbl : List ℕ)
    → Distinct gs
    → Below (length tbl) gs
    → get_elem? (number_rows r gs tbl) g
      ≡ elim (index_from r g gs) [ some i ↦ some i | none ↦ get_elem? tbl g ]
unfolding number_rows index_from
get_elem?-number_rows r g [] tbl d b = refl
get_elem?-number_rows r g (x ∷ xs) tbl d b =
    let ih = get_elem?-number_rows (suc r) g xs (set tbl x r) d.1 (rw (length-set tbl x r) b.1) in
    elim (Bool-cases (x == g)) [
      | inl e ↦
          let e' : x ≡ g = (nat_beq_iff x g).0 e in
          let new : is_some (index_from (suc r) g xs) ≡ false =
            index_from-contains (suc r) g xs ∙ rw (← e') d.0 in
          ground (arith, ih, new, get_elem?-set tbl x g r b.0)
      | inr e ↦ ground (arith, ih, get_elem?-set tbl x g r b.0)
    ]

-- A bias column: the kept experts are open.
pub get_elem?-open_all {ℓ} :
    {V : Type ℓ} (z : V) (g : ℕ) (gs : List ℕ) (col : List V)
    → Below (length col) gs
    → get_elem? (open_all z gs col) g ≡ (if contains g gs then some z else get_elem? col g)
unfolding open_all
get_elem?-open_all z g [] col b = refl
get_elem?-open_all z g (x ∷ xs) col b = ground (
  arith,
  get_elem?-open_all z g xs (set col x z) (rw (length-set col x z) b.1),
  get_elem?-set col x g z b.0,
)

-- The first of the tensors, against the experts' rows.
abbrev pub FullTensor : {R : Type 0} → ℕ → (ℕ → R) → Tensor R → Type 0
FullTensor E w (scalar x) = Unit
FullTensor E w (rows xs) = (length xs ≡ E) × ((g : ℕ) → g < E → get_elem? xs g ≡ some (w g))

index_select-map {ℓ} :
    {A : Type ℓ} (w : ℕ → A) (xs : List A) (E : ℕ)
    → ((g : ℕ) → g < E → get_elem? xs g ≡ some (w g))
    → (ids : List ℕ) → Below E ids
    → index_select xs ids ≡ some (map w ids)
unfolding index_select
index_select-map w xs E h [] b = refl
index_select-map w xs E h (i ∷ is) b = rw (h i b.0, index_select-map w xs E h is b.1)

module _ {R : Type 0} (W : Param → ℕ → R) (E : ℕ) where
  abbrev pub Full : Dict Param (Tensor R) → Type 0
  Full = All (λ e. FullTensor E (W e.0) e.1)

  -- The results in closed form.
  abbrev pub small : List ℕ → List R → Dict Param (Tensor R) → Dict Param (Tensor R)
  small keep fresh [] = []
  small keep fresh ((name, scalar x) ∷ ts) = (name, scalar x) ∷ small keep fresh ts
  small keep fresh ((name, rows xs) ∷ ts) =
      (name, rows (map (W name) keep ++ fresh)) ∷ small keep fresh ts

  abbrev pub own_rows : ℕ → Dict Param (Tensor R) → Dict Param R
  own_rows g [] = []
  own_rows g ((name, scalar x) ∷ ts) = own_rows g ts
  own_rows g ((name, rows xs) ∷ ts) = (name, W name g) ∷ own_rows g ts

  pub shrink_tensors-small :
      (keep : List ℕ) (fresh : List R) (ts : Dict Param (Tensor R))
      → Below E keep
      → Full ts
      → shrink_tensors E keep fresh ts ≡ some (small keep fresh ts)
  unfolding shrink_tensors
  shrink_tensors-small keep fresh [] b f = refl
  shrink_tensors-small keep fresh ((name, scalar x) ∷ ts) b f =
      rw (shrink_tensors-small keep fresh ts b f.1)
  shrink_tensors-small keep fresh ((name, rows xs) ∷ ts) b f =
      let same : (length xs == E) ≡ true = (nat_beq_iff (length xs) E).1 f.0.0 in
      rw (
        same,
        index_select-map (W name) xs E f.0.1 keep b,
        shrink_tensors-small keep fresh ts b f.1,
      )

  cold_rows-own :
      (g : ℕ) (ts : Dict Param (Tensor R))
      → g < E
      → Full ts
      → cold_rows E g ts ≡ some (own_rows g ts)
  unfolding cold_rows
  cold_rows-own g [] lt f = refl
  cold_rows-own g ((name, scalar x) ∷ ts) lt f = cold_rows-own g ts lt f.1
  cold_rows-own g ((name, rows xs) ∷ ts) lt f =
      let same : (length xs == E) ≡ true = (nat_beq_iff (length xs) E).1 f.0.0 in
      rw (same, f.0.1 g lt, cold_rows-own g ts lt f.1)

  pub host_pool-own :
      (cold : List ℕ) (ts : Dict Param (Tensor R))
      → Below E cold
      → Full ts
      → host_pool E cold ts ≡ some (map (λ g. (g, own_rows g ts)) cold)
  unfolding host_pool
  host_pool-own [] ts b f = refl
  host_pool-own (g ∷ gs) ts b f = rw (cold_rows-own g ts b.0 f, host_pool-own gs ts b.1 f)

  pub own_rows-own : (g : ℕ) (ts : Dict Param (Tensor R)) → All (λ e. W e.0 g ≡ e.1) (own_rows g ts)
  own_rows-own g [] = tt
  own_rows-own g ((name, scalar x) ∷ ts) = own_rows-own g ts
  own_rows-own g ((name, rows xs) ∷ ts) = (refl, own_rows-own g ts)

  pub lookup-host :
      (g : ℕ) (cold : List ℕ) (ts : Dict Param (Tensor R)) (rs : Dict Param R)
      → lookup g (map (λ h. (h, own_rows h ts)) cold) ≡ some rs
      → rs ≡ own_rows g ts
  unfolding lookup
  lookup-host g [] ts rs h = cc
  lookup-host g (x ∷ xs) ts rs h = elim (Bool-cases (x == g)) [
    | inl e ↦ let e' : x ≡ g = (nat_beq_iff x g).0 e in rw (← e') (ground arith)
    | inr e ↦ lookup-host g xs ts rs (ground arith)
  ]

  not-rows :
      (x : R) (xs : List R) → ◌≡◌ {A = Option (Tensor R)} (some (scalar x)) (some (rows xs)) → ⊥
  not-rows x xs h = cc

  pub contains-own_rows :
      (g : ℕ) (keep : List ℕ) (fresh : List R) (ts : Dict Param (Tensor R)) (name : Param)
      (xs : List R)
      → lookup name (small keep fresh ts) ≡ some (rows xs)
      → contains name (keys (own_rows g ts)) ≡ true
  unfolding lookup
  contains-own_rows g keep fresh [] name xs h = cc
  contains-own_rows g keep fresh ((nm, scalar x) ∷ ts) name xs h =
      elim (Bool-cases (param_beq nm name)) [
        | inl e ↦ absurd (not-rows x xs (rw e at h))
        | inr e ↦ contains-own_rows g keep fresh ts name xs (rw e at h)
      ]
  contains-own_rows g keep fresh ((nm, rows zs) ∷ ts) name xs h =
      elim (Bool-cases (param_beq nm name)) [
        | inl e ↦ rw e
        | inr e ↦ rw e (contains-own_rows g keep fresh ts name xs (rw e at h))
      ]

  pub lookup-small :
      (keep : List ℕ) (fresh : List R) (ts : Dict Param (Tensor R)) (name : Param) (xs : List R)
      → lookup name (small keep fresh ts) ≡ some (rows xs)
      → xs ≡ map (W name) keep ++ fresh
  unfolding lookup
  lookup-small keep fresh [] name xs h = cc
  lookup-small keep fresh ((nm, scalar x) ∷ ts) name xs h =
      lookup-small keep fresh ts name xs (elim (Bool-cases (param_beq nm name)) [
        | inl e ↦ absurd (not-rows x xs (rw e at h))
        | inr e ↦ (rw e at h)
      ])
  lookup-small keep fresh ((nm, rows zs) ∷ ts) name xs h = elim (Bool-cases (param_beq nm name)) [
    | inl e ↦ let e' : nm ≡ name = (param_beq_iff nm name).0 e in rw (← e') (ground arith)
    | inr e ↦ lookup-small keep fresh ts name xs (ground arith)
  ]
