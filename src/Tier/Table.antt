-- ===== src/Tier/Table.antt =====
-- patches/expert_tier.py: what the tables of a tier hold.
use sglang_flashnext_nvfp4kv.Prelude.{
  ℕ, zero, suc, ◌<◌, ◌≡◌, ◌∙◌, refl, inl, inr, true, false, List, [], ◌∷◌, map, none, some, arith,
  nat_eq, nat_beq_iff, ◌==◌, Bool-cases, contains, length, length-set, get_elem?, set,
  get_elem?-set_ne, count_up,
}
use sglang_flashnext_nvfp4kv.ColdPool.Tables.{index_from, is_some}
use sglang_flashnext_nvfp4kv.ColdPool.Ownership.{Distinct}
use sglang_flashnext_nvfp4kv.ColdPool.Shrink.Contents.{Below, index_from-contains, get_elem?-set}
use sglang_flashnext_nvfp4kv.Tier.State.{scatter, all_below}

-- `xs[ids] = f(r), f(r + 1), …`, read back at any index.
pub get_elem?-scatter {ℓ} :
    {A : Type ℓ} (f : ℕ → A) (r g : ℕ) (gs : List ℕ) (xs : List A)
    → Distinct gs
    → Below (length xs) gs
    → get_elem? (scatter gs (map f (count_up (length gs) r)) xs) g
      ≡ elim (index_from r g gs) [ some i ↦ some (f i) | none ↦ get_elem? xs g ]
unfolding scatter index_from
get_elem?-scatter f r g [] xs d b = refl
get_elem?-scatter f r g (x ∷ gs) xs d b =
    let ih =
      get_elem?-scatter f (suc r) g gs (set xs x (f r)) d.1 (rw (length-set xs x (f r)) b.1) in
    elim (Bool-cases (x == g)) [
      | inl e ↦
          let e' : x ≡ g = (nat_beq_iff x g).0 e in
          let new : is_some (index_from (suc r) g gs) ≡ false =
            index_from-contains (suc r) g gs ∙ rw (← e') d.0 in
          ground (arith, ih, new, get_elem?-set xs x g (f r) b.0)
      | inr e ↦ ground (arith, ih, get_elem?-set xs x g (f r) b.0)
    ]

-- An index that is not written keeps its entry.
pub get_elem?-scatter_other {ℓ} :
    {A : Type ℓ} (g : ℕ) (gs : List ℕ) (vs xs : List A)
    → contains g gs ≡ false
    → get_elem? (scatter gs vs xs) g ≡ get_elem? xs g
unfolding scatter
get_elem?-scatter_other g [] vs xs h = refl
get_elem?-scatter_other g (i ∷ is) [] xs h = refl
get_elem?-scatter_other g (i ∷ is) (v ∷ vs) xs h =
    get_elem?-scatter_other g is vs (set xs i v) (ground (arith, h))
    ∙ get_elem?-set_ne xs v (λ e. ground (arith, h, e))

pub length-scatter {ℓ} :
    {A : Type ℓ} (gs : List ℕ) (vs xs : List A) → length (scatter gs vs xs) ≡ length xs
unfolding scatter
length-scatter [] vs xs = refl
length-scatter (g ∷ gs) [] xs = refl
length-scatter (g ∷ gs) (v ∷ vs) xs = length-scatter gs vs (set xs g v) ∙ length-set xs g v

pub all_below-at :
    {V : Type 0} (E : ℕ) (batch : List (ℕ × V)) (j g : ℕ) (w : V)
    → all_below E (map (λ e. e.0) batch) ≡ true
    → get_elem? batch j ≡ some (g, w)
    → g < E
unfolding all_below
all_below-at E [] j g w h e = cc
all_below-at E ((i, v) ∷ batch) zero g w h e = let e' : i ≡ g = cc in ground (arith, h, e')
all_below-at E ((i, v) ∷ batch) (suc j) g w h e = all_below-at E batch j g w (ground (arith, h)) e
