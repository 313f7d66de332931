-- ===== src/Tier/Eager.antt =====
-- patches/expert_tier.py: which experts an eager step and a captured step serve.
use sglang_flashnext_nvfp4kv.Prelude.{
  get_elem?-map, get_or-get_elem?, ℕ, zero, suc, ◌≤◌, ◌<◌, ◌≡◌, ◌∙◌, refl, ap, inl, inr, Bool, true,
  false, List, [], ◌∷◌, map, none, some, arith, nat_eq, ◌==◌, Bool-cases, Option-cases, contains,
  length, get_elem?, get_or, take, count_up, replicate, length-replicate, min, lt-of-get_elem?,
  subst, not, ltb,
}
use sglang_flashnext_nvfp4kv.Prelude.Int.{ℤ, pos, negsuc}
use sglang_flashnext_nvfp4kv.ColdPool.Tables.{index_from}
use sglang_flashnext_nvfp4kv.ColdPool.Weights.{All}
use sglang_flashnext_nvfp4kv.ColdPool.Ownership.{Distinct}
use sglang_flashnext_nvfp4kv.ColdPool.Shrink.Contents.{
  Below, index_from-contains, get_elem?-replicate,
}
use sglang_flashnext_nvfp4kv.Tier.State.{
  LayerTier, tier, masked_counts, positives, all_below, serve, hits, step_lookup, load, remap_batch,
  remap_from,
}
use sglang_flashnext_nvfp4kv.Tier.Table.{
  get_elem?-scatter, get_elem?-scatter_other, length-scatter, all_below-at,
}

abbrev pub Descending : List ℕ → Type 0
Descending [] = Unit
Descending (v ∷ vs) = All (λ u. u ≤ v) vs × Descending vs

positives-zero : (vs : List ℕ) → All (λ u. u ≤ 0) vs → positives vs ≡ 0
unfolding positives
positives-zero [] h = refl
positives-zero (v ∷ vs) h = ground (arith, positives-zero vs h.1, h.0)

taken_positive :
    (f : ℕ → ℕ) (sel : List ℕ)
    → Descending (map f sel)
    → (g : ℕ) → contains g (take (positives (map f sel)) sel) ≡ true
    → 0 < f g
unfolding positives
taken_positive f [] d g h = cc
taken_positive f (s ∷ ss) d g h = elim (Bool-cases (ltb 0 (f s))) [
  | inl hot ↦
      let n : positives (map f (s ∷ ss)) ≡ suc (positives (map f ss)) = ground (arith, hot) in
      let h' : contains g (s ∷ take (positives (map f ss)) ss) ≡ true = rw n at h in
      elim (Bool-cases (s == g)) [
        | inl e ↦ ground (arith, hot, e)
        | inr e ↦ taken_positive f ss d.1 g (ground (arith, e, h'))
      ]
  | inr cold ↦
      let z : f s ≡ 0 = ground (arith, cold) in
      let p : positives (map f ss) ≡ 0 = positives-zero (map f ss) (rw z at d.0) in
      let n : positives (map f (s ∷ ss)) ≡ 0 = ground (arith, p, cold) in
      let h' : false ≡ true = rw n at h in absurd (ground (arith, h'))
]

masked_counts-kept :
    (ids : List ℕ) (g0 : ℕ) (ms : List Bool) (i : ℕ)
    → 0 < get_or (masked_counts ids g0 ms) i 0
    → get_elem? ms i ≡ some false
unfolding masked_counts
masked_counts-kept ids g0 [] i h = elim h [ ]
masked_counts-kept ids g0 (true ∷ ms) zero h = elim h [ ]
masked_counts-kept ids g0 (false ∷ ms) zero h = refl
masked_counts-kept ids g0 (m ∷ ms) (suc i) h = masked_counts-kept ids (suc g0) ms i h

replicate-map : {A : Type 0} (a : A) (n r : ℕ) → replicate n a ≡ map (λ _. a) (count_up n r)
replicate-map a zero r = refl
replicate-map a (suc n) r = ap (λ xs. a ∷ xs) (replicate-map a n (suc r))

module _ {R : Type 0} (E : ℕ) (keep cold : List ℕ) (pairs : List (List R × List R)) where
  pub length-keep_mask : length (tier E keep cold pairs).keep_mask ≡ E
  unfolding tier
  length-keep_mask =
      length-scatter keep (replicate (length keep) false) (replicate E true)
      ∙ length-replicate E true

  pub keep_mask-contains :
      Distinct keep
      → Below E keep
      → (g : ℕ) → g < E
      → get_elem? (tier E keep cold pairs).keep_mask g ≡ some (not (contains g keep))
  unfolding tier
  keep_mask-contains d b g lt =
      let b' : Below (length (replicate E true)) keep = rw (length-replicate E true) b in
      let ic = index_from-contains 0 g keep in
      rw
        (
          replicate-map false (length keep) 0,
          get_elem?-scatter (λ _. false) 0 g keep (replicate E true) d b',
        )
        (elim (Option-cases (index_from 0 g keep)) [
          | inl e ↦ rw (e, get_elem?-replicate E g true lt) (ground (arith, ic, e))
          | inr (i, e) ↦ rw e (ground (arith, ic, e))
        ])

  pub keep_lookup-index :
      Distinct keep
      → Below E keep
      → (g : ℕ) → g < E
      → get_elem? (tier E keep cold pairs).keep_lookup g
        ≡ elim (index_from 0 g keep) [ some i ↦ some (pos i) | none ↦ some (negsuc 0) ]
  unfolding tier
  keep_lookup-index d b g lt =
      let b' : Below (length (replicate E (negsuc 0))) keep =
        rw (length-replicate E (negsuc 0)) b in
      rw (get_elem?-scatter pos 0 g keep (replicate E (negsuc 0)) d b')
        (elim (Option-cases (index_from 0 g keep)) [
          | inl e ↦ rw (e, get_elem?-replicate E g (negsuc 0) lt) refl
          | inr (i, e) ↦ rw e refl
        ])

pub serve-missed :
    {V : Type 0} (zero_weight : V) (lookup : List ℤ) (first g : ℕ) (w : V)
    → get_or lookup g (negsuc 0) ≡ negsuc 0
    → serve zero_weight lookup first (g, w) ≡ (first, zero_weight)
unfolding serve
serve-missed zero_weight lookup first g w h = rw (h, serve) refl

pub serve-found :
    {V : Type 0} (zero_weight : V) (lookup : List ℤ) (first g row : ℕ) (w : V)
    → get_or lookup g (negsuc 0) ≡ pos row
    → serve zero_weight lookup first (g, w) ≡ (row, w)
unfolding serve
serve-found zero_weight lookup first g row w h = rw (h, serve) refl

pub ring_start :
    {R : Type 0} (E : ℕ) (keep : List ℕ) (c : ℕ) (cs : List ℕ) (pairs : List (List R × List R))
    → (tier E keep (c ∷ cs) pairs).ring_dsts
      ≡ length keep ∷ count_up (min 15 (length cs)) (suc (length keep))
unfolding tier
ring_start E keep c cs pairs =
    let m : min 16 (suc (length cs)) ≡ suc (min 15 (length cs)) = omega arith in rw m refl

-- What `torch.topk` documents: the entries come in descending order.
pub record TopkLaw (topk : List ℕ → ℕ → List ℕ) : Type 0 where
  pub descending : (xs : List ℕ) (k : ℕ) → Descending (map (λ g. get_or xs g 0) (topk xs k))

module _ {R : Type 0} (topk : List ℕ → ℕ → List ℕ) (law : TopkLaw topk) where
  -- The experts that an eager step loads into the ring are all kept experts.
  pub hits-kept :
      (E : ℕ) (keep cold : List ℕ) (pairs : List (List R × List R)) (ids : List ℕ)
      → Distinct keep
      → Below E keep
      → (g : ℕ) → contains g (hits topk (tier E keep cold pairs) ids) ≡ true
      → contains g keep ≡ true
  unfolding hits
  hits-kept E keep cold pairs ids d b g h =
      let t = tier E keep cold pairs in
      let counts = masked_counts ids 0 t.keep_mask in
      let m = masked_counts-kept ids 0 t.keep_mask g (
        taken_positive (λ i. get_or counts i 0) (topk counts t.ring_k)
          (law.descending counts t.ring_k) g h) in
      let lt : g < E =
        subst (λ n. g < n) (length-keep_mask E keep cold pairs) (lt-of-get_elem? t.keep_mask g m) in
      ground (arith, m, keep_mask-contains E keep cold pairs d b g lt)

  lookup_cold :
      (E : ℕ) (keep cold : List ℕ) (pairs : List (List R × List R)) (ids : List ℕ) (g : ℕ)
      → Distinct keep
      → Below E keep
      → g < E
      → contains g keep ≡ false
      → get_elem? (step_lookup topk (tier E keep cold pairs) ids) g ≡ some (negsuc 0)
  unfolding step_lookup
  lookup_cold E keep cold pairs ids g d b lt out =
      let t = tier E keep cold pairs in
      let sel = hits topk t ids in
      let absent : contains g sel ≡ false =
        ground (arith, out, hits-kept E keep cold pairs ids d b g) in
      let unlisted : index_from 0 g keep ≡ none =
        ground (arith, out, index_from-contains 0 g keep) in
      get_elem?-scatter_other g sel (map pos (take (length sel) t.ring_dsts)) t.keep_lookup absent
      ∙ rw (keep_lookup-index E keep cold pairs d b g lt, unlisted) refl

module _ {R V : Type 0} (topk : List ℕ → ℕ → List ℕ) (law : TopkLaw topk) where
  -- With a duplicate-free keep list in range, some cold expert, and all selected ids below the
  -- number of experts, an eager step succeeds, and every cold expert that it selects goes to the
  -- first ring row with weight zero: no cold expert is ever served.
  pub eager_drops_cold :
      (zero_weight : V) (E : ℕ) (keep : List ℕ) (c : ℕ) (cs : List ℕ)
      (pairs : List (List R × List R)) (batch : List (ℕ × V))
      → Distinct keep
      → Below E keep
      → all_below E (map (λ e. e.0) batch) ≡ true
      → (out : List (ℕ × V)) × (t : LayerTier R) × remap_batch topk zero_weight false
            (tier E keep (c ∷ cs) pairs)
            batch
          ≡ some (out, t)
        × ((j g : ℕ) (w : V)
            → get_elem? batch j ≡ some (g, w)
            → contains g keep ≡ false
            → get_elem? out j ≡ some (length keep, zero_weight))
  unfolding remap_batch remap_from tier
  eager_drops_cold zero_weight E keep c cs pairs batch d b ok =
      let t = tier E keep (c ∷ cs) pairs in
      let ids = map (λ e. e.0) batch in
      (
        map (serve zero_weight (step_lookup topk t ids) (length keep)) batch,
        load topk t ids,
        ap (λ r. remap_from topk zero_weight r false t batch) (ring_start E keep c cs pairs)
            ∙ rw ok refl,
        λ j g w at out.
            let lt = all_below-at E batch j g w ok at in
            let entry = lookup_cold topk law E keep (c ∷ cs) pairs ids g d b lt out in
            get_elem?-map (serve zero_weight (step_lookup topk t ids) (length keep)) batch j (g, w)
              at
            ∙ ap some (
                serve-missed zero_weight (step_lookup topk t ids) (length keep) g w
                  (get_or-get_elem? (step_lookup topk t ids) g (negsuc 0) (negsuc 0) entry)),
      )
