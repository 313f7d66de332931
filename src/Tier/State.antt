-- ===== src/Tier/State.antt =====
-- patches/expert_tier.py: `LayerTier` and `apply_to_topk_output`. A batch is the list of the selected
-- ids with their weights; ids are natural numbers. An error is `none`, and the caller passes its
-- input through. `topk` is torch's, the indices of the greatest entries; a rank out of range raises
-- in torch and copies nothing here.
use sglang_flashnext_nvfp4kv.Prelude.{
  ℕ, suc, ◌+◌, ◌*◌, ◌%◌, ◌^◌, Bool, true, false, ◌&&◌, not, List, [], ◌∷◌, ◌++◌, map, Option, none,
  some, nat_eq, ◌==◌, ltb, if◌then◌else◌, length, get_elem?, get_or, set, take, replicate, count_up,
  min,
}
use sglang_flashnext_nvfp4kv.Prelude.Int.{ℤ, pos, negsuc}
use sglang_flashnext_nvfp4kv.ColdPool.Shrink.{cold_from, index_select, ◌>>=◌}

-- _RING.
abbrev pub ring : ℕ
ring = 16

pub record LayerTier (R : Type 0) : Type 0 where
  pub keep_lookup : List ℤ
  pub cold_rank : List ℕ
  pub keep_mask : List Bool
  pub n_keep : ℕ
  pub n_cold : ℕ
  pub num_experts : ℕ
  pub ring_k : ℕ
  pub ring_dsts : List ℕ
  pub pairs : List (List R × List R)

-- `xs[ids] = vs`.
unfoldable pub scatter {ℓ} : {A : Type ℓ} → List ℕ → List A → List A → List A
scatter [] vs xs = xs
scatter (i ∷ is) [] xs = xs
scatter (i ∷ is) (v ∷ vs) xs = scatter is vs (set xs i v)

module _ {V : Type 0} where
  -- The cold ranks that seed the ring, from the layer's row of the frequency table.
  unfoldable pub seed_ranks : (List V → List ℕ) → ℕ → List ℕ → Option (List V) → List ℕ
  unfolding index_select
  seed_ranks argsort E cold none = []
  seed_ranks argsort E cold (some row) =
      if length row == E
      then elim (index_select row cold) [ none ↦ [] | some counts ↦ take ring (argsort counts) ]
      else []

module _ {R : Type 0} where
  -- The tables of `__init__`.
  unfoldable pub tier : ℕ → List ℕ → List ℕ → List (List R × List R) → LayerTier R
  unfolding scatter
  tier E keep cold pairs =
      let ring_k = min ring (length cold) in
      record {
        keep_lookup = scatter keep (map pos (count_up (length keep) 0)) (replicate E (negsuc 0));
        cold_rank = scatter cold (count_up (length cold) 0) (replicate E 0);
        keep_mask = scatter keep (replicate (length keep) false) (replicate E true);
        n_keep = length keep;
        n_cold = length cold;
        num_experts = E;
        ring_k = ring_k;
        ring_dsts = count_up ring_k (length keep);
        pairs = pairs;
      }

module _ {R : Type 0} (zero_row : R) where
  -- One tensor: the GPU rows, and the host pool.
  unfoldable pub rebuild : ℕ → List ℕ → List ℕ → List ℕ → List R → Option (List R × List R)
  unfolding index_select scatter
  rebuild E keep cold seeds t =
      if length t == E
      then (do
        keep_part ← index_select t keep
        cold_part ← index_select t cold
        seeded ← index_select cold_part seeds
        some (
          keep_part ++ scatter (count_up (length seeds) 0) seeded (replicate ring zero_row),
          cold_part,
        ))
      else none

  unfoldable pub rebuild_all :
      ℕ → List ℕ → List ℕ → List ℕ → List (List R) → Option (List (List R × List R))
  unfolding rebuild
  rebuild_all E keep cold seeds [] = some []
  rebuild_all E keep cold seeds (t ∷ ts) = do
    pair ← rebuild E keep cold seeds t
    rest ← rebuild_all E keep cold seeds ts
    some (pair ∷ rest)

  -- `LayerTier.__init__`.
  unfoldable pub init_tier : ℕ → List ℕ → List ℕ → List (List R) → Option (LayerTier R)
  unfolding rebuild_all tier cold_from
  init_tier E keep seeds ts = do
    pairs ← rebuild_all E keep (cold_from E 0 keep) seeds ts
    some (tier E keep (cold_from E 0 keep) pairs)

-- `torch.bincount(ids, minlength=E)`, of ids below E.
unfoldable pub tally : ℕ → List ℕ → ℕ
tally g [] = 0
tally g (i ∷ is) = (if i == g then 1 else 0) + tally g is

-- `cnt * (~keep_mask)`, from the expert `g` on.
unfoldable pub masked_counts : List ℕ → ℕ → List Bool → List ℕ
unfolding tally
masked_counts ids g [] = []
masked_counts ids g (m ∷ ms) = (if not m then tally g ids else 0) ∷ masked_counts ids (suc g) ms

-- `(vals > 0).sum()`.
unfoldable pub positives : List ℕ → ℕ
positives [] = 0
positives (v ∷ vs) = (if ltb 0 v then 1 else 0) + positives vs

unfoldable pub all_below : ℕ → List ℕ → Bool
all_below E [] = true
all_below E (i ∷ is) = ltb i E && all_below E is

module _ {R : Type 0} where
  -- `gpu_t[rows] = pool.index_select(0, ords)`.
  unfoldable pub fetch : List ℕ → List ℕ → List R → List R → List R
  fetch [] ords pool gpu = gpu
  fetch (row ∷ rows) [] pool gpu = gpu
  fetch (row ∷ rows) (o ∷ ords) pool gpu = elim (get_elem? pool o) [
    | none ↦ fetch rows ords pool gpu
    | some x ↦ fetch rows ords pool (set gpu row x)
  ]

  unfoldable pub fetch_all : List ℕ → List ℕ → List (List R × List R) → List (List R × List R)
  unfolding fetch
  fetch_all rows ords [] = []
  fetch_all rows ords ((gpu, pool) ∷ pairs) =
      (fetch rows ords pool gpu, pool) ∷ fetch_all rows ords pairs

module _ {V : Type 0} (zero_weight : V) where
  -- `torch.where(miss, ring_dsts[0], mapped)` and the weight.
  unfoldable pub serve : List ℤ → ℕ → ℕ × V → ℕ × V
  serve lookup first (g, w) = elim (get_or lookup g (negsuc 0)) [
    | pos row ↦ (row, w)
    | negsuc _ ↦ (first, zero_weight)
  ]

-- `(new_ids << 16) | low`, entry by entry.
unfoldable pub repack : {V : Type 0} → List (ℕ × V) → List ℕ → List ℕ
repack [] ps = []
repack (e ∷ es) [] = []
repack ((row, w) ∷ es) (p ∷ ps) = (row * 2 ^ 16 + p % 2 ^ 16) ∷ repack es ps

module _ {R : Type 0} (topk : List ℕ → ℕ → List ℕ) where
  -- The experts of this step that get a ring slot.
  unfoldable pub hits : LayerTier R → List ℕ → List ℕ
  unfolding masked_counts positives
  hits t ids =
      let counts = masked_counts ids 0 t.keep_mask in
      let sel = topk counts t.ring_k in take (positives (map (λ g. get_or counts g 0) sel)) sel

  unfoldable pub load : LayerTier R → List ℕ → LayerTier R
  unfolding hits fetch_all
  load t ids =
      let sel = hits t ids in
      let dsts = take (length sel) t.ring_dsts in
      record t { pairs = fetch_all dsts (map (λ g. get_or t.cold_rank g 0) sel) t.pairs }

  unfoldable pub step_lookup : LayerTier R → List ℕ → List ℤ
  unfolding hits scatter
  step_lookup t ids =
      let sel = hits t ids in scatter sel (map pos (take (length sel) t.ring_dsts)) t.keep_lookup

module _ {R V : Type 0} (topk : List ℕ → ℕ → List ℕ) (zero_weight : V) where
  -- `remap`, given the ring's rows: the ids' rows with the weights, and the tier.
  unfoldable pub remap_from :
      List ℕ → Bool → LayerTier R → List (ℕ × V) → Option (List (ℕ × V) × LayerTier R)
  unfolding serve load step_lookup all_below
  remap_from [] capturing t batch = none
  remap_from (first ∷ _) capturing t batch =
      let ids = map (λ e. e.0) batch in
      if all_below t.num_experts ids
      then if capturing
        then some (map (serve zero_weight t.keep_lookup first) batch, t)
        else some (map (serve zero_weight (step_lookup topk t ids) first) batch, load topk t ids)
      else none

  unfoldable pub remap_batch :
      Bool → LayerTier R → List (ℕ × V) → Option (List (ℕ × V) × LayerTier R)
  unfolding remap_from
  remap_batch capturing t batch = remap_from t.ring_dsts capturing t batch

  -- `apply_to_topk_output` of an enabled layer: the batch, its packed form if it has one, the tier.
  unfoldable pub apply_tier :
      Bool
      → Option (LayerTier R)
      → List (ℕ × V)
      → Option (List ℕ)
      → List (ℕ × V) × Option (List ℕ) × Option (LayerTier R)
  unfolding remap_batch repack
  apply_tier capturing none batch packed = (batch, packed, none)
  apply_tier capturing (some t) batch packed = elim (remap_batch capturing t batch) [
    | none ↦ (batch, packed, some t)
    | some (out, t') ↦ elim packed [
      | none ↦ (out, none, some t')
      | some ps ↦ (out, some (repack out ps), some t')
    ]
  ]
