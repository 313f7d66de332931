-- ===== src/ColdPool/Serving.antt =====
-- patches/expert_cold_pool.py: what the staging loop guarantees to the router and to the experts.
use sglang_flashnext_nvfp4kv.Prelude.{
  ℕ, ◌<◌, ◌≡◌, ◌≢◌, ◌∙◌, refl, Bool, true, false, List, [], ◌∷◌, Option, none, some, arith, nat_eq,
  lookup, get_elem?,
}
use sglang_flashnext_nvfp4kv.ColdPool.State.{Dtype, key_eq, Param, param_eq, rows, Device, Cold}
use sglang_flashnext_nvfp4kv.ColdPool.Staging.{
  pick_row, stage_gid, stage_all, stage_unless, stage_into, after_copy, return_row,
}
use sglang_flashnext_nvfp4kv.ColdPool.Tables.{kept, route, is_open}
use sglang_flashnext_nvfp4kv.ColdPool.Weights.{All}
use sglang_flashnext_nvfp4kv.ColdPool.Invariant.{Inv}
use sglang_flashnext_nvfp4kv.ColdPool.Steps.{
  SameLayer, pick_row-same, row_from_host-same, stage_gid-Inv,
}

module _ {R V : Type 0} (d : Device R V) where
  SameLayer-trans : {s t u : Cold R V} → SameLayer d s t → SameLayer d t u → SameLayer d s u
  SameLayer-trans h k = record { keep = k.keep ∙ h.keep; E = k.E ∙ h.E; cold = k.cold ∙ h.cold }

  after_copy-same : (row : ℕ) (b : Bool) (s : Cold R V) → SameLayer d s (after_copy d row b s)
  unfolding after_copy return_row
  after_copy-same row true s = record { keep = refl; E = refl; cold = refl }
  after_copy-same row false s = record {
    keep = ground arith;
    E = ground arith;
    cold = ground arith;
  }

  stage_unless-same :
      (gid : ℕ) (o : Option ℕ) (s : Cold R V) → SameLayer d s (stage_unless d gid o s).1
  unfolding stage_unless stage_into
  stage_unless-same gid (some _) s = record { keep = refl; E = refl; cold = refl }
  stage_unless-same gid none s =
      SameLayer-trans (pick_row-same d s) (go (pick_row d s).0 (pick_row d s).1)
    where
      go : (o : Option ℕ) (t : Cold R V) → SameLayer d t (stage_into d gid o t).1
      go none t = record { keep = refl; E = refl; cold = refl }
      go (some row) t = SameLayer-trans (row_from_host-same d gid row t) (after_copy-same row _ _)

  stage_gid-same : (gid : ℕ) (s : Cold R V) → SameLayer d s (stage_gid d gid s).1
  unfolding stage_gid
  stage_gid-same gid s =
      let same = stage_unless-same gid (lookup gid s.pool.gid_row) _ in
      record { keep = same.keep; E = same.E; cold = same.cold }

  pub stage_all-same : (gids : List ℕ) (s : Cold R V) → SameLayer d s (stage_all d gids s)
  unfolding stage_all
  stage_all-same [] s = record { keep = refl; E = refl; cold = refl }
  stage_all-same (gid ∷ gids) s =
      SameLayer-trans (stage_gid-same gid s)
        (go (stage_gid d gid s).0 (stage_gid d gid s).1 (stage_all-same gids (stage_gid d gid s).1))
    where
      go :
          (more : Bool) (t : Cold R V)
          → SameLayer d t (stage_all d gids t)
          → SameLayer d t (elim more [ true ↦ stage_all d gids t | false ↦ t ])
      go true t same = same
      go false t same = record { keep = refl; E = refl; cold = refl }

  module _ (W : Param → ℕ → R) where
    abbrev pub IsCold : Cold R V → ℕ → Type 0
    IsCold s gid = (gid < s.pool.E) × (kept s.pool gid ≡ none)

    -- Staging any list of cold experts, with evictions, failed copies and a break on the way, keeps
    -- the invariant: tables that agree with the ownership, rows with one owner, no row leaked, and
    -- every open expert's own weights in its row.
    pub stage_all-Inv :
        (gids : List ℕ) (s : Cold R V)
        → All (IsCold s) gids
        → Inv d W none s
        → Inv d W none (stage_all d gids s)
    unfolding stage_all
    stage_all-Inv [] s h v = v
    stage_all-Inv (gid ∷ gids) s h v =
        go (stage_gid d gid s).0 (stage_gid d gid s).1 (stage_gid-same gid s)
          (stage_gid-Inv d W gid s h.0.0 h.0.1 v) (stage_all-Inv gids (stage_gid d gid s).1)
      where
        still :
            (xs : List ℕ) (t : Cold R V) → SameLayer d s t → All (IsCold s) xs → All (IsCold t) xs
        still [] t same c = tt
        still (x ∷ xs) t same c = ((rw same.E c.0.0, rw same.keep c.0.1), still xs t same c.1)

        go :
            (more : Bool) (t : Cold R V)
            → SameLayer d s t
            → Inv d W none t
            → (All (IsCold t) gids → Inv d W none t → Inv d W none (stage_all d gids t))
            → Inv d W none (elim more [ true ↦ stage_all d gids t | false ↦ t ])
        go true t same w ih = ih (still gids t same h.1) w
        go false t same w ih = w

    -- An expert that some bias column of the layer leaves selectable after the staging is sent to a
    -- row that holds the expert's own weights, in every sharded tensor of the module.
    pub selected_own_weights :
        (gids : List ℕ) (s : Cold R V)
        → ((t : Dtype) → d.zero_value ≢ d.finfo_min t)
        → All (IsCold s) gids
        → Inv d W none s
        → (t : Dtype) (col : List V) (tbl : List ℕ) (g : ℕ)
        → lookup ((stage_all d gids s).pool.layer_id, t) (stage_all d gids s).caches.bias ≡ some col
        → lookup (stage_all d gids s).pool.layer_id (stage_all d gids s).caches.remap ≡ some tbl
        → g < (stage_all d gids s).pool.E
        → get_elem? col g ≡ some d.zero_value
        → (row : ℕ) × (get_elem? tbl g ≡ some row)
          × ((name : Param) (xs : List R)
              → lookup name (stage_all d gids s).pool.tensors ≡ some (rows xs)
              → get_elem? xs row ≡ some (W name g))
    selected_own_weights gids s apart cold v t col tbl g hc ht lt open_col =
        let u = stage_all d gids s in
        let w = stage_all-Inv gids s cold v in
        let tables = w.serves.tables in
        let o : is_open u.pool g ≡ true =
          ground (arith, tables.bias_entry t col hc g lt, apart t) in
        (
          route u.pool g,
          ground (arith, tables.remap_found, tables.remap_entry g lt),
          λ name xs h. w.serves.holds.held name xs h g o,
        )
