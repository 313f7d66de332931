-- ===== src/ColdPool/Reach.antt =====
-- patches/expert_cold_pool.py: the states that a layer's pool comes to from its start, by calls of the
-- forward hook with any stashed demand between them.
use sglang_flashnext_nvfp4kv.Prelude.{
  ℕ, ◌+◌, ◌<◌, ◌≡◌, ◌≢◌, refl, List, [], ◌∷◌, some, none, nat_eq, lookup, get_elem?, ltb, length,
  Bool-cases, inl, inr,
}
use sglang_flashnext_nvfp4kv.ColdPool.State.{Dtype, key_eq, Param, param_eq, rows, Device, Cold}
use sglang_flashnext_nvfp4kv.ColdPool.Staging.{stage_all}
use sglang_flashnext_nvfp4kv.ColdPool.Weights.{All}
use sglang_flashnext_nvfp4kv.ColdPool.Invariant.{Inv}
use sglang_flashnext_nvfp4kv.ColdPool.Steps.{SameLayer}
use sglang_flashnext_nvfp4kv.ColdPool.Serving.{IsCold, stage_all-same, selected_own_weights}
use sglang_flashnext_nvfp4kv.ColdPool.Demand.{Scores, Stash, filter_nonneg}
use sglang_flashnext_nvfp4kv.ColdPool.Hook.{HookConfig, hook_layer, hook_layer-Inv, demand}

module _ {R V : Type 0} (f : Scores V) (cfg : HookConfig V) (d : Device R V) where
  pub data Reach (first : Cold R V) : Cold R V → Type 0 where
    start : Reach first first
    hook : {s : Cold R V} (buf : Stash V) → Reach first s → Reach first (hook_layer f cfg d buf s).1

  hook_layer-same : (buf : Stash V) (s : Cold R V) → SameLayer d s (hook_layer f cfg d buf s).1
  unfolding hook_layer
  hook_layer-same buf s = elim (Bool-cases (ltb (length (filter_nonneg buf.ids)) cfg.k)) [
    | inl e ↦ rw e (record { keep = refl; E = refl; cold = refl })
    | inr e ↦
        let same = stage_all-same d (demand f cfg buf t.pool).1 u in
        rw e (record { keep = same.keep; E = same.E; cold = same.cold })
  ]
    where
      t : Cold R V
      t = record s { pool = record (s.pool) { tick = s.pool.tick + 1 } }

      u : Cold R V
      u = record t {
        pool = record (t.pool) { need_counts = some (demand f cfg buf t.pool).0 };
        stats = record (t.stats) { strong = t.stats.strong + (demand f cfg buf t.pool).2 };
      }

  module _ (W : Param → ℕ → R) where
    -- The cold list names experts in range that are not kept.
    abbrev pub ColdList : Cold R V → Type 0
    ColdList s = All (IsCold d W s) s.pool.cold

    ColdList-same : (s t : Cold R V) → SameLayer d s t → ColdList s → ColdList t
    ColdList-same s t same h = rw same.cold (still s.pool.cold h)
      where
        still : (xs : List ℕ) → All (IsCold d W s) xs → All (IsCold d W t) xs
        still [] c = tt
        still (x ∷ xs) c = ((rw same.E c.0.0, rw same.keep c.0.1), still xs c.1)

    -- Every state that calls of the hook lead to keeps the invariant.
    pub Reach-Inv :
        {first s : Cold R V}
        → ColdList first
        → Inv d W none first
        → Reach first s
        → Inv d W none s × ColdList s
    Reach-Inv cold v start = (v, cold)
    Reach-Inv cold v (hook {s = s} buf r) =
        let before = Reach-Inv cold v r in
        (
          hook_layer-Inv f cfg d W buf s before.1 before.0,
          ColdList-same s _ (hook_layer-same buf s) before.1,
        )

-- In every state that a layer's pool comes to by calls of the forward hook with demotion off,
-- whatever demand was stashed between them, an expert in range that some bias column of the layer
-- leaves selectable is sent by the layer's remap table to a row that holds the expert's own
-- weights, in every sharded tensor of the module. Conditions: the first state keeps the invariant,
-- its cold list names experts in range that are not kept, and zero is not a dtype's least value.
pub reachable_own_weights :
    {R V : Type 0} (f : Scores V) (cfg : HookConfig V) (d : Device R V) (W : Param → ℕ → R)
    (first s : Cold R V)
    → ((t : Dtype) → d.zero_value ≢ d.finfo_min t)
    → ColdList f cfg d W first
    → Inv d W none first
    → Reach f cfg d first s
    → (t : Dtype) (col : List V) (tbl : List ℕ) (g : ℕ)
    → lookup (s.pool.layer_id, t) s.caches.bias ≡ some col
    → lookup s.pool.layer_id s.caches.remap ≡ some tbl
    → g < s.pool.E
    → get_elem? col g ≡ some d.zero_value
    → (row : ℕ) × (get_elem? tbl g ≡ some row)
      × ((name : Param) (xs : List R)
          → lookup name s.pool.tensors ≡ some (rows xs)
          → get_elem? xs row ≡ some (W name g))
unfolding stage_all
reachable_own_weights f cfg d W first s apart cold v r =
    selected_own_weights d W [] s apart tt (Reach-Inv f cfg d W cold v r).0
