-- ===== src/ColdPool/Shrink/Arms.antt =====
-- patches/expert_cold_pool.py: a shrunk layer starts with the invariant of the staging.
use sglang_flashnext_nvfp4kv.Prelude.{
  Option, some, ◌⊎◌, ◌++◌, ap, ℕ, zero, suc, ◌+◌, ◌≤◌, ◌<◌, ◌≡◌, refl, inl, inr, false, List, [],
  ◌∷◌, none, arith, nat_eq, Dict, lookup, insert, lookup-insert, contains, length, Bool-cases, leb,
  ◌≢◌,
}
use sglang_flashnext_nvfp4kv.ColdPool.State.{
  key_eq, Param, param_eq, w13_weight, w13_weight_scale, Tensor, rows, Device, LayerPool, Caches,
  Stats,
}
use sglang_flashnext_nvfp4kv.ColdPool.Ownership.{Distinct}
use sglang_flashnext_nvfp4kv.ColdPool.Invariant.{Inv}
use sglang_flashnext_nvfp4kv.ColdPool.Router.{Gate, register_managed}
use sglang_flashnext_nvfp4kv.ColdPool.Shrink.{
  build_tables, cold_from, shrink_layer, NamedParam, inventory_gate, shrunk, Outcome, expert_count,
  config_of, arm_gate, shrink_sized,
}
use sglang_flashnext_nvfp4kv.ColdPool.Shrink.Start.{start_pool, build_pool-Inv}
use sglang_flashnext_nvfp4kv.ColdPool.Shrink.Contents.{Below, Full}

cold_from-Below : (n i E : ℕ) (keep : List ℕ) → i + n ≤ E → Below E (cold_from n i keep)
unfolding cold_from
cold_from-Below zero i E keep h = tt
cold_from-Below (suc n) i E keep h =
    let rest = cold_from-Below n (suc i) E keep (omega arith) in
    elim (Bool-cases (contains i keep)) [ inl e ↦ rw e rest | inr e ↦ rw e (omega arith, rest) ]

-- What the layer is after a shrink that succeeds: the invariant of the staging holds, and the gate maps
-- the config to the layer.
abbrev pub Armed :
    {R V : Type 0} → Device R V → (Param → ℕ → R) → Stats → ℕ → ℕ → Outcome R V → Type 0
Armed {R} {V} d W stats layer_id cfg result =
    (pool : LayerPool R V) × (c : Caches V) × (gate : Gate) × (result ≡ shrunk pool c gate)
    × Inv d W none (record { pool = pool; caches = c; stats = stats })
    × (lookup cfg gate.cfg_lids ≡ some layer_id)

arm_gate-registers :
    {R V : Type 0} (d : Device R V) (layer_id : ℕ) (topk : Option (Option ℕ)) (owner : Option ℕ)
    (cfg : ℕ) (pool : LayerPool R V) (c : Caches V) (gate : Gate)
    → (topk ≡ some (some cfg)) ⊎ (topk ≡ none) × (owner ≡ some cfg)
    → (gate' : Gate) × (arm_gate d layer_id topk owner pool c gate ≡ shrunk pool c gate')
      × (lookup cfg gate'.cfg_lids ≡ some layer_id)
unfolding arm_gate register_managed config_of
arm_gate-registers d layer_id topk owner cfg pool c gate (inl e) = (
  record gate {
    cfg_lids = insert cfg layer_id gate.cfg_lids;
    cfg_refs = gate.cfg_refs ++ cfg ∷ [];
  },
  rw e refl,
  ground (arith, lookup-insert cfg cfg layer_id gate.cfg_lids),
)
arm_gate-registers d layer_id topk owner cfg pool c gate (inr (e, f)) = (
  record gate {
    cfg_lids = insert cfg layer_id gate.cfg_lids;
    cfg_refs = gate.cfg_refs ++ cfg ∷ [];
  },
  rw (e, f) refl,
  ground (arith, lookup-insert cfg cfg layer_id gate.cfg_lids),
)

shrink_sized-Armed :
    {R V : Type 0} (d : Device R V) (W : Param → ℕ → R) (E layer_id slots : ℕ) (keep : List ℕ)
    (fresh : List R) (named : List NamedParam) (ts : Dict Param (Tensor R))
    (topk : Option (Option ℕ)) (owner : Option ℕ) (cfg : ℕ) (c : Caches V) (gate : Gate)
    (stats : Stats)
    → 1 < E
    → Distinct keep
    → Below E keep
    → cold_from E 0 keep ≢ []
    → inventory_gate E named ≡ []
    → Full W E ts
    → (topk ≡ some (some cfg)) ⊎ (topk ≡ none) × (owner ≡ some cfg)
    → Armed d W stats layer_id cfg
        (shrink_sized d layer_id keep slots E fresh named ts topk owner c gate)
unfolding shrink_sized
shrink_sized-Armed d W E layer_id slots keep fresh named ts topk owner cfg c gate stats big once b
      some_cold listed full has =
    go (cold_from E 0 keep) refl
  where
    below_all : Below E (cold_from E 0 keep)
    below_all = cold_from-Below E 0 E keep (omega arith)

    go :
        (cold : List ℕ)
        → cold_from E 0 keep ≡ cold
        → Armed d W stats layer_id cfg
            (shrink_sized d layer_id keep slots E fresh named ts topk owner c gate)
    go [] e = absurd (some_cold e)
    go (g ∷ gs) e =
        let (built, inv) =
          build_pool-Inv d W E layer_id slots keep (g ∷ gs) fresh ts c stats once b
            (rw e at below_all) full in
        let wide : leb E 1 ≡ false = ground arith in
        let pool = start_pool d W E layer_id slots keep (g ∷ gs) fresh ts c in
        let tables = build_tables d layer_id keep E c in
        let (gate', run, there) =
          arm_gate-registers d layer_id topk owner cfg pool tables gate has in
        (pool, tables, gate', rw (wide, e, listed, built, shrink_sized) run, inv, there)

-- A layer with a weight tensor of more than one expert and a weight scale, not all experts kept, with a
-- duplicate-free keep list in range, no unclassified parameter, tensors that hold the experts' rows, and
-- a routing config, its own or without an own router the owner's, is shrunk: whatever the fresh rows
-- hold, the layer then satisfies the staging's invariant, and the gate maps the config to the layer.
pub shrink_layer-Inv :
    {R V : Type 0} (d : Device R V) (W : Param → ℕ → R) (E layer_id slots : ℕ) (keep : List ℕ)
    (fresh : List R) (named : List NamedParam) (ts : Dict Param (Tensor R))
    (topk : Option (Option ℕ)) (owner : Option ℕ) (cfg : ℕ) (c : Caches V) (gate : Gate)
    (stats : Stats) (ref : List R) (scale : Tensor R)
    → lookup w13_weight ts ≡ some (rows ref)
    → lookup w13_weight_scale ts ≡ some scale
    → length ref ≡ E
    → 1 < E
    → Distinct keep
    → Below E keep
    → cold_from E 0 keep ≢ []
    → inventory_gate E named ≡ []
    → Full W E ts
    → (topk ≡ some (some cfg)) ⊎ (topk ≡ none) × (owner ≡ some cfg)
    → Armed d W stats layer_id cfg
        (shrink_layer d layer_id keep slots fresh named ts topk owner c gate)
unfolding shrink_layer
shrink_layer-Inv d W E layer_id slots keep fresh named ts topk owner cfg c gate stats ref scale
      has_ref has_scale size big once b some_cold listed full has =
    let sized : expert_count (lookup w13_weight ts) (lookup w13_weight_scale ts) ≡ some E =
      rw (has_ref, has_scale, expert_count) (ap some size) in
    rw (sized, shrink_layer)
      (shrink_sized-Armed d W E layer_id slots keep fresh named ts topk owner cfg c gate stats big
        once b some_cold listed full has)
