-- ===== src/ColdPool/Tests.antt =====
-- patches/expert_cold_pool.py: the theorems at a layer of four experts that keeps two and has one slot.
use sglang_flashnext_nvfp4kv.Prelude.{
  inr, ℕ, zero, suc, ◌+◌, ◌*◌, ◌/◌, ◌<◌, ◌≡◌, refl, true, false, subst, List, [], ◌∷◌, none, some,
  arith, nat_eq, lookup, insert, erase, get_elem?, range, length, leb, contains,
}
use sglang_flashnext_nvfp4kv.Prelude.Int.{ℤ, pos, ltb_ℤ}
use sglang_flashnext_nvfp4kv.ColdPool.State.{
  bfloat16, Param, param_eq, key_eq, w13_weight, w13_weight_scale, g1_alphas, Tensor, rows, Device,
  Caches, Stats, Cold,
}
use sglang_flashnext_nvfp4kv.ColdPool.Staging.{
  pick_row, pick_from, stage_gid, stage_all, stage_unless, stage_into, after_copy, row_from_host,
  finish_stage, copy_rows, evict_row, find_min, candidates, mask, unmask, write_remap, write_bias,
  return_row,
}
use sglang_flashnext_nvfp4kv.ColdPool.Tables.{index_from}
use sglang_flashnext_nvfp4kv.ColdPool.Weights.{All}
use sglang_flashnext_nvfp4kv.ColdPool.Invariant.{Inv}
use sglang_flashnext_nvfp4kv.ColdPool.Serving.{IsCold, stage_all-Inv, selected_own_weights}
use sglang_flashnext_nvfp4kv.ColdPool.Lru.{pick_row-oldest}
use sglang_flashnext_nvfp4kv.ColdPool.Router.{bias_column, open_all, Gate}
use sglang_flashnext_nvfp4kv.ColdPool.Shrink.{
  shrink_layer, cold_from, inventory_gate, layer_pool, build_tables, number_rows,
}
use sglang_flashnext_nvfp4kv.ColdPool.Shrink.Contents.{Full}
use sglang_flashnext_nvfp4kv.ColdPool.Shrink.Arms.{Armed, shrink_layer-Inv}
use sglang_flashnext_nvfp4kv.ColdPool.Shrink.Start.{start_pool, build_pool-Inv}
use sglang_flashnext_nvfp4kv.ColdPool.Demand.{
  Scores, Stash, hot_min, strong_ids, probe_row, add_ones,
}
use sglang_flashnext_nvfp4kv.ColdPool.Progress.{looked_at, stage_all_meets_demand}
use sglang_flashnext_nvfp4kv.ColdPool.Tables.{is_some}
use sglang_flashnext_nvfp4kv.ColdPool.Reach.{start, hook, reachable_own_weights}
use sglang_flashnext_nvfp4kv.ColdPool.Hook.{
  HookConfig, hook_layer, demand, probed, floors_of, strong_of, needed, chunk, gather, probe_counts,
  clear_stash,
}
use sglang_flashnext_nvfp4kv.ColdPool.Degrade.{demote, demote_twice, snapshot, never}

-- Floats as numbers: 0 is the open bias, 99 stands for the least float.
abbrev device : Device ℕ ℕ
device = record { zero_value = 0; finfo_min = λ _. 99; row_bytes = λ _. 4 }

-- The expert g has the row g + 10.
abbrev W : Param → ℕ → ℕ
W _ g = g + 10

abbrev full : List (Param × Tensor ℕ)
full = (w13_weight, rows (10 ∷ 11 ∷ 12 ∷ 13 ∷ [])) ∷ (g1_alphas, rows (10 ∷ 11 ∷ 12 ∷ 13 ∷ [])) ∷ []

abbrev zero_stats : Stats
zero_stats = record {
  calls = 0;
  strong = 0;
  staged = 0;
  evicted = 0;
  h2d_bytes = 0;
  demoted = 0;
  promoted = 0;
  stage_fail = 0;
}

abbrev empty : Caches ℕ
empty = record { bias = []; remap = [] }

W_rows : (g : ℕ) → g < 4 → get_elem? (10 ∷ 11 ∷ 12 ∷ 13 ∷ []) g ≡ some (g + 10)
W_rows zero h = refl
W_rows (suc zero) h = refl
W_rows (suc (suc zero)) h = refl
W_rows (suc (suc (suc zero))) h = refl
W_rows (suc (suc (suc (suc g)))) h = absurd (omega arith)

full-Full : Full W 4 full
full-Full = ((refl, W_rows), ((refl, W_rows), tt))

abbrev with_scale : List (Param × Tensor ℕ)
with_scale = (w13_weight_scale, rows (10 ∷ 11 ∷ 12 ∷ 13 ∷ [])) ∷ full

abbrev open_gate : Gate
open_gate = record { cfg_lids = []; cfg_refs = [] }

-- The module has no router of its own; the owner's has the config 77.
shrink_layer-Inv_example :
    Armed device W zero_stats 7 77
      (shrink_layer device 7 (1 ∷ 3 ∷ []) 1 (0 ∷ []) [] with_scale none (some 77) empty open_gate)
unfolding cold_from inventory_gate lookup
shrink_layer-Inv_example =
    shrink_layer-Inv device W 4 7 1 (1 ∷ 3 ∷ []) (0 ∷ []) [] with_scale none (some 77) 77 empty
      open_gate zero_stats (10 ∷ 11 ∷ 12 ∷ 13 ∷ []) (rows (10 ∷ 11 ∷ 12 ∷ 13 ∷ [])) refl refl refl
      (omega arith) (refl, (refl, tt)) (omega arith) (λ e. ground arith) refl
      ((refl, W_rows), full-Full) (inr (refl, refl))

-- The layer after its shrink.
abbrev layer : Cold ℕ ℕ
layer = record {
  pool = start_pool device W 4 7 1 (1 ∷ 3 ∷ []) (0 ∷ 2 ∷ []) (0 ∷ []) full empty;
  caches = build_tables device 7 (1 ∷ 3 ∷ []) 4 empty;
  stats = zero_stats;
}

layer-Inv : Inv device W none layer
layer-Inv =
    (build_pool-Inv device W 4 7 1 (1 ∷ 3 ∷ []) (0 ∷ 2 ∷ []) (0 ∷ []) full empty zero_stats
      (refl, (refl, tt)) (omega arith) (omega arith) full-Full).1

program : Unit {0}
unfolding layer_pool build_tables bias_column number_rows stage_all stage_gid stage_unless
    stage_into after_copy row_from_host finish_stage copy_rows pick_row pick_from evict_row find_min
    candidates mask unmask write_remap write_bias return_row lookup insert erase index_from demote
    open_all
program = tt

ids-IsCold : All (IsCold device W layer) (0 ∷ 2 ∷ [])
unfolding program
ids-IsCold = ((omega arith, refl), ((omega arith, refl), tt))

-- One slot for two cold experts: the second stage evicts the first.
evicts : (stage_all device (0 ∷ 2 ∷ []) layer).pool.gid_row ≡ (2, 2) ∷ []
unfolding program
evicts = refl

stage_all-Inv_example : Inv device W none (stage_all device (0 ∷ 2 ∷ []) layer)
stage_all-Inv_example = stage_all-Inv device W (0 ∷ 2 ∷ []) layer ids-IsCold layer-Inv

stage_all_meets_demand_example :
    is_some (lookup 2 (stage_all device (2 ∷ []) layer).pool.gid_row) ≡ true
unfolding program
stage_all_meets_demand_example =
    stage_all_meets_demand device (2 ∷ []) layer 2 (omega arith)
      (
        λ h row e.
            let q : 1 + 1 ≡ row = cc in
            subst
              (λ r.
                (row_from_host device 2 r (pick_row device (looked_at device 2 layer)).1).0 ≡ true)
              q refl,
        tt,
      )
      refl

selected_own_weights_example :
    (row : ℕ) × (get_elem? (0 ∷ 0 ∷ 2 ∷ 1 ∷ []) 2 ≡ some row)
    × ((name : Param) (xs : List ℕ)
        → lookup name (stage_all device (0 ∷ 2 ∷ []) layer).pool.tensors ≡ some (rows xs)
        → get_elem? xs row ≡ some (W name 2))
unfolding program
selected_own_weights_example =
    selected_own_weights device W (0 ∷ 2 ∷ []) layer (λ t. ground arith) ids-IsCold layer-Inv
      bfloat16 (99 ∷ 0 ∷ 0 ∷ 0 ∷ []) (0 ∷ 0 ∷ 2 ∷ 1 ∷ []) 2 refl refl (omega arith) refl

-- No row is free, row 5 is protected and row 3 is older than row 4.
abbrev busy : Cold ℕ ℕ
busy = record layer {
  pool = record (layer.pool) {
    free_rows = [];
    row_tick = (4, pos 9) ∷ (3, pos 2) ∷ (5, pos 1) ∷ [];
    protected = 5 ∷ [];
  };
}

pick_row-oldest_example :
    (t : ℤ) × (lookup 3 busy.pool.row_tick ≡ some t)
    × (contains 3 busy.pool.protected ≡ false)
    × ((r : ℕ) (u : ℤ)
        → lookup r busy.pool.row_tick ≡ some u
        → contains r busy.pool.protected ≡ false
        → ltb_ℤ u t ≡ false)
unfolding program
pick_row-oldest_example = pick_row-oldest device busy 3 (refl, (refl, (refl, tt))) refl refl

abbrev scores : Scores ℕ
scores = record {
  sigmoid = λ x. x;
  mul = λ x y. x * y / 100;
  add = λ x y. x + y;
  at_least = λ x y. leb y x;
  null = 0;
  one = 100;
  minus_one = 0;
  infinity = 1000;
  argsort = λ xs. range (length xs);
}

abbrev config : HookConfig ℕ
config = record { alpha = 80; need = 100; decay = 75; cap = 4; k = 1 }

-- Two rows that selected expert 1, with a raw score for expert 2 in the band.
abbrev stash : Stash ℕ
stash = record {
  ids = pos 1 ∷ pos 1 ∷ [];
  scores = 50 ∷ 50 ∷ [];
  logits = (0 ∷ 50 ∷ 45 ∷ 0 ∷ []) ∷ (0 ∷ 50 ∷ 45 ∷ 0 ∷ []) ∷ [];
}

hook_program : Unit {0}
unfolding program hook_layer demand probed floors_of strong_of needed chunk gather probe_counts
    clear_stash hot_min strong_ids probe_row add_ones
hook_program = tt

-- The probe finds the masked expert, and it is staged.
probe_stages : (hook_layer scores config device stash layer).1.pool.gid_row ≡ (2, 2) ∷ []
unfolding hook_program
probe_stages = refl

reachable_own_weights_example :
    (row : ℕ) × (get_elem? (0 ∷ 0 ∷ 2 ∷ 1 ∷ []) 2 ≡ some row)
    × ((name : Param) (xs : List ℕ)
        → lookup name (hook_layer scores config device stash layer).1.pool.tensors ≡ some (rows xs)
        → get_elem? xs row ≡ some (W name 2))
unfolding hook_program
reachable_own_weights_example =
    reachable_own_weights scores config device W layer
      (hook_layer scores config device stash layer).1 (λ t. ground arith) ids-IsCold layer-Inv
      (hook stash start) bfloat16 (99 ∷ 0 ∷ 0 ∷ 0 ∷ []) (0 ∷ 0 ∷ 2 ∷ 1 ∷ []) 2 refl refl
      (omega arith) refl

demote_twice_example :
    (lookup 3 (demote device 3 layer).pool.host ≡ some (snapshot 1 layer.pool.tensors))
    × (lookup 3 (demote device 3 (demote device 3 layer)).pool.host
        ≡ some (snapshot 0 layer.pool.tensors))
    × (lookup 0 (demote device 3 (demote device 3 layer)).pool.row_tick ≡ some never)
unfolding program
demote_twice_example = demote_twice device 3 1 (0 ∷ 0 ∷ 0 ∷ 1 ∷ []) layer refl refl (omega arith)
