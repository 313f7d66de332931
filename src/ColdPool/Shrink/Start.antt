-- ===== src/ColdPool/Shrink/Start.antt =====
-- patches/expert_cold_pool.py: the pool that is built satisfies the invariant of the staging.
use native.Mathlib.Nat.{zero-add}
use sglang_flashnext_nvfp4kv.Prelude.{
  some, ℕ, ◌+◌, ◌<◌, ◌≡◌, refl, inl, inr, List, map, none, arith, nat_eq, if◌then◌else◌, Dict,
  lookup, insert, lookup-insert, length, length-replicate, get_elem?, replicate, Option-cases,
}
use sglang_flashnext_nvfp4kv.ColdPool.State.{
  Dtype, bfloat16, float32, float16, Key, key_eq, key_beq, Param, param_eq, Tensor, Device,
  LayerPool, Caches, Stats,
}
use sglang_flashnext_nvfp4kv.ColdPool.Tables.{index_from, route, is_open, bias_value, Tables}
use sglang_flashnext_nvfp4kv.ColdPool.Ownership.{Distinct, Rows}
use sglang_flashnext_nvfp4kv.ColdPool.Weights.{Holds}
use sglang_flashnext_nvfp4kv.ColdPool.Invariant.{Inv}
use sglang_flashnext_nvfp4kv.ColdPool.Router.{bias_column}
use sglang_flashnext_nvfp4kv.ColdPool.Shrink.{number_rows, build_tables, layer_pool, build_pool}
use sglang_flashnext_nvfp4kv.ColdPool.Shrink.Contents.{
  Below, Full, small, own_rows, index_from-contains, index_from_bounds, get_elem?-kept,
  contains-count_up, contains-count_up_of, count_up-Distinct, get_elem?-replicate,
  get_elem?-number_rows, get_elem?-open_all, shrink_tensors-small, host_pool-own, own_rows-own,
  lookup-host, contains-own_rows, lookup-small,
}

module _ {R V : Type 0} (d : Device R V) (W : Param → ℕ → R) (E layer_id slots : ℕ)
    (keep cold : List ℕ) (fresh : List R) (ts : Dict Param (Tensor R)) (c : Caches V) where
  abbrev pub start_pool : LayerPool R V
  start_pool = record (layer_pool layer_id keep cold slots (small W E keep fresh ts) E) {
    host = map (λ g. (g, own_rows W E g ts)) cold;
  }

  start-Rows : Rows none start_pool
  unfolding layer_pool lookup
  start-Rows = record {
    forth = λ g r h. cc;
    back = λ r g h. cc;
    owned = λ r g h. absurd (ground arith);
    distinct = count_up-Distinct slots (length keep);
    free = λ r h. let b = contains-count_up slots (length keep) r h in (refl, b.0, b.1);
    ticked = λ r h. absurd (ground arith);
    flying = λ r h. absurd (ground arith);
    no_leak = λ r l h. inl (contains-count_up_of slots (length keep) r l h);
  }

  column_entry :
      (t : Dtype) (g : ℕ)
      → g < E
      → Below E keep
      → get_elem? (bias_column d t E keep) g ≡ some (bias_value d t (is_open start_pool g))
  unfolding bias_column is_open layer_pool lookup
  column_entry t g lt b = ground (
    arith,
    get_elem?-open_all d.zero_value g keep (replicate E (d.finfo_min t))
        (rw (length-replicate E (d.finfo_min t)) b),
    get_elem?-replicate E g (d.finfo_min t) lt,
    index_from-contains 0 g keep,
  )

  lookup-build_tables :
      (t : Dtype)
      → lookup (layer_id, t) (build_tables d layer_id keep E c).bias ≡ some (bias_column d t E keep)
  unfolding build_tables
  lookup-build_tables t =
      let k : Dtype → Key = λ u. (layer_id, u) in
      let low = insert (k bfloat16) (bias_column d bfloat16 E keep) c.bias in
      let mid = insert (k float32) (bias_column d float32 E keep) low in
      go t low mid (lookup-insert (k float16) (k t) (bias_column d float16 E keep) mid)
        (lookup-insert (k float32) (k t) (bias_column d float32 E keep) low)
        (lookup-insert (k bfloat16) (k t) (bias_column d bfloat16 E keep) c.bias)
    where
      go :
          (u : Dtype) (low mid : Dict Key (List V))
          → lookup (layer_id, u) (insert (layer_id, float16) (bias_column d float16 E keep) mid) ≡ (
              if key_beq (layer_id, float16) (layer_id, u)
              then some (bias_column d float16 E keep)
              else lookup (layer_id, u) mid)
          → lookup (layer_id, u) mid ≡ (
              if key_beq (layer_id, float32) (layer_id, u)
              then some (bias_column d float32 E keep)
              else lookup (layer_id, u) low)
          → lookup (layer_id, u) low ≡ (
              if key_beq (layer_id, bfloat16) (layer_id, u)
              then some (bias_column d bfloat16 E keep)
              else lookup (layer_id, u) c.bias)
          → lookup (layer_id, u) (insert (layer_id, float16) (bias_column d float16 E keep) mid)
            ≡ some (bias_column d u E keep)
      go bfloat16 low mid p q r = ground arith
      go float32 low mid p q r = ground arith
      go float16 low mid p q r = ground arith

  start-Tables :
      Distinct keep → Below E keep → Tables d start_pool (build_tables d layer_id keep E c)
  unfolding layer_pool build_tables
  start-Tables once b = record {
    remap_table = number_rows 0 keep (replicate E 0);
    remap_found =
        ground
          (arith, lookup-insert layer_id layer_id (number_rows 0 keep (replicate E 0)) c.remap);
    remap_entry = entry;
    bias_entry = λ t col h g lt.
        let e : bias_column d t E keep ≡ col = ground (arith, lookup-build_tables t) in
        rw (← e) (column_entry t g lt b);
  }
    where
      entry :
          (g : ℕ)
          → g < E
          → get_elem? (number_rows 0 keep (replicate E 0)) g ≡ some (route start_pool g)
      entry g lt =
          unfold route lookup layer_pool in
          ground (
            arith,
            get_elem?-number_rows 0 g keep (replicate E 0) once
                (rw (length-replicate {A = ℕ} E 0) b),
            get_elem?-replicate {A = ℕ} E g 0 lt,
          )

  start-Holds : Holds W start_pool
  unfolding layer_pool
  start-Holds = record {
    held = λ name xs h g o.
        let e = lookup-small W E keep fresh ts name xs h in
        elim (Option-cases (index_from 0 g keep)) [
          | inl n ↦ absurd (unfold is_open layer_pool lookup in ground arith)
          | inr (j, f) ↦
              let at : route start_pool g ≡ j = unfold route layer_pool in ground arith in
              let f' : index_from 0 g keep ≡ some (0 + j) = ground (arith, zero-add j) in
              rw (at, e) (get_elem?-kept (W name) fresh 0 g keep j f')
        ];
    host_rows = λ g rs h. rw (lookup-host W E g cold ts rs h) (own_rows-own W E g ts);
    host_all = λ g rs h name xs hx.
        rw (lookup-host W E g cold ts rs h) (contains-own_rows W E g keep fresh ts name xs hx);
  }

  pub build_pool-Inv :
      (stats : Stats)
      → Distinct keep
      → Below E keep
      → Below E cold
      → Full W E ts
      → (build_pool d layer_id keep cold slots E fresh ts c
          ≡ some (start_pool, build_tables d layer_id keep E c))
        × Inv d W none
            (record { pool = start_pool; caches = build_tables d layer_id keep E c; stats = stats })
  unfolding build_pool
  build_pool-Inv stats once b bc full = (
    rw (host_pool-own W E cold ts bc full, shrink_tensors-small W E keep fresh ts b full),
    record {
      owners = start-Rows;
      keeps = λ g i h. unfold layer_pool in omega (arith, (index_from_bounds 0 g keep i h).1);
      serves = record { tables = start-Tables once b; holds = start-Holds };
    },
  )
