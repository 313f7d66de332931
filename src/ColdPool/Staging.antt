-- ===== src/ColdPool/Staging.antt =====
-- patches/expert_cold_pool.py: the tables' updates (`_mask`, `_unmask`), the rows of a layer
-- (`_evict_row`, `_pick_row`, `_return_row`) and the copy of an expert into a row
-- (`_row_from_host`). Indexing a table or a tensor out of range raises in torch and writes nothing
-- here (`set`); the invariant of ColdPool.Invariant excludes it.
use sglang_flashnext_nvfp4kv.Prelude.{
  ℕ, ◌+◌, Bool, true, false, ◌||◌, List, [], ◌∷◌, ◌++◌, Option, none, some, ◌==◌, nat_eq, leb,
  if◌then◌else◌, Dict, lookup, insert, erase, keys, contains, length, set,
}
use sglang_flashnext_nvfp4kv.Prelude.Int.{ℤ, pos, ltb_ℤ}
use sglang_flashnext_nvfp4kv.ColdPool.State.{
  Dtype, Param, Key, key_eq, param_eq, Device, Tensor, scalar, rows, Caches, Cold,
}

-- `tbl = _REMAP_CACHE.get(layer_id)`, and `tbl[gid] = row` where there is one.
unfoldable pub write_remap : ℕ → ℕ → ℕ → Dict ℕ (List ℕ) → Dict ℕ (List ℕ)
unfolding lookup insert
write_remap layer_id gid row remap = elim (lookup layer_id remap) [
  | none ↦ remap
  | some tbl ↦ insert layer_id (set tbl gid row) remap
]

module _ {V : Type 0} where
  -- The loop over `_BIAS_CACHE.items()`: the entry of `gid` in every column of the layer.
  unfoldable pub write_bias : ℕ → ℕ → (Dtype → V) → Dict Key (List V) → Dict Key (List V)
  write_bias layer_id gid value [] = []
  write_bias layer_id gid value ((k, col) ∷ bias) =
      (k, if k.0 == layer_id then set col gid (value k.1) else col)
      ∷ write_bias layer_id gid value bias

-- `find_min` is Python's `min` with a key: the first row of the least tick.
unfoldable pub find_min : Dict ℕ ℤ → Option (ℕ × ℤ)
find_min [] = none
find_min ((r, t) ∷ m) = elim (find_min m) [
  | none ↦ some (r, t)
  | some best ↦ if ltb_ℤ best.1 t then some best else some (r, t)
]

-- `[r for r in pool.row_tick if r not in pool.protected]`, with the ticks.
unfoldable pub candidates : List ℕ → Dict ℕ ℤ → Dict ℕ ℤ
candidates protected [] = []
candidates protected ((r, t) ∷ m) =
    if contains r protected then candidates protected m else (r, t) ∷ candidates protected m

module _ {R V : Type 0} (d : Device R V) where
  unfoldable pub unmask : ℕ → ℕ → ℕ → Caches V → Caches V
  unmask layer_id gid phys_row c = record {
    bias = write_bias layer_id gid (λ _. d.zero_value) c.bias;
    remap = write_remap layer_id gid phys_row c.remap;
  }

  unfoldable pub mask : ℕ → ℕ → Caches V → Caches V
  mask layer_id gid c = record {
    bias = write_bias layer_id gid d.finfo_min c.bias;
    remap = write_remap layer_id gid 0 c.remap;
  }

  -- The row's owner loses it, and is masked first.
  unfoldable pub evict_row : ℕ → Cold R V → Cold R V
  evict_row row s = elim (lookup row s.pool.row_gid) [
    | none ↦ s
    | some old ↦ record {
      pool = record (s.pool) {
        row_gid = erase row s.pool.row_gid;
        gid_row = erase old s.pool.gid_row;
      };
      caches = mask s.pool.layer_id old s.caches;
      stats = record (s.stats) { evicted = s.stats.evicted + 1 };
    }
  ]

  -- The first free row, else the victim, if there is one.
  unfoldable pub pick_from : List ℕ → Option (ℕ × ℤ) → Cold R V → Option ℕ × Cold R V
  pick_from (row ∷ rest) victim s =
      (some row, record s { pool = record (s.pool) { free_rows = rest } })
  pick_from [] none s = (none, s)
  pick_from [] (some victim) s = (some victim.0, evict_row victim.0 s)

  unfoldable pub pick_row : Cold R V → Option ℕ × Cold R V
  unfolding pick_from
  pick_row s =
      let victim = find_min (candidates s.pool.protected s.pool.row_tick) in
      pick_from s.pool.free_rows victim s

  -- `if row is not None and row not in pool.row_gid and row not in pool.free_rows`.
  unfoldable pub return_row : ℕ → Cold R V → Cold R V
  return_row row s =
      if contains row (keys s.pool.row_gid) || contains row s.pool.free_rows
      then s
      else record s { pool = record (s.pool) { free_rows = s.pool.free_rows ++ row ∷ [] } }

  -- The loop over `rows.items()`: the tensors, the bytes copied, and whether the loop ended. An
  -- attribute that is missing, 0-d or too short stops it, with what was copied before left in place.
  unfoldable pub copy_rows :
      Dict Param R → ℕ → ℕ → Dict Param (Tensor R) → Dict Param (Tensor R) × ℕ × Bool
  copy_rows [] row nbytes tensors = (tensors, nbytes, true)
  copy_rows ((name, pinned) ∷ rest) row nbytes tensors = elim (lookup name tensors) [
    | none ↦ (tensors, nbytes, false)
    | some (scalar _) ↦ (tensors, nbytes, false)
    | some (rows xs) ↦ elim (leb (length xs) row) [
      | true ↦ (tensors, nbytes, false)
      | false ↦
          copy_rows rest row (nbytes + d.row_bytes pinned)
            (insert name (rows (set xs row pinned)) tensors)
    ]
  ]

  -- After the copy: the bookkeeping of a staged expert, or of a failure.
  unfoldable pub finish_stage :
      ℕ → ℕ → Cold R V → Dict Param (Tensor R) × ℕ × Bool → Bool × Cold R V
  finish_stage gid row s (tensors, nbytes, false) = (
    false,
    record s {
      pool = record (s.pool) { tensors = tensors };
      stats = record (s.stats) { stage_fail = s.stats.stage_fail + 1 };
    },
  )
  finish_stage gid row s (tensors, nbytes, true) = (
    true,
    record {
      pool = record (s.pool) {
        tensors = tensors;
        gid_row = insert gid row s.pool.gid_row;
        row_gid = insert row gid s.pool.row_gid;
        row_tick = insert row (pos s.pool.tick) s.pool.row_tick;
      };
      caches = unmask s.pool.layer_id gid row s.caches;
      stats = record (s.stats) { h2d_bytes = s.stats.h2d_bytes + nbytes };
    },
  )

  -- `rows = pool.host.get(gid); if not rows: return False`.
  unfoldable pub row_from_host : ℕ → ℕ → Cold R V → Bool × Cold R V
  row_from_host gid row s = elim (lookup gid s.pool.host) [
    | none ↦ (false, s)
    | some [] ↦ (false, s)
    | some (r ∷ rs) ↦ finish_stage gid row s (copy_rows (r ∷ rs) row 0 s.pool.tensors)
  ]

  -- `if _row_from_host(...): st["staged"] += 1 else: _return_row(...)`.
  unfoldable pub after_copy : ℕ → Bool → Cold R V → Cold R V
  after_copy row true s = record s { stats = record (s.stats) { staged = s.stats.staged + 1 } }
  after_copy row false s = return_row row s

  -- `row = _pick_row(pool); if row is None: break`, and the copy.
  unfoldable pub stage_into : ℕ → Option ℕ → Cold R V → Bool × Cold R V
  stage_into gid none s = (false, s)
  stage_into gid (some row) s =
      let (copied, t) = row_from_host gid row s in (true, after_copy row copied t)

  -- `if gid in pool.gid_row: continue`.
  unfoldable pub stage_unless : ℕ → Option ℕ → Cold R V → Bool × Cold R V
  stage_unless gid (some _) s = (true, s)
  stage_unless gid none s = let (picked, t) = pick_row s in stage_into gid picked t

  abbrev pub clear_count : ℕ → Option (List V) → Option (List V)
  clear_count gid none = none
  clear_count gid (some counts) = some (set counts gid d.zero_value)

  -- The body of the hook's loop over the candidates, `pool.need_counts[gid] = 0.0` included. The
  -- Boolean is false where the loop breaks.
  unfoldable pub stage_gid : ℕ → Cold R V → Bool × Cold R V
  stage_gid gid s =
      let counts = clear_count gid s.pool.need_counts in
      stage_unless gid (lookup gid s.pool.gid_row)
        (record s { pool = record (s.pool) { need_counts = counts } })

  -- `for gid in cands[order[:cap]].tolist()`.
  unfoldable pub stage_all : List ℕ → Cold R V → Cold R V
  stage_all [] s = s
  stage_all (gid ∷ gids) s =
      let (more, t) = stage_gid gid s in elim more [ true ↦ stage_all gids t | false ↦ t ]
