-- ===== src/ColdPool/Degrade.antt =====
-- patches/expert_cold_pool.py: `_phase_b`, off by default: starved keep rows are demoted to the host,
-- staged rows in lasting demand are protected.
use sglang_flashnext_nvfp4kv.Prelude.{
  ℕ, ◌+◌, ◌≡◌, ◌<◌, Bool, false, List, [], ◌∷◌, Option, none, some, arith, nat_eq, leb,
  if◌then◌else◌, Dict, lookup, insert, erase, lookup-insert, contains, get_elem?, get_or, set, take,
  replicate, get_elem?-set_self, lt-of-get_elem?, not, ◌&&◌,
}
use sglang_flashnext_nvfp4kv.Prelude.Int.{ℤ, pos, negsuc, ◌-ℤ◌, ltb_ℤ}
use sglang_flashnext_nvfp4kv.ColdPool.State.{Param, param_eq, Tensor, scalar, rows, Device, Cold}
use sglang_flashnext_nvfp4kv.ColdPool.Staging.{mask, write_remap}

-- -1e9: never seen, and the oldest tick.
abbrev pub never : ℤ
never = negsuc 999_999_999

unfoldable pub set_all {ℓ} : {A : Type ℓ} → List ℕ → A → List A → List A
set_all [] v xs = xs
set_all (i ∷ is) v xs = set_all is v (set xs i v)

-- The keep experts not seen for longer than the window.
unfoldable pub doomed : ℕ → ℕ → List ℤ → List ℕ → List ℕ
doomed window tick seen [] = []
doomed window tick seen (g ∷ gs) =
    let rest = doomed window tick seen gs in
    if ltb_ℤ (pos window) (pos tick -ℤ get_or seen g never) then g ∷ rest else rest

-- `t.data[row].to("cpu")` of every tensor that has the row.
unfoldable pub snapshot : {R : Type 0} → ℕ → Dict Param (Tensor R) → Dict Param R
snapshot row [] = []
snapshot row ((name, scalar x) ∷ ts) = snapshot row ts
snapshot row ((name, rows xs) ∷ ts) = elim (get_elem? xs row) [
  | none ↦ snapshot row ts
  | some x ↦ (name, x) ∷ snapshot row ts
]

module _ {R V : Type 0} (d : Device R V) where
  -- `row` is what the remap table says; a row from `keep_len` on counts as demoted already.
  unfoldable pub demote_row : ℕ → ℕ → Cold R V → Cold R V
  unfolding snapshot
  demote_row gid row s = if leb s.pool.keep_len row then s else record {
    pool = record (s.pool) {
      host = insert gid (snapshot row s.pool.tensors) s.pool.host;
      row_gid = erase row s.pool.row_gid;
      row_tick = insert row never s.pool.row_tick;
    };
    caches = mask d s.pool.layer_id gid s.caches;
    stats = record (s.stats) { demoted = s.stats.demoted + 1 };
  }

  -- One turn of `for gid in doomed[:2]`. A layer or an expert without an entry raises in the source
  -- and changes nothing here.
  unfoldable pub demote : ℕ → Cold R V → Cold R V
  unfolding demote_row
  demote gid s = elim (lookup s.pool.layer_id s.caches.remap) [
    | none ↦ s
    | some tbl ↦ elim (get_elem? tbl gid) [ none ↦ s | some row ↦ demote_row gid row s ]
  ]

  unfoldable pub demote_all : List ℕ → Cold R V → Cold R V
  unfolding demote
  demote_all [] s = s
  demote_all (g ∷ gs) s = demote_all gs (demote g s)

  module _ (lasting : V → Bool) where
    -- `float(pool.need_counts[gid].item()) >= 2.0`, where there are counts.
    unfoldable pub in_demand : Option (List V) → ℕ → Bool
    in_demand none gid = false
    in_demand (some counts) gid = elim (get_elem? counts gid) [ none ↦ false | some x ↦ lasting x ]

    unfoldable pub protect_all : Dict ℕ ℕ → Cold R V → Cold R V
    unfolding in_demand
    protect_all [] s = s
    protect_all ((gid, row) ∷ rest) s = protect_all rest (
        if not (contains row s.pool.protected) && in_demand s.pool.need_counts gid
        then record s {
          pool = record (s.pool) { protected = row ∷ s.pool.protected };
          stats = record (s.stats) { promoted = s.stats.promoted + 1 };
        }
        else s)

    -- `_phase_b(pool, flat)`.
    unfoldable pub phase_b : ℕ → List ℕ → Cold R V → Cold R V
    unfolding demote_all protect_all doomed set_all
    phase_b window flat s =
        let before : List ℤ = elim s.pool.seen_tick [
          | none ↦ replicate s.pool.E never
          | some xs ↦ xs
        ] in
        let seen = set_all flat (pos s.pool.tick) before in
        let starved = doomed window s.pool.tick seen s.pool.keep in
        let t =
          demote_all (take 2 starved)
            (record s { pool = record (s.pool) { seen_tick = some seen } }) in
        protect_all t.pool.gid_row t

  abbrev demoted : ℕ → ℕ → Cold R V → Cold R V
  demoted gid row s = record {
    pool = record (s.pool) {
      host = insert gid (snapshot row s.pool.tensors) s.pool.host;
      row_gid = erase row s.pool.row_gid;
      row_tick = insert row never s.pool.row_tick;
    };
    caches = mask d s.pool.layer_id gid s.caches;
    stats = record (s.stats) { demoted = s.stats.demoted + 1 };
  }

  demote_lem :
      (gid row : ℕ) (tbl : List ℕ) (s : Cold R V)
      → lookup s.pool.layer_id s.caches.remap ≡ some tbl
      → get_elem? tbl gid ≡ some row
      → row < s.pool.keep_len
      → demote gid s ≡ demoted gid row s
  unfolding demote demote_row
  demote_lem gid row tbl s e f lt =
      let low : leb s.pool.keep_len row ≡ false = ground arith in rw (e, f, low, demote, demote_row)

  remap_after :
      (gid row : ℕ) (tbl : List ℕ) (s : Cold R V)
      → lookup s.pool.layer_id s.caches.remap ≡ some tbl
      → lookup s.pool.layer_id (demoted gid row s).caches.remap ≡ some (set tbl gid 0)
  unfolding mask write_remap
  remap_after gid row tbl s e =
      ground (arith, lookup-insert s.pool.layer_id s.pool.layer_id (set tbl gid 0) s.caches.remap)

  -- After a demotion the remap table sends the expert to row 0, so that a second demotion of it does
  -- not count as one: it saves row 0, the first keep expert's, as the expert's host copy, and makes
  -- row 0 the oldest candidate for eviction.
  pub demote_twice :
      (gid row : ℕ) (tbl : List ℕ) (s : Cold R V)
      → lookup s.pool.layer_id s.caches.remap ≡ some tbl
      → get_elem? tbl gid ≡ some row
      → row < s.pool.keep_len
      → (lookup gid (demote gid s).pool.host ≡ some (snapshot row s.pool.tensors))
        × (lookup gid (demote gid (demote gid s)).pool.host ≡ some (snapshot 0 s.pool.tensors))
        × (lookup 0 (demote gid (demote gid s)).pool.row_tick ≡ some never)
  demote_twice gid row tbl s e f lt =
      let t = demoted gid row s in
      let first = demote_lem gid row tbl s e f lt in
      let again = get_elem?-set_self tbl gid 0 (lt-of-get_elem? tbl gid f) in
      let second =
        demote_lem gid 0 (set tbl gid 0) t (remap_after gid row tbl s e) again (omega arith) in
      rw (first, second)
        (
          ground (arith, lookup-insert gid gid (snapshot row s.pool.tensors) s.pool.host),
          ground (arith, lookup-insert gid gid (snapshot 0 s.pool.tensors) t.pool.host),
          ground (arith, lookup-insert 0 0 never t.pool.row_tick),
        )
