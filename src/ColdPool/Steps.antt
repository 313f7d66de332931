-- ===== src/ColdPool/Steps.antt =====
-- patches/expert_cold_pool.py: every step of the hook's staging loop keeps the layer's invariant.
use sglang_flashnext_nvfp4kv.Prelude.{
  ℕ, ◌<◌, ◌≡◌, refl, inl, inr, Bool, true, false, List, [], ◌∷◌, ◌++◌, ◌||◌, Option, none, some,
  arith, nat_eq, if◌then◌else◌, Dict, lookup, lookup-erase, keys, contains, Option-cases,
}
use sglang_flashnext_nvfp4kv.Prelude.Int.{ℤ}
use sglang_flashnext_nvfp4kv.ColdPool.State.{key_eq, Param, param_eq, Tensor, Device, Stats, Cold}
use sglang_flashnext_nvfp4kv.ColdPool.Staging.{
  evict_row, pick_row, return_row, row_from_host, finish_stage, copy_rows, stage_gid, after_copy,
  stage_into, stage_unless, clear_count,
}
use sglang_flashnext_nvfp4kv.ColdPool.Tables.{kept, route, is_open}
use sglang_flashnext_nvfp4kv.ColdPool.Ownership.{
  pick_row_cases, pick_row-Rows, return_row-Rows, row_from_host-Rows,
}
use sglang_flashnext_nvfp4kv.ColdPool.Weights.{copy_rows-Copied}
use sglang_flashnext_nvfp4kv.ColdPool.Invariant.{Serves, Inv, evict_row-Serves, finish_stage-Serves}

module _ {R V : Type 0} (d : Device R V) where
  -- What no step changes.
  pub record SameLayer (s t : Cold R V) : Type 0 where
    pub keep : t.pool.keep ≡ s.pool.keep
    pub E : t.pool.E ≡ s.pool.E
    pub cold : t.pool.cold ≡ s.pool.cold

  evict_row-same : (row : ℕ) (s : Cold R V) → SameLayer s (evict_row d row s)
  unfolding evict_row
  evict_row-same row s = elim (Option-cases (lookup row s.pool.row_gid)) [
    | inl e ↦ rw (e, evict_row) (record { keep = refl; E = refl; cold = refl })
    | inr (old, e) ↦ rw (e, evict_row) (record { keep = refl; E = refl; cold = refl })
  ]

  pub pick_row-same : (s : Cold R V) → SameLayer s (pick_row d s).1
  pick_row-same s =
      pick_row_cases d (λ r. SameLayer s r.1) s
        (λ row rest e. record { keep = refl; E = refl; cold = refl })
        (λ e f. record { keep = refl; E = refl; cold = refl }) (λ v e f. evict_row-same v.0 s)

  pub row_from_host-same : (gid row : ℕ) (s : Cold R V) → SameLayer s (row_from_host d gid row s).1
  unfolding row_from_host finish_stage
  row_from_host-same gid row s = record {
    keep = ground arith;
    E = ground arith;
    cold = ground arith;
  }

  -- A pick can only take owners away.
  evict_row-unstaged :
      (row : ℕ) (s : Cold R V) (gid : ℕ)
      → lookup gid s.pool.gid_row ≡ none
      → lookup gid (evict_row d row s).pool.gid_row ≡ none
  unfolding evict_row
  evict_row-unstaged row s gid h = elim (Option-cases (lookup row s.pool.row_gid)) [
    | inl e ↦ rw (e, evict_row) h
    | inr (old, e) ↦ rw (e, evict_row) (ground (arith, lookup-erase old gid s.pool.gid_row))
  ]

  pub pick_row-unstaged :
      (s : Cold R V) (gid : ℕ)
      → lookup gid s.pool.gid_row ≡ none
      → lookup gid (pick_row d s).1.pool.gid_row ≡ none
  pick_row-unstaged s gid h =
      pick_row_cases d (λ r. lookup gid r.1.pool.gid_row ≡ none) s (λ row rest e. h) (λ e f. h)
        (λ v e f. evict_row-unstaged v.0 s gid h)

module _ {R V : Type 0} (d : Device R V) (W : Param → ℕ → R) where
  -- Only `free_rows` differs.
  free_rows-Serves :
      (s : Cold R V) (fs : List ℕ)
      → Serves d W s
      → Serves d W (record s { pool = record (s.pool) { free_rows = fs } })
  unfolding route is_open
  free_rows-Serves s fs v = record {
    tables = record {
      remap_table = v.tables.remap_table;
      remap_found = v.tables.remap_found;
      remap_entry = v.tables.remap_entry;
      bias_entry = v.tables.bias_entry;
    };
    holds = record {
      held = v.holds.held;
      host_rows = v.holds.host_rows;
      host_all = v.holds.host_all;
    };
  }

  evict_row-keeps :
      (row : ℕ) (s : Cold R V)
      → ((g i : ℕ) → kept s.pool g ≡ some i → i < s.pool.keep_len)
      → (g i : ℕ) → kept (evict_row d row s).pool g ≡ some i
      → i < (evict_row d row s).pool.keep_len
  unfolding evict_row
  evict_row-keeps row s h g i = elim (Option-cases (lookup row s.pool.row_gid)) [
    | inl e ↦ rw (e, evict_row) (h g i)
    | inr (old, e) ↦ rw (e, evict_row) (h g i)
  ]

  pub pick_row-Inv : (s : Cold R V) → Inv d W none s → Inv d W (pick_row d s).0 (pick_row d s).1
  pick_row-Inv s v = record {
    owners = pick_row-Rows d s v.owners;
    keeps =
        pick_row_cases d (λ r. (g i : ℕ) → kept r.1.pool g ≡ some i → i < r.1.pool.keep_len) s
          (λ row rest e. v.keeps) (λ e f. v.keeps) (λ u e f. evict_row-keeps u.0 s v.keeps);
    serves =
        pick_row_cases d (λ r. Serves d W r.1) s (λ row rest e. free_rows-Serves s rest v.serves)
          (λ e f. v.serves) (λ u e f. evict_row-Serves d W u.0 s v.owners v.serves);
  }

  return_row-Serves : (row : ℕ) (s : Cold R V) → Serves d W s → Serves d W (return_row d row s)
  unfolding return_row
  return_row-Serves row s v =
      go (contains row (keys s.pool.row_gid) || contains row s.pool.free_rows)
    where
      go :
          (b : Bool)
          → Serves d W (
              if b
              then s
              else record s { pool = record (s.pool) { free_rows = s.pool.free_rows ++ row ∷ [] } })
      go true = v
      go false = free_rows-Serves s _ v

  pub return_row-Inv :
      (row : ℕ) (s : Cold R V) → Inv d W (some row) s → Inv d W none (return_row d row s)
  unfolding return_row
  return_row-Inv row s v = record {
    owners = return_row-Rows d row s v.owners;
    keeps = λ g i h. ground (arith, v.keeps g i);
    serves = return_row-Serves row s v.serves;
  }

  copied-Inv :
      (gid row : ℕ) (s : Cold R V) (rs : Dict Param R)
      → lookup gid s.pool.host ≡ some rs
      → gid < s.pool.E
      → kept s.pool gid ≡ none
      → Inv d W (some row) s
      → Serves d W (finish_stage d gid row s (copy_rows d rs row 0 s.pool.tensors)).1
  copied-Inv gid row s rs e lt k v =
      let c : Dict Param (Tensor R) × ℕ × Bool = copy_rows d rs row 0 s.pool.tensors in
      finish_stage-Serves d W gid row s rs k c.0 c.1 c.2
        (λ name ys h.
          copy_rows-Copied d W gid row rs 0 s.pool.tensors name ys
            (v.serves.holds.host_rows gid rs e) h)
        e lt v

  pub row_from_host-Inv :
      (gid row : ℕ) (s : Cold R V)
      → gid < s.pool.E
      → kept s.pool gid ≡ none
      → lookup gid s.pool.gid_row ≡ none
      → Inv d W (some row) s
      → Inv d W
          (if (row_from_host d gid row s).0 then none else some row)
          (row_from_host d gid row s).1
  unfolding row_from_host finish_stage
  row_from_host-Inv gid row s lt k new v = record {
    owners = row_from_host-Rows d gid row s lt k new v.owners;
    keeps = λ g i h. ground (arith, v.keeps g i);
    serves = go (lookup gid s.pool.host) refl;
  }
    where
      go :
          (o : Option (Dict Param R))
          → lookup gid s.pool.host ≡ o
          → Serves d W (row_from_host d gid row s).1
      go none e = rw (e, row_from_host) v.serves
      go (some []) e = rw (e, row_from_host) v.serves
      go (some (r ∷ rs)) e = rw (e, row_from_host) (copied-Inv gid row s (r ∷ rs) e lt k v)

  -- Counters, ticks and protections are no part of the invariant.
  pub reframe-Inv :
      (s : Cold R V) (counts : Option (List V)) (seen : Option (List ℤ)) (tick : ℕ)
      (protected : List ℕ) (stats : Stats) {flight : Option ℕ}
      → Inv d W flight s
      → Inv d W flight (record {
        pool = record (s.pool) {
          need_counts = counts;
          seen_tick = seen;
          tick = tick;
          protected = protected;
        };
        caches = s.caches;
        stats = stats;
      })
  unfolding route is_open
  reframe-Inv s counts seen tick protected stats v = record {
    owners = record {
      forth = v.owners.forth;
      back = v.owners.back;
      owned = v.owners.owned;
      distinct = v.owners.distinct;
      free = v.owners.free;
      ticked = v.owners.ticked;
      flying = v.owners.flying;
      no_leak = v.owners.no_leak;
    };
    keeps = v.keeps;
    serves = record {
      tables = record {
        remap_table = v.serves.tables.remap_table;
        remap_found = v.serves.tables.remap_found;
        remap_entry = v.serves.tables.remap_entry;
        bias_entry = v.serves.tables.bias_entry;
      };
      holds = record {
        held = v.serves.holds.held;
        host_rows = v.serves.holds.host_rows;
        host_all = v.serves.holds.host_all;
      };
    };
  }

  after_copy-Inv :
      (row : ℕ) (copied : Bool) (s : Cold R V)
      → Inv d W (if copied then none else some row) s
      → Inv d W none (after_copy d row copied s)
  unfolding after_copy
  after_copy-Inv row true s v = reframe-Inv s _ _ _ _ _ v
  after_copy-Inv row false s v = return_row-Inv row s v

  stage_into-Inv :
      (gid : ℕ) (picked : Option ℕ) (s : Cold R V)
      → gid < s.pool.E
      → kept s.pool gid ≡ none
      → lookup gid s.pool.gid_row ≡ none
      → Inv d W picked s
      → Inv d W none (stage_into d gid picked s).1
  unfolding stage_into
  stage_into-Inv gid none s lt k new v = v
  stage_into-Inv gid (some row) s lt k new v =
      after_copy-Inv row _ _ (row_from_host-Inv gid row s lt k new v)

  stage_unless-Inv :
      (gid : ℕ) (s : Cold R V)
      → gid < s.pool.E
      → kept s.pool gid ≡ none
      → (o : Option ℕ) → lookup gid s.pool.gid_row ≡ o
      → Inv d W none s
      → Inv d W none (stage_unless d gid o s).1
  unfolding stage_unless
  stage_unless-Inv gid s lt k (some _) e v = v
  stage_unless-Inv gid s lt k none e v =
      let same = pick_row-same d s in
      stage_into-Inv gid _ _ (rw same.E lt) (rw same.keep k) (pick_row-unstaged d s gid e)
        (pick_row-Inv s v)

  -- One turn of the staging loop, whatever the eviction and the copy do.
  pub stage_gid-Inv :
      (gid : ℕ) (s : Cold R V)
      → gid < s.pool.E
      → kept s.pool gid ≡ none
      → Inv d W none s
      → Inv d W none (stage_gid d gid s).1
  unfolding stage_gid
  stage_gid-Inv gid s lt k v = stage_unless-Inv gid _ lt k (lookup gid s.pool.gid_row) refl (
      reframe-Inv s (clear_count d gid s.pool.need_counts) s.pool.seen_tick s.pool.tick
        s.pool.protected s.stats v)
