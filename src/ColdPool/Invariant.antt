-- ===== src/ColdPool/Invariant.antt =====
-- patches/expert_cold_pool.py: the invariant of a managed layer, kept by every step of the staging.
use sglang_flashnext_nvfp4kv.Prelude.{
  ℕ, ◌<◌, ◌≡◌, ◌≢◌, ◌∙◌, refl, inl, inr, Bool, true, false, List, Option, none, some, arith, ◌==◌,
  nat_eq, nat_beq_iff, Dict, lookup, Bool-cases, Option-cases, get_elem?,
}
use sglang_flashnext_nvfp4kv.ColdPool.State.{Param, param_eq, Tensor, rows, Device, Cold}
use sglang_flashnext_nvfp4kv.ColdPool.Staging.{evict_row, finish_stage, mask, unmask}
use sglang_flashnext_nvfp4kv.ColdPool.Tables.{kept, route, is_open, Tables, Tables-write}
use sglang_flashnext_nvfp4kv.ColdPool.Ownership.{Rows}
use sglang_flashnext_nvfp4kv.ColdPool.Weights.{
  Holds, route-evicted, is_open-evicted, route-staged, is_open-staged, route-ne_unowned,
  with_staged, Copied,
}

module _ {R V : Type 0} (d : Device R V) (W : Param → ℕ → R) where
  -- The part of the invariant that speaks of what the router and the experts read.
  pub record Serves (s : Cold R V) : Type 0 where
    pub tables : Tables d s.pool s.caches
    pub holds : Holds W s.pool

  pub record Inv (flight : Option ℕ) (s : Cold R V) : Type 0 where
    pub owners : Rows flight s.pool
    pub keeps : (g i : ℕ) → kept s.pool g ≡ some i → i < s.pool.keep_len
    pub serves : Serves s

  pub evict_row-Serves :
      (row : ℕ) (s : Cold R V) {flight : Option ℕ}
      → Rows flight s.pool
      → Serves s
      → Serves (evict_row d row s)
  unfolding evict_row mask
  evict_row-Serves row s w v = elim (Option-cases (lookup row s.pool.row_gid)) [
    | inl e ↦ rw (e, evict_row) v
    | inr (old, e) ↦
        let (_, _, lt, k) = w.owned row old e in
        rw (e, evict_row)
          (record {
            tables =
                Tables-write d s.pool _ s.caches old 0 false d.finfo_min v.tables refl refl lt
                  (λ t. refl) (λ g. route-evicted s.pool old row g k)
                  (λ g. is_open-evicted s.pool old row g k);
            holds = record {
              held = λ name xs h g o. ground (
                arith,
                v.holds.held name xs h g,
                route-evicted s.pool old row g k,
                is_open-evicted s.pool old row g k,
              );
              host_rows = v.holds.host_rows;
              host_all = v.holds.host_all;
            };
          })
  ]

  module _ (gid row : ℕ) (s : Cold R V) (rs : Dict Param R) (k : kept s.pool gid ≡ none) where
    abbrev pub Post : Dict Param (Tensor R) → Bool → Type 0
    Post ts copied =
        (name : Param) (ys : List R)
        → lookup name ts ≡ some (rows ys)
        → (xs : List R) × (lookup name s.pool.tensors ≡ some (rows xs))
          × Copied d W gid row rs xs ys name copied

    -- An open expert is not in the row that was written.
    others-held :
        (name : Param) (xs ys : List R) (g : ℕ)
        → Inv (some row) s
        → lookup name s.pool.tensors ≡ some (rows xs)
        → ((j : ℕ) → j ≢ row → get_elem? ys j ≡ get_elem? xs j)
        → is_open s.pool g ≡ true
        → get_elem? ys (route s.pool g) ≡ some (W name g)
    others-held name xs ys g v f same o =
        let fl = v.owners.flying row refl in
        same (route s.pool g)
          (route-ne_unowned (some row) s.pool row g v.owners v.keeps fl.2 fl.0 o)
        ∙ v.serves.holds.held name xs f g o

    failed-Serves :
        (ts : Dict Param (Tensor R)) (n : ℕ)
        → Post ts false
        → Inv (some row) s
        → Serves (finish_stage d gid row s (ts, n, false)).1
    unfolding finish_stage route is_open
    failed-Serves ts n post v = record {
      tables = record {
        remap_table = v.serves.tables.remap_table;
        remap_found = v.serves.tables.remap_found;
        remap_entry = v.serves.tables.remap_entry;
        bias_entry = v.serves.tables.bias_entry;
      };
      holds = record {
        held =
            λ name ys h g o. let (xs, f, c) = post name ys h in others-held name xs ys g v f c.0 o;
        host_rows = v.serves.holds.host_rows;
        host_all = λ g hs e name ys h.
            let (xs, f, c) = post name ys h in v.serves.holds.host_all g hs e name xs f;
      };
    }

    pub finish_stage-Serves :
        (ts : Dict Param (Tensor R)) (n : ℕ) (copied : Bool)
        → Post ts copied
        → lookup gid s.pool.host ≡ some rs
        → gid < s.pool.E
        → Inv (some row) s
        → Serves (finish_stage d gid row s (ts, n, copied)).1
    unfolding finish_stage unmask
    finish_stage-Serves ts n false post hh lt v = failed-Serves ts n post v
    finish_stage-Serves ts n true post hh lt v = record {
      tables =
          Tables-write d s.pool _ s.caches gid row true (λ _. d.zero_value) v.serves.tables refl
            refl lt (λ t. refl) (λ g. route-staged s.pool gid row ts g k)
            (λ g. is_open-staged s.pool gid row ts g k);
      holds = record {
        held = held_now;
        host_rows = v.serves.holds.host_rows;
        host_all = λ g hs e name ys h.
            let (xs, f, c) = post name ys h in v.serves.holds.host_all g hs e name xs f;
      };
    }
      where
        held_now :
            (name : Param) (ys : List R)
            → lookup name ts ≡ some (rows ys)
            → (g : ℕ) → is_open (with_staged s.pool gid row ts) g ≡ true
            → get_elem? ys (route (with_staged s.pool gid row ts) g) ≡ some (W name g)
        held_now name ys h g o =
            let (xs, f, c) = post name ys h in
            rw (route-staged s.pool gid row ts g k) (elim (Bool-cases (gid == g)) [
              | inl same ↦
                  let e : gid ≡ g = (nat_beq_iff gid g).0 same in
                  rw (same, ← e) (c.1 refl (inl (v.serves.holds.host_all gid rs hh name xs f)))
              | inr other ↦ rw other (
                  others-held name xs ys g v f c.0
                    (ground (arith, is_open-staged s.pool gid row ts g k)))
            ])
