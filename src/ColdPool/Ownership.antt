-- ===== src/ColdPool/Ownership.antt =====
-- patches/expert_cold_pool.py: who owns which row. `gid_row` and `row_gid` are inverse, each of the
-- slot rows is free, owned, or in the hands of the running stage, and keep rows are never slots.
use sglang_flashnext_nvfp4kv.Prelude.{
  ℕ, ◌≤◌, ◌<◌, ◌≡◌, refl, ◌⊎◌, inl, inr, Bool, true, false, ◌||◌, List, [], ◌∷◌, ◌++◌, Option, none,
  some, arith, ◌==◌, nat_eq, if◌then◌else◌, Dict, lookup, lookup-insert, lookup-erase, keys,
  contains, Option-cases,
}
use sglang_flashnext_nvfp4kv.Prelude.Int.{ℤ, pos}
use sglang_flashnext_nvfp4kv.ColdPool.State.{Param, Tensor, Device, LayerPool, Cold}
use sglang_flashnext_nvfp4kv.ColdPool.Staging.{
  evict_row, pick_from, pick_row, return_row, find_min, candidates, finish_stage, row_from_host,
  copy_rows,
}
use sglang_flashnext_nvfp4kv.ColdPool.Tables.{is_some, kept}

abbrev pub Distinct : List ℕ → Type 0
Distinct [] = Unit {0}
Distinct (x ∷ xs) = (contains x xs ≡ false) × Distinct xs

pub contains-append :
    (k r : ℕ) (xs : List ℕ) → contains k (xs ++ r ∷ []) ≡ (contains k xs || (r == k))
contains-append k r [] = ground arith
contains-append k r (x ∷ xs) = ground (arith, contains-append k r xs)

Distinct-append :
    (r : ℕ) (xs : List ℕ) → Distinct xs → contains r xs ≡ false → Distinct (xs ++ r ∷ [])
Distinct-append r [] h k = (refl, tt)
Distinct-append r (x ∷ xs) h k =
    (ground (arith, contains-append x r xs), Distinct-append r xs h.1 (ground arith))

pub contains-keys : {A : Type 0} (k : ℕ) (m : Dict ℕ A) → contains k (keys m) ≡ is_some (lookup k m)
unfolding lookup
contains-keys k [] = refl
contains-keys k ((j, v) ∷ m) = ground (arith, contains-keys k m)

module _ {R V : Type 0} where
  -- `flight` is the row that `_pick_row` handed out and that is not yet staged or returned.
  pub record Rows (flight : Option ℕ) (p : LayerPool R V) : Type 0 where
    pub forth : (g r : ℕ) → lookup g p.gid_row ≡ some r → lookup r p.row_gid ≡ some g
    pub back : (r g : ℕ) → lookup r p.row_gid ≡ some g → lookup g p.gid_row ≡ some r
    pub owned :
        (r g : ℕ)
        → lookup r p.row_gid ≡ some g
        → (p.keep_len ≤ r) × (r < p.phys) × (g < p.E) × (kept p g ≡ none)
    pub distinct : Distinct p.free_rows
    pub free :
        (r : ℕ)
        → contains r p.free_rows ≡ true
        → (lookup r p.row_gid ≡ none) × (p.keep_len ≤ r) × (r < p.phys)
    pub ticked : (r : ℕ) → is_some (lookup r p.row_tick) ≡ true → (p.keep_len ≤ r) × (r < p.phys)
    pub flying :
        (r : ℕ)
        → flight ≡ some r
        → (lookup r p.row_gid ≡ none)
          × (contains r p.free_rows ≡ false)
          × (p.keep_len ≤ r)
          × (r < p.phys)
    pub no_leak :
        (r : ℕ)
        → p.keep_len ≤ r
        → r < p.phys
        → (contains r p.free_rows ≡ true)
          ⊎ (is_some (lookup r p.row_gid) ≡ true)
          ⊎ (flight ≡ some r)

find_min-in :
    (m : Dict ℕ ℤ) (r : ℕ) (t : ℤ) → find_min m ≡ some (r, t) → is_some (lookup r m) ≡ true
unfolding find_min lookup
find_min-in [] r t h = cc
find_min-in ((q, u) ∷ m) r t h = elim (Option-cases (find_min m)) [
  | inl e ↦ ground arith
  | inr ((q', u'), e) ↦ ground (arith, find_min-in m q' u' e)
]

candidates-in :
    (ps : List ℕ) (m : Dict ℕ ℤ) (r : ℕ)
    → is_some (lookup r (candidates ps m)) ≡ true
    → (is_some (lookup r m) ≡ true) × (contains r ps ≡ false)
unfolding candidates lookup
candidates-in ps [] r h = cc
candidates-in ps ((q, u) ∷ m) r h = ground (arith, candidates-in ps m r)

-- What `_pick_row` finds if no row is free.
pub victim-in :
    (ps : List ℕ) (m : Dict ℕ ℤ) (v : ℕ × ℤ)
    → find_min (candidates ps m) ≡ some v
    → (is_some (lookup v.0 m) ≡ true) × (contains v.0 ps ≡ false)
victim-in ps m (r, t) h = candidates-in ps m r (find_min-in (candidates ps m) r t h)

module _ {R V : Type 0} (d : Device R V) where
  -- The row taken from its owner is in flight.
  evict_row-Rows :
      (row : ℕ) (s : Cold R V)
      → s.pool.keep_len ≤ row
      → row < s.pool.phys
      → s.pool.free_rows ≡ []
      → Rows none s.pool
      → Rows (some row) (evict_row d row s).pool
  unfolding evict_row
  evict_row-Rows row s lo hi nf w = elim (Option-cases (lookup row s.pool.row_gid)) [
    | inl e ↦
        rw (e, evict_row)
          (record {
            forth = w.forth;
            back = w.back;
            owned = w.owned;
            distinct = w.distinct;
            free = w.free;
            ticked = w.ticked;
            flying = λ r h. ground (arith);
            no_leak = λ r l h. ground (arith, w.no_leak r l h);
          })
    | inr (old, e) ↦
        rw (e, evict_row)
          (record {
            forth = λ g r h. ground (
              arith,
              lookup-erase old g s.pool.gid_row,
              lookup-erase row r s.pool.row_gid,
              w.forth g r,
            );
            back = λ r g h. ground (
              arith,
              lookup-erase old g s.pool.gid_row,
              lookup-erase row r s.pool.row_gid,
              w.back r g,
              w.forth old row,
              w.back row old,
            );
            owned = λ r g h. ground (arith, lookup-erase row r s.pool.row_gid, w.owned r g);
            distinct = w.distinct;
            free = λ r h. ground (arith, lookup-erase row r s.pool.row_gid, w.free r);
            ticked = w.ticked;
            flying = λ r h. ground (arith, lookup-erase row r s.pool.row_gid);
            no_leak = λ r l h. ground (arith, lookup-erase row r s.pool.row_gid, w.no_leak r l h);
          })
  ]

  -- The three ways in which a row is picked.
  pub pick_row_cases {ℓ} :
      (Q : Option ℕ × Cold R V → Type ℓ) (s : Cold R V)
      → ((row : ℕ) (rest : List ℕ)
          → s.pool.free_rows ≡ row ∷ rest
          → Q (some row, record s { pool = record (s.pool) { free_rows = rest } }))
      → (s.pool.free_rows ≡ []
          → find_min (candidates s.pool.protected s.pool.row_tick) ≡ none
          → Q (none, s))
      → ((v : ℕ × ℤ)
          → s.pool.free_rows ≡ []
          → find_min (candidates s.pool.protected s.pool.row_tick) ≡ some v
          → Q (some v.0, evict_row d v.0 s))
      → Q (pick_row d s)
  unfolding pick_row
  pick_row_cases Q s free stuck evict =
      go s.pool.free_rows (find_min (candidates s.pool.protected s.pool.row_tick)) refl refl
    where
      go :
          (fs : List ℕ) (o : Option (ℕ × ℤ))
          → s.pool.free_rows ≡ fs
          → find_min (candidates s.pool.protected s.pool.row_tick) ≡ o
          → Q (pick_from d fs o s)
      go (row ∷ rest) o e f = free row rest e
      go [] none e f = stuck e f
      go [] (some v) e f = evict v e f

  pub pick_row-Rows :
      (s : Cold R V) → Rows none s.pool → Rows (pick_row d s).0 (pick_row d s).1.pool
  pick_row-Rows s w =
      pick_row_cases (λ r. Rows r.0 r.1.pool) s
        (λ row rest e. record {
          forth = w.forth;
          back = w.back;
          owned = w.owned;
          distinct = ground (arith, w.distinct);
          free = λ r h. ground (arith, w.free r);
          ticked = w.ticked;
          flying = λ r h. ground (arith, w.free r, w.distinct);
          no_leak = λ r l h. ground (arith, w.no_leak r l h);
        })
        (λ e f. w)
        (λ v e f.
          let in_range = w.ticked v.0 (victim-in s.pool.protected s.pool.row_tick v f).0 in
          evict_row-Rows v.0 s in_range.0 in_range.1 e w)

  -- A row that comes back joins the free list.
  pub return_row-Rows :
      (row : ℕ) (s : Cold R V) → Rows (some row) s.pool → Rows none (return_row d row s).pool
  unfolding return_row
  return_row-Rows row s w =
      let fl = w.flying row refl in
      let e : contains row (keys s.pool.row_gid) ≡ false =
        ground (arith, contains-keys row s.pool.row_gid) in
      rw (e, fl.1)
        (record {
          forth = w.forth;
          back = w.back;
          owned = w.owned;
          distinct = Distinct-append row s.pool.free_rows w.distinct fl.1;
          free = λ r h. ground (arith, contains-append r row s.pool.free_rows, w.free r);
          ticked = w.ticked;
          flying = λ r h. cc;
          no_leak =
              λ r l h. ground (arith, contains-append r row s.pool.free_rows, w.no_leak r l h);
        })

  finish_stage-Rows :
      (gid row : ℕ) (s : Cold R V) (tensors : Dict Param (Tensor R)) (n : ℕ) (copied : Bool)
      → gid < s.pool.E
      → kept s.pool gid ≡ none
      → lookup gid s.pool.gid_row ≡ none
      → Rows (some row) s.pool
      → Rows
          (if copied then none else some row)
          (finish_stage d gid row s (tensors, n, copied)).1.pool
  unfolding finish_stage
  finish_stage-Rows gid row s tensors n false lt cold new w = record {
    forth = w.forth;
    back = w.back;
    owned = w.owned;
    distinct = w.distinct;
    free = w.free;
    ticked = w.ticked;
    flying = w.flying;
    no_leak = w.no_leak;
  }
  finish_stage-Rows gid row s tensors n true lt cold new w =
      let fl = w.flying row refl in
      record {
        forth = λ g r h. ground (
          arith,
          lookup-insert gid g row p.gid_row,
          lookup-insert row r gid p.row_gid,
          w.forth g r,
          w.forth g row,
        );
        back = λ r g h. ground (
          arith,
          lookup-insert gid g row p.gid_row,
          lookup-insert row r gid p.row_gid,
          w.back r g,
          w.back r gid,
        );
        owned = λ r g h. ground (arith, lookup-insert row r gid p.row_gid, w.owned r g);
        distinct = w.distinct;
        free = λ r h. ground (arith, lookup-insert row r gid p.row_gid, w.free r);
        ticked = λ r h. ground (arith, lookup-insert row r (pos p.tick) p.row_tick, w.ticked r);
        flying = λ r h. cc;
        no_leak = λ r l h. ground (arith, lookup-insert row r gid p.row_gid, w.no_leak r l h);
      }
    where
      open s use {pool as p}

  finish_stage-copied :
      (gid row : ℕ) (s : Cold R V) (tensors : Dict Param (Tensor R)) (n : ℕ) (copied : Bool)
      → (finish_stage d gid row s (tensors, n, copied)).0 ≡ copied
  unfolding finish_stage
  finish_stage-copied gid row s tensors n true = refl
  finish_stage-copied gid row s tensors n false = refl

  -- A staged row has an owner; after a failed copy the row is still in flight.
  pub row_from_host-Rows :
      (gid row : ℕ) (s : Cold R V)
      → gid < s.pool.E
      → kept s.pool gid ≡ none
      → lookup gid s.pool.gid_row ≡ none
      → Rows (some row) s.pool
      → Rows
          (if (row_from_host d gid row s).0 then none else some row)
          (row_from_host d gid row s).1.pool
  unfolding row_from_host
  row_from_host-Rows gid row s lt cold new w = go (lookup gid s.pool.host) refl
    where
      go :
          (o : Option (Dict Param R))
          → lookup gid s.pool.host ≡ o
          → Rows
              (if (row_from_host d gid row s).0 then none else some row)
              (row_from_host d gid row s).1.pool
      go none e = rw (e, row_from_host) w
      go (some []) e = rw (e, row_from_host) w
      go (some (r ∷ rs)) e =
          let c : Dict Param (Tensor R) × ℕ × Bool = copy_rows d (r ∷ rs) row 0 s.pool.tensors in
          rw (e, row_from_host, finish_stage-copied gid row s c.0 c.1 c.2)
            (finish_stage-Rows gid row s c.0 c.1 c.2 lt cold new w)
