-- ===== src/ColdPool/Progress.antt =====
-- patches/expert_cold_pool.py: demand is met. With a free row for each candidate and no failed copy the
-- staging loop stages all of them.
use sglang_flashnext_nvfp4kv.Prelude.{
  ℕ, ◌≤◌, ◌≡◌, refl, ap, inl, inr, Bool, true, false, List, [], ◌∷◌, Option, none, some, arith,
  nat_eq, nat_beq_iff, ◌==◌, lookup, insert, lookup-insert, contains, length, Option-cases,
  Bool-cases, Dict, ◌||◌, subst, ◌+◌,
}
use sglang_flashnext_nvfp4kv.ColdPool.State.{Param, Tensor, Device, Cold}
use sglang_flashnext_nvfp4kv.ColdPool.Staging.{
  pick_row, row_from_host, finish_stage, copy_rows, stage_gid, stage_into, stage_unless, after_copy,
  clear_count, stage_all,
}
use sglang_flashnext_nvfp4kv.ColdPool.Ownership.{pick_row_cases}
use sglang_flashnext_nvfp4kv.ColdPool.Tables.{is_some}

module _ {R V : Type 0} (d : Device R V) where
  finish_stage-staged :
      (gid row : ℕ) (s : Cold R V) (c : Dict Param (Tensor R) × ℕ × Bool)
      → (finish_stage d gid row s c).0 ≡ true
      → ((finish_stage d gid row s c).1.pool.gid_row ≡ insert gid row s.pool.gid_row)
        × ((finish_stage d gid row s c).1.pool.free_rows ≡ s.pool.free_rows)
  unfolding finish_stage
  finish_stage-staged gid row s (ts, nbytes, false) h = cc
  finish_stage-staged gid row s (ts, nbytes, true) h = (refl, refl)

  row_from_host-staged :
      (gid row : ℕ) (s : Cold R V)
      → (row_from_host d gid row s).0 ≡ true
      → ((row_from_host d gid row s).1.pool.gid_row ≡ insert gid row s.pool.gid_row)
        × ((row_from_host d gid row s).1.pool.free_rows ≡ s.pool.free_rows)
  unfolding row_from_host
  row_from_host-staged gid row s = go (lookup gid s.pool.host) refl
    where
      go :
          (o : Option (Dict Param R))
          → lookup gid s.pool.host ≡ o
          → (row_from_host d gid row s).0 ≡ true
          → ((row_from_host d gid row s).1.pool.gid_row ≡ insert gid row s.pool.gid_row)
            × ((row_from_host d gid row s).1.pool.free_rows ≡ s.pool.free_rows)
      go none e = rw (e, row_from_host) (λ h. cc)
      go (some []) e = rw (e, row_from_host) (λ h. cc)
      go (some (r ∷ rs)) e =
          rw (e, row_from_host)
            (finish_stage-staged gid row s (copy_rows d (r ∷ rs) row 0 s.pool.tensors))

  -- The loop's copy of this candidate does not fail.
  abbrev pub Copies : ℕ → Option ℕ × Cold R V → Type 0
  Copies gid picked = (row : ℕ) → picked.0 ≡ some row → (row_from_host d gid row picked.1).0 ≡ true

  -- What one turn does with a free row: the loop goes on, the candidate is staged, no expert loses its
  -- row, and at most the given number of free rows is used up.
  pub record Turn (used gid : ℕ) (s : Cold R V) (r : Bool × Cold R V) : Type 0 where
    pub goes_on : r.0 ≡ true
    pub staged : is_some (lookup gid r.1.pool.gid_row) ≡ true
    pub kept :
        (g : ℕ)
        → is_some (lookup g s.pool.gid_row) ≡ true
        → is_some (lookup g r.1.pool.gid_row) ≡ true
    pub rows_left : length s.pool.free_rows ≤ used + length r.1.pool.free_rows

  stage_into-Turn :
      (gid row : ℕ) (rest : List ℕ) (s : Cold R V)
      → (row_from_host d gid row s).0 ≡ true
      → ((row_from_host d gid row s).1.pool.gid_row ≡ insert gid row s.pool.gid_row)
        × ((row_from_host d gid row s).1.pool.free_rows ≡ s.pool.free_rows)
      → Turn 0 gid s (stage_into d gid (some row) s)
  unfolding stage_into after_copy
  stage_into-Turn gid row rest s h q = rw h (record {
    goes_on = refl;
    staged = ground (arith, q.0, lookup-insert gid gid row s.pool.gid_row, nat_beq_iff gid gid);
    kept = λ g k. ground (arith, q.0, lookup-insert gid g row s.pool.gid_row, k);
    rows_left = omega (arith, ap length q.1);
  })

  picked-Turn :
      (gid : ℕ) (s : Cold R V)
      → 1 ≤ length s.pool.free_rows
      → Copies gid (pick_row d s)
      → Turn 1 gid s (stage_into d gid (pick_row d s).0 (pick_row d s).1)
  picked-Turn gid s h =
      pick_row_cases d (λ r. Copies gid r → Turn 1 gid s (stage_into d gid r.0 r.1)) s
        (λ row rest e k.
          let t : Cold R V = record s { pool = record (s.pool) { free_rows = rest } } in
          let turn =
            stage_into-Turn gid row rest t (k row refl)
              (row_from_host-staged gid row t (k row refl)) in
          record {
            goes_on = turn.goes_on;
            staged = turn.staged;
            kept = turn.kept;
            rows_left = omega (arith, ap length e, turn.rows_left);
          })
        (λ e f k. absurd (omega (arith, ap length e, h)))
        (λ v e f k. absurd (omega (arith, ap length e, h)))

  -- The state in which the loop looks at the candidate, its count cleared.
  abbrev pub looked_at : ℕ → Cold R V → Cold R V
  looked_at gid s = record s {
    pool = record (s.pool) { need_counts = clear_count d gid s.pool.need_counts };
  }

  stage_gid-Turn :
      (gid : ℕ) (s : Cold R V)
      → 1 ≤ length s.pool.free_rows
      → (lookup gid s.pool.gid_row ≡ none → Copies gid (pick_row d (looked_at gid s)))
      → Turn 1 gid s (stage_gid d gid s)
  unfolding stage_gid stage_unless
  stage_gid-Turn gid s h k = elim (Option-cases (lookup gid s.pool.gid_row)) [
    | inl e ↦
        let turn = picked-Turn gid (looked_at gid s) h (k e) in
        rw e (record {
          goes_on = turn.goes_on;
          staged = turn.staged;
          kept = turn.kept;
          rows_left = turn.rows_left;
        })
    | inr e ↦ rw e.1 (record {
      goes_on = refl;
      staged = ap is_some e.1;
      kept = λ g q. q;
      rows_left = omega arith;
    })
  ]

  -- No copy of the run fails: each candidate that is not staged when the loop comes to it is copied.
  abbrev pub AllCopied : List ℕ → Cold R V → Type 0
  AllCopied [] s = Unit
  AllCopied (gid ∷ gids) s =
      (lookup gid s.pool.gid_row ≡ none → Copies gid (pick_row d (looked_at gid s)))
      × AllCopied gids (stage_gid d gid s).1

  stage_all-kept :
      (gids : List ℕ) (s : Cold R V) (g : ℕ)
      → length gids ≤ length s.pool.free_rows
      → AllCopied gids s
      → is_some (lookup g s.pool.gid_row) ≡ true
      → is_some (lookup g (stage_all d gids s).pool.gid_row) ≡ true
  unfolding stage_all
  stage_all-kept [] s g h k q = q
  stage_all-kept (gid ∷ gids) s g h k q =
      let turn = stage_gid-Turn gid s (omega (arith, h)) k.0 in
      let after = (stage_gid d gid s).1 in
      let rest =
        stage_all-kept gids after g (omega (arith, h, turn.rows_left)) k.1 (turn.kept g q) in
      rw (turn.goes_on, stage_all) rest

-- Every candidate of the staging loop ends up with a row, and none that had one loses it. Conditions: a
-- free row for each candidate, and no copy of the run fails.
pub stage_all_meets_demand :
    {R V : Type 0} (d : Device R V) (gids : List ℕ) (s : Cold R V) (g : ℕ)
    → length gids ≤ length s.pool.free_rows
    → AllCopied d gids s
    → ((contains g gids || is_some (lookup g s.pool.gid_row)) ≡ true)
    → is_some (lookup g (stage_all d gids s).pool.gid_row) ≡ true
unfolding stage_all
stage_all_meets_demand d [] s g h k q = q
stage_all_meets_demand d (gid ∷ gids) s g h k q =
    let turn = stage_gid-Turn d gid s (omega (arith, h)) k.0 in
    let after = (stage_gid d gid s).1 in
    let now : (contains g gids || is_some (lookup g after.pool.gid_row)) ≡ true =
      elim (Bool-cases (contains g gids)) [
        | inl e ↦ rw e refl
        | inr e ↦
            let found : is_some (lookup g after.pool.gid_row) ≡ true =
              elim (Bool-cases (gid == g)) [
                | inl same ↦
                    let eq : gid ≡ g = (nat_beq_iff gid g).0 same in
                    subst (λ x. is_some (lookup x after.pool.gid_row) ≡ true) eq turn.staged
                | inr other ↦ turn.kept g (rw (other, e) at q)
              ] in
            rw (e, found) refl
      ] in
    rw (turn.goes_on, stage_all)
      (stage_all_meets_demand d gids after g (omega (arith, h, turn.rows_left)) k.1 now)
