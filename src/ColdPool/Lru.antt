-- ===== src/ColdPool/Lru.antt =====
-- patches/expert_cold_pool.py: which row `_pick_row` takes.
use sglang_flashnext_nvfp4kv.Prelude.{
  ℕ, ◌≡◌, refl, inl, inr, false, List, [], ◌∷◌, none, some, arith, nat_eq, if◌then◌else◌, Dict,
  lookup, contains, keys, Bool-cases, Option-cases,
}
use sglang_flashnext_nvfp4kv.Prelude.Int.{ℤ, ltb_ℤ}
use sglang_flashnext_nvfp4kv.ColdPool.State.{Device, Cold}
use sglang_flashnext_nvfp4kv.ColdPool.Staging.{pick_row, find_min, candidates}
use sglang_flashnext_nvfp4kv.ColdPool.Ownership.{Distinct, pick_row_cases, contains-keys}

find_min-none : (m : Dict ℕ ℤ) (r : ℕ) → find_min m ≡ none → lookup r m ≡ none
unfolding find_min lookup
find_min-none [] r h = refl
find_min-none ((p, u) ∷ m) r h = elim (Option-cases (find_min m)) [
  | inl e ↦ ground arith
  | inr (best, e) ↦ ground arith
]

find_min-le :
    (m : Dict ℕ ℤ) (q : ℕ) (b : ℤ)
    → find_min m ≡ some (q, b)
    → (r : ℕ) (t : ℤ) → lookup r m ≡ some t
    → ltb_ℤ t b ≡ false
unfolding find_min lookup
find_min-le [] q b h r t f = cc
find_min-le ((p, u) ∷ m) q b h r t f = elim (Option-cases (find_min m)) [
  | inl e ↦ ground (arith, find_min-none m r e)
  | inr ((q', b'), e) ↦ ground (arith, find_min-le m q' b' e r t)
]

lookup-candidates :
    (ps : List ℕ) (m : Dict ℕ ℤ) (r : ℕ)
    → lookup r (candidates ps m) ≡ (if contains r ps then none else lookup r m)
unfolding candidates lookup
lookup-candidates ps [] r = ground arith
lookup-candidates ps ((q, u) ∷ m) r = ground (arith, lookup-candidates ps m r)

keys-candidates :
    (ps : List ℕ) (m : Dict ℕ ℤ) (r : ℕ)
    → contains r (keys m) ≡ false
    → contains r (keys (candidates ps m)) ≡ false
unfolding candidates
keys-candidates ps [] r h = refl
keys-candidates ps ((q, u) ∷ m) r h = ground (arith, keys-candidates ps m r)

candidates-Distinct :
    (ps : List ℕ) (m : Dict ℕ ℤ) → Distinct (keys m) → Distinct (keys (candidates ps m))
unfolding candidates
candidates-Distinct ps [] h = tt
candidates-Distinct ps ((q, u) ∷ m) h = elim (Bool-cases (contains q ps)) [
  | inl e ↦ rw e (candidates-Distinct ps m h.1)
  | inr e ↦ rw e (keys-candidates ps m q h.0, candidates-Distinct ps m h.1)
]

find_min-lookup :
    (m : Dict ℕ ℤ) (q : ℕ) (b : ℤ)
    → Distinct (keys m)
    → find_min m ≡ some (q, b)
    → lookup q m ≡ some b
unfolding find_min lookup
find_min-lookup [] q b d h = cc
find_min-lookup ((p, u) ∷ m) q b d h = elim (Option-cases (find_min m)) [
  | inl e ↦ ground arith
  | inr ((q', b'), e) ↦ ground (arith, find_min-lookup m q' b' d.1 e, contains-keys p m)
]

module _ {R V : Type 0} (d : Device R V) where
  -- With no free row, the row that is picked is unprotected, and no unprotected row that was ever
  -- staged has an older tick; the ticks are those of a dictionary, so each row has one.
  pub pick_row-oldest :
      (s : Cold R V) (row : ℕ)
      → Distinct (keys s.pool.row_tick)
      → s.pool.free_rows ≡ []
      → (pick_row d s).0 ≡ some row
      → (t : ℤ) × (lookup row s.pool.row_tick ≡ some t)
        × (contains row s.pool.protected ≡ false)
        × ((r : ℕ) (u : ℤ)
            → lookup r s.pool.row_tick ≡ some u
            → contains r s.pool.protected ≡ false
            → ltb_ℤ u t ≡ false)
  pick_row-oldest s row once =
      pick_row_cases d
        (λ p.
          s.pool.free_rows ≡ []
          → p.0 ≡ some row
          → (t : ℤ) × (lookup row s.pool.row_tick ≡ some t)
            × (contains row s.pool.protected ≡ false)
            × ((r : ℕ) (u : ℤ)
                → lookup r s.pool.row_tick ≡ some u
                → contains r s.pool.protected ≡ false
                → ltb_ℤ u t ≡ false))
        s (λ q rest e f. cc) (λ e f g h. cc) found
    where
      found :
          (v : ℕ × ℤ)
          → s.pool.free_rows ≡ []
          → find_min (candidates s.pool.protected s.pool.row_tick) ≡ some v
          → s.pool.free_rows ≡ []
          → some v.0 ≡ some row
          → (t : ℤ) × (lookup row s.pool.row_tick ≡ some t)
            × (contains row s.pool.protected ≡ false)
            × ((r : ℕ) (u : ℤ)
                → lookup r s.pool.row_tick ≡ some u
                → contains r s.pool.protected ≡ false
                → ltb_ℤ u t ≡ false)
      found (q, b) e f _ h =
          let ps = s.pool.protected in
          let m = s.pool.row_tick in
          let at = find_min-lookup (candidates ps m) q b (candidates-Distinct ps m once) f in
          (
            b,
            ground (arith, at, lookup-candidates ps m q),
            ground (arith, at, lookup-candidates ps m q),
            λ r u hr free.
                find_min-le (candidates ps m) q b f r u (ground (arith, lookup-candidates ps m r)),
          )
