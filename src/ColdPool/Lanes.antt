-- ===== src/ColdPool/Lanes.antt =====
-- patches/expert_cold_pool.py: the two remap lanes against the table, and against each other.
use sglang_flashnext_nvfp4kv.Prelude.{
  ℕ, ◌+◌, ◌-◌, ◌*◌, ◌/◌, ◌%◌, ◌^◌, ◌≤◌, ◌<◌, ◌≡◌, refl, List, min, arith, length, get_or-get_elem?,
  lt-of-get_elem?, get_elem?, some,
}
use sglang_flashnext_nvfp4kv.Prelude.Int.{pos, negsuc}
use sglang_flashnext_nvfp4kv.ColdPool.Router.{remap_id, remap_packed}

-- The unpacked lane: an expert id of the table goes to its row, padding stays, and an id beyond the
-- table (a fused shared expert) stays.
pub remap_id_cases :
    (tbl : List ℕ)
    → ((id row : ℕ) → get_elem? tbl id ≡ some row → remap_id tbl (pos id) ≡ pos row)
      × ((n : ℕ) → remap_id tbl (negsuc n) ≡ negsuc n)
      × ((id : ℕ) → length tbl ≤ id → remap_id tbl (pos id) ≡ pos id)
unfolding remap_id
remap_id_cases tbl = (
  λ id row h.
      let lt = lt-of-get_elem? tbl id h in
      let e : min id (length tbl - 1) ≡ id = omega arith in
      let r = get_or-get_elem? tbl id 0 row h in rw e (ground arith),
  λ n. ground arith,
  λ id h. ground arith,
)

-- The packed lane: a non-negative packed value of an expert of the table has its id replaced by the
-- row and its low half kept, as long as the row fits 15 bits; a negative value stays.
pub remap_packed_cases :
    (tbl : List ℕ)
    → ((id low row : ℕ)
        → get_elem? tbl id ≡ some row
        → id < 2 ^ 15
        → low < 2 ^ 16
        → row < 2 ^ 15
        → remap_packed tbl (pos (id * 2 ^ 16 + low)) ≡ pos (row * 2 ^ 16 + low))
      × ((n : ℕ) → remap_packed tbl (negsuc n) ≡ negsuc n)
unfolding remap_packed
remap_packed_cases tbl = (
  λ id low row h hi hl hr.
      let lt = lt-of-get_elem? tbl id h in
      let e : (id * 2 ^ 16 + low) / 2 ^ 16 % 2 ^ 16 ≡ id = omega arith in
      let l : (id * 2 ^ 16 + low) % 2 ^ 16 ≡ low = omega arith in
      let m : min id (length tbl - 1) ≡ id = omega arith in
      rw (e, l, m, get_or-get_elem? tbl id 0 row h) (ground arith),
  λ n. refl,
)

-- The lanes differ on a fused shared expert's id: the unpacked lane leaves it, the packed lane sends
-- it to the row of the last expert of the table.
pub lanes_differ_on_shared :
    (tbl : List ℕ) (id low last : ℕ)
    → get_elem? tbl (length tbl - 1) ≡ some last
    → length tbl ≤ id
    → id < 2 ^ 15
    → low < 2 ^ 16
    → last < 2 ^ 15
    → (remap_id tbl (pos id) ≡ pos id)
      × (remap_packed tbl (pos (id * 2 ^ 16 + low)) ≡ pos (last * 2 ^ 16 + low))
unfolding remap_packed
lanes_differ_on_shared tbl id low last h out hi hl hr =
    let e : (id * 2 ^ 16 + low) / 2 ^ 16 % 2 ^ 16 ≡ id = omega arith in
    let l : (id * 2 ^ 16 + low) % 2 ^ 16 ≡ low = omega arith in
    let m : min id (length tbl - 1) ≡ length tbl - 1 = omega arith in
    (
      (remap_id_cases tbl).2 id out,
      rw (e, l, m, get_or-get_elem? tbl (length tbl - 1) 0 last h) (ground arith),
    )
