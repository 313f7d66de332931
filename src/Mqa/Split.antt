-- ===== src/Mqa/Split.antt =====
-- runtime-src/mqa.py: what the ranges of tiles of the CTAs cover.
use native.Mathlib.Nat.{
  zero-div, add-mul, mul-div_cancel, mul-le-mul_left, div-mul-le_self, le-div_iff_mul-le,
}
use sglang_flashnext_nvfp4kv.Prelude.{
  ℕ, zero, suc, ◌+◌, ◌-◌, ◌*◌, ◌/◌, ◌≤◌, ◌<◌, ◌≡◌, ◌∙◌, refl, ap, sym, subst, inl, inr, ◌++◌, arith,
  ltb, Bool-cases, count_up, count_up-plus,
}
use sglang_flashnext_nvfp4kv.Mqa.Prefill.{tile_columns, tile_bound, cta_columns, grid_columns}

-- Columns of the tiles from `a` up to `b`, then of those up to `c`.
join :
    (k s a b c : ℕ)
    → a ≤ b
    → b ≤ c
    → count_up ((b - a) * k) (s + a * k) ++ count_up ((c - b) * k) (s + b * k)
      ≡ count_up ((c - a) * k) (s + a * k)
join k s a b c le le' =
    let front = add-mul a (b - a) k in
    let at : s + b * k ≡ s + a * k + (b - a) * k =
      ap (λ m. s + m * k) (omega arith) ∙ ap (λ m. s + m) front ∙ omega arith in
    let size : (b - a) * k + (c - b) * k ≡ (c - a) * k =
      sym (add-mul (b - a) (c - b) k) ∙ ap (λ m. m * k) (omega arith) in
    ap (λ i. count_up ((b - a) * k) (s + a * k) ++ count_up ((c - b) * k) i) at
    ∙ sym (count_up-plus ((b - a) * k) ((c - b) * k) (s + a * k))
    ∙ ap (λ n. count_up n (s + a * k)) size

minus_self : (a : ℕ) → a - a ≡ 0
minus_self a = omega arith

zero-times : (k : ℕ) → 0 * k ≡ 0
zero-times k = omega arith

module _ (block_n split start_min tiles : ℕ) where
  tile_columns_lem :
      (n lo : ℕ)
      → tile_columns block_n split start_min tiles n lo
        ≡ count_up (n * block_n) (start_min + lo * block_n)
  unfolding tile_columns
  tile_columns_lem zero lo =
      let e : 0 ≡ 0 * block_n = omega arith in ap (λ k. count_up k (start_min + lo * block_n)) e
  tile_columns_lem (suc n) lo =
      let here = start_min + lo * block_n in
      let d = add-mul 1 n block_n in
      let d' = add-mul 1 lo block_n in
      let next : start_min + suc lo * block_n ≡ here + block_n = ground (arith, d') in
      let size : block_n + n * block_n ≡ suc n * block_n = ground (arith, d) in
      ap (λ r. count_up block_n here ++ r)
        (tile_columns_lem n (suc lo) ∙ ap (count_up (n * block_n)) next)
      ∙ sym (count_up-plus block_n (n * block_n) here)
      ∙ ap (λ k. count_up k here) size

  tile_bound_mono :
      0 < split
      → (by : ℕ)
      → tile_bound block_n split start_min tiles by
        ≤ tile_bound block_n split start_min tiles (by + 1)
  unfolding tile_bound
  tile_bound_mono pos by =
      let fits = div-mul-le_self (tiles * by) split in
      let more : tiles * by ≤ tiles * (by + 1) =
        let d = mul-le-mul_left {m = by} {n = by + 1} tiles (omega arith) in d in
      (le-div_iff_mul-le {k = split} {x = tiles * by / split} {y = tiles * (by + 1)} pos).1
        (omega (arith, fits, more))

  cta_columns_lem :
      (by : ℕ)
      → cta_columns block_n split start_min tiles by
        ≡ count_up
            ((tile_bound block_n split start_min tiles (by + 1)
                - tile_bound block_n split start_min tiles by)
              * block_n)
            (start_min + tile_bound block_n split start_min tiles by * block_n)
  unfolding cta_columns
  cta_columns_lem by =
      let lo = tile_bound block_n split start_min tiles by in
      let hi = tile_bound block_n split start_min tiles (by + 1) in
      elim (Bool-cases (ltb lo hi)) [
        | inl more ↦ rw (more, tile_columns_lem (hi - lo) lo) refl
        | inr none_left ↦
            let gone : hi - lo ≡ 0 = ground (arith, none_left) in
            let size : 0 ≡ (hi - lo) * block_n = rw (gone) (omega arith) in
            rw (none_left) (ap (λ k. count_up k (start_min + lo * block_n)) size)
      ]

  -- CTAs `by`, `by + 1`, … in turn.
  grid_columns_from :
      0 < split
      → (n by : ℕ)
      → (tile_bound block_n split start_min tiles by
          ≤ tile_bound block_n split start_min tiles (by + n))
        × (grid_columns block_n split start_min tiles n by
            ≡ count_up
                ((tile_bound block_n split start_min tiles (by + n)
                    - tile_bound block_n split start_min tiles by)
                  * block_n)
                (start_min + tile_bound block_n split start_min tiles by * block_n))
  unfolding grid_columns
  grid_columns_from pos zero by =
      let bound = tile_bound block_n split start_min tiles in
      let same : by ≡ by + 0 = omega arith in
      let none_left : 0 ≡ (bound (by + 0) - bound by) * block_n = sym (
        ap (λ k. (bound k - bound by) * block_n) (sym same)
        ∙ ap (λ k. k * block_n) (minus_self (bound by))
        ∙ zero-times block_n) in
      (
        subst (λ k. bound by ≤ bound k) same (omega arith),
        ap (λ k. count_up k (start_min + bound by * block_n)) none_left,
      )
  grid_columns_from pos (suc n) by =
      let bound = tile_bound block_n split start_min tiles in
      let last : by + 1 + n ≡ by + suc n = omega arith in
      let ih = grid_columns_from pos n (by + 1) in
      let up = tile_bound_mono pos by in
      let rest = ih.0 in
      let whole =
        ap (λ r. r ++ grid_columns block_n split start_min tiles n (by + 1)) (cta_columns_lem by)
        ∙ ap
            (λ r.
              count_up ((bound (by + 1) - bound by) * block_n) (start_min + bound by * block_n)
              ++ r)
            ih.1
        ∙ join block_n start_min (bound by) (bound (by + 1)) (bound (by + 1 + n)) up rest in
      (
        subst (λ k. bound by ≤ bound k) last (omega arith),
        whole
            ∙ ap (λ k. count_up ((bound k - bound by) * block_n) (start_min + bound by * block_n))
                last,
      )

  -- With at least one CTA for each block of rows, the CTAs' stores, one CTA after the other, are
  -- to the consecutive columns of all the tiles from `start_min` on: none is left out and none is
  -- stored by two CTAs.
  pub grid_columns_exact :
      0 < split
      → grid_columns block_n split start_min tiles split 0 ≡ count_up (tiles * block_n) start_min
  unfolding tile_bound
  grid_columns_exact pos =
      let first : tiles * 0 / split ≡ 0 = ap (λ n. n / split) (omega arith) ∙ zero-div split in
      let all : tiles * (0 + split) / split ≡ tiles =
        ap (λ n. tiles * n / split) (omega arith) ∙ mul-div_cancel tiles pos in
      (grid_columns_from pos split 0).1
      ∙ ap (λ k. count_up ((tiles * (0 + split) / split - k) * block_n) (start_min + k * block_n))
          first
      ∙ ap (λ k. count_up ((k - 0) * block_n) (start_min + 0 * block_n)) all
      ∙ ap (λ k. count_up (k * block_n) (start_min + 0 * block_n)) (omega arith)
      ∙ ap (count_up (tiles * block_n)) (omega arith)
