-- ===== src/Mqa/Tiles.antt =====
-- runtime-src/mqa.py: the decode kernel's tiles, group after group.
use native.Mathlib.Nat.{add-mul, mul_assoc, mod-lt, mod-add-div', div-lt_iff_lt-mul}
use sglang_flashnext_nvfp4kv.Prelude.{
  ℕ, zero, suc, ◌+◌, ◌-◌, ◌*◌, ◌/◌, ◌%◌, ◌≤◌, ◌<◌, ◌≡◌, ◌∙◌, ap, sym, subst, inl, inr, List, some,
  arith, ltb, nat_eq, Bool-cases, length, get_elem?,
}
use sglang_flashnext_nvfp4kv.Prelude.Int.{ℤ, pos}
use sglang_flashnext_nvfp4kv.Mqa.Decode.{
  Request, clamp, gathered, key_at, copy_pages, store_tokens, run_group, run_groups,
}
use sglang_flashnext_nvfp4kv.Mqa.Pages.{Sized, get_elem?-gathered, copy_pages-key}
use sglang_flashnext_nvfp4kv.Mqa.Groups.{Filled, Filled-past, store_tokens-Filled}

module _ {Q K F : Type 0} (raw : Q → K → F) (scaled : F → F) (minus_inf : F) (cache : List (List K))
    (r : Request Q) where
  module _ (page_size : ℕ) where
    -- What the kernel relies on: whole pages, tables that cover the context, and no negative entry
    -- for a page that starts in the context.
    pub record Paged : Type 0 where
      pub width : 8 ≤ page_size
      pub divides : 64 / page_size * page_size ≡ 64
      pub sized : Sized cache page_size r.pages
      pub covered : r.context_len ≤ length r.pages * page_size
      pub used :
          (i : ℕ) (t : ℤ)
          → get_elem? r.pages i ≡ some t
          → i * page_size < r.context_len
          → t ≡ pos (clamp t)

    -- The key of a position, as the kernel reads it.
    key_read :
        Paged
        → (i o : ℕ) (k : K) → o < page_size
        → i * page_size + o < r.context_len
        → get_elem? (gathered cache r.pages) (i * page_size + o) ≡ some k
        → key_at cache (get_elem? r.pages i) o ≡ some k
    unfolding key_at
    key_read w i o k lt in_context e =
        let g = get_elem?-gathered cache page_size r.pages i o k w.sized lt e in
        let t = w.used i g.0 g.1 (omega (arith, in_context)) in
        ap (λ p. key_at cache p o) (g.1 ∙ ap some t) ∙ g.2

    -- The tile of a group that starts in the context.
    tile_key :
        Paged
        → (group : ℕ) (shared : ℕ → K) (t : ℕ) (k : K) → t < 64
        → group * 64 + t < r.context_len
        → get_elem? (gathered cache r.pages) (group * 64 + t) ≡ some k
        → copy_pages raw scaled minus_inf cache page_size r
            (group * (64 / page_size))
            (64 / page_size)
            0
            shared
            t
          ≡ k
    tile_key w group shared t k lt in_context e =
        let sub_pages = 64 / page_size in
        let first = group * sub_pages in
        let sp = t / page_size in
        let o = t % page_size in
        let positive : 0 < page_size = let v = w.width in omega arith in
        let o_lt : o < page_size = mod-lt t positive in
        let parts : o + sp * page_size ≡ t = mod-add-div' t page_size in
        let d1 = add-mul first sp page_size in
        let d2 = mul_assoc group sub_pages page_size in
        let d3 : group * (sub_pages * page_size) ≡ group * 64 = ap (λ n. group * n) w.divides in
        let d4 = add-mul sp 1 page_size in
        let at : (first + sp) * page_size + o ≡ group * 64 + t = omega (arith, d1, d2, d3, parts) in
        let sp_lt : sp < sub_pages =
          (div-lt_iff_lt-mul {k = page_size} {x = t} {y = sub_pages} positive).1
            (subst (λ n. t < n) (sym w.divides) lt) in
        let off : o ≡ t - sp * page_size = omega (arith, parts) in
        let read : key_at cache (get_elem? r.pages (first + sp)) o ≡ some k =
          key_read w (first + sp) o k o_lt (omega (arith, at, in_context))
            (ap (get_elem? (gathered cache r.pages)) at ∙ e) in
        copy_pages-key cache page_size raw scaled minus_inf r first sub_pages 0 sp t shared k
          (omega arith) (omega (arith, sp_lt)) (omega (arith, parts))
          (omega (arith, parts, o_lt, d4)) (omega (arith, at, in_context))
          (subst (λ i. key_at cache (get_elem? r.pages (first + sp)) i ≡ some k) off read)

    run_group-Filled :
        Paged
        → (size group : ℕ) (shared : ℕ → K) (row : List F)
        → Filled raw scaled minus_inf cache r size (group * 64) row
        → Filled raw scaled minus_inf cache r size
            (suc group * 64)
            (run_group raw scaled minus_inf cache page_size r shared group row)
    unfolding run_group
    run_group-Filled w size group shared row h =
        let tile =
          copy_pages raw scaled minus_inf cache page_size r (group * (64 / page_size))
            (64 / page_size) 0 shared in
        let start : group * 64 ≡ group * 64 + 0 = omega arith in
        let end : group * 64 + (0 + 64) ≡ suc group * 64 = omega arith in
        elim (Bool-cases (ltb (group * 64) r.context_len)) [
          | inl here ↦ rw (here) (
              subst
                (λ b.
                  Filled raw scaled minus_inf cache r size b
                    (store_tokens raw scaled minus_inf cache r tile (group * 64) 64 0 row))
                end
                (store_tokens-Filled raw scaled minus_inf cache r size (group * 64) 64 0 tile row
                  (λ t k lt in_context e.
                    tile_key w group shared t k (omega (arith, lt)) in_context e)
                  (subst (λ b. Filled raw scaled minus_inf cache r size b row) start h)))
          | inr past ↦ rw (past) (
              Filled-past raw scaled minus_inf cache r size (group * 64) (suc group * 64) row
                (omega arith) (ground (arith, past)) h)
        ]

    pub run_groups-Filled :
        Paged
        → (size : ℕ) (junk : ℕ → ℕ → K) (n group : ℕ) (row : List F)
        → Filled raw scaled minus_inf cache r size (group * 64) row
        → Filled raw scaled minus_inf cache r size
            ((group + n) * 64)
            (run_groups raw scaled minus_inf cache page_size r junk n group row)
    unfolding run_groups
    run_groups-Filled w size junk zero group row h =
        let e : group * 64 ≡ (group + 0) * 64 = omega arith in
        subst (λ b. Filled raw scaled minus_inf cache r size b row) e h
    run_groups-Filled w size junk (suc n) group row h =
        let e : (suc group + n) * 64 ≡ (group + suc n) * 64 = omega arith in
        let one = run_group raw scaled minus_inf cache page_size r (junk group) group row in
        subst
          (λ b.
            Filled raw scaled minus_inf cache r size b
              (run_groups raw scaled minus_inf cache page_size r junk n (suc group) one))
          e
          (run_groups-Filled w size junk n (suc group) one
            (run_group-Filled w size group (junk group) row h))
