-- ===== src/Mqa/Decoded.antt =====
-- runtime-src/mqa.py: the decode logits on a GPU are those of the Torch path.
use native.Mathlib.Nat.{mul-le-mul_right, mul_assoc, lt-div-mul-add}
use sglang_flashnext_nvfp4kv.Prelude.{
  ℕ, zero, suc, ◌+◌, ◌-◌, ◌*◌, ◌/◌, ◌%◌, ◌≤◌, ◌<◌, ◌≡◌, ◌∙◌, refl, ap, sym, subst, inl, inr, true,
  false, ◌||◌, not, List, [], ◌∷◌, map, some, arith, ltb, nat_eq, nat_beq_iff, ◌==◌, Bool-cases,
  length, replicate,
}
use sglang_flashnext_nvfp4kv.Mqa.Prefill.{ceildiv}
use sglang_flashnext_nvfp4kv.Mqa.Decode.{
  Request, gathered, torch_decode, run_groups, tilelang_decode, kernel_decode, qsa_mqa_decode,
}
use sglang_flashnext_nvfp4kv.Mqa.Pages.{length-gathered}
use sglang_flashnext_nvfp4kv.Mqa.Tiles.{Paged, run_groups-Filled}
use sglang_flashnext_nvfp4kv.Mqa.Groups.{Filled, Filled-start}
use sglang_flashnext_nvfp4kv.ColdPool.Weights.{All}
use sglang_flashnext_nvfp4kv.Mqa.Contexts.{Filled-unique, torch_Filled}

nil_of_length {ℓ} : {A : Type ℓ} (xs : List A) → length xs ≡ 0 → xs ≡ []
nil_of_length [] e = refl
nil_of_length (x ∷ xs) e = absurd (ground (arith, e))

factor_positive : (a b : ℕ) → a * b ≡ 64 → 0 < a
factor_positive zero b e = absurd (omega (arith, e))
factor_positive (suc a) b e = omega arith

no_requests : {A B : Type 0} (f g : A → B) (xs : List A) → length xs ≡ 0 → map f xs ≡ map g xs
no_requests f g [] e = refl
no_requests f g (x ∷ xs) e = absurd (ground (arith, e))

module _ {Q K F : Type 0} (raw : Q → K → F) (scaled : F → F) (minus_inf : F) (cache : List (List K))
    (page_size : ℕ) where
  abbrev pub RequestPaged : Request Q → Type 0
  RequestPaged r = Paged raw scaled minus_inf cache r page_size

  -- The groups launched cover the context.
  launched :
      (r : Request Q)
      → RequestPaged r
      → r.context_len ≤ (0 + ceildiv (length r.pages) (64 / page_size)) * 64
  unfolding ceildiv
  launched r w =
      let sub = 64 / page_size in
      let n = length r.pages in
      let full : sub * page_size ≡ 64 = w.divides in
      let positive : 0 < sub = factor_positive sub page_size full in
      let room = lt-div-mul-add {a = n + sub - 1} {b = sub} positive in
      let rows : n ≤ (n + sub - 1) / sub * sub = omega (arith, room, positive) in
      let bytes = mul-le-mul_right page_size rows in
      let assoc = mul_assoc ((n + sub - 1) / sub) sub page_size in
      let whole : (n + sub - 1) / sub * (sub * page_size) ≡ (n + sub - 1) / sub * 64 =
        ap (λ m. (n + sub - 1) / sub * m) full in
      let covered = w.covered in omega (arith, bytes, assoc, whole, covered)

  kernel_agrees :
      (r : Request Q) (junk : ℕ → ℕ → K) (size : ℕ)
      → RequestPaged r
      → kernel_decode raw scaled minus_inf cache page_size junk size r
        ≡ torch_decode raw scaled minus_inf cache size r
  unfolding kernel_decode
  kernel_agrees r junk size w =
      let n = ceildiv (length r.pages) (64 / page_size) in
      let have : r.context_len ≤ length (gathered cache r.pages) =
        let l = length-gathered cache page_size r.pages w.sized in
        let c = w.covered in omega (arith, l, c) in
      let none_yet : 0 ≡ 0 * 64 = omega arith in
      Filled-unique raw scaled minus_inf cache r size ((0 + n) * 64)
        (run_groups raw scaled minus_inf cache page_size r junk n 0 (replicate size minus_inf))
        (torch_decode raw scaled minus_inf cache size r) (launched r w) have
        (run_groups-Filled raw scaled minus_inf cache r page_size w size junk n 0
          (replicate size minus_inf)
          (subst (λ b. Filled raw scaled minus_inf cache r size b (replicate size minus_inf))
            none_yet (Filled-start raw scaled minus_inf cache r size)))
        (torch_Filled raw scaled minus_inf cache r size ((0 + n) * 64) (launched r w) have)

  map_agrees :
      (junk : Request Q → ℕ → ℕ → K) (size : ℕ) (requests : List (Request Q))
      → All RequestPaged requests
      → map (λ r. kernel_decode raw scaled minus_inf cache page_size (junk r) size r) requests
        ≡ map (torch_decode raw scaled minus_inf cache size) requests
  map_agrees junk size [] h = refl
  map_agrees junk size (r ∷ rs) h =
      ap (λ x. x ∷ map (λ r. kernel_decode raw scaled minus_inf cache page_size (junk r) size r) rs)
        (kernel_agrees r (junk r) size h.0)
      ∙ ap (λ x. torch_decode raw scaled minus_inf cache size r ∷ x) (map_agrees junk size rs h.1)

  empty_rows :
      (requests : List (Request Q))
      → All RequestPaged requests
      → map (λ r. replicate 0 minus_inf) requests
        ≡ map (torch_decode raw scaled minus_inf cache 0) requests
  empty_rows [] h = refl
  empty_rows (r ∷ rs) h =
      let have : r.context_len ≤ length (gathered cache r.pages) =
        let w = h.0 in
        let l = length-gathered cache page_size r.pages w.sized in
        let c = w.covered in omega (arith, l, c) in
      let none_left =
        torch_Filled raw scaled minus_inf cache r 0 r.context_len (omega arith) have in
      ap (λ x. x ∷ map (λ r. replicate 0 minus_inf) rs)
        (sym (nil_of_length (torch_decode raw scaled minus_inf cache 0 r) none_left.0))
      ∙ ap (λ x. torch_decode raw scaled minus_inf cache 0 r ∷ x) (empty_rows rs h.1)

  -- On a GPU the decode logits are those of the Torch path, whatever the kernel's tiles hold at first
  -- and for every length of the rows, when a page has 8, 16, 32 or 64 keys, every page that a table names is
  -- whole, the tables cover the contexts, and no page that starts in a context is a negative entry.
  pub qsa_mqa_decode-agree :
      (junk : Request Q → ℕ → ℕ → K) (max_model_len : ℕ) (requests : List (Request Q))
      → 8 ≤ page_size
      → 64 % page_size ≡ 0
      → All RequestPaged requests
      → qsa_mqa_decode raw scaled minus_inf cache true true page_size junk max_model_len requests
        ≡ qsa_mqa_decode raw scaled minus_inf cache false true page_size junk max_model_len requests
  unfolding qsa_mqa_decode tilelang_decode
  qsa_mqa_decode-agree junk size requests width divides h =
      let good : (ltb page_size 8 || not (64 % page_size == 0)) ≡ false =
        ground (arith, width, divides) in
      elim (Bool-cases (length requests == 0)) [
        | inl none_left ↦
            rw (good, none_left)
              (ap some (
                no_requests (λ r. replicate size minus_inf)
                  (torch_decode raw scaled minus_inf cache size) requests
                  ((nat_beq_iff (length requests) 0).0 none_left)))
        | inr some_left ↦ elim (Bool-cases (size == 0)) [
          | inl short ↦
              let e : size ≡ 0 = (nat_beq_iff size 0).0 short in
              rw (good, some_left, short)
                (subst
                  (λ n.
                    some (map (λ r. replicate n minus_inf) requests)
                    ≡ some (map (torch_decode raw scaled minus_inf cache n) requests))
                  (sym e) (ap some (empty_rows requests h)))
          | inr long ↦ rw (good, some_left, long) (ap some (map_agrees junk size requests h))
        ]
      ]
