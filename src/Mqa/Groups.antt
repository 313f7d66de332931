-- ===== src/Mqa/Groups.antt =====
-- runtime-src/mqa.py: the decode kernel's groups of 64 tokens, and the whole row.
use sglang_flashnext_nvfp4kv.Prelude.{
  ℕ, zero, suc, ◌+◌, ◌≤◌, ◌<◌, ◌≡◌, ◌∙◌, ◌⊎◌, refl, ap, sym, subst, inl, inr, List, some, arith,
  ltb, nat_eq, nat_beq_iff, ◌==◌, Bool-cases, length, length-set, length-replicate, get_elem?,
  get_elem?-set_self, get_elem?-set_ne, set, replicate,
}
use sglang_flashnext_nvfp4kv.Mqa.Decode.{Request, gathered, store_tokens}

pub replicated {ℓ} : {A : Type ℓ} (a : A) (n p : ℕ) → p < n → get_elem? (replicate n a) p ≡ some a
replicated a zero p lt = absurd (omega arith)
replicated a (suc n) zero lt = refl
replicated a (suc n) (suc p) lt = replicated a n p (omega arith)

module _ {Q K F : Type 0} (raw : Q → K → F) (scaled : F → F) (minus_inf : F) (cache : List (List K))
    (r : Request Q) where
  abbrev pub keys : List K
  keys = gathered cache r.pages

  -- A row with the scores of its first `bound` positions in the context, and -inf elsewhere.
  abbrev pub Filled : ℕ → ℕ → List F → Type 0
  Filled size bound row =
      (length row ≡ size)
      × ((p : ℕ) (k : K)
          → p < size
          → p < bound
          → p < r.context_len
          → get_elem? keys p ≡ some k
          → get_elem? row p ≡ some (scaled (raw r.query k)))
      × ((p : ℕ) → p < size → (bound ≤ p) ⊎ (r.context_len ≤ p) → get_elem? row p ≡ some minus_inf)

  pub Filled-start : (size : ℕ) → Filled size 0 (replicate size minus_inf)
  Filled-start size = (
    length-replicate size minus_inf,
    (λ p k lt none_yet in_context e. absurd (omega arith)),
    (λ p lt h. replicated minus_inf size p lt),
  )

  -- Past the context nothing changes.
  pub Filled-past :
      (size bound bound' : ℕ) (row : List F)
      → bound ≤ bound'
      → r.context_len ≤ bound
      → Filled size bound row
      → Filled size bound' row
  Filled-past size bound bound' row le past h = (
    h.0,
    (λ p k lt lt' in_context e. h.1 p k lt (omega arith) in_context e),
    λ p lt c. h.2 p lt (inr_of p c),
  )
    where
      inr_of : (p : ℕ) → (bound' ≤ p) ⊎ (r.context_len ≤ p) → (bound ≤ p) ⊎ (r.context_len ≤ p)
      inr_of p (inl b) = inl (omega arith)
      inr_of p (inr b) = inr b

  -- One store.
  Filled-store :
      (size p : ℕ) (v : F) (row : List F)
      → p < r.context_len
      → ((k : K) → get_elem? keys p ≡ some k → v ≡ scaled (raw r.query k))
      → Filled size p row
      → Filled size (p + 1) (set row p v)
  Filled-store size p v row in_context value h = (length-set row p v ∙ h.0, stored, rest)
    where
      stored :
          (q : ℕ) (k : K)
          → q < size
          → q < p + 1
          → q < r.context_len
          → get_elem? keys q ≡ some k
          → get_elem? (set row p v) q ≡ some (scaled (raw r.query k))
      stored q k lt lt' in_q e = elim (Bool-cases (p == q)) [
        | inl same ↦
            let s : p ≡ q = (nat_beq_iff p q).0 same in
            subst (λ i. get_elem? (set row p v) i ≡ some (scaled (raw r.query k))) s
              (get_elem?-set_self row p v (omega (arith, h.0, s, lt))
                ∙ ap some (value k (ap (get_elem? keys) s ∙ e)))
        | inr other ↦
            get_elem?-set_ne row v (λ s. ground (arith, s, other))
            ∙ h.1 q k lt (ground (arith, other, lt')) in_q e
      ]

      rest :
          (q : ℕ)
          → q < size
          → (p + 1 ≤ q) ⊎ (r.context_len ≤ q)
          → get_elem? (set row p v) q ≡ some minus_inf
      rest q lt (inl past) =
          get_elem?-set_ne row v (λ s. omega (arith, s, past)) ∙ h.2 q lt (inl (omega arith))
      rest q lt (inr past) =
          get_elem?-set_ne row v (λ s. omega (arith, s, past)) ∙ h.2 q lt (inr past)

  -- The stores of a group whose tile has the keys of its positions in the context.
  pub store_tokens-Filled :
      (size base n token : ℕ) (shared : ℕ → K) (row : List F)
      → ((t : ℕ) (k : K)
          → t < token + n
          → base + t < r.context_len
          → get_elem? keys (base + t) ≡ some k
          → shared t ≡ k)
      → Filled size (base + token) row
      → Filled size
          (base + (token + n))
          (store_tokens raw scaled minus_inf cache r shared base n token row)
  unfolding store_tokens
  store_tokens-Filled size base zero token shared row tile h =
      let e : token + 0 ≡ token = omega arith in subst (λ i. Filled size (base + i) row) (sym e) h
  store_tokens-Filled size base (suc n) token shared row tile h =
      let e : suc token + n ≡ token + suc n = omega arith in
      let e' : base + token + 1 ≡ base + suc token = omega arith in
      let in_order : base + (suc token + n) ≡ base + (token + suc n) = omega arith in
      elim (Bool-cases (ltb (base + token) r.context_len)) [
        | inl here ↦
            let in_context : base + token < r.context_len = ground (arith, here) in
            rw (here) (
              subst
                (λ i.
                  Filled size i
                    (next (set row (base + token) (scaled (raw r.query (shared token))))))
                in_order
                (store_tokens-Filled size base n (suc token) shared
                  (set row (base + token) (scaled (raw r.query (shared token))))
                  (λ t k lt. tile t k (omega (arith, lt)))
                  (subst
                    (λ i.
                      Filled size i (set row (base + token) (scaled (raw r.query (shared token)))))
                    e'
                    (Filled-store size (base + token) (scaled (raw r.query (shared token))) row
                      in_context
                      (λ k at.
                        ap (λ x. scaled (raw r.query x)) (tile token k (omega arith) in_context at))
                      h))))
        | inr past ↦ rw (past) (
            subst (λ i. Filled size i (next row)) in_order
              (store_tokens-Filled size base n (suc token) shared row
                (λ t k lt. tile t k (omega (arith, lt)))
                (Filled-past size (base + token) (base + suc token) row (omega arith)
                  (ground (arith, past)) h)))
      ]
    where
      next : List F → List F
      next = store_tokens raw scaled minus_inf cache r shared base n (suc token)
