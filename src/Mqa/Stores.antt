-- ===== src/Mqa/Stores.antt =====
-- runtime-src/mqa.py: the stores into one row of logits.
use sglang_flashnext_nvfp4kv.Prelude.{
  ℕ, ◌<◌, ◌≡◌, ◌∙◌, refl, ap, sym, subst, inl, inr, true, List, [], ◌∷◌, Option, none, some, arith,
  nat_eq, nat_beq_iff, ◌==◌, Bool-cases, contains, length, length-set, set, get_elem?,
  get_elem?-set_self, get_elem?-set_ne, lt-of-get_elem?,
}
use sglang_flashnext_nvfp4kv.Mqa.Prefill.{store_at, store_columns}

-- The stores into one query's row.
module _ {Q K F : Type 0} (raw : Q → K → F) (q : Q) (keys : List K) where
  length-store_at :
      (o : Option K) (c : ℕ) (row : List F) → length (store_at raw o q c row) ≡ length row
  unfolding store_at
  length-store_at none c row = refl
  length-store_at (some k) c row = length-set row c (raw q k)

  pub length-store_columns :
      (cs : List ℕ) (row : List F) → length (store_columns raw q keys cs row) ≡ length row
  unfolding store_columns
  length-store_columns [] row = refl
  length-store_columns (c ∷ cs) row =
      length-store_columns cs (store_at raw (get_elem? keys c) q c row)
      ∙ length-store_at (get_elem? keys c) c row

  store_at-keeps :
      (o : Option K) (c d : ℕ) (k : K) (row : List F)
      → get_elem? keys c ≡ o
      → get_elem? keys d ≡ some k
      → get_elem? row d ≡ some (raw q k)
      → get_elem? (store_at raw o q c row) d ≡ some (raw q k)
  unfolding store_at
  store_at-keeps none c d k row e e' h = h
  store_at-keeps (some k') c d k row e e' h = elim (Bool-cases (c == d)) [
    | inl same ↦
        let s : c ≡ d = (nat_beq_iff c d).0 same in
        let one : some k' ≡ some k = sym e ∙ ap (get_elem? keys) s ∙ e' in
        let there = lt-of-get_elem? row d h in
        ap (λ i. get_elem? (set row i (raw q k')) d) s
        ∙ get_elem?-set_self row d (raw q k') there
        ∙ ap some (ap (raw q) (some_key one))
    | inr other ↦ get_elem?-set_ne row (raw q k') (λ s. ground (arith, s, other)) ∙ h
  ]
    where
      some_key : {a b : K} → some a ≡ some b → a ≡ b
      some_key h = cc

  -- A column that is stored holds its score afterwards, whatever is stored later.
  store_columns-keeps :
      (cs : List ℕ) (d : ℕ) (k : K) (row : List F)
      → get_elem? keys d ≡ some k
      → get_elem? row d ≡ some (raw q k)
      → get_elem? (store_columns raw q keys cs row) d ≡ some (raw q k)
  unfolding store_columns
  store_columns-keeps [] d k row e h = h
  store_columns-keeps (c ∷ cs) d k row e h =
      store_columns-keeps cs d k (store_at raw (get_elem? keys c) q c row) e
        (store_at-keeps (get_elem? keys c) c d k row refl e h)

  pub store_columns-stored :
      (cs : List ℕ) (d : ℕ) (k : K) (row : List F)
      → get_elem? keys d ≡ some k
      → d < length row
      → contains d cs ≡ true
      → get_elem? (store_columns raw q keys cs row) d ≡ some (raw q k)
  unfolding store_columns store_at
  store_columns-stored [] d k row e lt h = cc
  store_columns-stored (c ∷ cs) d k row e lt h = elim (Bool-cases (c == d)) [
    | inl same ↦
        let s : c ≡ d = (nat_beq_iff c d).0 same in
        store_columns-keeps cs d k (store_at raw (get_elem? keys c) q c row) e (
          ap (λ i. get_elem? (store_at raw (get_elem? keys i) q i row) d) s
          ∙ ap (λ o. get_elem? (store_at raw o q d row) d) e
          ∙ get_elem?-set_self row d (raw q k) lt)
    | inr other ↦
        store_columns-stored cs d k (store_at raw (get_elem? keys c) q c row) e
          (subst (λ n. d < n) (sym (length-store_at (get_elem? keys c) c row)) lt)
          (ground (arith, h, other))
  ]
