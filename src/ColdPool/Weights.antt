-- ===== src/ColdPool/Weights.antt =====
-- patches/expert_cold_pool.py: the contents of the rows. `W name gid` is the row of the expert in
-- the full tensor, before the pool was shrunk: an expert that the router may select is computed with
-- its own rows, and the host copies are the experts' rows.
use sglang_flashnext_nvfp4kv.Prelude.{
  ℕ, ◌+◌, ◌≤◌, ◌<◌, ◌≡◌, ◌≢◌, refl, sym, ◌∙◌, ◌⊎◌, inl, inr, Bool, true, false, List, [], ◌∷◌,
  Option, none, some, arith, ◌==◌, nat_eq, leb, if◌then◌else◌, Dict, lookup, insert, erase,
  lookup-insert, lookup-erase, keys, contains, Bool-cases, Option-cases, length, set, get_elem?,
  get_elem?-set_self, get_elem?-set_ne,
}
use sglang_flashnext_nvfp4kv.Prelude.Int.{pos}
use sglang_flashnext_nvfp4kv.ColdPool.State.{
  Param, param_eq, param_beq_iff, Tensor, scalar, rows, Device, LayerPool,
}
use sglang_flashnext_nvfp4kv.ColdPool.Staging.{copy_rows}
use sglang_flashnext_nvfp4kv.ColdPool.Tables.{kept, route, is_open}
use sglang_flashnext_nvfp4kv.ColdPool.Ownership.{Rows}

abbrev pub All {ℓ κ} : {A : Type ℓ} → (A → Type κ) → List A → Type κ
All P [] = Unit
All P (x ∷ xs) = P x × All P xs

module _ {R V : Type 0} (W : Param → ℕ → R) where
  pub record Holds (p : LayerPool R V) : Type 0 where
    pub held :
        (name : Param) (xs : List R)
        → lookup name p.tensors ≡ some (rows xs)
        → (g : ℕ) → is_open p g ≡ true
        → get_elem? xs (route p g) ≡ some (W name g)
    pub host_rows :
        (g : ℕ) (rs : Dict Param R) → lookup g p.host ≡ some rs → All (λ e. W e.0 g ≡ e.1) rs
    pub host_all :
        (g : ℕ) (rs : Dict Param R)
        → lookup g p.host ≡ some rs
        → (name : Param) (xs : List R) → lookup name p.tensors ≡ some (rows xs)
        → contains name (keys rs) ≡ true

module _ {R V : Type 0} (d : Device R V) (W : Param → ℕ → R) (gid row : ℕ) where
  -- A tensor after the copy, against the tensor before.
  abbrev pub Copied : Dict Param R → List R → List R → Param → Bool → Type 0
  Copied rs xs ys name copied =
      ((j : ℕ) → j ≢ row → get_elem? ys j ≡ get_elem? xs j)
      × (copied ≡ true
          → (contains name (keys rs) ≡ true) ⊎ (get_elem? xs row ≡ some (W name gid))
          → get_elem? ys row ≡ some (W name gid))

  abbrev CopyOf : Dict Param R → ℕ → Dict Param (Tensor R) → Param → List R → Type 0
  CopyOf rs n ts name ys =
      lookup name (copy_rows d rs row n ts).0 ≡ some (rows ys)
      → (xs : List R) × (lookup name ts ≡ some (rows xs))
        × Copied rs xs ys name (copy_rows d rs row n ts).2

  -- One tensor that takes the write, then the rest of the loop.
  copy_step :
      (nm : Param) (v : R) (rest : Dict Param R) (ts : Dict Param (Tensor R)) (name : Param)
      (zs xs ys : List R) (copied : Bool)
      → W nm gid ≡ v
      → lookup nm ts ≡ some (rows zs)
      → row < length zs
      → lookup name (insert nm (rows (set zs row v)) ts) ≡ some (rows xs)
      → Copied rest xs ys name copied
      → (us : List R) × (lookup name ts ≡ some (rows us))
        × Copied ((nm, v) ∷ rest) us ys name copied
  copy_step nm v rest ts name zs xs ys copied hv f lt found h = elim (Bool-cases (nm == name)) [
    | inl same ↦
        let same' : nm ≡ name = (param_beq_iff nm name).0 same in
        let e : set zs row v ≡ xs =
          ground (arith, lookup-insert nm name (rows (set zs row v)) ts) in
        (
          zs,
          rw (← same') f,
          (
            λ j ne. h.0 j ne ∙ rw (← e) (get_elem?-set_ne zs v (λ q. ne (sym q))),
            λ c _. h.1 c (inr (rw (← e, ← same', hv) (get_elem?-set_self zs row v lt))),
          ),
        )
    | inr other ↦ (
      xs,
      ground (arith, lookup-insert nm name (rows (set zs row v)) ts),
      (h.0, λ c own. h.1 c (ground arith)),
    )
  ]

  -- The copy leaves every other row alone; if it runs to its end, the row is the expert's.
  pub copy_rows-Copied :
      (rs : Dict Param R) (n : ℕ) (ts : Dict Param (Tensor R)) (name : Param) (ys : List R)
      → All (λ e. W e.0 gid ≡ e.1) rs
      → CopyOf rs n ts name ys
  unfolding copy_rows
  copy_rows-Copied [] n ts name ys h = λ e. (ys, e, ((λ j ne. refl), λ _ c. ground arith))
  copy_rows-Copied ((nm, v) ∷ rest) n ts name ys h =
      go (lookup nm ts) refl (λ m us. copy_rows-Copied rest m us name ys h.1)
    where
      go :
          (o : Option (Tensor R))
          → lookup nm ts ≡ o
          → ((m : ℕ) (us : Dict Param (Tensor R)) → CopyOf rest m us name ys)
          → CopyOf ((nm, v) ∷ rest) n ts name ys
      go none f ih = rw (f, copy_rows) (λ e. (ys, e, ((λ j ne. refl), λ c _. cc)))
      go (some (scalar z)) f ih = rw (f, copy_rows) (λ e. (ys, e, ((λ j ne. refl), λ c _. cc)))
      go (some (rows zs)) f ih =
          rw (f, copy_rows)
            (elim (Bool-cases (leb (length zs) row)) [
              | inl short ↦ rw short (λ e. (ys, e, ((λ j ne. refl), λ c _. cc)))
              | inr long ↦ rw long (λ e.
                  let (xs, found, rest_copied) =
                    ih (n + d.row_bytes v) (insert nm (rows (set zs row v)) ts) e in
                  copy_step nm v rest ts name zs xs ys _ h.0 f (ground arith) found rest_copied)
            ])

module _ {R V : Type 0} where
  -- The two views of the ownership after an eviction and after a staging.
  pub route-evicted :
      (p : LayerPool R V) (old row g : ℕ)
      → kept p old ≡ none
      → route (record p { row_gid = erase row p.row_gid; gid_row = erase old p.gid_row }) g
        ≡ (if old == g then 0 else route p g)
  unfolding route
  route-evicted p old row g k = ground (arith, lookup-erase old g p.gid_row)

  pub is_open-evicted :
      (p : LayerPool R V) (old row g : ℕ)
      → kept p old ≡ none
      → is_open (record p { row_gid = erase row p.row_gid; gid_row = erase old p.gid_row }) g
        ≡ (if old == g then false else is_open p g)
  unfolding is_open
  is_open-evicted p old row g k = ground (arith, lookup-erase old g p.gid_row)

  -- The bookkeeping of a staged expert.
  abbrev pub with_staged : LayerPool R V → ℕ → ℕ → Dict Param (Tensor R) → LayerPool R V
  with_staged p gid row tensors = record p {
    tensors = tensors;
    gid_row = insert gid row p.gid_row;
    row_gid = insert row gid p.row_gid;
    row_tick = insert row (pos p.tick) p.row_tick;
  }

  pub route-staged :
      (p : LayerPool R V) (gid row : ℕ) (tensors : Dict Param (Tensor R)) (g : ℕ)
      → kept p gid ≡ none
      → route (with_staged p gid row tensors) g ≡ (if gid == g then row else route p g)
  unfolding route
  route-staged p gid row tensors g k = ground (arith, lookup-insert gid g row p.gid_row)

  pub is_open-staged :
      (p : LayerPool R V) (gid row : ℕ) (tensors : Dict Param (Tensor R)) (g : ℕ)
      → kept p gid ≡ none
      → is_open (with_staged p gid row tensors) g ≡ (if gid == g then true else is_open p g)
  unfolding is_open
  is_open-staged p gid row tensors g k = ground (arith, lookup-insert gid g row p.gid_row)

  -- The row of an open expert is below `keep_len`, or owned by it.
  pub route-ne_unowned :
      (flight : Option ℕ) (p : LayerPool R V) (row g : ℕ)
      → Rows flight p
      → ((h i : ℕ) → kept p h ≡ some i → i < p.keep_len)
      → p.keep_len ≤ row
      → lookup row p.row_gid ≡ none
      → is_open p g ≡ true
      → route p g ≢ row
  unfolding route is_open
  route-ne_unowned flight p row g w keeps lo free o e = elim (Option-cases (kept p g)) [
    | inl k ↦ elim (Option-cases (lookup g p.gid_row)) [
      | inl n ↦ ground arith
      | inr (r, f) ↦ ground (arith, w.forth g r)
    ]
    | inr (i, k) ↦ ground (arith, keeps g i)
  ]
