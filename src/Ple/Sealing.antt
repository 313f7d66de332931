-- ===== src/Ple/Sealing.antt =====
-- runtime-src/qwen4_exp_ple_table.py: a sidecar is valid for exactly the table that was sealed.
use sglang_flashnext_nvfp4kv.Prelude.{
  ℕ, ◌≡◌, ◌∙◌, refl, sym, inl, inr, ◌⊎◌, ◌↔◌, true, false, List, [], ◌∷◌, Option, none, some, Eq,
  ◌==◌, nat_eq, list_eq, list_beq_iff, arith, Dict, lookup, contains, keys, Bool-cases,
}
use sglang_flashnext_nvfp4kv.ColdPool.Weights.{All}
use sglang_flashnext_nvfp4kv.Ple.Sidecar.{
  loaded_dict, Table, or_default, subset, all_recorded, sources_match, is_valid, payload, Directory,
  unreadable, last_of, write_steps, sidecar_write,
}

module _ {S : Type 0} ⦃e : Eq S⦄ where
  -- A Python dictionary has each key once.
  abbrev pub Unique : Dict S (List ℕ) → Type 0
  Unique [] = Unit
  Unique ((k, v) ∷ m) = (contains k (keys m) ≡ false) × Unique m

  lookup-absent : (k : S) (m : Dict S (List ℕ)) → contains k (keys m) ≡ false → lookup k m ≡ none
  unfolding lookup
  lookup-absent k [] h = refl
  lookup-absent k ((j, v) ∷ m) h = ground (arith, lookup-absent k m)

  lookup-present :
      (k : S) (m : Dict S (List ℕ))
      → contains k (keys m) ≡ true
      → (v : List ℕ) × (lookup k m ≡ some v)
  unfolding lookup
  lookup-present k [] h = cc
  lookup-present k ((j, v) ∷ m) h = elim (Bool-cases (j == k)) [
    | inl hit ↦ (v, rw (hit, lookup) refl)
    | inr miss ↦ rw (miss, lookup) (lookup-present k m (ground (arith, h, miss)))
  ]

  contains-of-lookup :
      (k : S) (m : Dict S (List ℕ)) (v : List ℕ) → lookup k m ≡ some v → contains k (keys m) ≡ true
  unfolding lookup
  contains-of-lookup k [] v h = cc
  contains-of-lookup k ((j, w) ∷ m) v h = ground (arith, contains-of-lookup k m v)

  subset-contains :
      (xs ys : List S) (k : S) → subset xs ys ≡ true → contains k xs ≡ true → contains k ys ≡ true
  unfolding subset
  subset-contains [] ys k h c = cc
  subset-contains (x ∷ xs) ys k h c = elim (Bool-cases (x == k)) [
    | inl hit ↦ rw (← (e.beq_iff x k).0 hit) (ground (arith, h))
    | inr miss ↦ subset-contains xs ys k (ground (arith, h)) (ground (arith, c, miss))
  ]

  subset-of :
      (xs ys : List S)
      → ((k : S) → contains k xs ≡ true → contains k ys ≡ true)
      → subset xs ys ≡ true
  unfolding subset
  subset-of [] ys h = refl
  subset-of (x ∷ xs) ys h =
      ground (arith, h x, e.beq_iff x x, subset-of xs ys (λ k c. h k (ground (arith, c))))

  all_recorded-lookup :
      (r f : Dict S (List ℕ)) (k : S) (fp : List ℕ)
      → all_recorded r f ≡ true
      → lookup k f ≡ some fp
      → or_default (lookup k r) [] ≡ fp
  unfolding all_recorded lookup
  all_recorded-lookup r [] k fp h l = cc
  all_recorded-lookup r ((j, v) ∷ f) k fp h l = ground (
    arith,
    e.beq_iff j k,
    list_beq_iff (or_default (lookup j r) []) v,
    all_recorded-lookup r f k fp,
  )

  all_recorded-of :
      (r f : Dict S (List ℕ))
      → Unique f
      → ((k : S) → contains k (keys f) ≡ true → lookup k r ≡ lookup k f)
      → all_recorded r f ≡ true
  unfolding all_recorded lookup
  all_recorded-of r [] u h = refl
  all_recorded-of r ((j, v) ∷ f) u h =
      let here : lookup j r ≡ some v =
        h j (ground (arith, e.beq_iff j j)) ∙ rw ((e.beq_iff j j).1 refl, lookup) refl in
      let rest = all_recorded-of r f u.1 (λ k c. ground (arith, h k, e.beq_iff j k, u.0, c)) in
      ground (arith, here, rest, list_beq_iff v v)

  -- Two dictionaries that give every name the same.
  abbrev pub SameSources : Dict S (List ℕ) → Dict S (List ℕ) → Type 0
  SameSources r f = (k : S) → lookup k r ≡ lookup k f

  sources_match_sound : (r f : Dict S (List ℕ)) → sources_match r f ≡ true → SameSources r f
  unfolding sources_match
  sources_match_sound r f h k = elim (Bool-cases (contains k (keys f))) [
    | inl here ↦
        let (fp, l) = lookup-present k f here in
        let (x, m) =
          lookup-present k r (subset-contains (keys f) (keys r) k (ground (arith, h)) here) in
        ground (arith, l, m, all_recorded-lookup r f k fp (ground (arith, h)) l)
    | inr gone ↦ elim (Bool-cases (contains k (keys r))) [
      | inl here ↦
          absurd
            (ground (arith, gone, subset-contains (keys r) (keys f) k (ground (arith, h)) here))
      | inr away ↦ lookup-absent k r away ∙ sym (lookup-absent k f gone)
    ]
  ]

  sources_match_complete :
      (r f : Dict S (List ℕ)) → Unique f → SameSources r f → sources_match r f ≡ true
  unfolding sources_match
  sources_match_complete r f u h =
      let there =
        subset-of (keys r) (keys f)
          (λ k c. let (v, l) = lookup-present k r c in contains-of-lookup k f v (sym (h k) ∙ l)) in
      let back =
        subset-of (keys f) (keys r)
          (λ k c. let (v, l) = lookup-present k f c in contains-of-lookup k r v (h k ∙ l)) in
      rw (there, back) (all_recorded-of r f u (λ k c. h k))

  -- The table in front of the check is the one that was sealed.
  abbrev pub Matches : (S → S) → Table S → Option ℕ → Table S → Type 0
  Matches realpath sealed size t =
      (sealed.expected_bytes ≡ t.expected_bytes)
      × (sealed.shape ≡ t.shape)
      × (sealed.dtype ≡ t.dtype)
      × (realpath sealed.model ≡ realpath t.model)
      × (size ≡ some t.expected_bytes)
      × SameSources sealed.fingerprints t.fingerprints

  -- The sidecar that a write leaves is valid exactly when the table's file has the expected size and
  -- the byte count, shape, type, real path of the model and every source file's fingerprint are those
  -- that were sealed, no source missing and none added; the current fingerprints name a file once.
  pub is_valid_iff :
      (realpath : S → S) (sealed t : Table S) (size : Option ℕ) (d : Directory S)
      → Unique t.fingerprints
      → (is_valid realpath (sidecar_write realpath sealed d).sidecar size t ≡ true)
        ↔ Matches realpath sealed size t
  unfolding is_valid sidecar_write
  is_valid_iff realpath sealed t size d u = (λ h. sound size h, λ m. complete size m)
    where
      sound :
          (size : Option ℕ)
          → is_valid realpath (loaded_dict (payload realpath sealed)) size t ≡ true
          → Matches realpath sealed size t
      sound none h = absurd (ground (arith, h))
      sound (some n) h = (
        ground (arith, h),
        ground (arith, h, list_beq_iff sealed.shape t.shape),
        ground (arith, h, e.beq_iff sealed.dtype t.dtype),
        ground (arith, h, e.beq_iff (realpath sealed.model) (realpath t.model)),
        ground (arith, h),
        sources_match_sound sealed.fingerprints t.fingerprints (ground (arith, h)),
      )

      complete :
          (size : Option ℕ)
          → Matches realpath sealed size t
          → is_valid realpath (loaded_dict (payload realpath sealed)) size t ≡ true
      complete size (bytes, shape, dtype, model, length, sources) = rw length (
          ground (
            arith,
            bytes,
            (list_beq_iff sealed.shape t.shape).1 shape,
            (e.beq_iff sealed.dtype t.dtype).1 dtype,
            (e.beq_iff (realpath sealed.model) (realpath t.model)).1 model,
            sources_match_complete sealed.fingerprints t.fingerprints u sources,
          ))

  -- The write is complete: its temporary file is gone, and the sidecar is valid just for what was sealed.
  abbrev pub Complete : (S → S) → Table S → Option ℕ → Table S → Directory S → Type 0
  Complete realpath sealed size t c =
      (c.temporary ≡ unreadable)
      × ((is_valid realpath c.sidecar size t ≡ true) ↔ Matches realpath sealed size t)

  sidecar_write-Complete :
      (realpath : S → S) (sealed t : Table S) (size : Option ℕ) (d : Directory S)
      → Unique t.fingerprints
      → Complete realpath sealed size t (sidecar_write realpath sealed d)
  unfolding sidecar_write
  sidecar_write-Complete realpath sealed t size d u =
      (refl, is_valid_iff realpath sealed t size d u)

  -- Wherever a write is cut off, between any two of its steps or after the last, the sidecar is the one
  -- from before the write, untouched, or the write is complete: then the temporary file is gone, and a
  -- check of a table with each source named once passes just for the table that was sealed. A whole
  -- write is complete.
  pub write_steps-Matches :
      (realpath : S → S) (sealed t : Table S) (size : Option ℕ) (d : Directory S)
      → Unique t.fingerprints
      → All
          (λ c. (c.sidecar ≡ d.sidecar) ⊎ Complete realpath sealed size t c)
          (write_steps realpath sealed d)
        × Complete realpath sealed size t (sidecar_write realpath sealed d)
  unfolding write_steps sidecar_write last_of
  write_steps-Matches realpath sealed t size d u =
      let done = sidecar_write-Complete realpath sealed t size d u in
      ((inl refl, (inl refl, (inr (unfold sidecar_write last_of in done), tt))), done)
