-- ===== src/Mqa/Windows.antt =====
-- runtime-src/mqa.py: the kernels' logits are those of the Torch path.
use native.Mathlib.Nat.{add-mul, lt-div-mul-add}
use sglang_flashnext_nvfp4kv.Prelude.{
  ℕ, zero, suc, ◌+◌, ◌-◌, ◌*◌, ◌/◌, ◌≤◌, ◌<◌, max, ◌≡◌, ◌∙◌, refl, ap, sym, subst, inl, inr, true,
  false, ◌||◌, List, [], ◌∷◌, ◌++◌, map, some, arith, ltb, leb, nat_eq, nat_beq_iff, ◌==◌,
  Bool-cases, contains, length, length-map, length-replicate, get_elem?, lt-of-get_elem?, take,
  drop, replicate, take-append-drop, length-drop,
}
use sglang_flashnext_nvfp4kv.ColdPool.Shrink.Contents.{contains-count_up_of}
use sglang_flashnext_nvfp4kv.Mqa.Prefill.{
  QueryRow, ceildiv, grid_columns, mask_row, mask_rows, torch_prefill, start_min_of, end_max_of,
  store_columns, run_block, run_blocks, pad_row, padding_of, tilelang_prefill, qsa_mqa_prefill,
}
use sglang_flashnext_nvfp4kv.Mqa.Split.{grid_columns_exact}
use sglang_flashnext_nvfp4kv.Mqa.Stores.{length-store_columns, store_columns-stored}

module _ {Q K F : Type 0} (raw : Q → K → F) (keys : List K) where
  -- A row of logits that has the scores of its window.
  abbrev Holds : QueryRow Q → List F → Type 0
  Holds r l =
      (length l ≡ length keys)
      × ((c : ℕ) (k : K)
          → r.row_start ≤ c
          → c < r.row_end
          → get_elem? keys c ≡ some k
          → get_elem? l c ≡ some (raw r.query k))

  abbrev AllHold : List (QueryRow Q) → List (List F) → Type 0
  AllHold [] ls = Unit
  AllHold (r ∷ rs) [] = ⊥
  AllHold (r ∷ rs) (l ∷ ls) = Holds r l × AllHold rs ls

  AllHold-append :
      (rs qs : List (QueryRow Q)) (ls ms : List (List F))
      → length ls ≡ length rs
      → AllHold rs ls
      → AllHold qs ms
      → AllHold (rs ++ qs) (ls ++ ms)
  AllHold-append [] qs [] ms e h g = g
  AllHold-append [] qs (l ∷ ls) ms e h g = absurd (ground (arith, e))
  AllHold-append (r ∷ rs) qs [] ms e h g = elim h [ ]
  AllHold-append (r ∷ rs) qs (l ∷ ls) ms e h g =
      (h.0, AllHold-append rs qs ls ms (ground (arith, e)) h.1 g)

  AllHold-take :
      (rs qs : List (QueryRow Q)) (ls : List (List F))
      → AllHold (rs ++ qs) ls
      → AllHold rs (take (length rs) ls)
  AllHold-take [] qs ls h = tt
  AllHold-take (r ∷ rs) qs [] h = h
  AllHold-take (r ∷ rs) qs (l ∷ ls) h = (h.0, AllHold-take rs qs ls h.1)

  module _ (zero_logit : F) where
    -- Columns inside a block's window are stored by one of its CTAs.
    block_holds :
        (block_n split sm em : ℕ)
        → 0 < block_n
        → 0 < split
        → (rs : List (QueryRow Q)) → sm ≤ start_min_of (length keys) rs
        → end_max_of (length keys) rs ≤ em
        → AllHold rs (
            map
              (λ r.
                store_columns raw r.query keys
                  (grid_columns block_n split sm (ceildiv (em - sm) block_n) split 0)
                  (replicate (length keys) zero_logit))
              rs)
    unfolding start_min_of end_max_of ceildiv
    block_holds block_n split sm em pos pos' [] low high = tt
    block_holds block_n split sm em pos pos' (r ∷ rs) low high = (
      (
        length-store_columns raw r.query keys columns cleared
            ∙ length-replicate (length keys) zero_logit,
        λ c k from to at.
            let size = length-replicate (length keys) zero_logit in
            let room = lt-div-mul-add {a = em - sm + block_n - 1} pos in
            let there = lt-of-get_elem? keys c at in
            let stored : contains c columns ≡ true =
              ap (contains c) (grid_columns_exact block_n split sm (ceildiv (em - sm) block_n) pos')
              ∙ contains-count_up_of ((em - sm + block_n - 1) / block_n * block_n) sm c
                  (omega arith) (omega arith) in
            store_columns-stored raw r.query keys columns c k cleared at
              (subst (λ n. c < n) (sym size) there) stored,
      ),
      block_holds block_n split sm em pos pos' rs (omega arith) (omega arith),
    )
      where
        columns : List ℕ
        columns = grid_columns block_n split sm (ceildiv (em - sm) block_n) split 0

        cleared : List F
        cleared = replicate (length keys) zero_logit

    run_blocks_hold :
        (block_n split block_q n : ℕ) (rows : List (QueryRow Q))
        → 0 < block_n
        → 0 < split
        → length rows ≤ n * block_q
        → AllHold rows (run_blocks raw zero_logit block_n split block_q n keys rows)
    unfolding run_blocks run_block
    run_blocks_hold block_n split block_q zero [] pos pos' le = tt
    run_blocks_hold block_n split block_q zero (r ∷ rs) pos pos' le = absurd (omega arith)
    run_blocks_hold block_n split block_q (suc n) rows pos pos' le =
        let front = take block_q rows in
        let back = drop block_q rows in
        let sm = start_min_of (length keys) front in
        let em = end_max_of (length keys) front in
        let d = add-mul 1 n block_q in
        let short = length-drop block_q rows in
        subst
          (λ rs. AllHold rs (
            run_block raw zero_logit block_n split keys front
            ++ run_blocks raw zero_logit block_n split block_q n keys back))
          (take-append-drop block_q rows)
          (AllHold-append front back (run_block raw zero_logit block_n split keys front)
            (run_blocks raw zero_logit block_n split block_q n keys back)
            (length-map front (λ r.
              store_columns raw r.query keys
                (grid_columns block_n split sm (ceildiv (em - sm) block_n) split 0)
                (replicate (length keys) zero_logit)))
            (block_holds block_n split sm em pos pos' front (omega arith) (omega arith))
            (run_blocks_hold block_n split block_q n back pos pos' (omega arith)))

  module _ (scaled : F → F) (minus_inf : F) where
    -- Masking leaves only the window's scores.
    mask_row_holds :
        (i : ℕ) (ks : List K) (q : Q) (start end : ℕ) (l : List F)
        → length l ≡ length ks
        → ((c : ℕ) (k : K)
            → start ≤ i + c
            → i + c < end
            → get_elem? ks c ≡ some k
            → get_elem? l c ≡ some (raw q k))
        → mask_row minus_inf i start end (map scaled l)
          ≡ mask_row minus_inf i start end (map (λ k. scaled (raw q k)) ks)
    unfolding mask_row
    mask_row_holds i [] q start end [] e h = refl
    mask_row_holds i [] q start end (x ∷ l) e h = absurd (ground (arith, e))
    mask_row_holds i (k ∷ ks) q start end [] e h = absurd (ground (arith, e))
    mask_row_holds i (k ∷ ks) q start end (x ∷ l) e h =
        let rest =
          mask_row_holds (suc i) ks q start end l (ground (arith, e))
            (λ c k' from to at. h (suc c) k' (omega arith) (omega arith) at) in
        elim (Bool-cases (ltb i start || leb end i)) [
          | inl out ↦ rw (out) (ap (λ r. minus_inf ∷ r) rest)
          | inr window ↦
              let here : some x ≡ some (raw q k) =
                h 0 k (ground (arith, window)) (ground (arith, window)) refl in
              let same : x ≡ raw q k = cc in rw (window, same, rest) refl
        ]

    mask_rows_hold :
        (rows : List (QueryRow Q)) (ls : List (List F))
        → AllHold rows ls
        → mask_rows minus_inf rows (map (map scaled) ls)
          ≡ mask_rows minus_inf rows (map (λ r. map (λ k. scaled (raw r.query k)) keys) rows)
    unfolding mask_rows
    mask_rows_hold [] [] h = refl
    mask_rows_hold [] (l ∷ ls) h = refl
    mask_rows_hold (r ∷ rs) [] h = elim h [ ]
    mask_rows_hold (r ∷ rs) (l ∷ ls) h =
        ap (λ m. m ∷ mask_rows minus_inf rs (map (map scaled) ls))
          (mask_row_holds 0 keys r.query r.row_start r.row_end l h.0.0
            (λ c k from to at. h.0.1 c k (omega arith) (omega arith) at))
        ∙ ap
            (λ m.
              mask_row minus_inf 0 r.row_start r.row_end (map (λ k. scaled (raw r.query k)) keys)
              ∷ m)
            (mask_rows_hold rs ls h.1)

no_keys :
    {Q K F : Type 0} (raw : Q → K → F) (scaled : F → F) (minus_inf : F) (rows : List (QueryRow Q))
    (keys : List K)
    → length keys ≡ 0
    → map (λ r. replicate (length keys) minus_inf) rows
      ≡ mask_rows minus_inf rows (map (λ r. map (λ k. scaled (raw r.query k)) keys) rows)
unfolding mask_rows mask_row
no_keys raw scaled minus_inf [] keys e = refl
no_keys raw scaled minus_inf (r ∷ rs) [] e = ap (λ m. [] ∷ m) (no_keys raw scaled minus_inf rs [] e)
no_keys raw scaled minus_inf (r ∷ rs) (k ∷ ks) e = absurd (ground (arith, e))

no_rows :
    {Q F : Type 0} (f : QueryRow Q → List F) (g : QueryRow Q → List F) (minus_inf : F)
    (rows : List (QueryRow Q))
    → length rows ≡ 0
    → map f rows ≡ mask_rows minus_inf rows (map g rows)
unfolding mask_rows
no_rows f g minus_inf [] e = refl
no_rows f g minus_inf (r ∷ rs) e = absurd (ground (arith, e))

module _ {Q K F : Type 0} (raw : Q → K → F) (scaled : F → F) (zero_logit minus_inf : F)
    (zero_query : Q) where
  tilelang_agrees :
      (heads : ℕ) (rows : List (QueryRow Q)) (keys : List K)
      → tilelang_prefill raw scaled zero_logit minus_inf zero_query heads rows keys
        ≡ torch_prefill raw scaled zero_logit minus_inf zero_query rows keys
  unfolding tilelang_prefill torch_prefill ceildiv
  tilelang_agrees heads rows keys =
      let block_q = max 1 (128 / heads) in
      let padding = padding_of (length rows) block_q in
      let extra = replicate padding (pad_row zero_query rows) in
      let blocks = ceildiv (length (rows ++ extra)) block_q in
      let room =
        lt-div-mul-add {a = length (rows ++ extra) + block_q - 1} {b = block_q} (omega arith) in
      let held =
        AllHold-take raw keys rows extra
          (run_blocks raw zero_logit 64 64 block_q blocks keys (rows ++ extra))
          (run_blocks_hold raw keys zero_logit 64 64 block_q blocks (rows ++ extra) (omega arith)
            (omega arith) (omega arith)) in
      let logits =
        take (length rows) (run_blocks raw zero_logit 64 64 block_q blocks keys (rows ++ extra)) in
      elim (Bool-cases (length rows == 0)) [
        | inl none_left ↦ rw (none_left) (
            no_rows (λ r. replicate (length keys) minus_inf)
              (λ r. map (λ k. scaled (raw r.query k)) keys) minus_inf rows
              ((nat_beq_iff (length rows) 0).0 none_left))
        | inr some_rows ↦ elim (Bool-cases (length keys == 0)) [
          | inl no_key ↦
              rw (some_rows, no_key)
                (no_keys raw scaled minus_inf rows keys ((nat_beq_iff (length keys) 0).0 no_key))
          | inr some_key ↦
              rw (some_rows, some_key) (mask_rows_hold raw keys scaled minus_inf rows logits held)
        ]
      ]

  -- On a GPU the prefill logits are those of the Torch path, for every number of heads, rows and keys
  -- and every window: the scores of the row's window, and -inf in every other column.
  pub qsa_mqa_prefill-agree :
      (heads : ℕ) (rows : List (QueryRow Q)) (keys : List K)
      → qsa_mqa_prefill raw scaled zero_logit minus_inf zero_query true true heads rows keys
        ≡ qsa_mqa_prefill raw scaled zero_logit minus_inf zero_query false true heads rows keys
  unfolding qsa_mqa_prefill
  qsa_mqa_prefill-agree heads rows keys = tilelang_agrees heads rows keys
