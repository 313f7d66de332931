-- ===== src/Qsa/Row.antt =====
-- runtime-src/kernel.py: on one row, the Triton kernel stores what Torch computes.
use native.Mathlib.Nat.{add-mul, div-le_self, lt-div-mul-add}
use mathlib.Core.List.{append_assoc, map-append}
use sglang_flashnext_nvfp4kv.Prelude.{
  count_up-plus, ℕ, ◌+◌, ◌-◌, ◌*◌, ◌/◌, ◌%◌, ◌≤◌, ◌<◌, min, ◌≡◌, ◌∙◌, ap, sym, subst, true, ◌&&◌,
  List, ◌++◌, map, some, arith, ltb, nat_eq, length, length-append, length-take, get_elem?,
  lt-of-get_elem?, take, replicate, count_up, range,
}
use sglang_flashnext_nvfp4kv.Prelude.Int.{ℤ, pos}
use sglang_flashnext_nvfp4kv.Qsa.Expand.{
  minus_one, block_topk_of, final_topk_of, all_tokens, within, tail_start_of, tail_entry, compact,
  torch_row, load_block, count_blocks, tail_column, expand_column, kernel_column, kernel_row,
}
use sglang_flashnext_nvfp4kv.Qsa.Compact.{padded, compact-padded}
use sglang_flashnext_nvfp4kv.Qsa.Lookup.{
  get_elem?-count_up, length-count_up, length-tokens_of, All-take, tokens_of-Whole,
}
use sglang_flashnext_nvfp4kv.Qsa.Rows.{
  tokens_of, Whole, all_tokens-padded, take-padded, within-padded, shown, tail_entry-padded,
  count_blocks-padded, replicate-plus,
}
use sglang_flashnext_nvfp4kv.Qsa.Columns.{
  stores, stores_gaps, take-count_up, length-padded, expand_column-past, expand_column-front,
  some_inj, load_block-some, front-token, tail_column-shown, tail_column-past,
}

-- One row: `blocks` complete blocks and then `gaps` entries -1.
module _ (ratio token_topk : ℕ) (blocks : List ℕ) (gaps position seq : ℕ) where
  abbrev visible : ℕ
  visible = position + 1

  abbrev start : ℕ
  start = tail_start_of ratio visible

  -- The tokens of the blocks, and how many follow from the tail.
  abbrev front : List ℕ
  front = take token_topk (tokens_of ratio blocks)

  abbrev more : ℕ
  more = shown start (visible - start) seq (ratio - 1) 0

  -- How many columns the front takes.
  abbrev valid : ℕ
  valid = min (length blocks * ratio) token_topk

  length-front : length front ≡ valid
  length-front =
      ground (arith, length-take token_topk (tokens_of ratio blocks), length-tokens_of ratio blocks)

  torch_row-padded :
      token_topk ≤ (length blocks + gaps) * ratio
      → 0 < ratio
      → Whole ratio seq blocks
      → torch_row ratio token_topk (padded blocks gaps) position seq
        ≡ (map pos front ++ map pos (count_up more (start + 0)))
          ++ (replicate
                (min (token_topk - length (tokens_of ratio blocks)) (gaps * ratio))
                minus_one
              ++ replicate (ratio - 1 - more) minus_one)
  unfolding torch_row
  torch_row-padded cap pos_ratio whole =
      let j = min (token_topk - length (tokens_of ratio blocks)) (gaps * ratio) in
      let tail = padded (count_up more (start + 0)) (ratio - 1 - more) in
      let expanded_tokens : map (within seq)
            (take token_topk (all_tokens ratio (padded blocks gaps)))
          ≡ padded front j =
        ap (λ r. map (within seq) (take token_topk r)) (all_tokens-padded ratio blocks gaps)
        ∙ ap (map (within seq)) (take-padded token_topk (tokens_of ratio blocks) (gaps * ratio))
        ∙ within-padded seq front j (
            All-take (λ t. t < seq) token_topk (tokens_of ratio blocks)
              (tokens_of-Whole ratio seq blocks whole)) in
      let tail_tokens = tail_entry-padded start (visible - start) seq (ratio - 1) 0 in
      let size : length (padded front j ++ tail) ≤ final_topk_of ratio token_topk =
        let all = length-append (padded front j) tail in
        let l = length-padded front j in
        let r = length-padded (count_up more (start + 0)) (ratio - 1 - more) in
        let m = length-count_up more (start + 0) in
        let taken = length-take token_topk (tokens_of ratio blocks) in
        ground (arith, all, l, r, m, taken) in
      ap
        (λ r.
          compact (final_topk_of ratio token_topk)
            (r ++ map (tail_entry start (visible - start) seq) (range (ratio - 1))))
        expanded_tokens
      ∙ ap (λ r. compact (final_topk_of ratio token_topk) (padded front j ++ r)) tail_tokens
      ∙ compact-padded (final_topk_of ratio token_topk) front (count_up more (start + 0)) j
          (ratio - 1 - more) size

  module _ (size width : ℕ) where
    abbrev column : ℕ → ℤ
    column = kernel_column size width ratio token_topk (padded blocks gaps) position seq

    -- The column, with its counts known.
    column-eq :
        length blocks ≤ width
        → width ≤ size
        → (c : ℕ)
        → column c
          ≡ expand_column ratio token_topk seq
              (load_block
                (padded blocks gaps)
                (ltb c token_topk && ltb (c / ratio) width)
                (c / ratio))
              (tail_column ratio valid start (visible - start) seq c)
              valid
              c
    unfolding kernel_column
    column-eq le fits c =
        let counted : count_blocks width (padded blocks gaps) (range size) ≡ length blocks =
          count_blocks-padded width blocks gaps size 0 le ∙ omega arith in
        ap
          (λ n.
            expand_column ratio token_topk seq
              (load_block (padded blocks gaps) (ltb c token_topk && ltb (c / ratio) width)
                (c / ratio))
              (tail_column ratio (min (n * ratio) token_topk) start (visible - start) seq c)
              (min (n * ratio) token_topk) c)
          counted

    -- In the front, the token of the block.
    column-front :
        0 < ratio
        → length blocks ≤ width
        → width ≤ size
        → Whole ratio seq blocks
        → (c t : ℕ) → get_elem? front c ≡ some t
        → column (0 + c) ≡ pos t
    unfolding load_block expand_column
    column-front pos_ratio le fits whole c t e =
        let f = front-token ratio token_topk seq blocks c t pos_ratio whole e in
        at_front f.0 f.1 f.2 f.3 f.4 f.5 f.6
      where
        at_front :
            (b : ℕ)
            → get_elem? blocks (c / ratio) ≡ some b
            → t ≡ b * ratio + c % ratio
            → t < seq
            → c < token_topk
            → c < length blocks * ratio
            → c / ratio < length blocks
            → column (0 + c) ≡ pos t
        at_front b found same below in_topk inside q_lt =
            let mask : (ltb c token_topk && ltb (c / ratio) width) ≡ true =
              ground (arith, le, q_lt) in
            let tail = tail_column ratio valid start (visible - start) seq c in
            let zero_c : 0 + c ≡ c = omega arith in
            ap column zero_c
            ∙ column-eq le fits c
            ∙ ap (λ b'. expand_column ratio token_topk seq b' tail valid c)
                (load_block-some blocks gaps (ltb c token_topk && ltb (c / ratio) width) (c / ratio)
                  b mask found)
            ∙ expand_column-front ratio token_topk seq b tail valid c in_topk
                (omega (arith, same, below)) (omega arith)
            ∙ ap pos (sym same)

    -- Past it, the tail's tokens and then -1s.
    column-tail :
        length blocks ≤ width
        → width ≤ size
        → (c : ℕ) → valid ≤ c
        → column c ≡ tail_column ratio valid start (visible - start) seq c
    unfolding load_block expand_column
    column-tail le fits c past =
        column-eq le fits c
        ∙ expand_column-past ratio token_topk seq
            (load_block (padded blocks gaps) (ltb c token_topk && ltb (c / ratio) width)
              (c / ratio))
            (tail_column ratio valid start (visible - start) seq c) valid c past

    column-more :
        length blocks ≤ width
        → width ≤ size
        → (o t : ℕ) → get_elem? (count_up more (start + 0)) o ≡ some t
        → column (0 + length front + o) ≡ pos t
    column-more le fits o t e =
        let inside : o < length (count_up more (start + 0)) =
          lt-of-get_elem? (count_up more (start + 0)) o e in
        let o_lt : o < more = subst (λ k. o < k) (length-count_up more (start + 0)) inside in
        let same : start + 0 + o ≡ t =
          some_inj (sym (get_elem?-count_up more (start + 0) o o_lt) ∙ e) in
        let l : length front ≡ valid = length-front in
        let offset : 0 + length front + o - valid ≡ o = omega arith in
        let past : valid ≤ 0 + length front + o = omega arith in
        let value : start + (0 + length front + o - valid) ≡ t = omega (arith, offset, same) in
        column-tail le fits (0 + length front + o) past
        ∙ tail_column-shown ratio valid start (visible - start) seq (0 + length front + o) past
            (subst (λ k. k < more) (sym offset) o_lt)
        ∙ ap pos value

    column-gap :
        length blocks ≤ width
        → width ≤ size
        → (o : ℕ) → column (0 + length front + more + o) ≡ minus_one
    column-gap le fits o =
        let l : length front ≡ valid = length-front in
        let past : valid ≤ 0 + length front + more + o = omega arith in
        column-tail le fits (0 + length front + more + o) past
        ∙ tail_column-past ratio valid start (visible - start) seq (0 + length front + more + o)
            (omega arith)

    -- The kernel's columns in three runs.
    kernel_row-padded :
        0 < ratio
        → length blocks ≤ width
        → width ≤ size
        → Whole ratio seq blocks
        → (n : ℕ) → final_topk_of ratio token_topk ≡ length front + (more + n)
        → final_topk_of ratio token_topk ≤ size
        → kernel_row size width ratio token_topk (padded blocks gaps) position seq
          ≡ map pos front ++ (map pos (count_up more (start + 0)) ++ replicate n minus_one)
    unfolding kernel_row
    kernel_row-padded pos_ratio le fits whole n total room =
        let tail = count_up more (start + 0) in
        let l = length-front in
        let m = length-count_up more (start + 0) in
        let f0 = 0 + length front in
        let tail_runs : map column (count_up more f0) ≡ map pos tail =
          ap (λ k. map column (count_up k f0)) (sym m)
          ∙ stores column tail f0 (column-more le fits) in
        let gap_runs : map column (count_up n (f0 + more)) ≡ replicate n minus_one =
          stores_gaps column n (f0 + more) (λ o lt. column-gap le fits o) in
        ap (map column) (take-count_up (final_topk_of ratio token_topk) size 0 room)
        ∙ ap (λ k. map column (count_up k 0)) total
        ∙ ap (map column) (
            count_up-plus (length front) (more + n) 0
            ∙ ap (λ r. range (length front) ++ r) (count_up-plus more n f0))
        ∙ map-append column (range (length front)) (count_up more f0 ++ count_up n (f0 + more))
        ∙ ap (λ r. r ++ map column (count_up more f0 ++ count_up n (f0 + more)))
            (stores column front 0 (column-front pos_ratio le fits whole))
        ∙ ap (λ r. map pos front ++ r)
            (map-append column (count_up more f0) (count_up n (f0 + more))
              ∙ ap (λ r. r ++ map column (count_up n (f0 + more))) tail_runs
              ∙ ap (λ r. map pos tail ++ r) gap_runs)

    pub row_agree :
        0 < ratio
        → length blocks + gaps ≡ width
        → width ≡ block_topk_of ratio token_topk
        → final_topk_of ratio token_topk ≤ size
        → Whole ratio seq blocks
        → torch_row ratio token_topk (padded blocks gaps) position seq
          ≡ kernel_row size width ratio token_topk (padded blocks gaps) position seq
    unfolding block_topk_of final_topk_of
    row_agree pos_ratio count topk room whole =
        let j = min (token_topk - length (tokens_of ratio blocks)) (gaps * ratio) in
        let n = j + (ratio - 1 - more) in
        let dist = add-mul (length blocks) gaps ratio in
        let q : token_topk + ratio - 1 < (token_topk + ratio - 1) / ratio * ratio + ratio =
          lt-div-mul-add pos_ratio in
        let q' : token_topk + ratio - 1 < (length blocks + gaps) * ratio + ratio =
          subst (λ k. token_topk + ratio - 1 < k * ratio + ratio) (sym (count ∙ topk)) q in
        let cap : token_topk ≤ (length blocks + gaps) * ratio = omega arith in
        let small : (token_topk + ratio - 1) / ratio ≤ token_topk + ratio - 1 = div-le_self _ _ in
        let fits : width ≤ size = omega (arith, topk, room) in
        let total : final_topk_of ratio token_topk ≡ length front + (more + n) =
          let l : length front ≡ valid = length-front in
          let toks = length-tokens_of ratio blocks in omega arith in
        torch_row-padded cap pos_ratio whole
        ∙ append_assoc (map pos front) (map pos (count_up more (start + 0)))
            (replicate j minus_one ++ replicate (ratio - 1 - more) minus_one)
        ∙ ap (λ r. map pos front ++ (map pos (count_up more (start + 0)) ++ r))
            (replicate-plus j (ratio - 1 - more))
        ∙ sym (kernel_row-padded pos_ratio (omega arith) fits whole n total room)
