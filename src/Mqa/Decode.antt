-- ===== src/Mqa/Decode.antt =====
-- runtime-src/mqa.py: the decode logits over a paged cache, by Torch and by the TileLang kernel. `raw` and
-- `scaled` are as in the prefill. A page holds `page_size` keys; an entry of a page table is signed.
-- The kernel's shared tile is a function from its rows to keys: rows that were not copied keep what they
-- held. A read outside the table or the cache leaves a row as it is, and a store past the row's end is dropped.
use sglang_flashnext_nvfp4kv.Prelude.{
  ℕ, zero, suc, ◌+◌, ◌-◌, ◌*◌, ◌/◌, ◌%◌, min, Bool, ◌&&◌, ◌||◌, not, List, [], ◌∷◌, ◌++◌, map,
  Option, none, some, ltb, leb, nat_eq, ◌==◌, if◌then◌else◌, length, set, get_elem?, get_or, take,
  replicate,
}
use sglang_flashnext_nvfp4kv.Prelude.Int.{ℤ, pos, negsuc}
use sglang_flashnext_nvfp4kv.Mqa.Prefill.{ceildiv}

-- One request: its query, its row of the page table and its context length.
pub record Request (Q : Type 0) : Type 0 where
  pub query : Q
  pub pages : List ℤ
  pub context_len : ℕ

-- `clamp_min(0)`.
unfoldable pub clamp : ℤ → ℕ
clamp (pos n) = n
clamp (negsuc n) = 0

module _ {K : Type 0} (cache : List (List K)) where
  -- `k_cache[page_table.clamp_min(0)]`, flat.
  unfoldable pub gathered : List ℤ → List K
  unfolding clamp
  gathered [] = []
  gathered (t ∷ ts) = get_or cache (clamp t) [] ++ gathered ts

module _ {F : Type 0} (minus_inf : F) where
  -- `masked_fill_(positions >= context_lens, -inf)` from position `i` on.
  unfoldable pub mask_past : ℕ → ℕ → List F → List F
  mask_past i context_len [] = []
  mask_past i context_len (x ∷ xs) =
      (if leb context_len i then minus_inf else x) ∷ mask_past (suc i) context_len xs

-- A key of the cache by a signed page and a row.
unfoldable pub key_at : {K : Type 0} → List (List K) → Option ℤ → ℕ → Option K
key_at cache none row = none
key_at cache (some (negsuc n)) row = none
key_at cache (some (pos n)) row = get_elem? (get_or cache n []) row

unfoldable pub or_else : {K : Type 0} → Option K → K → K
or_else none k = k
or_else (some k) d = k

-- `T.copy` of a page to rows `sp * page_size` up to `(sp + 1) * page_size` of the tile.
unfoldable pub copy_page : {K : Type 0} → List (List K) → ℕ → Option ℤ → ℕ → (ℕ → K) → ℕ → K
unfolding key_at or_else
copy_page cache page_size page sp shared row =
    if leb (sp * page_size) row && ltb row ((sp + 1) * page_size)
    then or_else (key_at cache page (row - sp * page_size)) (shared row)
    else shared row

module _ {Q K F : Type 0} (raw : Q → K → F) (scaled : F → F) (minus_inf : F)
    (cache : List (List K)) where
  -- One row of `torch_qsa_mqa_decode`.
  unfoldable pub torch_decode : ℕ → Request Q → List F
  unfolding gathered mask_past
  torch_decode max_model_len r =
      let scores =
        mask_past minus_inf 0 r.context_len
          (map (λ k. scaled (raw r.query k)) (gathered cache r.pages)) in
      let copy_len = min (length scores) max_model_len in
      take copy_len scores ++ replicate (max_model_len - copy_len) minus_inf

  -- The copies of a group's pages into the tile, sub-page after sub-page; `first` is
  -- `group * sub_pages`.
  unfoldable pub copy_pages : ℕ → Request Q → ℕ → ℕ → ℕ → (ℕ → K) → ℕ → K
  unfolding copy_page
  copy_pages page_size r first zero sp shared = shared
  copy_pages page_size r first (suc n) sp shared = copy_pages page_size r first n (suc sp) (
      if ltb ((first + sp) * page_size) r.context_len
      then copy_page cache page_size (get_elem? r.pages (first + sp)) sp shared
      else shared)

  -- The stores of a group: `n` tokens from `token` on.
  unfoldable pub store_tokens : Request Q → (ℕ → K) → ℕ → ℕ → ℕ → List F → List F
  store_tokens r shared base zero token row = row
  store_tokens r shared base (suc n) token row = store_tokens r shared base n (suc token) (
      if ltb (base + token) r.context_len
      then set row (base + token) (scaled (raw r.query (shared token)))
      else row)

  -- A group of 64 tokens.
  unfoldable pub run_group : ℕ → Request Q → (ℕ → K) → ℕ → List F → List F
  unfolding copy_pages store_tokens
  run_group page_size r shared group row =
      let sub_pages = 64 / page_size in
      let tile = copy_pages page_size r (group * sub_pages) sub_pages 0 shared in
      if ltb (group * 64) r.context_len then store_tokens r tile (group * 64) 64 0 row else row

  -- The groups, one to a CTA; `junk` is what a CTA's tile holds at first.
  unfoldable pub run_groups : ℕ → Request Q → (ℕ → ℕ → K) → ℕ → ℕ → List F → List F
  unfolding run_group
  run_groups page_size r junk zero group row = row
  run_groups page_size r junk (suc n) group row =
      run_groups page_size r junk n (suc group) (run_group page_size r (junk group) group row)

  -- The kernel's row of one request.
  unfoldable pub kernel_decode : ℕ → (ℕ → ℕ → K) → ℕ → Request Q → List F
  unfolding run_groups ceildiv
  kernel_decode page_size junk max_model_len r =
      run_groups page_size r junk (ceildiv (length r.pages) (64 / page_size)) 0
        (replicate max_model_len minus_inf)

  -- `tilelang_qsa_mqa_decode`; none is the error for the page size.
  unfoldable pub tilelang_decode :
      ℕ → (Request Q → ℕ → ℕ → K) → ℕ → List (Request Q) → Option (List (List F))
  unfolding kernel_decode
  tilelang_decode page_size junk max_model_len requests =
      if ltb page_size 8 || not (64 % page_size == 0)
      then none
      else if length requests == 0 || max_model_len == 0
      then some (map (λ r. replicate max_model_len minus_inf) requests)
      else some (map (λ r. kernel_decode page_size (junk r) max_model_len r) requests)

  -- `qsa_mqa_decode`.
  unfoldable pub qsa_mqa_decode :
      Bool → Bool → ℕ → (Request Q → ℕ → ℕ → K) → ℕ → List (Request Q) → Option (List (List F))
  unfolding tilelang_decode torch_decode
  qsa_mqa_decode is_cuda has_tilelang page_size junk max_model_len requests =
      if is_cuda && has_tilelang
      then tilelang_decode page_size junk max_model_len requests
      else some (map (torch_decode max_model_len) requests)
