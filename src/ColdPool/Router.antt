-- ===== src/ColdPool/Router.antt =====
-- patches/expert_cold_pool.py: the two remap lanes of select_experts, `remap_topk_ids` and
-- `remap_packed_ids`, the identity gate (`register_managed`, `is_managed_config`) and
-- `apply_keep_mask`. Ids are integers: -1 marks padding, ids from the table's length on are shared
-- experts. A packed value is an int32, given by the integer that it stands for.
use mathlib.Core.Option
use sglang_flashnext_nvfp4kv.Prelude.{
  ℕ, ◌+◌, ◌-◌, ◌*◌, ◌/◌, ◌%◌, ◌^◌, Bool, true, false, ◌&&◌, List, [], ◌∷◌, ◌++◌, map, Option, none,
  some, min, nat_eq, ltb, if◌then◌else◌, Dict, lookup, insert, get_or, length, set, replicate,
}
use sglang_flashnext_nvfp4kv.Prelude.Int.{ℤ, pos, negsuc, pos_part}
use sglang_flashnext_nvfp4kv.ColdPool.State.{Dtype, Key, key_eq, Device}

-- `_remap_or_none`: no table before the shrink. Devices are not modelled: the table is on the ids'.
unfoldable pub remap_or_none : Bool → ℕ → Dict ℕ (List ℕ) → Option (List ℕ)
remap_or_none false layer_id remap = none
remap_or_none true layer_id remap = lookup layer_id remap

-- One id: `safe` is the id clamped at 0, the gather is clamped at the table's end, and the result
-- counts only where `ok` holds.
unfoldable pub remap_id : List ℕ → ℤ → ℤ
remap_id tbl id =
    let safe = pos_part id in
    let ok = ltb safe (length tbl) && elim id [ pos _ ↦ true | negsuc _ ↦ false ] in
    let mapped = get_or tbl (min safe (length tbl - 1)) 0 in if ok then pos mapped else id

unfoldable pub remap_topk_ids : Bool → Option ℕ → Dict ℕ (List ℕ) → List ℤ → List ℤ
unfolding remap_id remap_or_none
remap_topk_ids shrunk none remap ids = ids
remap_topk_ids shrunk (some layer_id) remap ids = elim (remap_or_none shrunk layer_id remap) [
  | none ↦ ids
  | some tbl ↦ map (remap_id tbl) ids
]

-- The int32 of a bit pattern.
abbrev pub int32 : ℕ → ℤ
int32 n = let w = n % 2 ^ 32 in if ltb w (2 ^ 31) then pos w else negsuc (2 ^ 32 - w - 1)

-- One packed value: `(packed >> 16) & 0xFFFF` is the id, `packed & 0xFFFF` the low half. The low half
-- has 16 bits, so that `(new_ids << 16) | low` is a sum.
unfoldable pub remap_packed : List ℕ → ℤ → ℤ
remap_packed tbl (negsuc n) = negsuc n
remap_packed tbl (pos n) =
    let id = n / 2 ^ 16 % 2 ^ 16 in
    let low = n % 2 ^ 16 in
    let new_id = get_or tbl (min id (length tbl - 1)) 0 in int32 (new_id * 2 ^ 16 + low)

unfoldable pub remap_packed_ids : Bool → Option ℕ → Dict ℕ (List ℕ) → List ℤ → List ℤ
unfolding remap_packed remap_or_none
remap_packed_ids shrunk none remap packed = packed
remap_packed_ids shrunk (some layer_id) remap packed = elim (remap_or_none shrunk layer_id remap) [
  | none ↦ packed
  | some tbl ↦ map (remap_packed tbl) packed
]

-- `_CFG_LIDS`, by the identity of the registered TopKConfig object; `_CFG_REFS` keeps the objects
-- alive, so that an identity is never reused.
pub record Gate : Type 0 where
  pub cfg_lids : Dict ℕ ℕ
  pub cfg_refs : List ℕ

-- `register_managed`; `none` is the RuntimeError of a module with no config.
unfoldable pub register_managed : Option ℕ → ℕ → Gate → Option Gate
register_managed none layer_id g = none
register_managed (some cfg) layer_id g =
    some (record { cfg_lids = insert cfg layer_id g.cfg_lids; cfg_refs = g.cfg_refs ++ cfg ∷ [] })

unfoldable pub is_managed_config : Bool → Option ℕ → Gate → Option ℕ
is_managed_config false cfg g = none
is_managed_config true none g = none
is_managed_config true (some cfg) g = lookup cfg g.cfg_lids

-- `col[keep] = 0.0`.
unfoldable pub open_all {ℓ} : {V : Type ℓ} → V → List ℕ → List V → List V
open_all value [] col = col
open_all value (gid ∷ gids) col = open_all value gids (set col gid value)

module _ {R V : Type 0} (d : Device R V) where
  unfoldable pub bias_column : Dtype → ℕ → List ℕ → List V
  unfolding open_all
  bias_column t width keep = open_all d.zero_value keep (replicate width (d.finfo_min t))

  -- `_bias_col_or_none`, after `_keep_mask`: the column, and the cache with what the lazy path added.
  -- No column is built while a CUDA graph is captured.
  unfoldable pub bias_col_or_none :
      Option (Dict ℕ (List ℕ))
      → Bool
      → ℕ
      → ℕ
      → Dtype
      → Dict Key (List V)
      → Option (List V) × Dict Key (List V)
  bias_col_or_none none capturing layer_id width t bias = (none, bias)
  bias_col_or_none (some km) capturing layer_id width t bias = elim (lookup layer_id km) [
    | none ↦ (none, bias)
    | some [] ↦ (none, bias)
    | some (g ∷ gs) ↦ elim (lookup (layer_id, t) bias) [
      | some col ↦ (some col, bias)
      | none ↦
          let col = bias_column t width (g ∷ gs) in
          if capturing then (none, bias) else (some col, insert (layer_id, t) col bias)
    ]
  ]

  module _ (add : V → V → V) where
    -- `router_logits + col`, one row. A column of another width does not broadcast: torch raises.
    unfoldable pub add_column : List V → List V → Option (List V)
    add_column [] [] = some []
    add_column [] (c ∷ cs) = none
    add_column (x ∷ xs) [] = none
    add_column (x ∷ xs) (c ∷ cs) = Option.map (λ ys. add x c ∷ ys) (add_column xs cs)

    unfoldable pub add_rows : List (List V) → List V → Option (List (List V))
    add_rows [] col = some []
    add_rows (r ∷ rs) col = elim (add_column r col) [
      | none ↦ none
      | some r' ↦ Option.map (λ rs'. r' ∷ rs') (add_rows rs col)
    ]

    -- `apply_keep_mask`: the biased logits, and the logits before the mask where it is active.
    unfoldable pub apply_keep_mask :
        Bool
        → Option (Dict ℕ (List ℕ))
        → Bool
        → Option ℕ
        → ℕ
        → Dtype
        → List (List V)
        → Dict Key (List V)
        → Option (List (List V) × Option (List (List V)) × Dict Key (List V))
    apply_keep_mask false km capturing layer_id width t logits bias = some (logits, none, bias)
    apply_keep_mask true km capturing none width t logits bias = some (logits, none, bias)
    apply_keep_mask true km capturing (some layer_id) width t logits bias =
        let (col, bias') = bias_col_or_none km capturing layer_id width t bias in
        elim col [
          | none ↦ some (logits, none, bias')
          | some c ↦ Option.map (λ biased. (biased, some logits, bias')) (add_rows logits c)
        ]
