-- ===== src/ColdPool/Shrink.antt =====
-- patches/expert_cold_pool.py: `LayerPool.__init__`, `build_tables`, and the body of
-- `maybe_shrink_after_process` for one layer. The host rows are views of one flat pinned buffer in
-- the source; here they are the rows. The loop over names outside and ids inside is written the other
-- way round, which gives the same dictionary. New GPU rows are uninitialised: `fresh` says what they
-- hold. An index out of range raises IndexError, here `none`.
pub mod Contents
pub mod Start
pub mod Arms
use Prim.Native.String.{String}
use text.Mathlib.Text.{◌==◌ as str_eq}
use sglang_flashnext_nvfp4kv.Prelude.{
  ℕ, zero, suc, ◌+◌, ◌≡◌, Bool, true, false, ◌||◌, not, List, [], ◌∷◌, ◌++◌, Option, none, some,
  nat_eq, ◌==◌, leb, if◌then◌else◌, Dict, lookup, insert, contains, length, get_elem?, set,
  replicate, count_up, range,
}
use sglang_flashnext_nvfp4kv.ColdPool.State.{
  Dtype, bfloat16, float32, float16, Key, key_eq, Param, param_eq, w13_weight, w13_weight_scale,
  Tensor, scalar, rows, Device, LayerPool, Caches,
}
use sglang_flashnext_nvfp4kv.ColdPool.Router.{bias_column, Gate, register_managed}

infixl 5 ◌>>=◌
abbrev pub ◌>>=◌ {ℓ κ} : {A : Type ℓ} {B : Type κ} → Option A → (A → Option B) → Option B
none >>= f = none
some a >>= f = f a

-- `[g for g in range(E) if g not in keep_set]`, from `i` on.
unfoldable pub cold_from : ℕ → ℕ → List ℕ → List ℕ
cold_from zero i keep = []
cold_from (suc n) i keep =
    if contains i keep then cold_from n (suc i) keep else i ∷ cold_from n (suc i) keep

-- `for row, gid in enumerate(keep): tbl[gid] = row`.
unfoldable pub number_rows : ℕ → List ℕ → List ℕ → List ℕ
number_rows row [] tbl = tbl
number_rows row (gid ∷ gids) tbl = number_rows (suc row) gids (set tbl gid row)

-- `t.index_select(0, ids)`.
unfoldable pub index_select {ℓ} : {A : Type ℓ} → List A → List ℕ → Option (List A)
index_select xs [] = some []
index_select xs (i ∷ is) = do x ← get_elem? xs i; ys ← index_select xs is; some (x ∷ ys)

module _ {R V : Type 0} (d : Device R V) where
  unfoldable pub build_tables : ℕ → List ℕ → ℕ → Caches V → Caches V
  unfolding number_rows
  build_tables layer_id keep width c = record {
    bias =
        insert (layer_id, float16) (bias_column d float16 width keep)
          (insert (layer_id, float32) (bias_column d float32 width keep)
            (insert (layer_id, bfloat16) (bias_column d bfloat16 width keep) c.bias));
    remap = insert layer_id (number_rows 0 keep (replicate width 0)) c.remap;
  }

module _ {R V : Type 0} where
  unfoldable pub layer_pool : ℕ → List ℕ → List ℕ → ℕ → Dict Param (Tensor R) → ℕ → LayerPool R V
  layer_pool layer_id keep cold slots tensors E = record {
    layer_id = layer_id;
    keep = keep;
    keep_len = length keep;
    cold = cold;
    slots = slots;
    tensors = tensors;
    E = E;
    phys = length keep + slots;
    host = [];
    gid_row = [];
    row_gid = [];
    row_tick = [];
    protected = [];
    free_rows = count_up slots (length keep);
    tick = 0;
    need_counts = none;
    seen_tick = none;
  }

module _ {R : Type 0} where
  -- The rows of one cold expert, a tensor that is 0-d or not expert-sharded skipped.
  unfoldable pub cold_rows : ℕ → ℕ → Dict Param (Tensor R) → Option (Dict Param R)
  cold_rows E gid [] = some []
  cold_rows E gid ((name, scalar x) ∷ ts) = cold_rows E gid ts
  cold_rows E gid ((name, rows xs) ∷ ts) =
      if length xs == E
      then (do x ← get_elem? xs gid; rest ← cold_rows E gid ts; some ((name, x) ∷ rest))
      else cold_rows E gid ts

  unfoldable pub host_pool : ℕ → List ℕ → Dict Param (Tensor R) → Option (Dict ℕ (Dict Param R))
  unfolding cold_rows
  host_pool E [] ts = some []
  host_pool E (gid ∷ gids) ts = do
    rs ← cold_rows E gid ts
    rest ← host_pool E gids ts
    some ((gid, rs) ∷ rest)

  -- The GPU swap: the keep rows in keep order, then `slots` uninitialised rows.
  unfoldable pub shrink_tensors :
      ℕ → List ℕ → List R → Dict Param (Tensor R) → Option (Dict Param (Tensor R))
  unfolding index_select
  shrink_tensors E keep fresh [] = some []
  shrink_tensors E keep fresh ((name, scalar x) ∷ ts) = do
    rest ← shrink_tensors E keep fresh ts
    some ((name, scalar x) ∷ rest)
  shrink_tensors E keep fresh ((name, rows xs) ∷ ts) =
      if length xs == E
      then (do
        ys ← index_select xs keep
        rest ← shrink_tensors E keep fresh ts
        some ((name, rows (ys ++ fresh)) ∷ rest))
      else (do rest ← shrink_tensors E keep fresh ts; some ((name, rows xs) ∷ rest))

-- A parameter of the module as `_inventory_gate` reads it: its name, its shape, and for a swizzled
-- scale whether it is the same object as the scale it derives from.
pub record NamedParam : Type 0 where
  pub name : String
  pub dims : List ℕ
  pub aliased : Bool

-- ALL_PARAMS, by name.
abbrev pub whitelist : List String
whitelist =
    "w13_weight" ∷ "w2_weight" ∷ "w13_weight_scale" ∷ "w2_weight_scale" ∷ "w13_weight_scale_2"
    ∷ "w2_weight_scale_2" ∷ "w13_input_scale" ∷ "w2_input_scale" ∷ "g1_alphas" ∷ "g1_alphas_up"
    ∷ "g2_alphas" ∷ []

unfoldable pub listed : String → List String → Bool
listed name [] = false
listed name (x ∷ xs) = str_eq x name || listed name xs

-- Whether one parameter stops the shrink.
unfoldable pub is_unclassified : ℕ → NamedParam → Bool
unfolding listed
is_unclassified E p = elim p.dims [
  | [] ↦ false
  | n ∷ _ ↦
      if not (n == E)
      then false
      else if listed p.name whitelist
      then false
      else if listed p.name ("w13_blockscale_swizzled" ∷ "w2_blockscale_swizzled" ∷ [])
      then not p.aliased
      else true
]

unfoldable pub inventory_gate : ℕ → List NamedParam → List NamedParam
unfolding is_unclassified
inventory_gate E [] = []
inventory_gate E (p ∷ ps) =
    let bad = inventory_gate E ps in if is_unclassified E p then p ∷ bad else bad

-- How the shrink of a layer ends: the layer is left alone, an error ends the start-up, or the pool, the
-- caches and the identity gate with the layer in them.
pub data Outcome (R V : Type 0) : Type 0 where
  skipped : Outcome R V
  unclassified : List NamedParam → Outcome R V
  index_error : Outcome R V
  no_topk_config : Outcome R V
  shrunk : LayerPool R V → Caches V → Gate → Outcome R V

-- `ref` and `scale_ref`: the number of experts, or none for a module without the two parameters or with
-- a 0-d weight.
unfoldable pub expert_count : {R : Type 0} → Option (Tensor R) → Option (Tensor R) → Option ℕ
expert_count none scale_ref = none
expert_count (some ref) none = none
expert_count (some (scalar x)) (some scale_ref) = none
expert_count (some (rows xs)) (some scale_ref) = some (length xs)

-- The config that `register_managed` finds: the one of the module's own `topk`, which may lack it, or
-- without a `topk` the one of the owner that `_owner_topk` finds.
unfoldable pub config_of : Option (Option ℕ) → Option ℕ → Option ℕ
config_of none owner = owner
config_of (some cfg) owner = cfg

module _ {R V : Type 0} (d : Device R V) where
  -- From the pool's construction to the tables.
  unfoldable pub build_pool :
      ℕ
      → List ℕ
      → List ℕ
      → ℕ
      → ℕ
      → List R
      → Dict Param (Tensor R)
      → Caches V
      → Option (LayerPool R V × Caches V)
  unfolding layer_pool host_pool shrink_tensors build_tables
  build_pool layer_id keep cold slots E fresh tensors c = do
    host ← host_pool E cold tensors
    small ← shrink_tensors E keep fresh tensors
    some (
      record (layer_pool layer_id keep cold slots small E) { host = host },
      build_tables d layer_id keep E c,
    )

  -- The arming of the identity gate, after which the layer is in the state.
  unfoldable pub arm_gate :
      ℕ → Option (Option ℕ) → Option ℕ → LayerPool R V → Caches V → Gate → Outcome R V
  unfolding register_managed config_of
  arm_gate layer_id topk owner pool c gate =
      elim (register_managed (config_of topk owner) layer_id gate) [
        | none ↦ no_topk_config
        | some gate' ↦ shrunk pool c gate'
      ]

  -- A layer of E experts.
  unfoldable pub shrink_sized :
      ℕ
      → List ℕ
      → ℕ
      → ℕ
      → List R
      → List NamedParam
      → Dict Param (Tensor R)
      → Option (Option ℕ)
      → Option ℕ
      → Caches V
      → Gate
      → Outcome R V
  unfolding build_pool arm_gate inventory_gate cold_from
  shrink_sized layer_id keep slots E fresh named tensors topk owner c gate =
      if leb E 1 then skipped else elim (cold_from E 0 keep) [
        | [] ↦ skipped
        | g ∷ gs ↦ elim (inventory_gate E named) [
          | p ∷ ps ↦ unclassified (p ∷ ps)
          | [] ↦ elim (build_pool layer_id keep (g ∷ gs) slots E fresh tensors c) [
            | none ↦ index_error
            | some (pool, c') ↦ arm_gate layer_id topk owner pool c' gate
          ]
        ]
      ]

  -- One FusedMoE module of `maybe_shrink_after_process`, its layer in the keep mask.
  unfoldable pub shrink_layer :
      ℕ
      → List ℕ
      → ℕ
      → List R
      → List NamedParam
      → Dict Param (Tensor R)
      → Option (Option ℕ)
      → Option ℕ
      → Caches V
      → Gate
      → Outcome R V
  unfolding shrink_sized expert_count
  shrink_layer layer_id keep slots fresh named tensors topk owner c gate =
      elim (expert_count (lookup w13_weight tensors) (lookup w13_weight_scale tensors)) [
        | none ↦ skipped
        | some E ↦ shrink_sized layer_id keep slots E fresh named tensors topk owner c gate
      ]
