-- ===== src/ColdPool/State.antt =====
-- patches/expert_cold_pool.py: the state. `LayerPool` (one managed MoE layer), the caches
-- `_BIAS_CACHE` and `_REMAP_CACHE`, and the counters of `_STATE["stats"]`. A tensor row is a value
-- of a type `R`, a float is a value of a type `V`; what torch does with them is in `Device`.
use sglang_flashnext_nvfp4kv.Prelude.{
  ℕ, ◌≡◌, ◌↔◌, refl, Bool, true, ◌&&◌, List, [], ◌∷◌, Option, arith, Eq, ◌==◌, nat_eq, Dict, zero,
  suc,
}
use sglang_flashnext_nvfp4kv.Prelude.Int.{ℤ}

-- torch.bfloat16, torch.float32, torch.float16: the dtypes of the bias columns.
pub data Dtype : Type 0 where
  bfloat16 float32 float16 : Dtype

-- ALL_PARAMS: ROW_PARAMS, then DERIVED_PARAMS.
pub data Param : Type 0 where
  w13_weight w2_weight w13_weight_scale w2_weight_scale : Param
  w13_weight_scale_2 w2_weight_scale_2 w13_input_scale w2_input_scale : Param
  g1_alphas g1_alphas_up g2_alphas : Param

abbrev pub dtype_code : Dtype → ℕ
dtype_code bfloat16 = 0
dtype_code float32 = 1
dtype_code float16 = 2

abbrev pub param_code : Param → ℕ
param_code w13_weight = 0
param_code w2_weight = 1
param_code w13_weight_scale = 2
param_code w2_weight_scale = 3
param_code w13_weight_scale_2 = 4
param_code w2_weight_scale_2 = 5
param_code w13_input_scale = 6
param_code w2_input_scale = 7
param_code g1_alphas = 8
param_code g1_alphas_up = 9
param_code g2_alphas = 10

abbrev pub dtype_beq : Dtype → Dtype → Bool
dtype_beq a b = dtype_code a == dtype_code b

abbrev pub param_beq : Param → Param → Bool
param_beq a b = param_code a == param_code b

-- The dtype of a code, to read a code back.
dtype_of : ℕ → Dtype
dtype_of zero = bfloat16
dtype_of (suc zero) = float32
dtype_of (suc (suc _)) = float16

dtype_of_code : (a : Dtype) → dtype_of (dtype_code a) ≡ a
unfolding dtype_of
dtype_of_code bfloat16 = refl
dtype_of_code float32 = refl
dtype_of_code float16 = refl

param_of : ℕ → List Param → Param
param_of n [] = w13_weight
param_of zero (p ∷ ps) = p
param_of (suc n) (p ∷ ps) = param_of n ps

-- The order of the loops over ALL_PARAMS.
abbrev pub all_params : List Param
all_params =
    w13_weight ∷ w2_weight ∷ w13_weight_scale ∷ w2_weight_scale ∷ w13_weight_scale_2
    ∷ w2_weight_scale_2 ∷ w13_input_scale ∷ w2_input_scale ∷ g1_alphas ∷ g1_alphas_up ∷ g2_alphas
    ∷ []

param_of_code : (a : Param) → param_of (param_code a) all_params ≡ a
unfolding param_of
param_of_code w13_weight = refl
param_of_code w2_weight = refl
param_of_code w13_weight_scale = refl
param_of_code w2_weight_scale = refl
param_of_code w13_weight_scale_2 = refl
param_of_code w2_weight_scale_2 = refl
param_of_code w13_input_scale = refl
param_of_code w2_input_scale = refl
param_of_code g1_alphas = refl
param_of_code g1_alphas_up = refl
param_of_code g2_alphas = refl

pub dtype_beq_iff : (a b : Dtype) → (dtype_beq a b ≡ true) ↔ (a ≡ b)
dtype_beq_iff a b = (λ h. ground (arith, dtype_of_code a, dtype_of_code b), λ h. ground arith)

pub param_beq_iff : (a b : Param) → (param_beq a b ≡ true) ↔ (a ≡ b)
param_beq_iff a b = (λ h. ground (arith, param_of_code a, param_of_code b), λ h. ground arith)

instance abbrev pub dtype_eq : Eq Dtype
dtype_eq = record { beq = dtype_beq; beq_iff = dtype_beq_iff }

instance abbrev pub param_eq : Eq Param
param_eq = record { beq = param_beq; beq_iff = param_beq_iff }

-- A key `(layer_id, dtype)` of `_BIAS_CACHE`.
abbrev pub Key : Type 0
Key = ℕ × Dtype

abbrev pub key_beq : Key → Key → Bool
key_beq a b = (a.0 == b.0) && (a.1 == b.1)

pub key_beq_iff : (a b : Key) → (key_beq a b ≡ true) ↔ (a ≡ b)
key_beq_iff (l, t) (m, u) =
    (λ h. ground (arith, dtype_beq_iff t u), λ h. ground (arith, dtype_beq_iff t u))

instance abbrev pub key_eq : Eq Key
key_eq = record { beq = key_beq; beq_iff = key_beq_iff }

-- What the code takes from torch: the float 0.0, `torch.finfo(dtype).min`, and
-- `numel() * element_size()` of a row.
pub record Device (R V : Type 0) : Type 0 where
  pub zero_value : V
  pub finfo_min : Dtype → V
  pub row_bytes : R → ℕ

-- An attribute of the module: a 0-d tensor, or a tensor by its rows.
pub data Tensor (R : Type 0) : Type 0 where
  scalar : R → Tensor R
  rows : List R → Tensor R

-- `class LayerPool`. `tensors` is the part of `module` that the pool touches, `need_counts` and
-- `seen_tick` are per-expert vectors that are created on first use.
pub record LayerPool (R V : Type 0) : Type 0 where
  pub layer_id : ℕ
  pub keep : List ℕ
  pub keep_len : ℕ
  pub cold : List ℕ
  pub slots : ℕ
  pub tensors : Dict Param (Tensor R)
  pub E : ℕ
  pub phys : ℕ
  pub host : Dict ℕ (Dict Param R)
  pub gid_row : Dict ℕ ℕ
  pub row_gid : Dict ℕ ℕ
  pub row_tick : Dict ℕ ℤ
  pub protected : List ℕ
  pub free_rows : List ℕ
  pub tick : ℕ
  pub need_counts : Option (List V)
  pub seen_tick : Option (List ℤ)

-- `_BIAS_CACHE` and `_REMAP_CACHE`.
pub record Caches (V : Type 0) : Type 0 where
  pub bias : Dict Key (List V)
  pub remap : Dict ℕ (List ℕ)

-- `_STATE["stats"]`, which exists once a layer was shrunk.
pub record Stats : Type 0 where
  pub calls : ℕ
  pub strong : ℕ
  pub staged : ℕ
  pub evicted : ℕ
  pub h2d_bytes : ℕ
  pub demoted : ℕ
  pub promoted : ℕ
  pub stage_fail : ℕ

-- What the staging of one layer reads and writes.
pub record Cold (R V : Type 0) : Type 0 where
  pub pool : LayerPool R V
  pub caches : Caches V
  pub stats : Stats
