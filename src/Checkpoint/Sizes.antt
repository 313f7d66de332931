-- ===== src/Checkpoint/Sizes.antt =====
-- runtime-src/mamba_checkpoint_pool.py: the buffers of the checkpoint pool, their bytes, the estimate that
-- is made before they are allocated, and the decision on it. A tensor is its shape and the bytes of an
-- entry; `torch.cuda.mem_get_info` is an argument, none where it is not asked or fails.
use sglang_flashnext_nvfp4kv.Prelude.{
  ℕ, ◌+◌, ◌*◌, ◌/◌, Bool, false, not, List, [], ◌∷◌, map, Option, none, some, set, nat_eq, ◌==◌,
  leb, if◌then◌else◌, max,
}

pub record Tensor : Type 0 where
  pub shape : List ℕ
  pub itemsize : ℕ

abbrev pub product : List ℕ → ℕ
product [] = 1
product (s ∷ ss) = s * product ss

-- `t.numel() * t.element_size()`.
abbrev pub nbytes : Tensor → ℕ
nbytes t = product t.shape * t.itemsize

abbrev pub total_bytes : List Tensor → ℕ
total_bytes [] = 0
total_bytes (t ∷ ts) = nbytes t + total_bytes ts

pub record Int8CheckpointStore : Type 0 where
  pub num_slots : ℕ
  pub qdata : Tensor
  pub scale : Tensor

-- The keyword arguments that the pool and its estimate share.
pub record PoolShape : Type 0 where
  pub num_layers : ℕ
  pub num_slots : ℕ
  pub num_heads : ℕ
  pub head_v_dim : ℕ
  pub head_k_dim : ℕ
  pub conv_shapes : List (List ℕ)
  pub conv_itemsize : ℕ
  pub temporal_itemsize : ℕ

unfoldable pub int8_checkpoint_store : PoolShape → ℕ → Int8CheckpointStore
int8_checkpoint_store a slots = record {
  num_slots = slots;
  qdata = record {
    shape = a.num_layers ∷ slots ∷ a.num_heads ∷ a.head_v_dim ∷ a.head_k_dim ∷ [];
    itemsize = 1;
  };
  scale = record {
    shape = a.num_layers ∷ slots ∷ a.num_heads ∷ 1 ∷ a.head_k_dim ∷ [];
    itemsize = a.temporal_itemsize;
  };
}

unfoldable pub store_mem_usage_bytes : Int8CheckpointStore → ℕ
store_mem_usage_bytes s = nbytes s.qdata + nbytes s.scale

unfoldable pub bytes_per_slot : Int8CheckpointStore → ℕ
bytes_per_slot s = store_mem_usage_bytes s / max 1 s.num_slots

-- A side state has its tensor as `conv_state`, slots in axis 1, or as `context`, slots in axis 0.
pub data SideTensor : Type 0 where
  conv_state context : Tensor → SideTensor
  unsupported : SideTensor

unfoldable pub ple_source : SideTensor → Option (Tensor × ℕ)
ple_source (conv_state t) = some (t, 1)
ple_source (context t) = some (t, 0)
ple_source unsupported = none

abbrev pub mirror_of : ℕ → Option (Tensor × ℕ) → List Tensor → List Tensor
mirror_of slots none mirrors = mirrors
mirror_of slots (some (t, dim)) mirrors =
    record { shape = set t.shape dim slots; itemsize = t.itemsize } ∷ mirrors

unfoldable pub ple_mirrors : ℕ → List SideTensor → List Tensor
ple_mirrors slots [] = []
ple_mirrors slots (st ∷ sts) = mirror_of slots (ple_source st) (ple_mirrors slots sts)

pub record CheckpointPool : Type 0 where
  pub num_slots : ℕ
  pub temporal : Int8CheckpointStore
  pub conv : List Tensor
  pub mirrors : List Tensor

unfoldable pub checkpoint_pool : PoolShape → List SideTensor → CheckpointPool
checkpoint_pool a sides = record {
  num_slots = a.num_slots;
  temporal = int8_checkpoint_store a (a.num_slots + 1);
  conv =
      map
        (λ shape. record {
          shape = a.num_layers ∷ (a.num_slots + 1) ∷ shape;
          itemsize = a.conv_itemsize;
        })
        a.conv_shapes;
  mirrors = ple_mirrors (a.num_slots + 1) sides;
}

unfoldable pub mem_usage_bytes : CheckpointPool → ℕ
mem_usage_bytes p = store_mem_usage_bytes p.temporal + total_bytes p.conv + total_bytes p.mirrors

pub record Estimate : Type 0 where
  pub qdata : ℕ
  pub scale : ℕ
  pub conv : ℕ
  pub ple : ℕ
  pub total : ℕ

-- `for s in shape: n *= int(s)`.
abbrev pub times_all : ℕ → List ℕ → ℕ
times_all n [] = n
times_all n (s ∷ ss) = times_all (n * s) ss

unfoldable pub conv_estimate : ℕ → ℕ → ℕ → List (List ℕ) → ℕ
conv_estimate layers slots isz [] = 0
conv_estimate layers slots isz (shape ∷ shapes) =
    layers * slots * times_all 1 shape * isz + conv_estimate layers slots isz shapes

unfoldable pub estimate_mem_usage_bytes : PoolShape → ℕ → Estimate
estimate_mem_usage_bytes a ple_extra_bytes =
    let slots = a.num_slots + 1 in
    let qdata = a.num_layers * slots * a.num_heads * a.head_v_dim * a.head_k_dim in
    let scale = a.num_layers * slots * a.num_heads * a.head_k_dim * a.temporal_itemsize in
    let conv = conv_estimate a.num_layers slots a.conv_itemsize a.conv_shapes in
    record {
      qdata = qdata;
      scale = scale;
      conv = conv;
      ple = ple_extra_bytes;
      total = qdata + scale + conv + ple_extra_bytes;
    }

-- The product of the sizes of the other axes, from axis i on.
abbrev pub others_from : ℕ → ℕ → ℕ → List ℕ → ℕ
others_from dim i others [] = others
others_from dim i others (s ∷ ss) =
    let skipped = others_from dim (i + 1) others ss in
    let taken = others_from dim (i + 1) (others * s) ss in if not (i == dim) then taken else skipped

abbrev pub extra_of : ℕ → Option (Tensor × ℕ) → ℕ → ℕ
extra_of ckpt_size none extra = extra
extra_of ckpt_size (some (t, dim)) extra =
    (ckpt_size + 1) * others_from dim 0 1 t.shape * t.itemsize + extra

unfoldable pub ple_extra : ℕ → List SideTensor → ℕ
ple_extra ckpt_size [] = 0
ple_extra ckpt_size (st ∷ sts) = extra_of ckpt_size (ple_source st) (ple_extra ckpt_size sts)

-- The server's settings, where there is a context; the size 0 stands for an unset one.
pub record MambaArgs : Type 0 where
  pub enable_int8_mamba_checkpoint : Bool
  pub int8_mamba_ckpt_size : ℕ

pub data PoolResult : Type 0 where
  no_pool out_of_memory : PoolResult
  made : CheckpointPool → PoolResult

unfoldable pub ckpt_size_of : MambaArgs → ℕ → ℕ
ckpt_size_of m mamba_size =
    if m.int8_mamba_ckpt_size == 0 then 2 * mamba_size else m.int8_mamba_ckpt_size

abbrev pub over_budget : ℕ → Option ℕ → Bool
over_budget total none = false
over_budget total (some free_bytes) = leb free_bytes total

abbrev pub shape_with : PoolShape → ℕ → PoolShape
shape_with a n = record {
  num_layers = a.num_layers;
  num_slots = n;
  num_heads = a.num_heads;
  head_v_dim = a.head_v_dim;
  head_k_dim = a.head_k_dim;
  conv_shapes = a.conv_shapes;
  conv_itemsize = a.conv_itemsize;
  temporal_itemsize = a.temporal_itemsize;
}

-- `cache_params` gives every size but that of the slots.
unfoldable pub maybe_init_int8_mamba_checkpoint_pool :
    Option MambaArgs → ℕ → PoolShape → List SideTensor → Option ℕ → PoolResult
maybe_init_int8_mamba_checkpoint_pool none mamba_size params sides free_bytes = no_pool
maybe_init_int8_mamba_checkpoint_pool (some m) mamba_size params sides free_bytes =
    let ckpt_size = ckpt_size_of m mamba_size in
    let a = shape_with params ckpt_size in
    let est = estimate_mem_usage_bytes a (ple_extra ckpt_size sides) in
    if not m.enable_int8_mamba_checkpoint
    then no_pool
    else if over_budget est.total free_bytes
    then out_of_memory
    else made (checkpoint_pool a sides)
