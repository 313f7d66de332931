-- ===== src/Checkpoint/State.antt =====
-- runtime-src/mamba_checkpoint_pool.py: the transfers between the active pool and the checkpoint
-- slots. A tensor with a slot axis is a list by slot, under a list by layer where the layer axis
-- comes first. The int8 quantization is a pair of functions, its float arithmetic not modelled. The
-- conv windows and the side states have the same dtype on both sides, so `.to` does nothing.
use sglang_flashnext_nvfp4kv.Prelude.{ℕ, List, [], ◌∷◌, none, some, get_elem?, set}

-- A side state's tensor, or none of the two.
pub data SideState {ℓ} (R : Type ℓ) : Type ℓ where
  conv_state : List (List R) → SideState R
  context : List R → SideState R
  unsupported : SideState R

-- `MambaPool.mamba_cache` and the side states.
pub record Active {ℓ} (T R : Type ℓ) : Type ℓ where
  pub temporal : List (List T)
  pub conv : List (List (List R))
  pub side : List (SideState R)

-- `dst[dst_slots] = f(src[src_slots])`; a slot out of range raises in torch and copies nothing here.
unfoldable pub copy_slots {ℓ κ} :
    {A : Type ℓ} {B : Type κ} → (A → B) → List ℕ → List ℕ → List A → List B → List B
copy_slots f [] to src dst = dst
copy_slots f (i ∷ from) [] src dst = dst
copy_slots f (i ∷ from) (j ∷ to) src dst = elim (get_elem? src i) [
  | none ↦ copy_slots f from to src dst
  | some x ↦ copy_slots f from to src (set dst j (f x))
]

-- `dst[:, dst_slots] = src[:, src_slots]`.
unfoldable pub copy_layers {ℓ κ} :
    {A : Type ℓ} {B : Type κ}
    → (A → B)
    → List ℕ
    → List ℕ
    → List (List A)
    → List (List B)
    → List (List B)
unfolding copy_slots
copy_layers f from to [] dst = dst
copy_layers f from to (s ∷ ss) [] = []
copy_layers f from to (s ∷ ss) (d ∷ ds) = copy_slots f from to s d ∷ copy_layers f from to ss ds

-- The loop over the conv tensors.
unfoldable pub copy_conv {ℓ} :
    {R : Type ℓ}
    → List ℕ
    → List ℕ
    → List (List (List R))
    → List (List (List R))
    → List (List (List R))
unfolding copy_layers
copy_conv from to [] dst = dst
copy_conv from to (s ∷ ss) [] = []
copy_conv from to (s ∷ ss) (d ∷ ds) = copy_layers (λ x. x) from to s d ∷ copy_conv from to ss ds

-- One side state: the slot axis is 1 for `conv_state` and 0 for `context`.
unfoldable pub copy_side {ℓ} :
    {R : Type ℓ} → List ℕ → List ℕ → SideState R → SideState R → SideState R
unfolding copy_layers
copy_side from to (conv_state s) (conv_state d) = conv_state (copy_layers (λ x. x) from to s d)
copy_side from to (context s) (context d) = context (copy_slots (λ x. x) from to s d)
copy_side from to (conv_state s) (context d) = context d
copy_side from to (conv_state s) unsupported = unsupported
copy_side from to (context s) (conv_state d) = conv_state d
copy_side from to (context s) unsupported = unsupported
copy_side from to unsupported d = d

unfoldable pub copy_sides {ℓ} :
    {R : Type ℓ} → List ℕ → List ℕ → List (SideState R) → List (SideState R) → List (SideState R)
unfolding copy_side
copy_sides from to [] dst = dst
copy_sides from to (s ∷ ss) [] = []
copy_sides from to (s ∷ ss) (d ∷ ds) = copy_side from to s d ∷ copy_sides from to ss ds

-- `store_from_active`: the checkpoint pool has the temporal states quantized to `Q`.
unfoldable pub store_from_active {ℓ} :
    {T Q R : Type ℓ} → (T → Q) → List ℕ → List ℕ → Active T R → Active Q R → Active Q R
unfolding copy_layers copy_conv copy_sides
store_from_active quantize active_slots ckpt_slots a c = record {
  temporal = copy_layers quantize active_slots ckpt_slots a.temporal c.temporal;
  conv = copy_conv active_slots ckpt_slots a.conv c.conv;
  side = copy_sides active_slots ckpt_slots a.side c.side;
}

-- `load_to_active`.
unfoldable pub load_to_active {ℓ} :
    {T Q R : Type ℓ} → (Q → T) → List ℕ → List ℕ → Active Q R → Active T R → Active T R
unfolding copy_layers copy_conv copy_sides
load_to_active dequantize ckpt_slots active_slots c a = record {
  temporal = copy_layers dequantize ckpt_slots active_slots c.temporal a.temporal;
  conv = copy_conv ckpt_slots active_slots c.conv a.conv;
  side = copy_sides ckpt_slots active_slots c.side a.side;
}
