-- ===== src/Checkpoint/Arrival.antt =====
-- runtime-src/mamba_checkpoint_pool.py: where each entry is after a store followed by a load.
use sglang_flashnext_nvfp4kv.Prelude.{
  ℕ, ◌≡◌, refl, sym, subst, false, List, [], ◌∷◌, nat_eq, contains, length, get_elem?,
}
use sglang_flashnext_nvfp4kv.ColdPool.Ownership.{Distinct}
use sglang_flashnext_nvfp4kv.ColdPool.Shrink.Contents.{Below}
use sglang_flashnext_nvfp4kv.Checkpoint.State.{
  SideState, conv_state, context, unsupported, Active, copy_slots, copy_layers, copy_conv,
  copy_side, copy_sides, store_from_active, load_to_active,
}
use sglang_flashnext_nvfp4kv.Checkpoint.Transfer.{
  Copied, copy_slots-Copied, copy_slots-other, LayersFit, TensorsFit, SideFits, SidesFit, Fits,
  load-store_copy,
}

-- The entries `out` at the slots `into` are those of `src` at the slots `from` under f, and every other
-- entry is the one of `dst`.
abbrev pub SlotsArrive :
    {A B : Type 0} → (A → B) → List ℕ → List ℕ → List A → List B → List B → Type 0
SlotsArrive f from into src dst out =
    Copied f src out from into
    × ((g : ℕ) → contains g into ≡ false → get_elem? out g ≡ get_elem? dst g)

-- The same in every layer.
abbrev pub LayersArrive :
    {A B : Type 0}
    → (A → B)
    → List ℕ
    → List ℕ
    → List (List A)
    → List (List B)
    → List (List B)
    → Type 0
LayersArrive f from into [] dst out = out ≡ dst
LayersArrive f from into (s ∷ ss) [] out = ⊥
LayersArrive f from into (s ∷ ss) (d ∷ ds) [] = ⊥
LayersArrive f from into (s ∷ ss) (d ∷ ds) (o ∷ os) =
    SlotsArrive f from into s d o × LayersArrive f from into ss ds os

-- The same in every tensor.
abbrev pub TensorsArrive :
    {A : Type 0}
    → List ℕ
    → List ℕ
    → List (List (List A))
    → List (List (List A))
    → List (List (List A))
    → Type 0
TensorsArrive from into [] dst out = out ≡ dst
TensorsArrive from into (s ∷ ss) [] out = ⊥
TensorsArrive from into (s ∷ ss) (d ∷ ds) [] = ⊥
TensorsArrive from into (s ∷ ss) (d ∷ ds) (o ∷ os) =
    LayersArrive (λ x. x) from into s d o × TensorsArrive from into ss ds os

abbrev pub SideArrives :
    {A : Type 0} → List ℕ → List ℕ → SideState A → SideState A → SideState A → Type 0
SideArrives from into (conv_state s) dst out =
    (d : _) × (o : _) × (dst ≡ conv_state d)
    × (out ≡ conv_state o)
    × LayersArrive (λ x. x) from into s d o
SideArrives from into (context s) dst out =
    (d : _) × (o : _) × (dst ≡ context d) × (out ≡ context o) × SlotsArrive (λ x. x) from into s d o
SideArrives from into unsupported dst out = out ≡ dst

abbrev pub SidesArrive :
    {A : Type 0}
    → List ℕ
    → List ℕ
    → List (SideState A)
    → List (SideState A)
    → List (SideState A)
    → Type 0
SidesArrive from into [] dst out = out ≡ dst
SidesArrive from into (s ∷ ss) [] out = ⊥
SidesArrive from into (s ∷ ss) (d ∷ ds) [] = ⊥
SidesArrive from into (s ∷ ss) (d ∷ ds) (o ∷ os) =
    SideArrives from into s d o × SidesArrive from into ss ds os

slots-arrive :
    {A B : Type 0} (f : A → B) (from into : List ℕ) (src : List A) (dst : List B)
    → Distinct into
    → Below (length src) from
    → Below (length dst) into
    → SlotsArrive f from into src dst (copy_slots f from into src dst)
slots-arrive f from into src dst d c b =
    (copy_slots-Copied f from into src dst d b c, λ g h. copy_slots-other f g from into src dst h)

layers-arrive :
    {A B : Type 0} (f : A → B) (from into : List ℕ) (src : List (List A)) (dst : List (List B))
    → Distinct into
    → LayersFit from into src dst
    → LayersArrive f from into src dst (copy_layers f from into src dst)
unfolding copy_layers
layers-arrive f from into [] dst d h = refl
layers-arrive f from into (s ∷ ss) [] d h = elim h [ ]
layers-arrive f from into (s ∷ ss) (t ∷ ts) d (c, b, h) =
    (slots-arrive f from into s t d c b, layers-arrive f from into ss ts d h)

tensors-arrive :
    {A : Type 0} (from into : List ℕ) (src dst : List (List (List A)))
    → Distinct into
    → TensorsFit from into src dst
    → TensorsArrive from into src dst (copy_conv from into src dst)
unfolding copy_conv
tensors-arrive from into [] dst d h = refl
tensors-arrive from into (s ∷ ss) [] d h = elim h [ ]
tensors-arrive from into (s ∷ ss) (t ∷ ts) d (c, h) =
    (layers-arrive (λ x. x) from into s t d c, tensors-arrive from into ss ts d h)

side-arrives :
    {A : Type 0} (from into : List ℕ) (src dst : SideState A)
    → Distinct into
    → SideFits from into src dst
    → SideArrives from into src dst (copy_side from into src dst)
unfolding copy_side
side-arrives from into (conv_state s) (conv_state t) d h =
    (t, copy_layers (λ x. x) from into s t, refl, refl, layers-arrive (λ x. x) from into s t d h)
side-arrives from into (context s) (context t) d h = (
  t,
  copy_slots (λ x. x) from into s t,
  refl,
  refl,
  slots-arrive (λ x. x) from into s t d h.0 h.1,
)
side-arrives from into unsupported unsupported d h = refl
side-arrives from into (conv_state s) (context t) d h = elim h [ ]
side-arrives from into (conv_state s) unsupported d h = elim h [ ]
side-arrives from into (context s) (conv_state t) d h = elim h [ ]
side-arrives from into (context s) unsupported d h = elim h [ ]
side-arrives from into unsupported (conv_state t) d h = elim h [ ]
side-arrives from into unsupported (context t) d h = elim h [ ]

sides-arrive :
    {A : Type 0} (from into : List ℕ) (src dst : List (SideState A))
    → Distinct into
    → SidesFit from into src dst
    → SidesArrive from into src dst (copy_sides from into src dst)
unfolding copy_sides
sides-arrive from into [] dst d h = refl
sides-arrive from into (s ∷ ss) [] d h = elim h [ ]
sides-arrive from into (s ∷ ss) (t ∷ ts) d (c, h) =
    (side-arrives from into s t d c, sides-arrive from into ss ts d h)

-- The tensors of `a` have arrived in `out`, from the slots `from` in the slots `into`, with f on the
-- temporal states, and all else in `out` is as in `b`.
pub record Arrived {T R : Type 0} (f : T → T) (from into : List ℕ) (a b out : Active T R)
    : Type 0 where
  pub temporal_arrives : LayersArrive f from into a.temporal b.temporal out.temporal
  pub conv_arrives : TensorsArrive from into a.conv b.conv out.conv
  pub side_arrives : SidesArrive from into a.side b.side out.side

-- Active slots are stored into as many checkpoint slots, none named twice, and loaded from there into
-- slots, none named twice, of an active pool, all pools of one layout with the slots in range. Then in
-- every layer of every tensor the entry at each slot loaded into is the entry of the slot that was
-- stored, conv windows and side states exactly and temporal states quantized and dequantized, and the
-- entry at every other slot is the one from before the load.
pub load-store :
    {T Q R : Type 0} (quantize : T → Q) (dequantize : Q → T) (active ckpt into : List ℕ)
    (a : Active T R) (c : Active Q R) (b : Active T R)
    → length active ≡ length ckpt
    → Distinct ckpt
    → Distinct into
    → Fits active ckpt a c
    → Fits active into a b
    → Arrived
        (λ x. dequantize (quantize x))
        active
        into
        a
        b
        (load_to_active dequantize ckpt into (store_from_active quantize active ckpt a c) b)
load-store quantize dequantize active ckpt into a c b l d e f g =
    subst (Arrived (λ x. dequantize (quantize x)) active into a b)
      (sym (load-store_copy quantize dequantize active ckpt into a c b l d f))
      record {
        temporal_arrives = layers-arrive _ active into a.temporal b.temporal e g.temporal_fits;
        conv_arrives = tensors-arrive active into a.conv b.conv e g.conv_fits;
        side_arrives = sides-arrive active into a.side b.side e g.side_fits;
      }
