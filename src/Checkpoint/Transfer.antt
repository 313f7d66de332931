-- ===== src/Checkpoint/Transfer.antt =====
-- runtime-src/mamba_checkpoint_pool.py: a store followed by a load is one copy between active slots.
use sglang_flashnext_nvfp4kv.Prelude.{
  ℕ, ◌≡◌, ◌∙◌, refl, sym, ap, inl, inr, false, List, [], ◌∷◌, none, some, arith, nat_eq, contains,
  length, length-set, get_elem?, get_elem?-some, get_elem?-set_self, get_elem?-set_ne, Option-cases,
  set, subst,
}
use sglang_flashnext_nvfp4kv.ColdPool.Ownership.{Distinct}
use sglang_flashnext_nvfp4kv.ColdPool.Shrink.Contents.{Below}
use sglang_flashnext_nvfp4kv.Checkpoint.State.{
  SideState, conv_state, context, unsupported, Active, copy_slots, copy_layers, copy_conv,
  copy_side, copy_sides, store_from_active, load_to_active,
}

-- What the entries of `buf` at the slots `mid` are, given `src` at the slots `from`.
abbrev pub Copied : {A B : Type 0} → (A → B) → List A → List B → List ℕ → List ℕ → Type 0
Copied f src buf [] mid = Unit
Copied f src buf (i ∷ from) [] = Unit
Copied f src buf (i ∷ from) (j ∷ mid) =
    ((a : _) × (get_elem? src i ≡ some a) × (get_elem? buf j ≡ some (f a)))
    × Copied f src buf from mid

copy_slots-step :
    {A B : Type 0} (f : A → B) (i j : ℕ) (from to : List ℕ) (src : List A) (dst : List B) (x : A)
    → get_elem? src i ≡ some x
    → copy_slots f (i ∷ from) (j ∷ to) src dst ≡ copy_slots f from to src (set dst j (f x))
unfolding copy_slots
copy_slots-step f i j from to src dst x e = rw (e, copy_slots) refl

copy_slots-skip :
    {A B : Type 0} (f : A → B) (i j : ℕ) (from to : List ℕ) (src : List A) (dst : List B)
    → get_elem? src i ≡ none
    → copy_slots f (i ∷ from) (j ∷ to) src dst ≡ copy_slots f from to src dst
unfolding copy_slots
copy_slots-skip f i j from to src dst e = rw (e, copy_slots) refl

pub copy_slots-other :
    {A B : Type 0} (f : A → B) (g : ℕ) (from mid : List ℕ) (src : List A) (buf : List B)
    → contains g mid ≡ false
    → get_elem? (copy_slots f from mid src buf) g ≡ get_elem? buf g
unfolding copy_slots
copy_slots-other f g [] mid src buf h = refl
copy_slots-other f g (i ∷ from) [] src buf h = refl
copy_slots-other f g (i ∷ from) (j ∷ mid) src buf h = elim (Option-cases (get_elem? src i)) [
  | inl e ↦
      rw (copy_slots-skip f i j from mid src buf e)
        (copy_slots-other f g from mid src buf (ground (arith, h)))
  | inr (x, e) ↦ rw (copy_slots-step f i j from mid src buf x e) (
      copy_slots-other f g from mid src (set buf j (f x)) (ground (arith, h))
      ∙ get_elem?-set_ne buf (f x) (λ eq. ground (arith, h, eq)))
]

pub copy_slots-Copied :
    {A B : Type 0} (f : A → B) (from mid : List ℕ) (src : List A) (buf : List B)
    → Distinct mid
    → Below (length buf) mid
    → Below (length src) from
    → Copied f src (copy_slots f from mid src buf) from mid
copy_slots-Copied f [] mid src buf d b c = tt
copy_slots-Copied f (i ∷ from) [] src buf d b c = tt
copy_slots-Copied f (i ∷ from) (j ∷ mid) src buf d b c =
    let (x, e) = get_elem?-some src i c.0 in
    subst (λ ys. Copied f src ys (i ∷ from) (j ∷ mid))
      (sym (copy_slots-step f i j from mid src buf x e))
      (
        (
          x,
          e,
          copy_slots-other f j from mid src (set buf j (f x)) d.0
              ∙ get_elem?-set_self buf j (f x) b.0,
        ),
        copy_slots-Copied f from mid src (set buf j (f x)) d.1 (rw (length-set buf j (f x)) b.1)
            c.1,
      )

copy_slots-through :
    {A B C : Type 0} (f : A → B) (g : B → C) (from mid to : List ℕ) (src : List A) (buf : List B)
    (dst : List C)
    → length from ≡ length mid
    → Copied f src buf from mid
    → copy_slots g mid to buf dst ≡ copy_slots (λ x. g (f x)) from to src dst
unfolding copy_slots
copy_slots-through f g [] [] to src buf dst l h = refl
copy_slots-through f g [] (j ∷ mid) to src buf dst l h = absurd (omega (arith, l))
copy_slots-through f g (i ∷ from) [] to src buf dst l h = absurd (omega (arith, l))
copy_slots-through f g (i ∷ from) (j ∷ mid) [] src buf dst l h = refl
copy_slots-through f g (i ∷ from) (j ∷ mid) (k ∷ to) src buf dst l ((a, e, e'), h) =
    rw
      (
        copy_slots-step g j k mid to buf dst (f a) e',
        copy_slots-step (λ x. g (f x)) i k from to src dst a e,
      )
      (copy_slots-through f g from mid to src buf (set dst k (g (f a))) (omega (arith, l)) h)

-- Two tensors of as many layers, the slots in range in every one.
abbrev pub LayersFit : {A B : Type 0} → List ℕ → List ℕ → List (List A) → List (List B) → Type 0
LayersFit from mid [] [] = Unit
LayersFit from mid [] (d ∷ ds) = ⊥
LayersFit from mid (s ∷ ss) [] = ⊥
LayersFit from mid (s ∷ ss) (d ∷ ds) =
    Below (length s) from × Below (length d) mid × LayersFit from mid ss ds

slots-roundtrip :
    {A B C : Type 0} (f : A → B) (g : B → C) (from mid to : List ℕ) (src : List A) (buf : List B)
    (dst : List C)
    → length from ≡ length mid
    → Distinct mid
    → Below (length src) from
    → Below (length buf) mid
    → copy_slots g mid to (copy_slots f from mid src buf) dst
      ≡ copy_slots (λ x. g (f x)) from to src dst
slots-roundtrip f g from mid to src buf dst l d c b =
    copy_slots-through f g from mid to src (copy_slots f from mid src buf) dst l
      (copy_slots-Copied f from mid src buf d b c)

layers-roundtrip :
    {A B C : Type 0} (f : A → B) (g : B → C) (from mid to : List ℕ) (src : List (List A))
    (buf : List (List B)) (dst : List (List C))
    → length from ≡ length mid
    → Distinct mid
    → LayersFit from mid src buf
    → copy_layers g mid to (copy_layers f from mid src buf) dst
      ≡ copy_layers (λ x. g (f x)) from to src dst
unfolding copy_layers
layers-roundtrip f g from mid to [] [] dst l d h = refl
layers-roundtrip f g from mid to [] (b ∷ bs) dst l d h = elim h [ ]
layers-roundtrip f g from mid to (s ∷ ss) [] dst l d h = elim h [ ]
layers-roundtrip f g from mid to (s ∷ ss) (b ∷ bs) [] l d h = refl
layers-roundtrip f g from mid to (s ∷ ss) (b ∷ bs) (x ∷ xs) l d (c, e, h) =
    cc (
      slots-roundtrip f g from mid to s b x l d c e,
      layers-roundtrip f g from mid to ss bs xs l d h,
    )

abbrev pub TensorsFit :
    {A : Type 0} → List ℕ → List ℕ → List (List (List A)) → List (List (List A)) → Type 0
TensorsFit from mid [] [] = Unit
TensorsFit from mid [] (d ∷ ds) = ⊥
TensorsFit from mid (s ∷ ss) [] = ⊥
TensorsFit from mid (s ∷ ss) (d ∷ ds) = LayersFit from mid s d × TensorsFit from mid ss ds

conv-roundtrip :
    {A : Type 0} (from mid to : List ℕ) (src buf dst : List (List (List A)))
    → length from ≡ length mid
    → Distinct mid
    → TensorsFit from mid src buf
    → copy_conv mid to (copy_conv from mid src buf) dst ≡ copy_conv from to src dst
unfolding copy_conv
conv-roundtrip from mid to [] [] dst l d h = refl
conv-roundtrip from mid to [] (b ∷ bs) dst l d h = elim h [ ]
conv-roundtrip from mid to (s ∷ ss) [] dst l d h = elim h [ ]
conv-roundtrip from mid to (s ∷ ss) (b ∷ bs) [] l d h = refl
conv-roundtrip from mid to (s ∷ ss) (b ∷ bs) (x ∷ xs) l d (h, t) = cc (
  layers-roundtrip (λ x. x) (λ x. x) from mid to s b x l d h,
  conv-roundtrip from mid to ss bs xs l d t,
)

abbrev pub SideFits : {A : Type 0} → List ℕ → List ℕ → SideState A → SideState A → Type 0
SideFits from mid (conv_state s) (conv_state d) = LayersFit from mid s d
SideFits from mid (context s) (context d) = Below (length s) from × Below (length d) mid
SideFits from mid unsupported unsupported = Unit
SideFits from mid (conv_state s) (context d) = ⊥
SideFits from mid (conv_state s) unsupported = ⊥
SideFits from mid (context s) (conv_state d) = ⊥
SideFits from mid (context s) unsupported = ⊥
SideFits from mid unsupported (conv_state d) = ⊥
SideFits from mid unsupported (context d) = ⊥

side-roundtrip :
    {A : Type 0} (from mid to : List ℕ) (src buf dst : SideState A)
    → length from ≡ length mid
    → Distinct mid
    → SideFits from mid src buf
    → copy_side mid to (copy_side from mid src buf) dst ≡ copy_side from to src dst
unfolding copy_side
side-roundtrip from mid to (conv_state s) (conv_state b) (conv_state x) l d h =
    ap conv_state (layers-roundtrip (λ y. y) (λ y. y) from mid to s b x l d h)
side-roundtrip from mid to (conv_state s) (conv_state b) (context x) l d h = refl
side-roundtrip from mid to (conv_state s) (conv_state b) unsupported l d h = refl
side-roundtrip from mid to (context s) (context b) (context x) l d (c, e) =
    ap context (slots-roundtrip (λ y. y) (λ y. y) from mid to s b x l d c e)
side-roundtrip from mid to (context s) (context b) (conv_state x) l d h = refl
side-roundtrip from mid to (context s) (context b) unsupported l d h = refl
side-roundtrip from mid to unsupported unsupported x l d h = refl
side-roundtrip from mid to (conv_state s) (context b) x l d h = elim h [ ]
side-roundtrip from mid to (conv_state s) unsupported x l d h = elim h [ ]
side-roundtrip from mid to (context s) (conv_state b) x l d h = elim h [ ]
side-roundtrip from mid to (context s) unsupported x l d h = elim h [ ]
side-roundtrip from mid to unsupported (conv_state b) x l d h = elim h [ ]
side-roundtrip from mid to unsupported (context b) x l d h = elim h [ ]

abbrev pub SidesFit :
    {A : Type 0} → List ℕ → List ℕ → List (SideState A) → List (SideState A) → Type 0
SidesFit from mid [] [] = Unit
SidesFit from mid [] (d ∷ ds) = ⊥
SidesFit from mid (s ∷ ss) [] = ⊥
SidesFit from mid (s ∷ ss) (d ∷ ds) = SideFits from mid s d × SidesFit from mid ss ds

sides-roundtrip :
    {A : Type 0} (from mid to : List ℕ) (src buf dst : List (SideState A))
    → length from ≡ length mid
    → Distinct mid
    → SidesFit from mid src buf
    → copy_sides mid to (copy_sides from mid src buf) dst ≡ copy_sides from to src dst
unfolding copy_sides
sides-roundtrip from mid to [] [] dst l d h = refl
sides-roundtrip from mid to [] (b ∷ bs) dst l d h = elim h [ ]
sides-roundtrip from mid to (s ∷ ss) [] dst l d h = elim h [ ]
sides-roundtrip from mid to (s ∷ ss) (b ∷ bs) [] l d h = refl
sides-roundtrip from mid to (s ∷ ss) (b ∷ bs) (x ∷ xs) l d (h, t) =
    cc (side-roundtrip from mid to s b x l d h, sides-roundtrip from mid to ss bs xs l d t)

-- The checkpoint pool has a tensor for each of the active pool's, with as many layers, and the slots
-- are in range on both sides.
pub record Fits {T Q R : Type 0} (from mid : List ℕ) (a : Active T R) (c : Active Q R)
    : Type 0 where
  pub temporal_fits : LayersFit from mid a.temporal c.temporal
  pub conv_fits : TensorsFit from mid a.conv c.conv
  pub side_fits : SidesFit from mid a.side c.side

-- A store followed by a load is one copy from the active slots to the slots loaded into.
pub load-store_copy :
    {T Q R : Type 0} (quantize : T → Q) (dequantize : Q → T) (active ckpt into : List ℕ)
    (a : Active T R) (c : Active Q R) (b : Active T R)
    → length active ≡ length ckpt
    → Distinct ckpt
    → Fits active ckpt a c
    → load_to_active dequantize ckpt into (store_from_active quantize active ckpt a c) b ≡ record {
      temporal = copy_layers (λ x. dequantize (quantize x)) active into a.temporal b.temporal;
      conv = copy_conv active into a.conv b.conv;
      side = copy_sides active into a.side b.side;
    }
unfolding load_to_active store_from_active
load-store_copy quantize dequantize active ckpt into a c b l d f = cc (
  layers-roundtrip quantize dequantize active ckpt into a.temporal c.temporal b.temporal l d
      f.temporal_fits,
  conv-roundtrip active ckpt into a.conv c.conv b.conv l d f.conv_fits,
  sides-roundtrip active ckpt into a.side c.side b.side l d f.side_fits,
)
