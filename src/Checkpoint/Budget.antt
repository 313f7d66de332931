-- ===== src/Checkpoint/Budget.antt =====
-- The estimate of the checkpoint pool's bytes against the pool that is built.
use native.Mathlib.Nat.{mul_assoc, mul_comm, mul-one, one-mul}
use sglang_flashnext_nvfp4kv.Prelude.{
  ℕ, ◌+◌, ◌*◌, ◌≤◌, ◌<◌, ◌≡◌, ◌∙◌, refl, ap, sym, subst, true, false, List, [], ◌∷◌, map, Option,
  none, some, ◌⊎◌, inl, inr, Bool-cases, leb, arith, length, set, nat_eq, ◌==◌, if◌then◌else◌,
}
use sglang_flashnext_nvfp4kv.Checkpoint.Sizes.{
  product, total_bytes, PoolShape, int8_checkpoint_store, store_mem_usage_bytes, SideTensor,
  conv_state, context, unsupported, ple_source, ple_mirrors, checkpoint_pool, mem_usage_bytes,
  times_all, conv_estimate, estimate_mem_usage_bytes, others_from, ple_extra, MambaArgs, PoolResult,
  out_of_memory, made, ckpt_size_of, over_budget, shape_with, maybe_init_int8_mamba_checkpoint_pool,
}

times_all-product : (n : ℕ) (ss : List ℕ) → times_all n ss ≡ n * product ss
times_all-product n [] = sym (mul-one n)
times_all-product n (s ∷ ss) = times_all-product (n * s) ss ∙ mul_assoc n s (product ss)

-- The axis of the slots is one of the tensor's.
abbrev pub HasAxis : SideTensor → Type 0
HasAxis (conv_state t) = 1 < length t.shape
HasAxis (context t) = 0 < length t.shape
HasAxis unsupported = 0 ≤ 0

abbrev pub AllHaveAxis : List SideTensor → Type 0
AllHaveAxis [] = 0 ≤ 0
AllHaveAxis (st ∷ sts) = HasAxis st × AllHaveAxis sts

-- Past the skipped axis every size counts.
others_past : (dim i n : ℕ) (ss : List ℕ) → dim < i → others_from dim i n ss ≡ n * product ss
others_past dim i n [] h = sym (mul-one n)
others_past dim i n (s ∷ ss) h =
    let e : (i == dim) ≡ false = ground arith in
    rw e (others_past dim (i + 1) (n * s) ss (omega arith) ∙ mul_assoc n s (product ss))

context_bytes :
    (m : ℕ) (ss : List ℕ) → 0 < length ss → product (set ss 0 m) ≡ m * others_from 0 0 1 ss
context_bytes m [] h = absurd (omega arith)
context_bytes m (s ∷ ss) h =
    ap (λ k. m * k) (sym (one-mul (product ss)) ∙ sym (others_past 0 (0 + 1) 1 ss (omega arith)))

conv_bytes : (m : ℕ) (ss : List ℕ) → 1 < length ss → product (set ss 1 m) ≡ m * others_from 1 0 1 ss
conv_bytes m [] h = absurd (omega arith)
conv_bytes m (s ∷ []) h = absurd (omega arith)
conv_bytes m (s ∷ r ∷ ss) h =
    let q : others_from 1 (0 + 1 + 1) (1 * s) ss ≡ s * product ss =
      others_past 1 (0 + 1 + 1) (1 * s) ss (omega arith) ∙ ap (λ k. k * product ss) (one-mul s) in
    sym (mul_assoc s m (product ss))
    ∙ ap (λ k. k * product ss) (mul_comm s m)
    ∙ mul_assoc m s (product ss)
    ∙ ap (λ k. m * k) (sym q)

-- What the loop over the side states adds is what their mirrors take.
ple_extra-mirrors :
    (n : ℕ) (sides : List SideTensor)
    → AllHaveAxis sides
    → ple_extra n sides ≡ total_bytes (ple_mirrors (n + 1) sides)
unfolding ple_extra ple_mirrors ple_source
ple_extra-mirrors n [] h = refl
ple_extra-mirrors n (conv_state t ∷ sts) h =
    rw (conv_bytes (n + 1) t.shape h.0, ple_extra-mirrors n sts h.1) (omega arith)
ple_extra-mirrors n (context t ∷ sts) h =
    rw (context_bytes (n + 1) t.shape h.0, ple_extra-mirrors n sts h.1) (omega arith)
ple_extra-mirrors n (unsupported ∷ sts) h = ple_extra-mirrors n sts h.1

conv_estimate-total :
    (layers slots isz : ℕ) (shapes : List (List ℕ))
    → conv_estimate layers slots isz shapes
      ≡ total_bytes
          (map (λ shape. record { shape = layers ∷ slots ∷ shape; itemsize = isz }) shapes)
unfolding conv_estimate
conv_estimate-total layers slots isz [] = refl
conv_estimate-total layers slots isz (ss ∷ shapes) =
    rw
      (
        times_all-product 1 ss,
        one-mul (product ss),
        mul_assoc layers slots (product ss),
        conv_estimate-total layers slots isz shapes,
      )
      refl

qdata_bytes : (l n h v k : ℕ) → l * n * h * v * k ≡ product (l ∷ n ∷ h ∷ v ∷ k ∷ []) * 1
qdata_bytes l n h v k = simp (mul_assoc, mul-one)

scale_bytes : (l n h k t : ℕ) → l * n * h * k * t ≡ product (l ∷ n ∷ h ∷ 1 ∷ k ∷ []) * t
scale_bytes l n h k t = simp (mul_assoc, mul-one, one-mul)

-- The estimate that is made before the pool is allocated is exactly what the allocated pool takes, the
-- reserved slot and the mirrors of the side states included. Condition: each side state's tensor has
-- the axis of its slots.
pub estimate-mem_usage_bytes :
    (a : PoolShape) (sides : List SideTensor)
    → AllHaveAxis sides
    → (estimate_mem_usage_bytes a (ple_extra a.num_slots sides)).total
      ≡ mem_usage_bytes (checkpoint_pool a sides)
unfolding estimate_mem_usage_bytes mem_usage_bytes checkpoint_pool int8_checkpoint_store
    store_mem_usage_bytes
estimate-mem_usage_bytes a sides h =
    rw
      (
        qdata_bytes a.num_layers (a.num_slots + 1) a.num_heads a.head_v_dim a.head_k_dim,
        scale_bytes a.num_layers (a.num_slots + 1) a.num_heads a.head_k_dim a.temporal_itemsize,
        conv_estimate-total a.num_layers (a.num_slots + 1) a.conv_itemsize a.conv_shapes,
        ple_extra-mirrors a.num_slots sides h,
      )
      refl

-- What the start-up is to give: it fails when the pool takes all of the free memory or more, and builds
-- the pool when it takes less or the free memory is not known.
abbrev pub Decided : PoolShape → List SideTensor → Option ℕ → PoolResult → Type 0
Decided a sides free_bytes result =
    (result ≡ out_of_memory)
      × ((f : ℕ) × (free_bytes ≡ some f) × f ≤ mem_usage_bytes (checkpoint_pool a sides))
    ⊎ (result ≡ made (checkpoint_pool a sides))
      × ((free_bytes ≡ none)
          ⊎ ((f : ℕ) × (free_bytes ≡ some f) × mem_usage_bytes (checkpoint_pool a sides) < f))

by_free_bytes :
    (a : PoolShape) (sides : List SideTensor) (free_bytes : Option ℕ) (total : ℕ)
    → total ≡ mem_usage_bytes (checkpoint_pool a sides)
    → Decided a sides free_bytes
        (if over_budget total free_bytes then out_of_memory else made (checkpoint_pool a sides))
by_free_bytes a sides none total h = inr (refl, inl refl)
by_free_bytes a sides (some f) total h = elim (Bool-cases (leb f total)) [
  | inl e ↦ inl (rw e refl, (f, refl, ground (arith, e, h)))
  | inr e ↦ inr (rw e refl, inr (f, refl, ground (arith, e, h)))
]

ckpt_size_of-cases :
    (m : MambaArgs) (mamba_size slots : ℕ)
    → (0 < slots) × (m.int8_mamba_ckpt_size ≡ slots)
      ⊎ (m.int8_mamba_ckpt_size ≡ 0) × (slots ≡ 2 * mamba_size)
    → ckpt_size_of m mamba_size ≡ slots
unfolding ckpt_size_of
ckpt_size_of-cases m mamba_size slots h = ground (arith, h)

-- With the checkpoint pool enabled, the start-up fails when the pool would take all of the free memory or
-- more, and else, also with no answer on the free memory, it builds the pool. The pool has as many slots
-- as the setting says, and twice the active pool's where it is unset, and its other sizes are the given
-- ones. Condition: each side state's tensor has the axis of its slots.
pub maybe_init-decides :
    (m : MambaArgs) (mamba_size slots : ℕ) (params : PoolShape) (sides : List SideTensor)
    (free_bytes : Option ℕ)
    → AllHaveAxis sides
    → m.enable_int8_mamba_checkpoint ≡ true
    → (0 < slots) × (m.int8_mamba_ckpt_size ≡ slots)
      ⊎ (m.int8_mamba_ckpt_size ≡ 0) × (slots ≡ 2 * mamba_size)
    → Decided
        record {
          num_layers = params.num_layers;
          num_slots = slots;
          num_heads = params.num_heads;
          head_v_dim = params.head_v_dim;
          head_k_dim = params.head_k_dim;
          conv_shapes = params.conv_shapes;
          conv_itemsize = params.conv_itemsize;
          temporal_itemsize = params.temporal_itemsize;
        }
        sides
        free_bytes
        (maybe_init_int8_mamba_checkpoint_pool (some m) mamba_size params sides free_bytes)
unfolding maybe_init_int8_mamba_checkpoint_pool
maybe_init-decides m mamba_size slots params sides free_bytes h e size =
    let given = ckpt_size_of m mamba_size in
    let a = shape_with params given in
    let run : maybe_init_int8_mamba_checkpoint_pool (some m) mamba_size params sides free_bytes ≡ (
        if over_budget (mem_usage_bytes (checkpoint_pool a sides)) free_bytes
        then out_of_memory
        else made (checkpoint_pool a sides)) =
      simp (e, estimate-mem_usage_bytes a sides h) in
    subst
      (λ n.
        Decided (shape_with params n) sides free_bytes
          (maybe_init_int8_mamba_checkpoint_pool (some m) mamba_size params sides free_bytes))
      (ckpt_size_of-cases m mamba_size slots size)
      (subst (Decided a sides free_bytes) (sym run) (by_free_bytes a sides free_bytes _ refl))
