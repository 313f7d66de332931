-- ===== src/ColdPool/Tables.antt =====
-- patches/expert_cold_pool.py: what the remap table and the bias columns of a layer must hold, given
-- which experts the layer keeps and which it has staged, and how one write of `_mask` or `_unmask`
-- changes them.
use sglang_flashnext_nvfp4kv.Prelude.{
  ℕ, zero, suc, ◌<◌, ◌≡◌, refl, inl, inr, Bool, true, false, ◌||◌, List, [], ◌∷◌, Option, none,
  some, arith, ◌==◌, nat_eq, if◌then◌else◌, Dict, lookup, lookup-insert, get_elem?, set, Bool-cases,
}
use sglang_flashnext_nvfp4kv.ColdPool.State.{
  Dtype, Key, key_eq, key_beq, key_beq_iff, dtype_beq_iff, Device, LayerPool, Caches,
}
use sglang_flashnext_nvfp4kv.ColdPool.Staging.{write_remap, write_bias}

abbrev pub is_some {ℓ} : {A : Type ℓ} → Option A → Bool
is_some none = false
is_some (some _) = true

-- The position of an expert in the keep list.
unfoldable pub index_from : ℕ → ℕ → List ℕ → Option ℕ
index_from i gid [] = none
index_from i gid (g ∷ gs) = if g == gid then some i else index_from (suc i) gid gs

abbrev pub staged_row : Option ℕ → ℕ
staged_row none = 0
staged_row (some row) = row

module _ {R V : Type 0} where
  abbrev pub kept : LayerPool R V → ℕ → Option ℕ
  kept p gid = index_from 0 gid p.keep

  -- The physical row that an expert's id is sent to.
  unfoldable pub route : LayerPool R V → ℕ → ℕ
  route p gid = elim (kept p gid) [ some row ↦ row | none ↦ staged_row (lookup gid p.gid_row) ]

  -- Whether the router may select an expert.
  unfoldable pub is_open : LayerPool R V → ℕ → Bool
  is_open p gid = is_some (kept p gid) || is_some (lookup gid p.gid_row)

  abbrev pub bias_value : Device R V → Dtype → Bool → V
  bias_value d t b = if b then d.zero_value else d.finfo_min t

  -- The tables of the layer say exactly what the ownership says.
  pub record Tables (d : Device R V) (p : LayerPool R V) (c : Caches V) : Type 0 where
    pub remap_table : List ℕ
    pub remap_found : lookup p.layer_id c.remap ≡ some remap_table
    pub remap_entry : (gid : ℕ) → gid < p.E → get_elem? remap_table gid ≡ some (route p gid)
    pub bias_entry :
        (t : Dtype) (col : List V)
        → lookup (p.layer_id, t) c.bias ≡ some col
        → (gid : ℕ) → gid < p.E
        → get_elem? col gid ≡ some (bias_value d t (is_open p gid))

-- A write at a valid index, read back at any valid index.
pub entry-set {ℓ} :
    {A : Type ℓ} (xs : List A) (i j : ℕ) (v old x : A)
    → get_elem? xs i ≡ some old
    → get_elem? xs j ≡ some x
    → get_elem? (set xs i v) j ≡ some (if i == j then v else x)
entry-set [] i j v old x h k = cc
entry-set (y ∷ ys) zero zero v old x h k = refl
entry-set (y ∷ ys) zero (suc j) v old x h k = rw k (ground arith)
entry-set (y ∷ ys) (suc i) zero v old x h k = rw k (ground arith)
entry-set (y ∷ ys) (suc i) (suc j) v old x h k = ground (arith, entry-set ys i j v old x h k)

lookup-write_remap :
    (layer_id gid row : ℕ) (remap : Dict ℕ (List ℕ)) (tbl : List ℕ)
    → lookup layer_id remap ≡ some tbl
    → lookup layer_id (write_remap layer_id gid row remap) ≡ some (set tbl gid row)
unfolding write_remap
lookup-write_remap layer_id gid row remap tbl h =
    ground (arith, lookup-insert layer_id layer_id (set tbl gid row) remap)

module _ {V : Type 0} where
  lookup-write_bias :
      (layer_id gid : ℕ) (value : Dtype → V) (t : Dtype) (bias : Dict Key (List V)) (col : List V)
      → lookup (layer_id, t) (write_bias layer_id gid value bias) ≡ some col
      → (old : List V) × (lookup (layer_id, t) bias ≡ some old) × (col ≡ set old gid (value t))
  unfolding write_bias lookup
  lookup-write_bias layer_id gid value t [] col h = cc
  lookup-write_bias layer_id gid value t (((l, u), c) ∷ bias) col h =
      elim (Bool-cases (key_beq (l, u) (layer_id, t))) [
        | inl hit ↦ (
          c,
          ground arith,
          ground (arith, (key_beq_iff (l, u) (layer_id, t)).0 hit, dtype_beq_iff u t),
        )
        | inr miss ↦ rw miss (lookup-write_bias layer_id gid value t bias col (ground arith))
      ]

module _ {R V : Type 0} (d : Device R V) where
  -- One expert changes hands: both tables are written at its id, and nowhere else.
  pub Tables-write :
      (p q : LayerPool R V) (c : Caches V) (gid row : ℕ) (b : Bool) (value : Dtype → V)
      → Tables d p c
      → q.layer_id ≡ p.layer_id
      → q.E ≡ p.E
      → gid < p.E
      → ((t : Dtype) → value t ≡ bias_value d t b)
      → ((g : ℕ) → route q g ≡ (if gid == g then row else route p g))
      → ((g : ℕ) → is_open q g ≡ (if gid == g then b else is_open p g))
      → Tables d q (record {
        bias = write_bias p.layer_id gid value c.bias;
        remap = write_remap p.layer_id gid row c.remap;
      })
  Tables-write p q c gid row b value t eid eE lt hv hr ho = record {
    remap_table = set t.remap_table gid row;
    remap_found =
        rw eid (lookup-write_remap p.layer_id gid row c.remap t.remap_table t.remap_found);
    remap_entry = λ g hg. rw (hr g) (
        entry-set t.remap_table gid g row (route p gid) (route p g) (t.remap_entry gid lt)
          (t.remap_entry g (omega arith)));
    bias_entry = λ u col h g hg. bias_at u col (rw eid at h) g (omega arith);
  }
    where
      bias_at :
          (u : Dtype) (col : List V)
          → lookup (p.layer_id, u) (write_bias p.layer_id gid value c.bias) ≡ some col
          → (g : ℕ) → g < p.E
          → get_elem? col g ≡ some (bias_value d u (is_open q g))
      bias_at u col h g hg =
          let (old, found, e) = lookup-write_bias p.layer_id gid value u c.bias col h in
          ground (
            arith,
            hv u,
            ho g,
            entry-set old gid g (value u) (bias_value d u (is_open p gid))
                (bias_value d u (is_open p g)) (t.bias_entry u old found gid lt)
                (t.bias_entry u old found g hg),
          )
