-- ===== src/Ngram/Multipliers.antt =====
-- runtime-src/qwen4_exp.py: `_splitmix64` and `_build_layer_multipliers`. Python's integers are
-- unbounded, `& _MASK64` is the remainder by 2 ^ 64 and `>> n` the quotient by 2 ^ n.
use Prim.Native.Nat.{bit_xor}
use native.Mathlib.Nat.{mod-lt, mul-div-le, mul-le-mul_left, mul-le-mul_right, mul-one, le_trans}
use sglang_flashnext_nvfp4kv.Prelude.{
  ℕ, zero, suc, ◌+◌, ◌-◌, ◌*◌, ◌/◌, ◌%◌, ◌^◌, ◌≤◌, ◌<◌, ◌≡◌, List, [], ◌∷◌, map, max, arith, range,
  some, get_elem?, subst,
}

abbrev splitmix_gamma : ℕ
splitmix_gamma = 0x9e3779b97f4a7c15

abbrev splitmix_m1 : ℕ
splitmix_m1 = 0xbf58476d1ce4e5b9

abbrev splitmix_m2 : ℕ
splitmix_m2 = 0x94d049bb133111eb

abbrev prime_1 : ℕ
prime_1 = 10007

-- `x & _MASK64`.
abbrev mask64 : ℕ → ℕ
mask64 x = x % 2 ^ 64

unfoldable pub splitmix64 : ℕ → ℕ
splitmix64 x =
    let x0 = mask64 (x + splitmix_gamma) in
    let x1 = mask64 (bit_xor x0 (x0 / 2 ^ 30) * splitmix_m1) in
    let x2 = mask64 (bit_xor x1 (x1 / 2 ^ 27) * splitmix_m2) in mask64 (bit_xor x2 (x2 / 2 ^ 31))

abbrev pub max_long : ℕ
max_long = 2 ^ 63 - 1

-- The bound that the mixed number is reduced by.
unfoldable pub half_bound : ℕ → ℕ
half_bound vocab = max 1 (max_long / max vocab 1 / 2)

unfoldable pub multiplier : ℕ → ℕ → ℕ → ℕ
multiplier vocab base_seed idx =
    2 * (splitmix64 (mask64 (base_seed + splitmix_gamma * (idx + 1))) % half_bound vocab) + 1

-- `seed` is the setting of that name, 1234 where the configuration has none.
unfoldable pub build_layer_multipliers : ℕ → ℕ → ℕ → ℕ → List ℕ
build_layer_multipliers vocab seed ple_layer_index size =
    map (multiplier vocab (seed + prime_1 * ple_layer_index)) (range size)

half_bound-positive : (vocab : ℕ) → 1 ≤ half_bound vocab
unfolding half_bound
half_bound-positive vocab = omega arith

-- An odd number under the bound times the vocabulary's size stays a positive 64-bit integer.
below_half_bound :
    (vocab r : ℕ)
    → 1 ≤ vocab
    → vocab ≤ max_long
    → r < half_bound vocab
    → vocab * (2 * r + 1) ≤ max_long
unfolding half_bound
below_half_bound vocab r h k l =
    let e : max vocab 1 ≡ vocab = omega arith in
    let h' : r < max 1 (max_long / vocab / 2) = subst (λ v. r < max 1 (max_long / v / 2)) e l in
    below_quotient (max_long / vocab) h' (mul-div-le max_long vocab)
  where
    below_quotient :
        (q : ℕ) → r < max 1 (q / 2) → vocab * q ≤ max_long → vocab * (2 * r + 1) ≤ max_long
    below_quotient zero p b = let z : 2 * r + 1 ≡ 1 = omega arith in rw (z, mul-one vocab) k
    below_quotient (suc q) p b = le_trans (mul-le-mul_left vocab (omega arith)) b

pub multiplier_fits :
    (vocab base_seed idx token : ℕ)
    → token < vocab
    → vocab ≤ max_long
    → (multiplier vocab base_seed idx % 2 ≡ 1) × (token * multiplier vocab base_seed idx ≤ max_long)
unfolding multiplier
multiplier_fits vocab base_seed idx token h k =
    let r : ℕ = splitmix64 (mask64 (base_seed + splitmix_gamma * (idx + 1))) % half_bound vocab in
    let l : r < half_bound vocab = mod-lt _ (half_bound-positive vocab) in
    (
      omega arith,
      le_trans (mul-le-mul_right (2 * r + 1) (omega arith))
          (below_half_bound vocab r (omega arith) k l),
    )

get_elem?-map_of {ℓ κ} :
    {A : Type ℓ} {B : Type κ} (f : A → B) (xs : List A) (j : ℕ) (b : B)
    → get_elem? (map f xs) j ≡ some b
    → (a : A) × (f a ≡ b)
get_elem?-map_of f [] j b h = cc
get_elem?-map_of f (x ∷ xs) zero b h = (x, cc)
get_elem?-map_of f (x ∷ xs) (suc j) b h = get_elem?-map_of f xs j b h

-- Each multiplier is odd, and its product with a token id of the vocabulary is at most the largest
-- signed 64-bit integer. Condition: so is the vocabulary's size.
pub build_layer_multipliers-fit :
    (vocab seed ple_layer_index size i m token : ℕ)
    → get_elem? (build_layer_multipliers vocab seed ple_layer_index size) i ≡ some m
    → vocab ≤ max_long
    → token < vocab
    → (m % 2 ≡ 1) × (token * m ≤ max_long)
unfolding build_layer_multipliers
build_layer_multipliers-fit vocab seed ple_layer_index size i m token h k l =
    let e = get_elem?-map_of _ (range size) i m h in
    subst (λ y. (y % 2 ≡ 1) × (token * y ≤ max_long)) e.1
      (multiplier_fits vocab (seed + prime_1 * ple_layer_index) e.0 token l k)
