-- ===== src/Ngram/Hash.antt =====
-- runtime-src/qwen4_exp.py: `_hash_contexts` on one row of the contexts, without the fused kernel. A
-- 64-bit integer is kept as its bit pattern; a product wraps at 2 ^ 64.
use Prim.Native.Nat.{bit_xor}
use native.Mathlib.Nat.{mod-lt}
use sglang_flashnext_nvfp4kv.Prelude.{
  ℕ, zero, suc, ◌+◌, ◌-◌, ◌*◌, ◌%◌, ◌^◌, ◌≤◌, ◌<◌, List, [], ◌∷◌, ◌++◌, map, arith, length, take,
  drop, count_up, get_or, ltb, if◌then◌else◌,
}
use sglang_flashnext_nvfp4kv.Ngram.Heads.{NgramEmbedding}
use sglang_flashnext_nvfp4kv.Ngram.Shift.{shift_right_ignore_eos}

unfoldable pub mul_int64 : ℕ → ℕ → ℕ
mul_int64 a b = a * b % 2 ^ 64

-- `torch.remainder`, whose answer has the sign of the divisor.
unfoldable pub remainder_int64 : ℕ → ℕ → ℕ
remainder_int64 x m = if ltb x (2 ^ 63) then x % m else (m - (2 ^ 64 - x) % m) % m

unfoldable pub xor_rows : List ℕ → List ℕ → List ℕ
xor_rows [] ys = []
xor_rows (x ∷ xs) [] = []
xor_rows (x ∷ xs) (y ∷ ys) = bit_xor x y ∷ xor_rows xs ys

-- `for pos in range(1, ngram)`, from `pos` on with n rounds left.
unfoldable pub mix_from : List (List ℕ) → List ℕ → ℕ → ℕ → List ℕ → List ℕ
mix_from shifted multipliers pos zero mix = mix
mix_from shifted multipliers pos (suc n) mix =
    mix_from shifted multipliers (pos + 1) n
      (xor_rows mix (map (λ t. mul_int64 t (get_or multipliers pos 0)) (get_or shifted pos [])))

unfoldable pub mixed : List (List ℕ) → List ℕ → ℕ → List ℕ
mixed shifted multipliers ngram =
    mix_from shifted multipliers 1 (ngram - 1)
      (map (λ t. mul_int64 t (get_or multipliers 0 0)) (get_or shifted 0 []))

-- The last column of the mix, for each head of a block.
unfoldable pub head_ids : ℕ → List ℕ → List ℕ → List ℕ
head_ids x [] offsets = []
head_ids x (s ∷ sizes) [] = []
head_ids x (s ∷ sizes) (o ∷ offsets) = (remainder_int64 x s + o) ∷ head_ids x sizes offsets

abbrev pub last_column : List ℕ → ℕ
last_column row = get_or row (length row - 1) 0

abbrev pub block_of : ℕ → ℕ → List ℕ → List ℕ
block_of start_idx heads xs = take heads (drop start_idx xs)

-- `for ngram in range(2, ngram_size + 1)`, from `ngram` on with n rounds left.
unfoldable pub blocks : NgramEmbedding → List (List ℕ) → ℕ → ℕ → List ℕ
blocks e shifted ngram zero = []
blocks e shifted ngram (suc n) =
    let start_idx = (ngram - 2) * e.heads_per_ngram in
    head_ids (last_column (mixed shifted e.layer_multipliers ngram))
      (block_of start_idx e.heads_per_ngram e.head_vocab_sizes)
      (block_of start_idx e.heads_per_ngram e.head_offsets)
    ++ blocks e shifted (ngram + 1) n

unfoldable pub hash_contexts : NgramEmbedding → List ℕ → List ℕ
hash_contexts e context =
    blocks e
      (context
        ∷ map (shift_right_ignore_eos e.eos_token_id context) (count_up (e.ngram_size - 1) 1))
      2 (e.ngram_size - 1)

pub remainder_int64-lt : (x m : ℕ) → 1 ≤ m → remainder_int64 x m < m
unfolding remainder_int64
remainder_int64-lt x m h = ground (arith, mod-lt x h, mod-lt (m - (2 ^ 64 - x) % m) h)
