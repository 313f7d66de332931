-- ===== src/KvPool/Spans.antt =====
-- runtime-src/memory_pool.py: `KvBufferDesc`, the byte spans of a buffer whose rows hold some tokens each,
-- and `KVWriteLoc`, the write locations of a batch. Token counts are natural numbers.
use native.Mathlib.Nat.{add-mul, mul-le-mul_right, div-mul-le_self, le-div_iff_mul-le}
use sglang_flashnext_nvfp4kv.Prelude.{
  ℕ, ◌+◌, ◌-◌, ◌*◌, ◌/◌, ◌≤◌, ◌<◌, List, [], ◌∷◌, Option, none, some, arith, nat_eq, ◌==◌,
  if◌then◌else◌, length, take,
}

pub record KvBufferDesc : Type 0 where
  pub shape : List ℕ
  pub row_bytes : ℕ
  pub tokens_per_row : ℕ

-- `math.prod`.
unfoldable pub prod : List ℕ → ℕ
prod [] = 1
prod (d ∷ ds) = d * prod ds

-- `_rows`: a ceiling division.
unfoldable pub row_count : KvBufferDesc → ℕ → ℕ
row_count d n = (n + d.tokens_per_row - 1) / d.tokens_per_row

unfoldable pub reserved_span_bytes : KvBufferDesc → ℕ → ℕ
unfolding prod
reserved_span_bytes d itemsize = prod d.shape * itemsize

unfoldable pub prefix_span_bytes : KvBufferDesc → ℕ → ℕ
unfolding row_count
prefix_span_bytes d n = row_count d n * d.row_bytes

unfoldable pub final_span_bytes : KvBufferDesc → ℕ → ℕ → ℕ
unfolding row_count
final_span_bytes d n page_size = row_count d (n + page_size) * d.row_bytes

unfoldable pub item_len_bytes : KvBufferDesc → ℕ → ℕ
item_len_bytes d page_size = page_size / d.tokens_per_row * d.row_bytes

-- The locations are physical slots.
pub record KvWriteLoc : Type 0 where
  pub loc : List ℕ
  pub swa_loc : Option (List ℕ)
  pub full_loc : Option (List ℕ)

-- A location resolved from the padded batch is cut to the batch's length.
unfoldable pub narrow : ℕ → Option (List ℕ) → Option (List ℕ)
narrow n none = none
narrow n (some xs) = if length xs == n then some xs else some (take n xs)

-- `__post_init__`.
unfoldable pub post_init : KvWriteLoc → KvWriteLoc
unfolding narrow
post_init w = record w {
  swa_loc = narrow (length w.loc) w.swa_loc;
  full_loc = narrow (length w.loc) w.full_loc;
}

-- A quotient is at least `q` when `q` rows of the divisor fit.
le_quotient : (k q y : ℕ) → 0 < k → q * k ≤ y → q ≤ y / k
le_quotient k q y pos le = (le-div_iff_mul-le {k = k} {x = q} {y = y} pos).1 le

scaled_le : (q r b : ℕ) → q + 1 ≤ r → q * b + b ≤ r * b
scaled_le q r b le = let dist = add-mul q 1 b in let mono = mul-le-mul_right b le in omega arith

-- For a layout of at least one token per row: the row of each of the first `num_tokens` tokens ends
-- within the prefix span, and the rows of that span hold fewer than `num_tokens` plus one row's tokens, so
-- no whole row is backed for nothing.
pub row_count_exact :
    (d : KvBufferDesc) (n : ℕ)
    → 0 < d.tokens_per_row
    → ((t : ℕ) → t < n → t / d.tokens_per_row * d.row_bytes + d.row_bytes ≤ prefix_span_bytes d n)
      × (row_count d n * d.tokens_per_row < n + d.tokens_per_row)
unfolding prefix_span_bytes
row_count_exact d n pos = (
  λ t lt.
      let k = d.tokens_per_row in
      let fits = div-mul-le_self t k in
      scaled_le (t / k) ((n + k - 1) / k) d.row_bytes
        (le_quotient k (t / k + 1) (n + k - 1) pos (let dist = add-mul (t / k) 1 k in omega arith)),
  let fits = div-mul-le_self (n + d.tokens_per_row - 1) d.tokens_per_row in omega arith,
)
