-- ===== src/Ngram/Heads.antt =====
-- runtime-src/qwen4_exp.py: `_find_nth_prime_after`, `_build_head_vocab_and_offsets` and the constructor
-- of the n-gram embedding. `sympy.nextprime` is a parameter, relied on to answer a larger number.
-- A negative setting fails the tests that 0 fails.
use sglang_flashnext_nvfp4kv.Prelude.{
  ℕ, zero, suc, ◌+◌, ◌-◌, ◌*◌, ◌/◌, ◌%◌, ◌≤◌, ◌<◌, ◌≡◌, ◌∙◌, refl, ap, List, [], ◌∷◌, arith, length,
  nat_eq, ◌==◌, ltb, not, if◌then◌else◌, get_elem?, some,
}
use sglang_flashnext_nvfp4kv.Ngram.Multipliers.{build_layer_multipliers}

pub data NgramError : Type 0 where
  ngram_size_below_two no_heads dim_not_divisible empty_base zero_divisor : NgramError

pub data Built (A : Type 0) : Type 0 where
  refused : NgramError → Built A
  built : A → Built A

pub record NgramConfig : Type 0 where
  pub ngram_size : ℕ
  pub heads_per_ngram : ℕ
  pub vocab_size : ℕ
  pub ngram_vocab_size_base : ℕ
  pub divisible_by : ℕ
  pub eos_token_id : ℕ
  pub seed : ℕ

pub record NgramEmbedding : Type 0 where
  pub ngram_size : ℕ
  pub heads_per_ngram : ℕ
  pub ngram_heads : ℕ
  pub head_dim_per_ngram : ℕ
  pub eos_token_id : ℕ
  pub layer_multipliers : List ℕ
  pub head_vocab_sizes : List ℕ
  pub head_offsets : List ℕ
  pub padded_vocab_size : ℕ

abbrev pub padded_to : ℕ → ℕ → ℕ
padded_to total d = (total + d - 1) / d * d

-- What `_build_head_vocab_and_offsets` returns.
pub record HeadTables : Type 0 where
  pub sizes : List ℕ
  pub offsets : List ℕ
  pub total : ℕ

module _ (next_prime : ℕ → ℕ) where
  unfoldable pub find_nth_prime_after : ℕ → ℕ → ℕ
  find_nth_prime_after start zero = start
  find_nth_prime_after start (suc n) = find_nth_prime_after (next_prime start) n

  -- The loop over the heads from `head_idx` on, with `total` what the earlier ones take.
  unfoldable pub head_tables : ℕ → ℕ → ℕ → ℕ → HeadTables
  head_tables zero base global_head_idx total = record { sizes = []; offsets = []; total = total }
  head_tables (suc n) base global_head_idx total =
      let size = find_nth_prime_after (base - 1) (global_head_idx + 1) in
      let rest = head_tables n base (global_head_idx + 1) (total + size) in
      record { sizes = size ∷ rest.sizes; offsets = total ∷ rest.offsets; total = rest.total }

  unfoldable pub build_head_vocab_and_offsets : ℕ → ℕ → ℕ → HeadTables
  build_head_vocab_and_offsets ngram_heads ple_layer_index base =
      head_tables ngram_heads base (ple_layer_index * ngram_heads) 0

  -- The fields that the constructor fills once its tests have passed.
  unfoldable pub embedding_of : NgramConfig → ℕ → ℕ → NgramEmbedding
  embedding_of c embedding_dim ple_layer_index =
      let heads = (c.ngram_size - 1) * c.heads_per_ngram in
      let tables = build_head_vocab_and_offsets heads ple_layer_index c.ngram_vocab_size_base in
      record {
        ngram_size = c.ngram_size;
        heads_per_ngram = c.heads_per_ngram;
        ngram_heads = heads;
        head_dim_per_ngram = embedding_dim / heads;
        eos_token_id = c.eos_token_id;
        layer_multipliers =
            build_layer_multipliers c.vocab_size c.seed ple_layer_index c.ngram_size;
        head_vocab_sizes = tables.sizes;
        head_offsets = tables.offsets;
        padded_vocab_size = padded_to tables.total c.divisible_by;
      }

  unfoldable pub ngram_embedding : NgramConfig → ℕ → ℕ → Built NgramEmbedding
  ngram_embedding c embedding_dim ple_layer_index =
      if ltb c.ngram_size 2
      then refused ngram_size_below_two
      else if c.heads_per_ngram == 0
      then refused no_heads
      else if not (embedding_dim % ((c.ngram_size - 1) * c.heads_per_ngram) == 0)
      then refused dim_not_divisible
      else if c.ngram_vocab_size_base == 0
      then refused empty_base
      else if c.divisible_by == 0
      then refused zero_divisor
      else built (embedding_of c embedding_dim ple_layer_index)

  pub ngram_embedding-built :
      (c : NgramConfig) (dim layer : ℕ) (e : NgramEmbedding)
      → ngram_embedding c dim layer ≡ built e
      → (embedding_of c dim layer ≡ e) × (2 ≤ c.ngram_size) × (1 ≤ c.divisible_by)
  unfolding ngram_embedding
  ngram_embedding-built c dim layer e h = (ground arith, ground arith, ground arith)

module _ (next_prime : ℕ → ℕ) (larger : (n : ℕ) → n < next_prime n) where
  find_nth_prime_after-grows : (n start : ℕ) → start + n ≤ find_nth_prime_after next_prime start n
  unfolding find_nth_prime_after
  find_nth_prime_after-grows zero start = omega arith
  find_nth_prime_after-grows (suc n) start =
      omega (arith, find_nth_prime_after-grows n (next_prime start), larger start)

  -- A later head's size is larger, also across layers: no two heads share a modulus.
  pub find_nth_prime_after-strict :
      (start m n : ℕ)
      → m < n
      → find_nth_prime_after next_prime start m < find_nth_prime_after next_prime start n
  unfolding find_nth_prime_after
  find_nth_prime_after-strict start m zero h = absurd (omega arith)
  find_nth_prime_after-strict start zero (suc n) h =
      omega (arith, find_nth_prime_after-grows n (next_prime start), larger start)
  find_nth_prime_after-strict start (suc m) (suc n) h =
      find_nth_prime_after-strict (next_prime start) m n (omega arith)

-- The heads' ranges follow each other without gaps, from `lo` to `hi`.
abbrev pub Tiled : List ℕ → List ℕ → ℕ → ℕ → Type 0
Tiled [] [] lo hi = lo ≡ hi
Tiled [] (o ∷ offsets) lo hi = lo < lo
Tiled (s ∷ sizes) [] lo hi = lo < lo
Tiled (s ∷ sizes) (o ∷ offsets) lo hi = (o ≡ lo) × (1 ≤ s) × Tiled sizes offsets (lo + s) hi

pub head_tables-Tiled :
    (next_prime : ℕ → ℕ) (larger : (n : ℕ) → n < next_prime n) (n base g total : ℕ)
    → Tiled
        (head_tables next_prime n base g total).sizes
        (head_tables next_prime n base g total).offsets
        total
        (head_tables next_prime n base g total).total
unfolding head_tables
head_tables-Tiled next_prime larger zero base g total = refl
head_tables-Tiled next_prime larger (suc n) base g total = (
  refl,
  omega (arith, find_nth_prime_after-grows next_prime larger (g + 1) (base - 1)),
  head_tables-Tiled next_prime larger n base (g + 1) _,
)

pub length-head_tables :
    (next_prime : ℕ → ℕ) (n base g total : ℕ)
    → (length (head_tables next_prime n base g total).sizes ≡ n)
      × (length (head_tables next_prime n base g total).offsets ≡ n)
unfolding head_tables
length-head_tables next_prime zero base g total = (refl, refl)
length-head_tables next_prime (suc n) base g total =
    let rest =
      length-head_tables next_prime n base (g + 1)
        (total + find_nth_prime_after next_prime (base - 1) (g + 1)) in
    (ap suc rest.0, ap suc rest.1)

pub get_elem?-head_tables :
    (next_prime : ℕ → ℕ) (n base g total i size : ℕ)
    → get_elem? (head_tables next_prime n base g total).sizes i ≡ some size
    → size ≡ find_nth_prime_after next_prime (base - 1) (g + i + 1)
unfolding head_tables
get_elem?-head_tables next_prime zero base g total i size h = cc
get_elem?-head_tables next_prime (suc n) base g total zero size h =
    let e : g + 1 ≡ g + 0 + 1 = omega arith in
    let q : size ≡ find_nth_prime_after next_prime (base - 1) (g + 1) = cc in
    q ∙ ap (find_nth_prime_after next_prime (base - 1)) e
get_elem?-head_tables next_prime (suc n) base g total (suc i) size h =
    let e : g + 1 + i + 1 ≡ g + suc i + 1 = omega arith in
    get_elem?-head_tables next_prime n base (g + 1) _ i size h
    ∙ ap (find_nth_prime_after next_prime (base - 1)) e

-- Heads are numbered through the layers, and a head with a later number has a strictly larger table
-- size, of the same layer or of another: no two heads of the model share a size. Conditions: sympy's
-- next prime is larger, and the layers have the same number of heads and the same base.
pub build_head_vocab_and_offsets-strict :
    (next_prime : ℕ → ℕ) (heads base layer0 layer1 i0 i1 size0 size1 : ℕ)
    → ((n : ℕ) → n < next_prime n)
    → get_elem? (build_head_vocab_and_offsets next_prime heads layer0 base).sizes i0 ≡ some size0
    → get_elem? (build_head_vocab_and_offsets next_prime heads layer1 base).sizes i1 ≡ some size1
    → layer0 * heads + i0 < layer1 * heads + i1
    → size0 < size1
unfolding build_head_vocab_and_offsets
build_head_vocab_and_offsets-strict next_prime heads base layer0 layer1 i0 i1 size0 size1 larger h k
      l =
    let e0 = get_elem?-head_tables next_prime heads base _ 0 i0 size0 h in
    let e1 = get_elem?-head_tables next_prime heads base _ 0 i1 size1 k in
    rw (e0, e1) (find_nth_prime_after-strict next_prime larger (base - 1) _ _ (omega arith))
