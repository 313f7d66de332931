-- ===== src/Ngram/Keys.antt =====
-- The hash of a window against a closed form over plain numbers, which neither wrap nor have columns.
use Prim.Native.Nat.{bit_xor}
use native.Mathlib.Nat.{mod-eq_of_lt}
use sglang_flashnext_nvfp4kv.Prelude.{
  ℕ, zero, suc, ◌+◌, ◌-◌, ◌*◌, ◌%◌, ◌^◌, ◌≤◌, ◌<◌, ◌≡◌, ◌∙◌, refl, ap, subst, List, [], ◌∷◌, ◌++◌,
  map, arith, length, length-map, get_or, get_elem?, some, range, nat_eq, ltb, true, ◌==◌, ◌⊎◌, inl,
  inr,
}
use sglang_flashnext_nvfp4kv.Ngram.Bits.{bit_xor-lt}
use sglang_flashnext_nvfp4kv.Ngram.Heads.{
  NgramEmbedding, NgramConfig, embedding_of, ngram_embedding, ngram_embedding-built, built,
}
use sglang_flashnext_nvfp4kv.Ngram.Multipliers.{max_long, build_layer_multipliers-fit}
use sglang_flashnext_nvfp4kv.Ngram.Back.{token_back}
use sglang_flashnext_nvfp4kv.Ngram.Hash.{
  mul_int64, remainder_int64, xor_rows, mix_from, mixed, last_column, block_of, head_ids, blocks,
  hash_contexts,
}
use sglang_flashnext_nvfp4kv.Ngram.Columns.{
  get_or-map, get_or-xor_rows, length-xor_rows, get_or-count_up, length-count_up, get_or-past,
  either_token, shifted_rows, get_or-shifted_rows, products, length-products,
}

-- The exclusive or of the products of the last tokens, going back from the window's last one.
unfoldable pub key_from : NgramEmbedding → List ℕ → ℕ → ℕ → ℕ → ℕ
key_from e context pos zero key = key
key_from e context pos (suc n) key = key_from e context (pos + 1) n (
    bit_xor key (
      token_back e.eos_token_id context (length context - 1) pos
      * get_or e.layer_multipliers pos 0))

unfoldable pub key : NgramEmbedding → List ℕ → ℕ → ℕ
key e context ngram =
    key_from e context 1 (ngram - 1)
      (token_back e.eos_token_id context (length context - 1) 0 * get_or e.layer_multipliers 0 0)

unfoldable pub key_ids : ℕ → List ℕ → List ℕ → List ℕ
key_ids k [] offsets = []
key_ids k (s ∷ sizes) [] = []
key_ids k (s ∷ sizes) (o ∷ offsets) = (k % s + o) ∷ key_ids k sizes offsets

unfoldable pub ngram_ids : NgramEmbedding → List ℕ → ℕ → ℕ → List ℕ
ngram_ids e context ngram zero = []
ngram_ids e context ngram (suc n) =
    let start_idx = (ngram - 2) * e.heads_per_ngram in
    key_ids (key e context ngram) (block_of start_idx e.heads_per_ngram e.head_vocab_sizes)
      (block_of start_idx e.heads_per_ngram e.head_offsets)
    ++ ngram_ids e context (ngram + 1) n

-- A window whose every token, or the end of sequence for a missing one, has a product that fits.
abbrev pub Fits : NgramEmbedding → List ℕ → Type 0
Fits e context =
    (i pos : ℕ) → get_or context i e.eos_token_id * get_or e.layer_multipliers pos 0 < 2 ^ 63

module _ (e : NgramEmbedding) (context : List ℕ) (nonempty : 1 ≤ length context)
    (fits : Fits e context) where
  eos_fits : (pos : ℕ) → e.eos_token_id * get_or e.layer_multipliers pos 0 < 2 ^ 63
  eos_fits pos =
      subst (λ t. t * get_or e.layer_multipliers pos 0 < 2 ^ 63)
        (get_or-past context (length context) e.eos_token_id (omega arith))
        (fits (length context) pos)

  token_back_fits :
      (n i pos : ℕ)
      → token_back e.eos_token_id context i n * get_or e.layer_multipliers pos 0 < 2 ^ 63
  unfolding token_back
  token_back_fits zero i pos = fits i pos
  token_back_fits (suc n) zero pos = eos_fits pos
  token_back_fits (suc n) (suc i) pos =
      either_token (λ t. t * get_or e.layer_multipliers pos 0 < 2 ^ 63)
        (get_or context i e.eos_token_id == e.eos_token_id) (eos_fits pos) (token_back_fits n i pos)

  last_product :
      (pos : ℕ)
      → pos < e.ngram_size
      → get_or (products e context pos) (length context - 1) 0
        ≡ token_back e.eos_token_id context (length context - 1) pos
          * get_or e.layer_multipliers pos 0
  unfolding mul_int64
  last_product pos h =
      let L = length context in
      let back = λ (i : ℕ). token_back e.eos_token_id context i pos in
      let times = λ (t : ℕ). mul_int64 t (get_or e.layer_multipliers pos 0) in
      let l : length (map back (range L)) ≡ L = length-map (range L) back ∙ length-count_up L 0 in
      let last : 0 + (L - 1) ≡ L - 1 = omega arith in
      rw (get_or-shifted_rows e context pos h) (
        get_or-map times (map back (range L)) (L - 1) 0 (omega arith)
        ∙ ap times (get_or-map back (range L) (L - 1) 0 (omega (arith, length-count_up L 0)))
        ∙ ap (λ i. times (back i)) (get_or-count_up L 0 (L - 1) 0 (omega arith) ∙ last)
        ∙ mod-eq_of_lt (omega (arith, token_back_fits pos (L - 1) pos)))

  mix_from-key :
      (n pos k : ℕ) (mix : List ℕ)
      → pos + n ≤ e.ngram_size
      → length mix ≡ length context
      → get_or mix (length context - 1) 0 ≡ k
      → k < 2 ^ 63
      → (get_or
            (mix_from (shifted_rows e context) e.layer_multipliers pos n mix)
            (length (mix_from (shifted_rows e context) e.layer_multipliers pos n mix) - 1)
            0
          ≡ key_from e context pos n k)
        × (key_from e context pos n k < 2 ^ 63)
  unfolding mix_from key_from
  mix_from-key zero pos k mix h l q b = (rw l q, b)
  mix_from-key (suc n) pos k mix h l q b =
      let L = length context in
      let next = token_back e.eos_token_id context (L - 1) pos * get_or e.layer_multipliers pos 0 in
      let lp : length (products e context pos) ≡ L = length-products e context pos (omega arith) in
      mix_from-key n (pos + 1) (bit_xor k next) (xor_rows mix (products e context pos))
        (omega arith) (length-xor_rows mix (products e context pos) (omega arith) ∙ l)
        (get_or-xor_rows mix (products e context pos) (L - 1) (omega arith) (omega arith)
          ∙ ap (λ r. bit_xor r (get_or (products e context pos) (L - 1) 0)) q
          ∙ ap (bit_xor k) (last_product pos (omega arith)))
        (bit_xor-lt 63 k next b (token_back_fits pos (L - 1) pos))

  mixed-key :
      (ngram : ℕ)
      → 1 ≤ ngram
      → ngram ≤ e.ngram_size
      → (last_column (mixed (shifted_rows e context) e.layer_multipliers ngram)
          ≡ key e context ngram)
        × (key e context ngram < 2 ^ 63)
  unfolding mixed key
  mixed-key ngram h k =
      mix_from-key (ngram - 1) 1 _ (products e context 0) (omega arith)
        (length-products e context 0 (omega arith)) (last_product 0 (omega arith))
        (token_back_fits 0 (length context - 1) 0)

head_ids-key :
    (k : ℕ) (sizes offsets : List ℕ)
    → k < 2 ^ 63
    → head_ids k sizes offsets ≡ key_ids k sizes offsets
unfolding head_ids key_ids remainder_int64
head_ids-key k [] offsets h = refl
head_ids-key k (s ∷ sizes) [] h = refl
head_ids-key k (s ∷ sizes) (o ∷ offsets) h =
    let b : ltb k (2 ^ 63) ≡ true = ground arith in rw (b, head_ids-key k sizes offsets h)

blocks-key :
    (e : NgramEmbedding) (context : List ℕ) (n ngram : ℕ)
    → 1 ≤ length context
    → Fits e context
    → 1 ≤ ngram
    → ngram + n ≤ e.ngram_size + 1
    → blocks e (shifted_rows e context) ngram n ≡ ngram_ids e context ngram n
unfolding blocks ngram_ids
blocks-key e context zero ngram p f h k = refl
blocks-key e context (suc n) ngram p f h k =
    let m = mixed-key e context p f ngram h (omega arith) in
    rw
      (
        m.0,
        head_ids-key (key e context ngram) _ _ m.1,
        blocks-key e context n (ngram + 1) p f (omega arith) (omega arith),
      )
      refl

hash_contexts_fitting :
    (e : NgramEmbedding) (context : List ℕ)
    → 1 ≤ e.ngram_size
    → 1 ≤ length context
    → Fits e context
    → hash_contexts e context ≡ ngram_ids e context 2 (e.ngram_size - 1)
unfolding hash_contexts
hash_contexts_fitting e context h p f =
    blocks-key e context (e.ngram_size - 1) 2 p f (omega arith) (omega arith)

get_or-cases :
    (xs : List ℕ) (i d : ℕ) → (get_elem? xs i ≡ some (get_or xs i d)) ⊎ (get_or xs i d ≡ d)
get_or-cases [] i d = inr refl
get_or-cases (x ∷ xs) zero d = inl refl
get_or-cases (x ∷ xs) (suc i) d = get_or-cases xs i d

embedding_of-Fits :
    (next_prime : ℕ → ℕ) (c : NgramConfig) (dim layer : ℕ) (context : List ℕ)
    → c.vocab_size ≤ max_long
    → ((i : ℕ) → get_or context i c.eos_token_id < c.vocab_size)
    → Fits (embedding_of next_prime c dim layer) context
unfolding embedding_of
embedding_of-Fits next_prime c dim layer context h k i pos =
    let e = embedding_of next_prime c dim layer in
    let token = get_or context i c.eos_token_id in
    elim (get_or-cases e.layer_multipliers pos 0) [
      | inl q ↦
          let f =
            build_layer_multipliers-fit c.vocab_size c.seed layer c.ngram_size pos
              (get_or e.layer_multipliers pos 0) token q h (k i) in
          omega (arith, f.1)
      | inr q ↦ let z : token * 0 ≡ 0 = omega arith in rw (q, z) (omega arith)
    ]

-- The hash of a window by a constructed embedding, whose products may wrap, is a closed form over
-- plain numbers: in each head the remainder of the n-gram's key by the head's size, moved to the
-- head's range. The key is the exclusive or of the plain products of the last n tokens with the
-- multipliers, the end of sequence standing for the tokens beyond one. Conditions: the window is
-- not empty, and its tokens and the end of sequence are ids of the vocabulary, whose size is at
-- most the largest signed 64-bit integer.
pub hash_contexts-key :
    (next_prime : ℕ → ℕ) (c : NgramConfig) (dim layer : ℕ) (e : NgramEmbedding) (context : List ℕ)
    → ngram_embedding next_prime c dim layer ≡ built e
    → c.vocab_size ≤ max_long
    → 1 ≤ length context
    → ((i : ℕ) → get_or context i c.eos_token_id < c.vocab_size)
    → hash_contexts e context ≡ ngram_ids e context 2 (e.ngram_size - 1)
unfolding embedding_of
hash_contexts-key next_prime c dim layer e context h k p tokens =
    let b = ngram_embedding-built next_prime c dim layer e h in
    subst (λ x. hash_contexts x context ≡ ngram_ids x context 2 (x.ngram_size - 1)) b.0
      (hash_contexts_fitting (embedding_of next_prime c dim layer) context (omega (arith, b.1)) p
        (embedding_of-Fits next_prime c dim layer context k tokens))
