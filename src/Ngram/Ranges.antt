-- ===== src/Ngram/Ranges.antt =====
-- The ids of the hash against the ranges of the heads.
use native.Mathlib.Nat.{add-mul, lt-div-mul-add}
use sglang_flashnext_nvfp4kv.Prelude.{
  ℕ, zero, suc, ◌+◌, ◌-◌, ◌*◌, ◌≤◌, ◌<◌, ◌≡◌, refl, ap, sym, subst, List, [], ◌∷◌, ◌++◌, arith,
  length, take, drop, get_elem?, some,
}
use sglang_flashnext_nvfp4kv.Ngram.Heads.{
  NgramEmbedding, NgramConfig, Tiled, embedding_of, ngram_embedding, built, ngram_embedding-built,
  build_head_vocab_and_offsets, head_tables-Tiled, length-head_tables, padded_to,
}
use sglang_flashnext_nvfp4kv.Ngram.Slices.{split_block, drop_all, same_length}
use sglang_flashnext_nvfp4kv.Ngram.Hash.{remainder_int64-lt, head_ids, blocks, hash_contexts}

-- Each id lies in the range of its head.
pub data InHeads : List ℕ → List ℕ → List ℕ → Type 0 where
  no_heads : InHeads [] [] []
  in_head :
      {i s o : ℕ} {ids sizes offsets : List ℕ}
      → o ≤ i
      → i < o + s
      → InHeads ids sizes offsets
      → InHeads (i ∷ ids) (s ∷ sizes) (o ∷ offsets)

InHeads-append :
    {is js ss ts os ps : List ℕ}
    → InHeads is ss os
    → InHeads js ts ps
    → InHeads (is ++ js) (ss ++ ts) (os ++ ps)
InHeads-append no_heads b = b
InHeads-append (in_head p q a) b = in_head p q (InHeads-append a b)

abbrev Positive : List ℕ → Type 0
Positive [] = 0 ≤ 0
Positive (s ∷ sizes) = (1 ≤ s) × Positive sizes

Positive-take : (n : ℕ) (xs : List ℕ) → Positive xs → Positive (take n xs)
Positive-take zero xs h = omega arith
Positive-take (suc n) [] h = h
Positive-take (suc n) (x ∷ xs) h = (h.0, Positive-take n xs h.1)

Positive-drop : (n : ℕ) (xs : List ℕ) → Positive xs → Positive (drop n xs)
Positive-drop zero xs h = h
Positive-drop (suc n) [] h = h
Positive-drop (suc n) (x ∷ xs) h = Positive-drop n xs h.1

Tiled-Positive : (sizes offsets : List ℕ) (lo hi : ℕ) → Tiled sizes offsets lo hi → Positive sizes
Tiled-Positive [] offsets lo hi h = omega arith
Tiled-Positive (s ∷ sizes) [] lo hi h = absurd (omega arith)
Tiled-Positive (s ∷ sizes) (o ∷ offsets) lo hi h =
    (h.1, Tiled-Positive sizes offsets (lo + s) hi h.2)

head_ids-InHeads :
    (x : ℕ) (sizes offsets : List ℕ)
    → Positive sizes
    → length sizes ≡ length offsets
    → InHeads (head_ids x sizes offsets) sizes offsets
unfolding head_ids
head_ids-InHeads x [] [] h e = no_heads
head_ids-InHeads x [] (o ∷ offsets) h e = absurd (omega arith)
head_ids-InHeads x (s ∷ sizes) [] h e = absurd (omega arith)
head_ids-InHeads x (s ∷ sizes) (o ∷ offsets) h e =
    in_head (omega arith) (omega (arith, remainder_int64-lt x s h.0))
      (head_ids-InHeads x sizes offsets h.1 (omega arith))

InHeads-at :
    {ids sizes sizes' offsets offsets' : List ℕ}
    → sizes ≡ sizes'
    → offsets ≡ offsets'
    → InHeads ids sizes' offsets'
    → InHeads ids sizes offsets
InHeads-at e f h = rw (e, f) h

-- The ranges go up.
Tiled-le : (sizes offsets : List ℕ) (lo hi : ℕ) → Tiled sizes offsets lo hi → lo ≤ hi
Tiled-le [] [] lo hi h = omega arith
Tiled-le [] (o ∷ offsets) lo hi h = absurd (omega arith)
Tiled-le (s ∷ sizes) [] lo hi h = absurd (omega arith)
Tiled-le (s ∷ sizes) (o ∷ offsets) lo hi h = omega (arith, Tiled-le sizes offsets (lo + s) hi h.2)

module _ (e : NgramEmbedding) (shifted : List (List ℕ)) where
  blocks-InHeads :
      (n ngram : ℕ)
      → 2 ≤ ngram
      → Positive e.head_vocab_sizes
      → length e.head_vocab_sizes ≡ length e.head_offsets
      → length e.head_vocab_sizes ≡ (ngram - 2) * e.heads_per_ngram + n * e.heads_per_ngram
      → InHeads
          (blocks e shifted ngram n)
          (drop ((ngram - 2) * e.heads_per_ngram) e.head_vocab_sizes)
          (drop ((ngram - 2) * e.heads_per_ngram) e.head_offsets)
  unfolding blocks
  blocks-InHeads zero ngram k p q l =
      let start = (ngram - 2) * e.heads_per_ngram in
      InHeads-at (drop_all start e.head_vocab_sizes (omega arith))
        (drop_all start e.head_offsets (omega arith)) no_heads
  blocks-InHeads (suc n) ngram k p q l =
      let h = e.heads_per_ngram in
      let start = (ngram - 2) * h in
      let e1 : ngram + 1 - 2 ≡ ngram - 2 + 1 = omega arith in
      let rest =
        blocks-InHeads n (ngram + 1) (omega arith) p q
          (rw e1 (omega (arith, l, add-mul (ngram - 2) 1 h, add-mul n 1 h))) in
      InHeads-at (split_block ngram h e.head_vocab_sizes k) (split_block ngram h e.head_offsets k) (
        InHeads-append
          (head_ids-InHeads _ _ _ (Positive-take h _ (Positive-drop start e.head_vocab_sizes p))
            (same_length h start e.head_vocab_sizes e.head_offsets q))
          rest)

-- The j-th id lies in the range of the j-th head, which lies below the end of the last one.
pub record HeadRange (sizes offsets : List ℕ) (j id hi : ℕ) : Type 0 where
  pub size : ℕ
  pub offset : ℕ
  pub has_size : get_elem? sizes j ≡ some size
  pub has_offset : get_elem? offsets j ≡ some offset
  pub above : offset ≤ id
  pub below : id < offset + size
  pub in_table : offset + size ≤ hi

InHeads-range :
    (ids sizes offsets : List ℕ) (lo hi j id : ℕ)
    → InHeads ids sizes offsets
    → Tiled sizes offsets lo hi
    → get_elem? ids j ≡ some id
    → HeadRange sizes offsets j id hi
InHeads-range ids sizes offsets lo hi j id no_heads t e = cc
InHeads-range ids sizes offsets lo hi zero id
      (in_head {s = s} {o = o} {sizes = ss} {offsets = os} p q h) t e =
    record {
      size = s;
      offset = o;
      has_size = refl;
      has_offset = refl;
      above = ground arith;
      below = ground arith;
      in_table = ground (arith, Tiled-le ss os (lo + s) hi t.2);
    }
InHeads-range ids sizes offsets lo hi (suc j) id
      (in_head {s = s} {ids = is} {sizes = ss} {offsets = os} p q h) t e =
    let r = InHeads-range is ss os (lo + s) hi j id h t.2 e in
    record {
      size = r.size;
      offset = r.offset;
      has_size = r.has_size;
      has_offset = r.has_offset;
      above = r.above;
      below = r.below;
      in_table = r.in_table;
    }

HeadRange-upto :
    {sizes offsets : List ℕ} {j id hi hi' : ℕ}
    → hi ≤ hi'
    → HeadRange sizes offsets j id hi
    → HeadRange sizes offsets j id hi'
HeadRange-upto h r = record {
  size = r.size;
  offset = r.offset;
  has_size = r.has_size;
  has_offset = r.has_offset;
  above = r.above;
  below = r.below;
  in_table = omega (arith, r.in_table);
}

build_head_vocab_and_offsets-Tiled :
    (next_prime : ℕ → ℕ) (larger : (n : ℕ) → n < next_prime n) (heads layer base : ℕ)
    → Tiled
        (build_head_vocab_and_offsets next_prime heads layer base).sizes
        (build_head_vocab_and_offsets next_prime heads layer base).offsets
        0
        (build_head_vocab_and_offsets next_prime heads layer base).total
unfolding build_head_vocab_and_offsets
build_head_vocab_and_offsets-Tiled next_prime larger heads layer base =
    head_tables-Tiled next_prime larger heads base (layer * heads) 0

padded_to-le : (total d : ℕ) → 1 ≤ d → total ≤ padded_to total d
padded_to-le total d h = omega (arith, lt-div-mul-add {a = total + d - 1} h)

hash_contexts-InHeads :
    (next_prime : ℕ → ℕ) (c : NgramConfig) (dim layer : ℕ) (context : List ℕ)
    → ((n : ℕ) → n < next_prime n)
    → InHeads
        (hash_contexts (embedding_of next_prime c dim layer) context)
        (embedding_of next_prime c dim layer).head_vocab_sizes
        (embedding_of next_prime c dim layer).head_offsets
unfolding hash_contexts embedding_of build_head_vocab_and_offsets
hash_contexts-InHeads next_prime c dim layer context larger =
    let e = embedding_of next_prime c dim layer in
    let z : (2 - 2) * c.heads_per_ngram ≡ 0 = omega arith in
    let l =
      length-head_tables next_prime e.ngram_heads c.ngram_vocab_size_base (layer * e.ngram_heads)
        0 in
    InHeads-at (sym (ap (λ k. drop k e.head_vocab_sizes) z))
      (sym (ap (λ k. drop k e.head_offsets) z))
      (blocks-InHeads e _ (c.ngram_size - 1) 2 (omega arith)
        (Tiled-Positive _ _ 0 _ (head_tables-Tiled next_prime larger e.ngram_heads _ _ 0))
        (omega (arith, l.0, l.1)) (omega (arith, l.0)))

-- Of the ids that a constructed embedding hashes a window of tokens to, the j-th lies in the range
-- of the j-th head, and that range ends within the padded table. It holds for any tokens, as a
-- product that wraps is still reduced. Condition: sympy's next prime is larger.
pub hash_contexts-range :
    (next_prime : ℕ → ℕ) (c : NgramConfig) (dim layer : ℕ) (e : NgramEmbedding) (context : List ℕ)
    (j id : ℕ)
    → ((n : ℕ) → n < next_prime n)
    → ngram_embedding next_prime c dim layer ≡ built e
    → get_elem? (hash_contexts e context) j ≡ some id
    → HeadRange e.head_vocab_sizes e.head_offsets j id e.padded_vocab_size
unfolding embedding_of
hash_contexts-range next_prime c dim layer e context j id larger h k =
    let b = ngram_embedding-built next_prime c dim layer e h in
    let made = embedding_of next_prime c dim layer in
    let tables =
      build_head_vocab_and_offsets next_prime made.ngram_heads layer c.ngram_vocab_size_base in
    let q = subst (λ x. get_elem? (hash_contexts x context) j ≡ some id) (sym b.0) k in
    let r =
      InHeads-range _ _ _ 0 tables.total j id
        (hash_contexts-InHeads next_prime c dim layer context larger)
        (build_head_vocab_and_offsets-Tiled next_prime larger made.ngram_heads layer
          c.ngram_vocab_size_base)
        q in
    subst
      (λ (x : NgramEmbedding). HeadRange x.head_vocab_sizes x.head_offsets j id x.padded_vocab_size)
      b.0 (HeadRange-upto (padded_to-le tables.total c.divisible_by b.2) r)
