-- ===== src/Qsa/Rows.antt =====
-- runtime-src/kernel.py: the two expansions on a row whose blocks precede its -1s.
use native.Mathlib.Nat.{add-mul}
use mathlib.Core.List.{append_assoc, map-append}
use sglang_flashnext_nvfp4kv.Prelude.{
  ℕ, zero, suc, ◌+◌, ◌-◌, ◌*◌, ◌≤◌, ◌<◌, min, ◌≡◌, ◌∙◌, refl, ap, sym, inl, inr, ◌&&◌, List, [],
  ◌∷◌, ◌++◌, map, some, arith, ltb, Bool-cases, length, get_elem?, get_or, take, replicate,
  count_up, range,
}
use sglang_flashnext_nvfp4kv.Prelude.Int.{pos}
use sglang_flashnext_nvfp4kv.ColdPool.Weights.{All}
use sglang_flashnext_nvfp4kv.Qsa.Expand.{
  minus_one, block_tokens, all_tokens, within, tail_entry, is_valid_entry, load_block, count_blocks,
}
use sglang_flashnext_nvfp4kv.Qsa.Compact.{padded}

-- The tokens of some blocks, in order.
unfoldable pub tokens_of : ℕ → List ℕ → List ℕ
tokens_of ratio [] = []
tokens_of ratio (b ∷ bs) = map (λ o. b * ratio + o) (range ratio) ++ tokens_of ratio bs

-- Every token of every block is before `seq`.
abbrev pub Whole : ℕ → ℕ → List ℕ → Type 0
Whole ratio seq = All (λ b. b * ratio + ratio ≤ seq)

map-map-count_up :
    (b n i : ℕ) → map (λ o. pos (b + o)) (count_up n i) ≡ map pos (map (λ o. b + o) (count_up n i))
map-map-count_up b zero i = refl
map-map-count_up b (suc n) i = ap (λ r. pos (b + i) ∷ r) (map-map-count_up b n (suc i))

const-count_up : (n i : ℕ) → map (λ o. minus_one) (count_up n i) ≡ replicate n minus_one
const-count_up zero i = refl
const-count_up (suc n) i = ap (λ r. minus_one ∷ r) (const-count_up n (suc i))

pub replicate-plus :
    (n m : ℕ) → replicate n minus_one ++ replicate m minus_one ≡ replicate (n + m) minus_one
replicate-plus zero m = ap (λ k. replicate k minus_one) (omega arith)
replicate-plus (suc n) m =
    ap (λ r. minus_one ∷ r) (replicate-plus n m)
    ∙ (let e : suc (n + m) ≡ suc n + m = omega arith in ap (λ k. replicate k minus_one) e)

gaps-tokens :
    (ratio k : ℕ) → all_tokens ratio (replicate k minus_one) ≡ replicate (k * ratio) minus_one
unfolding all_tokens block_tokens
gaps-tokens ratio zero = let e : 0 ≡ 0 * ratio = omega arith in ap (λ n. replicate n minus_one) e
gaps-tokens ratio (suc k) =
    ap (λ r. r ++ all_tokens ratio (replicate k minus_one)) (const-count_up ratio 0)
    ∙ ap (λ r. replicate ratio minus_one ++ r) (gaps-tokens ratio k)
    ∙ replicate-plus ratio (k * ratio)
    ∙ (let dist = add-mul 1 k ratio in
        let e : ratio + k * ratio ≡ suc k * ratio = ground (arith, dist) in
        ap (λ n. replicate n minus_one) e)

pub all_tokens-padded :
    (ratio : ℕ) (bs : List ℕ) (k : ℕ)
    → all_tokens ratio (padded bs k) ≡ padded (tokens_of ratio bs) (k * ratio)
unfolding all_tokens block_tokens tokens_of
all_tokens-padded ratio [] k = gaps-tokens ratio k
all_tokens-padded ratio (b ∷ bs) k =
    let own : List ℕ = map (λ o. b * ratio + o) (range ratio) in
    ap (λ r. r ++ all_tokens ratio (padded bs k)) (map-map-count_up (b * ratio) ratio 0)
    ∙ ap (λ r. map pos own ++ r) (all_tokens-padded ratio bs k)
    ∙ sym (
        append_assoc (map pos own) (map pos (tokens_of ratio bs)) (replicate (k * ratio) minus_one))
    ∙ ap (λ r. r ++ replicate (k * ratio) minus_one) (sym (map-append pos own (tokens_of ratio bs)))

take-gaps : (n j : ℕ) → take n (replicate j minus_one) ≡ replicate (min n j) minus_one
take-gaps zero j = let e : 0 ≡ min 0 j = omega arith in ap (λ k. replicate k minus_one) e
take-gaps (suc n) zero =
    let e : 0 ≡ min (suc n) 0 = omega arith in ap (λ k. replicate k minus_one) e
take-gaps (suc n) (suc j) =
    let e : suc (min n j) ≡ min (suc n) (suc j) = omega arith in
    ap (λ r. minus_one ∷ r) (take-gaps n j) ∙ ap (λ k. replicate k minus_one) e

pub take-padded :
    (n : ℕ) (ts : List ℕ) (j : ℕ)
    → take n (padded ts j) ≡ padded (take n ts) (min (n - length ts) j)
take-padded zero ts j =
    let e : 0 ≡ min (0 - length ts) j = omega arith in ap (λ k. replicate k minus_one) e
take-padded (suc n) [] j =
    let e : min (suc n) j ≡ min (suc n - 0) j = omega arith in
    take-gaps (suc n) j ∙ ap (λ k. replicate k minus_one) e
take-padded (suc n) (t ∷ ts) j =
    let e : min (n - length ts) j ≡ min (suc n - suc (length ts)) j = omega arith in
    ap (λ r. pos t ∷ r) (take-padded n ts j) ∙ ap (λ k. padded (t ∷ take n ts) k) e

pub within-padded :
    (seq : ℕ) (ts : List ℕ) (j : ℕ)
    → All (λ t. t < seq) ts
    → map (within seq) (padded ts j) ≡ padded ts j
unfolding within
within-padded seq [] zero h = refl
within-padded seq [] (suc j) h = ap (λ r. minus_one ∷ r) (within-padded seq [] j h)
within-padded seq (t ∷ ts) j h = let ih = within-padded seq ts j h.1 in ground (arith, ih, h.0)

-- How many of the entries from `o` on are tokens.
abbrev pub shown : ℕ → ℕ → ℕ → ℕ → ℕ → ℕ
shown start count seq n o = min n (min (count - o) (seq - start - o))

pub tail_entry-padded :
    (start count seq n o : ℕ)
    → map (tail_entry start count seq) (count_up n o)
      ≡ padded (count_up (shown start count seq n o) (start + o)) (n - shown start count seq n o)
unfolding tail_entry
tail_entry-padded start count seq zero o =
    let e : 0 ≡ shown start count seq 0 o = omega arith in
    ap (λ m. padded (count_up m (start + o)) (0 - m)) e
tail_entry-padded start count seq (suc n) o =
    let ih = tail_entry-padded start count seq n (suc o) in
    let m = shown start count seq n (suc o) in
    elim (Bool-cases (ltb o count && ltb (start + o) seq)) [
      | inl h ↦
          let first : tail_entry start count seq o ≡ pos (start + o) = ground (arith, h) in
          let more : suc m ≡ shown start count seq (suc n) o = ground (arith, h) in
          let next : start + suc o ≡ suc (start + o) = omega arith in
          let left : n - m ≡ suc n - suc m = omega arith in
          ap (λ x. x ∷ map (tail_entry start count seq) (count_up n (suc o))) first
          ∙ ap (λ r. pos (start + o) ∷ r) (ih ∙ ap (λ i. padded (count_up m i) (n - m)) next)
          ∙ ap (λ k. padded (count_up (suc m) (start + o)) k) left
          ∙ ap (λ l. padded (count_up l (start + o)) (suc n - l)) more
      | inr h ↦
          let first : tail_entry start count seq o ≡ minus_one = ground (arith, h) in
          let done : m ≡ 0 = ground (arith, h) in
          let gone : 0 ≡ shown start count seq (suc n) o = ground (arith, h) in
          let left : suc (n - 0) ≡ suc n - 0 = omega arith in
          ap (λ x. x ∷ map (tail_entry start count seq) (count_up n (suc o))) first
          ∙ ap (λ r. minus_one ∷ r)
              (ih ∙ ap (λ l. padded (count_up l (start + suc o)) (n - l)) done)
          ∙ ap (λ k. replicate k minus_one) left
          ∙ ap (λ l. padded (count_up l (start + o)) (suc n - l)) gone
    ]

-- Below the number of blocks a column of the row holds a block, and past them -1.
pub get_or-padded :
    (bs : List ℕ) (k c : ℕ) → is_valid_entry (get_or (padded bs k) c minus_one) ≡ ltb c (length bs)
unfolding is_valid_entry
get_or-padded [] zero c = ground arith
get_or-padded [] (suc k) zero = refl
get_or-padded [] (suc k) (suc c) = get_or-padded [] k c ∙ ground arith
get_or-padded (b ∷ bs) k zero = ground arith
get_or-padded (b ∷ bs) k (suc c) = get_or-padded bs k c ∙ ground arith

pub get_or-padded_block :
    (bs : List ℕ) (k c b : ℕ) → get_elem? bs c ≡ some b → get_or (padded bs k) c minus_one ≡ pos b
get_or-padded_block [] k c b h = cc
get_or-padded_block (x ∷ bs) k zero b h = cc
get_or-padded_block (x ∷ bs) k (suc c) b h = get_or-padded_block bs k c b h

pub count_blocks-padded :
    (width : ℕ) (bs : List ℕ) (k n i : ℕ)
    → length bs ≤ width
    → count_blocks width (padded bs k) (count_up n i) ≡ min n (length bs - i)
unfolding count_blocks load_block
count_blocks-padded width bs k zero i le = omega arith
count_blocks-padded width bs k (suc n) i le =
    ground (arith, le, get_or-padded bs k i, count_blocks-padded width bs k n (suc i) le)
