-- ===== src/Qsa/Columns.antt =====
-- runtime-src/kernel.py: what single columns of the kernel store.
use native.Mathlib.Nat.{div-lt_iff_lt-mul, mod-add-div', mod-lt}
use sglang_flashnext_nvfp4kv.Prelude.{
  ℕ, zero, suc, ◌+◌, ◌-◌, ◌*◌, ◌/◌, ◌%◌, ◌≤◌, ◌<◌, ◌≡◌, ◌∙◌, refl, ap, sym, Bool, true, false, List,
  [], ◌∷◌, map, some, arith, nat_eq, length, length-map, length-append, length-replicate, get_elem?,
  get_elem?-some, lt-of-get_elem?, take, replicate, count_up,
}
use sglang_flashnext_nvfp4kv.Prelude.Int.{ℤ, pos, negsuc}
use sglang_flashnext_nvfp4kv.Qsa.Expand.{minus_one, load_block, tail_column, expand_column}
use sglang_flashnext_nvfp4kv.Qsa.Compact.{padded}
use sglang_flashnext_nvfp4kv.Qsa.Lookup.{
  get_elem?-take, get_elem?-tokens_of, length-tokens_of, All-get_elem?, tokens_of-Whole,
}
use sglang_flashnext_nvfp4kv.Qsa.Rows.{tokens_of, Whole, shown, get_or-padded_block}

-- A column function run over consecutive columns stores some tokens, or only -1s.
pub stores :
    (f : ℕ → ℤ) (ts : List ℕ) (i : ℕ)
    → ((o t : ℕ) → get_elem? ts o ≡ some t → f (i + o) ≡ pos t)
    → map f (count_up (length ts) i) ≡ map pos ts
stores f [] i h = refl
stores f (t ∷ ts) i h =
    let here : i + 0 ≡ i = omega arith in
    let head : f i ≡ pos t = ap f (sym here) ∙ h 0 t refl in
    ap (λ x. x ∷ map f (count_up (length ts) (suc i))) head
    ∙ ap (λ r. pos t ∷ r)
        (stores f ts (suc i)
          (λ o u e. let next : suc i + o ≡ i + suc o = omega arith in ap f next ∙ h (suc o) u e))

pub stores_gaps :
    (f : ℕ → ℤ) (n i : ℕ)
    → ((o : ℕ) → o < n → f (i + o) ≡ minus_one)
    → map f (count_up n i) ≡ replicate n minus_one
stores_gaps f zero i h = refl
stores_gaps f (suc n) i h =
    let here : i + 0 ≡ i = omega arith in
    let head : f i ≡ minus_one = ap f (sym here) ∙ h 0 (omega arith) in
    ap (λ x. x ∷ map f (count_up n (suc i))) head
    ∙ ap (λ r. minus_one ∷ r)
        (stores_gaps f n (suc i) (λ o lt.
          let next : suc i + o ≡ i + suc o = omega arith in ap f next ∙ h (suc o) (omega arith)))

pub take-count_up : (n m i : ℕ) → n ≤ m → take n (count_up m i) ≡ count_up n i
take-count_up zero m i le = refl
take-count_up (suc n) zero i le = absurd (omega arith)
take-count_up (suc n) (suc m) i le = ap (λ r. i ∷ r) (take-count_up n m (suc i) (omega arith))

pub length-padded : (ts : List ℕ) (j : ℕ) → length (padded ts j) ≡ length ts + j
length-padded ts j =
    let all = length-append (map pos ts) (replicate j minus_one) in
    let l = length-map ts pos in let r = length-replicate j minus_one in ground (arith, all, l, r)

pub expand_column-past :
    (ratio token_topk seq : ℕ) (b tail : ℤ) (valid c : ℕ)
    → valid ≤ c
    → expand_column ratio token_topk seq b tail valid c ≡ tail
unfolding expand_column
expand_column-past ratio token_topk seq (pos b) tail valid c le = ground arith
expand_column-past ratio token_topk seq (negsuc b) tail valid c le = refl

pub expand_column-front :
    (ratio token_topk seq b : ℕ) (tail : ℤ) (valid c : ℕ)
    → c < token_topk
    → b * ratio + c % ratio < seq
    → c < valid
    → expand_column ratio token_topk seq (pos b) tail valid c ≡ pos (b * ratio + c % ratio)
unfolding expand_column
expand_column-front ratio token_topk seq b tail valid c lt lt' lt'' = ground arith

pub load_block-some :
    (blocks : List ℕ) (gaps : ℕ) (mask : Bool) (q b : ℕ)
    → mask ≡ true
    → get_elem? blocks q ≡ some b
    → load_block (padded blocks gaps) mask q ≡ pos b
unfolding load_block
load_block-some blocks gaps true q b m e = get_or-padded_block blocks gaps q b e
load_block-some blocks gaps false q b m e = cc

pub some_inj : {a b : ℕ} → some a ≡ some b → a ≡ b
some_inj h = cc

-- Every token of the front: its block, its place in the block, and its bound.
pub front-token :
    (ratio token_topk seq : ℕ) (blocks : List ℕ) (c t : ℕ)
    → 0 < ratio
    → Whole ratio seq blocks
    → get_elem? (take token_topk (tokens_of ratio blocks)) c ≡ some t
    → (b : ℕ) × (get_elem? blocks (c / ratio) ≡ some b)
      × (t ≡ b * ratio + c % ratio)
      × (t < seq)
      × (c < token_topk)
      × (c < length blocks * ratio)
      × (c / ratio < length blocks)
front-token ratio token_topk seq blocks c t pos_ratio whole e =
    let taken = get_elem?-take token_topk (tokens_of ratio blocks) c t e in
    let inside = lt-of-get_elem? (tokens_of ratio blocks) c taken.1 in
    let size = length-tokens_of ratio blocks in
    let inside' : c < length blocks * ratio = omega arith in
    let q_lt : c / ratio < length blocks =
      (div-lt_iff_lt-mul {k = ratio} {x = c} {y = length blocks} pos_ratio).1 inside' in
    let found = get_elem?-some blocks (c / ratio) q_lt in
    let at =
      get_elem?-tokens_of ratio blocks (c / ratio) (c % ratio) found.0 (mod-lt c pos_ratio)
        found.1 in
    let whole_c : c / ratio * ratio + c % ratio ≡ c = let d = mod-add-div' c ratio in omega arith in
    let at' : get_elem? (tokens_of ratio blocks) c ≡ some (found.0 * ratio + c % ratio) =
      ap (get_elem? (tokens_of ratio blocks)) (sym whole_c) ∙ at in
    let below =
      All-get_elem? (λ u. u < seq) (tokens_of ratio blocks) c t
        (tokens_of-Whole ratio seq blocks whole) taken.1 in
    (found.0, found.1, some_inj (sym taken.1 ∙ at'), below, taken.0, inside', q_lt)

pub tail_column-shown :
    (ratio valid start count seq c : ℕ)
    → valid ≤ c
    → c - valid < shown start count seq (ratio - 1) 0
    → tail_column ratio valid start count seq c ≡ pos (start + (c - valid))
unfolding tail_column
tail_column-shown ratio valid start count seq c le lt = ground arith

pub tail_column-past :
    (ratio valid start count seq c : ℕ)
    → shown start count seq (ratio - 1) 0 ≤ c - valid
    → tail_column ratio valid start count seq c ≡ minus_one
unfolding tail_column
tail_column-past ratio valid start count seq c le = ground arith
