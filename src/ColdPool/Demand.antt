-- ===== src/ColdPool/Demand.antt =====
-- patches/expert_cold_pool.py: the demand signal, `stash_demand`, and what `after_forward_hook` does
-- for one layer. Floats are a type `V` with the operations of `Scores`; `argsort` is torch's, in
-- descending order. Counts are exact sums of ones in the source's float32 vector.
use sglang_flashnext_nvfp4kv.Prelude.{
  ℕ, zero, suc, ◌+◌, ◌-◌, ◌*◌, ◌/◌, Bool, true, false, ◌&&◌, ◌||◌, not, List, [], ◌∷◌, ◌++◌, map,
  Option, none, some, min, nat_eq, ltb, if◌then◌else◌, contains, length, get_or, set, take,
  replicate,
}
use sglang_flashnext_nvfp4kv.Prelude.Int.{ℤ, pos, negsuc}

-- The float operations of the demand path.
pub record Scores (V : Type 0) : Type 0 where
  pub sigmoid : V → V
  pub mul : V → V → V
  pub add : V → V → V
  pub at_least : V → V → Bool
  pub null : V
  pub one : V
  pub minus_one : V
  pub infinity : V
  pub argsort : List V → List ℕ

abbrev pub stash_rows : ℕ
stash_rows = 819

-- `x[::stride]`: every `stride`-th element, the first included; `wait` more are passed over.
unfoldable pub every {ℓ} : {A : Type ℓ} → ℕ → ℕ → List A → List A
every stride wait [] = []
every stride zero (x ∷ xs) = x ∷ every stride (stride - 1) xs
every stride (suc wait) (x ∷ xs) = every stride wait xs

-- One row's slice where the step has more rows than the budget.
unfoldable pub subsample {ℓ} : {A : Type ℓ} → ℕ → List A → List A
unfolding every
subsample n xs = if ltb stash_rows n then every ((n + stash_rows - 1) / stash_rows) 0 xs else xs

unfoldable pub concat {ℓ} : {A : Type ℓ} → List (List A) → List A
concat [] = []
concat (xs ∷ xss) = xs ++ concat xss

abbrev pub is_nonneg : ℤ → Bool
is_nonneg (pos _) = true
is_nonneg (negsuc _) = false

abbrev pub filter_nonneg : List ℤ → List ℕ
filter_nonneg [] = []
filter_nonneg (pos n ∷ ids) = n ∷ filter_nonneg ids
filter_nonneg (negsuc n ∷ ids) = filter_nonneg ids

unfoldable pub any_nonneg : List ℤ → Bool
any_nonneg [] = false
any_nonneg (id ∷ ids) = is_nonneg id || any_nonneg ids

-- A layer's entry of `_STASH`; `logits` is None until the first stash.
pub record Stash (V : Type 0) : Type 0 where
  pub ids : List ℤ
  pub scores : List V
  pub logits : List (List V)

module _ {V : Type 0} (f : Scores V) where
  -- `neg`: padding, or a column of a fused shared expert.
  unfoldable pub stash_entry : ℕ → List V → ℤ → ℤ × V
  stash_entry width logits (negsuc n) = (negsuc 0, f.minus_one)
  stash_entry width logits (pos id) =
      if ltb id width
      then (pos id, f.sigmoid (get_or logits id f.null))
      else (negsuc 0, f.minus_one)

  unfoldable pub stash_row : ℕ → List ℤ × List V → List (ℤ × V)
  unfolding stash_entry
  stash_row width (ids, logits) = map (stash_entry width logits) ids

  unfoldable pub valid_logits : ℕ → List (List ℤ × List V) → List (List V)
  unfolding stash_row any_nonneg
  valid_logits width [] = []
  valid_logits width (r ∷ rs) =
      let rest = valid_logits width rs in
      if any_nonneg (map (λ e. e.0) (stash_row width r)) then r.1 ∷ rest else rest

  -- `buf["ids"][:m] = iff[:m]`, and -1 in the rest of the buffer.
  unfoldable pub fill_buffer : ℕ → List (ℤ × V) → List (List V) → Stash V
  fill_buffer cap entries logits =
      let m = min (length entries) cap in
      record {
        ids = take m (map (λ e. e.0) entries) ++ replicate (cap - m) (negsuc 0);
        scores = take m (map (λ e. e.1) entries) ++ replicate (cap - m) f.minus_one;
        logits = logits;
      }

  -- `stash_demand`: the rows are the token rows, each with its selected ids and its logits before the
  -- mask. `none` leaves the stash as it was.
  unfoldable pub stash_demand :
      Bool → Bool → Option ℕ → ℕ → ℕ → List (List ℤ × List V) → Option (Stash V)
  unfolding fill_buffer stash_row valid_logits subsample concat
  stash_demand false capturing layer width k rows = none
  stash_demand true true layer width k rows = none
  stash_demand true false none width k rows = none
  stash_demand true false (some layer) width k rows =
      let sampled = subsample (length rows) rows in
      some (
        fill_buffer (stash_rows * k) (concat (map (stash_row width) sampled))
          (valid_logits width sampled))

  -- `hot_min`: the least score among the columns that are not cold.
  unfoldable pub hot_min : List ℕ → List ℕ → List V → V
  hot_min cold [] scores = f.infinity
  hot_min cold (g ∷ gs) [] = f.infinity
  hot_min cold (g ∷ gs) (s ∷ ss) =
      let rest = hot_min cold gs ss in
      if contains g cold then rest else if f.at_least s rest then rest else s

  -- `flat[strong]` in one row.
  unfoldable pub strong_ids : List ℕ → V → V → List ℕ → List V → List ℕ
  strong_ids cold alpha floor [] ss = []
  strong_ids cold alpha floor (g ∷ gs) [] = []
  strong_ids cold alpha floor (g ∷ gs) (s ∷ ss) =
      let rest = strong_ids cold alpha floor gs ss in
      if contains g cold && f.at_least s (f.mul alpha floor) then g ∷ rest else rest

  -- The probe in one row of the logits before the mask: the cold, unstaged expert of the band with the
  -- greatest score, from the expert `g` on, with its score.
  unfoldable pub probe_row : List ℕ → List ℕ → V → V → ℕ → List V → Option (ℕ × V)
  probe_row cold staged alpha floor g [] = none
  probe_row cold staged alpha floor g (x ∷ xs) =
      let rest = probe_row cold staged alpha floor (suc g) xs in
      let score = f.sigmoid x in
      if contains g cold && not (contains g staged) && f.at_least score (f.mul alpha floor)
      then elim rest [
        | none ↦ some (g, score)
        | some best ↦ if f.at_least score best.1 then some (g, score) else some best
      ]
      else rest

  -- `need_counts.index_add_(0, sel, ones)`.
  unfoldable pub add_ones : List ℕ → List V → List V
  add_ones [] counts = counts
  add_ones (g ∷ gs) counts = add_ones gs (set counts g (f.add (get_or counts g f.null) f.one))
