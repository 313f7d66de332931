-- ===== src/ColdPool/Hook.antt =====
-- patches/expert_cold_pool.py: the body of `after_forward_hook` for one layer: the stashed demand is
-- read and cleared, the counts decay and grow, and the cold experts whose count reaches the need are
-- staged. `_phase_b` (ColdPool.Degrade) follows where it is enabled.
use sglang_flashnext_nvfp4kv.Prelude.{
  ℕ, zero, suc, ◌+◌, ◌/◌, ◌≡◌, ◌<◌, inl, inr, Bool, true, false, List, [], ◌∷◌, ◌++◌, map, Option,
  none, some, arith, nat_eq, ltb, if◌then◌else◌, keys, length, get_elem?, get_or, take, drop,
  replicate, Bool-cases, Option-cases,
}
use sglang_flashnext_nvfp4kv.Prelude.Int.{negsuc}
use sglang_flashnext_nvfp4kv.ColdPool.State.{Param, Device, LayerPool, Cold}
use sglang_flashnext_nvfp4kv.ColdPool.Staging.{stage_all}
use sglang_flashnext_nvfp4kv.ColdPool.Tables.{index_from}
use sglang_flashnext_nvfp4kv.ColdPool.Weights.{All}
use sglang_flashnext_nvfp4kv.ColdPool.Invariant.{Inv}
use sglang_flashnext_nvfp4kv.ColdPool.Steps.{reframe-Inv}
use sglang_flashnext_nvfp4kv.ColdPool.Serving.{IsCold, stage_all-Inv}
use sglang_flashnext_nvfp4kv.ColdPool.Demand.{
  Scores, Stash, filter_nonneg, hot_min, strong_ids, probe_row, add_ones,
}

-- SGLANG_COLD_STRONG_ALPHA, _NEED_HITS, _EMA_DECAY, _MAX_STAGE and _TOPK.
pub record HookConfig (V : Type 0) : Type 0 where
  pub alpha : V
  pub need : V
  pub decay : V
  pub cap : ℕ
  pub k : ℕ

-- `x.reshape(-1, k)`, for `n` rows.
unfoldable pub chunk {ℓ} : {A : Type ℓ} → ℕ → ℕ → List A → List (List A)
chunk zero k xs = []
chunk (suc n) k xs = take k xs ∷ chunk n k (drop k xs)

-- `x[order[:cap]]`.
unfoldable pub gather {ℓ} : {A : Type ℓ} → List A → List ℕ → List A
gather xs [] = []
gather xs (i ∷ is) = elim (get_elem? xs i) [ none ↦ gather xs is | some x ↦ x ∷ gather xs is ]

module _ {V : Type 0} (f : Scores V) (cfg : HookConfig V) where
  -- The experts that the probe of the logits counts, one for a row at most.
  unfoldable pub probed : List ℕ → List ℕ → List V → List (List V) → List ℕ
  probed cold staged floors [] = []
  probed cold staged [] (lg ∷ lgs) = []
  probed cold staged (floor ∷ floors) (lg ∷ lgs) =
      let rest = probed cold staged floors lgs in
      elim (probe_row f cold staged cfg.alpha floor 0 lg) [
        | none ↦ rest
        | some best ↦ if f.at_least f.null best.1 then rest else best.0 ∷ rest
      ]

  unfoldable pub floors_of : List ℕ → List (List ℕ) → List (List V) → List V
  floors_of cold [] scs = []
  floors_of cold (g ∷ gs) [] = hot_min f cold g [] ∷ floors_of cold gs []
  floors_of cold (g ∷ gs) (s ∷ ss) = hot_min f cold g s ∷ floors_of cold gs ss

  unfoldable pub strong_of : List ℕ → List V → List (List ℕ) → List (List V) → List ℕ
  strong_of cold (m ∷ ms) (g ∷ gs) (s ∷ ss) =
      strong_ids f cold cfg.alpha m g s ++ strong_of cold ms gs ss
  strong_of cold [] gs ss = []
  strong_of cold (m ∷ ms) [] ss = []
  strong_of cold (m ∷ ms) (g ∷ gs) [] = []

  unfoldable pub needed : List V → List ℕ → List ℕ
  needed counts [] = []
  needed counts (g ∷ gs) =
      let rest = needed counts gs in
      if f.at_least (get_or counts g f.null) cfg.need then g ∷ rest else rest

  abbrev pub counts_or_zeros : ℕ → Option (List V) → List V
  counts_or_zeros E none = replicate E f.null
  counts_or_zeros E (some counts) = counts

  -- `ids.fill_(-1); buf["scores"].fill_(-1.0)`: the logits stay.
  unfoldable pub clear_stash : Stash V → Stash V
  clear_stash buf = record {
    ids = replicate (length buf.ids) (negsuc 0);
    scores = replicate (length buf.scores) f.minus_one;
    logits = buf.logits;
  }

  module _ {R : Type 0} where
    -- The counts after the probe: the vector is created where the probe hits.
    unfoldable pub probe_counts : LayerPool R V → List ℕ → Option (List V)
    probe_counts p [] = p.need_counts
    probe_counts p (g ∷ gs) = some (add_ones f (g ∷ gs) (counts_or_zeros p.E p.need_counts))

    -- What a layer's demand comes to: the counts, the experts to stage in order, and the hits.
    unfoldable pub demand : Stash V → LayerPool R V → List V × List ℕ × ℕ
    unfolding probed floors_of strong_of needed chunk gather probe_counts
    demand buf p =
        let ids = filter_nonneg buf.ids in
        let n = length ids / cfg.k in
        let flat = chunk n cfg.k ids in
        let sc = chunk n cfg.k buf.scores in
        let floors = floors_of p.cold flat sc in
        let hits = probed p.cold (keys p.gid_row) floors buf.logits in
        let before = counts_or_zeros p.E (probe_counts p hits) in
        let sel = strong_of p.cold floors flat sc in
        let counts = add_ones f sel (map (λ x. f.mul x cfg.decay) before) in
        let cands = needed counts p.cold in
        let order = f.argsort (map (λ g. get_or counts g f.null) cands) in
        (counts, gather cands (take cfg.cap order), length hits + length sel)

    -- A layer with fewer than k valid ids only has its tick advanced.
    unfoldable pub hook_layer : Device R V → Stash V → Cold R V → Stash V × Cold R V
    unfolding demand clear_stash
    hook_layer d buf s =
        let t : Cold R V = record s { pool = record (s.pool) { tick = s.pool.tick + 1 } } in
        let (counts, gids, strong) = demand buf t.pool in
        let u : Cold R V = record t {
          pool = record (t.pool) { need_counts = some counts };
          stats = record (t.stats) { strong = t.stats.strong + strong };
        } in
        if ltb (length (filter_nonneg buf.ids)) cfg.k
        then (buf, t)
        else (clear_stash buf, stage_all d gids u)

    module _ (d : Device R V) (W : Param → ℕ → R) where
      abbrev pub ColdIn : ℕ → List ℕ → ℕ → Type 0
      ColdIn E keep gid = (gid < E) × (index_from 0 gid keep ≡ none)

      needed-cold :
          (E : ℕ) (keep : List ℕ) (counts : List V) (cold : List ℕ)
          → All (ColdIn E keep) cold
          → All (ColdIn E keep) (needed counts cold)
      unfolding needed
      needed-cold E keep counts [] h = tt
      needed-cold E keep counts (g ∷ gs) h =
          let rest = needed-cold E keep counts gs h.1 in
          elim (Bool-cases (f.at_least (get_or counts g f.null) cfg.need)) [
            | inl e ↦ rw e (h.0, rest)
            | inr e ↦ rw e rest
          ]

      All-get_elem? :
          (P : ℕ → Type 0) (xs : List ℕ) (i : ℕ) (x : ℕ) → All P xs → get_elem? xs i ≡ some x → P x
      All-get_elem? P [] i x h e = absurd (ground arith)
      All-get_elem? P (y ∷ ys) zero x h e = let q : y ≡ x = ground arith in rw (← q) h.0
      All-get_elem? P (y ∷ ys) (suc i) x h e = All-get_elem? P ys i x h.1 e

      gather-All : (P : ℕ → Type 0) (xs order : List ℕ) → All P xs → All P (gather xs order)
      unfolding gather
      gather-All P xs [] h = tt
      gather-All P xs (i ∷ is) h = elim (Option-cases (get_elem? xs i)) [
        | inl e ↦ rw (e, gather) (gather-All P xs is h)
        | inr (x, e) ↦ rw (e, gather) (All-get_elem? P xs i x h e, gather-All P xs is h)
      ]

      demand-cold :
          (buf : Stash V) (p : LayerPool R V)
          → All (ColdIn p.E p.keep) p.cold
          → All (ColdIn p.E p.keep) (demand buf p).1
      unfolding demand
      demand-cold buf p h = gather-All (ColdIn p.E p.keep) _ _ (needed-cold p.E p.keep _ p.cold h)

      -- One layer's turn of the hook keeps the invariant, whatever was stashed and however the sort
      -- orders the candidates: the pool's cold list names experts in range that are not kept.
      pub hook_layer-Inv :
          (buf : Stash V) (s : Cold R V)
          → All (IsCold d W s) s.pool.cold
          → Inv d W none s
          → Inv d W none (hook_layer d buf s).1
      unfolding hook_layer
      hook_layer-Inv buf s cold v = go (ltb (length (filter_nonneg buf.ids)) cfg.k)
        where
          t : Cold R V
          t = record s { pool = record (s.pool) { tick = s.pool.tick + 1 } }

          u : Cold R V
          u = record t {
            pool = record (t.pool) { need_counts = some (demand buf t.pool).0 };
            stats = record (t.stats) { strong = t.stats.strong + (demand buf t.pool).2 };
          }

          go :
              (b : Bool)
              → Inv d W none
                  (if◌then◌else◌ {A = Stash V × Cold R V} b
                    (buf, t)
                    (clear_stash buf, stage_all d (demand buf t.pool).1 u)).1
          go true = reframe-Inv d W s _ _ _ _ _ v
          go false =
              stage_all-Inv d W (demand buf t.pool).1 u (demand-cold buf t.pool cold)
                (reframe-Inv d W s _ _ _ _ _ v)
