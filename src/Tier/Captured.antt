-- ===== src/Tier/Captured.antt =====
-- patches/expert_tier.py: what `remap` bakes into a captured graph, and the packed ids.
use sglang_flashnext_nvfp4kv.Prelude.{
  get_elem?-map, get_or-get_elem?, ℕ, zero, suc, inl, inr, Option-cases, ◌+◌, ◌*◌, ◌%◌, ◌^◌, ◌<◌,
  ◌≡◌, ◌∙◌, refl, ap, true, List, [], ◌∷◌, map, none, some, nat_eq, length, get_elem?,
}
use sglang_flashnext_nvfp4kv.Prelude.Int.{pos, negsuc}
use sglang_flashnext_nvfp4kv.ColdPool.Tables.{index_from}
use sglang_flashnext_nvfp4kv.ColdPool.Ownership.{Distinct}
use sglang_flashnext_nvfp4kv.ColdPool.Shrink.Contents.{Below}
use sglang_flashnext_nvfp4kv.Tier.State.{
  tier, all_below, serve, remap_batch, remap_from, apply_tier, repack,
}
use sglang_flashnext_nvfp4kv.Tier.Table.{all_below-at}
use sglang_flashnext_nvfp4kv.Tier.Eager.{keep_lookup-index, serve-missed, serve-found, ring_start}

repack-at :
    {V : Type 0} (es : List (ℕ × V)) (ps : List ℕ) (j row p : ℕ) (w : V)
    → get_elem? es j ≡ some (row, w)
    → get_elem? ps j ≡ some p
    → get_elem? (repack es ps) j ≡ some (row * 2 ^ 16 + p % 2 ^ 16)
unfolding repack
repack-at [] ps j row p w h k = cc
repack-at ((r, v) ∷ es) [] j row p w h k = cc
repack-at ((r, v) ∷ es) (q ∷ ps) zero row p w h k =
    let r' : r ≡ row = cc in let q' : q ≡ p = cc in rw (r', q') refl
repack-at ((r, v) ∷ es) (q ∷ ps) (suc j) row p w h k = repack-at es ps j row p w h k

serve-kept :
    {R V : Type 0} (zero_weight : V) (E : ℕ) (keep cold : List ℕ) (pairs : List (List R × List R))
    → Distinct keep
    → Below E keep
    → (first g : ℕ) (w : V) → g < E
    → serve zero_weight (tier E keep cold pairs).keep_lookup first (g, w)
      ≡ elim (index_from 0 g keep) [ some row ↦ (row, w) | none ↦ (first, zero_weight) ]
serve-kept zero_weight E keep cold pairs d b first g w lt =
    let table = (tier E keep cold pairs).keep_lookup in
    let entry = keep_lookup-index E keep cold pairs d b g lt in
    elim (Option-cases (index_from 0 g keep)) [
      | inl e ↦ rw e (
          serve-missed zero_weight table first g w
            (get_or-get_elem? table g (negsuc 0) (negsuc 0) (entry ∙ rw e refl)))
      | inr (i, e) ↦ rw e (
          serve-found zero_weight table first g i w
            (get_or-get_elem? table g (negsuc 0) (pos i) (entry ∙ rw e refl)))
    ]

module _ {R V : Type 0} (topk : List ℕ → ℕ → List ℕ) (zero_weight : V) where
  -- With a duplicate-free keep list in range, some cold expert, and all selected ids below the
  -- number of experts, a captured step on a batch with packed ids leaves the tier as it is, sends a
  -- kept expert to the row of its place in the keep list with its weight, and gives every expert that
  -- is not kept, whatever the ring rows hold, the first ring row with weight zero; each packed entry gets the new row in its high part and keeps
  -- its low half, the weight, also where the unpacked weight became zero.
  pub captured_cases :
      (E : ℕ) (keep : List ℕ) (c : ℕ) (cs : List ℕ) (pairs : List (List R × List R))
      (batch : List (ℕ × V)) (packed : List ℕ)
      → Distinct keep
      → Below E keep
      → all_below E (map (λ e. e.0) batch) ≡ true
      → (out : List (ℕ × V)) × (out_packed : List ℕ) × apply_tier topk zero_weight true
            (some (tier E keep (c ∷ cs) pairs))
            batch
            (some packed)
          ≡ (out, some out_packed, some (tier E keep (c ∷ cs) pairs))
        × ((j g : ℕ) (w : V)
            → get_elem? batch j ≡ some (g, w)
            → get_elem? out j
              ≡ some (elim (index_from 0 g keep) [
                | some row ↦ (row, w)
                | none ↦ (length keep, zero_weight)
              ]))
        × ((j row p : ℕ) (w : V)
            → get_elem? out j ≡ some (row, w)
            → get_elem? packed j ≡ some p
            → get_elem? out_packed j ≡ some (row * 2 ^ 16 + p % 2 ^ 16))
  unfolding apply_tier remap_batch remap_from tier
  captured_cases E keep c cs pairs batch packed d b ok =
      let t = tier E keep (c ∷ cs) pairs in
      let out = map (serve zero_weight t.keep_lookup (length keep)) batch in
      let run : remap_from topk zero_weight t.ring_dsts true t batch ≡ some (out, t) =
        ap (λ r. remap_from topk zero_weight r true t batch) (ring_start E keep c cs pairs)
        ∙ rw ok refl in
      (
        out,
        repack out packed,
        rw (run, apply_tier) refl,
        λ j g w at.
            let lt = all_below-at E batch j g w ok at in
            get_elem?-map (serve zero_weight t.keep_lookup (length keep)) batch j (g, w) at
            ∙ ap some (serve-kept zero_weight E keep (c ∷ cs) pairs d b (length keep) g w lt),
        repack-at out packed,
      )
