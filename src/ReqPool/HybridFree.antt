-- ===== src/ReqPool/HybridFree.antt =====
-- runtime-src/memory_pool.py: `free_mamba_cache` and `donate_mamba_ping_pong_slot`.
use sglang_flashnext_nvfp4kv.Prelude.{
  ℕ, zero, suc, ◌+◌, ◌≤◌, ◌≡◌, ◌∙◌, ◌⊎◌, inl, inr, refl, ap, Bool, true, false, List, [], ◌∷◌,
  Option, none, some, arith, nat_eq, if◌then◌else◌, set, get_or, get_or-get_elem?, get_elem?,
  get_elem?-set_self, lt-of-get_elem?,
}
use sglang_flashnext_nvfp4kv.Prelude.Int.{ℤ, pos, negsuc}
use sglang_flashnext_nvfp4kv.ColdPool.Weights.{All}
use sglang_flashnext_nvfp4kv.ReqPool.Slots.{Req, Reply, ok}
use sglang_flashnext_nvfp4kv.ReqPool.Hybrid.{SlotAllocator, HybridPool, occurs}
use sglang_flashnext_nvfp4kv.ReqPool.PingPong.{
  drop_unset, part_to_free, free_buffer_at, free_state_if, free_mamba_cache, set_slot_at,
  set_ping_pong_slot, donated, donate_ping_pong_slot,
}
use sglang_flashnext_nvfp4kv.ReqPool.HybridSlots.{held_state, held_buffer, held_slots}

occurs-drop_unset : (x : ℕ) (zs : List ℤ) → occurs x (drop_unset zs) ≡ occurs x zs
unfolding drop_unset
occurs-drop_unset x [] = refl
occurs-drop_unset x (pos n ∷ zs) = omega (arith, occurs-drop_unset x zs)
occurs-drop_unset x (negsuc zero ∷ zs) = omega (arith, occurs-drop_unset x zs)
occurs-drop_unset x (negsuc (suc n) ∷ zs) = omega (arith, occurs-drop_unset x zs)

occurs-set :
    (x i : ℕ) (new old : ℤ) (zs : List ℤ)
    → get_elem? zs i ≡ some old
    → occurs x (set zs i new) + occurs x (old ∷ []) ≡ occurs x zs + occurs x (new ∷ [])
occurs-set x i new old [] h = cc
occurs-set x zero new old (z ∷ zs) h = let e : z ≡ old = cc in rw e (omega arith)
occurs-set x (suc i) new old (z ∷ zs) h = omega (arith, occurs-set x i new old zs h)

-- The device's row of the mapping is the request's buffer.
pub record Synced {S : Type 0} (p : HybridPool S) (r : Req) (row : ℕ) (buffer : List ℤ)
    : Type 0 where
  pub has_row : r.req_pool_idx ≡ some row
  pub has_buffer : r.mamba_ping_pong_track_buffer ≡ some buffer
  pub mapped : get_elem? p.ping_pong_mapping row ≡ some buffer

-- The entry of a two-slot buffer that a call keeps.
abbrev pub kept_entry : Option ℕ → ℤ → ℤ → List ℤ
kept_entry none y0 y1 = []
kept_entry (some zero) y0 y1 = y0 ∷ []
kept_entry (some (suc k)) y0 y1 = y1 ∷ []

abbrev pub IsEntry : Option ℕ → Type 0
IsEntry none = Unit
IsEntry (some k) = k ≤ 1

part_lem :
    (keep : Option ℕ) (y0 y1 : ℤ)
    → IsEntry keep
    → (part : List ℤ) × part_to_free 2 (y0 ∷ y1 ∷ []) keep ≡ some part
      × ((x : ℕ) → occurs x part + occurs x (kept_entry keep y0 y1) ≡ occurs x (y0 ∷ y1 ∷ []))
unfolding part_to_free
part_lem none y0 y1 h = (y0 ∷ y1 ∷ [], refl, λ x. omega arith)
part_lem (some zero) y0 y1 h = (y1 ∷ [], refl, λ x. omega arith)
part_lem (some (suc zero)) y0 y1 h = (y0 ∷ [], refl, λ x. omega arith)
part_lem (some (suc (suc k))) y0 y1 h = absurd (omega (arith, h))

occurs-out :
    (x : ℕ) (lazy : Bool) (part : List ℤ)
    → occurs x (if lazy then drop_unset part else part) ≡ occurs x part
occurs-out x true part = occurs-drop_unset x part
occurs-out x false part = refl

drop_unset-set : (zs : List ℤ) → All (λ y. ¬ (y ≡ negsuc zero)) (drop_unset zs)
unfolding drop_unset
drop_unset-set [] = tt
drop_unset-set (pos n ∷ zs) = (λ h. cc, drop_unset-set zs)
drop_unset-set (negsuc zero ∷ zs) = drop_unset-set zs
drop_unset-set (negsuc (suc n) ∷ zs) = (λ h. cc, drop_unset-set zs)

out-set :
    (lazy : Bool) (part : List ℤ)
    → (lazy ≡ false) ⊎ All (λ y. ¬ (y ≡ negsuc zero)) (if lazy then drop_unset part else part)
out-set true part = inr (drop_unset-set part)
out-set false part = inl refl

module _ {S : Type 0} (a : SlotAllocator S) where
  -- What a successful free leaves.
  abbrev pub Freed : HybridPool S → Req → ℤ → List ℤ → List ℤ → Reply (HybridPool S × Req) → Type 0
  Freed p r z buffer kept reply =
      (p' : HybridPool S) × (r' : Req) × (out : List ℤ) × (reply ≡ ok (p', r'))
      × (p'.allocator ≡ a.give_back (a.give_back p.allocator (z ∷ [])) out)
      × ((x : ℕ) → occurs x out + occurs x kept ≡ occurs x buffer)
      × ((p.lazy ≡ false) ⊎ All (λ y. ¬ (y ≡ negsuc zero)) out)
      × (r'.mamba_pool_idx ≡ none)
      × (r'.mamba_ping_pong_track_buffer ≡ none)
      × ((x : ℕ)
          → a.free_count p'.allocator x + occurs x kept
            ≡ a.free_count p.allocator x + held_slots x r)

  free_at_row :
      (p : HybridPool S) (r : Req) (keep : Option ℕ) (row : ℕ) (part : List ℤ)
      → part_to_free p.buffer_size (get_or p.ping_pong_mapping row []) keep ≡ some part
      → free_buffer_at a (some row) p r keep
        ≡ ok (
          record p {
            allocator = a.give_back p.allocator (if p.lazy then drop_unset part else part);
          },
          record r {
            mamba_ping_pong_track_buffer = none;
            mamba_next_track_idx = none;
            mamba_last_track_idx = none;
          },
        )
  unfolding free_buffer_at
  free_at_row p r keep row part run = rw (run, free_buffer_at) refl

  -- With the extra buffer of two entries on, a request with a state slot whose buffer is the one in the
  -- mapping frees its state slot and its buffer, all of it or all but the entry to keep: every slot is
  -- afterwards free as often as it was free or held by the request, except the kept entry, which is
  -- neither freed nor held any longer. Two lists are given back, the state slot and then the entries that
  -- are not kept; with a lazy buffer, no unset entry is in the second.
  pub free_mamba_cache_conserves :
      (p : HybridPool S) (r : Req) (keep : Option ℕ) (row : ℕ) (z y0 y1 : ℤ)
      → p.extra_buffer ≡ true
      → p.buffer_size ≡ 2
      → r.mamba_pool_idx ≡ some z
      → Synced p r row (y0 ∷ y1 ∷ [])
      → IsEntry keep
      → Freed p r z (y0 ∷ y1 ∷ []) (kept_entry keep y0 y1) (free_mamba_cache a p r keep)
  unfolding free_mamba_cache
  free_mamba_cache_conserves p r keep row z y0 y1 extra size idx s entry =
      let (part, run, count) = part_lem keep y0 y1 entry in
      let out = if p.lazy then drop_unset part else part in
      let s1 = a.give_back p.allocator (z ∷ []) in
      (
        record p { allocator = a.give_back s1 out },
        record r {
          mamba_pool_idx = none;
          mamba_ping_pong_track_buffer = none;
          mamba_next_track_idx = none;
          mamba_last_track_idx = none;
        },
        out,
        ap (λ o. free_state_if a o p.extra_buffer p r keep) idx
            ∙ ap (λ e. free_state_if a (some z) e p r keep) extra
            ∙ ap
                (λ o.
                  free_buffer_at a o (record p { allocator = s1 })
                    (record r { mamba_pool_idx = none }) keep)
                s.has_row
            ∙ free_at_row (record p { allocator = s1 }) (record r { mamba_pool_idx = none }) keep
                row part
                (rw (size, get_or-get_elem? p.ping_pong_mapping row [] (y0 ∷ y1 ∷ []) s.mapped)
                  run),
        refl,
        λ x. rw (occurs-out x p.lazy part) (count x),
        out-set p.lazy part,
        refl,
        refl,
        λ x. omega (
          arith,
          count x,
          occurs-out x p.lazy part,
          a.give_back_count p.allocator (z ∷ []) x,
          a.give_back_count s1 out x,
          ap (held_state x) idx,
          ap (held_buffer x) s.has_buffer,
        ),
      )

-- A donation takes the request's tracked entry out of its buffer and puts the new slot in its place, in
-- the request and in the device's row alike, which stay in step; for every slot the times the request
-- holds it change by the new slot and the old.
pub donate_swaps :
    {S : Type 0} (p : HybridPool S) (r : Req) (row i : ℕ) (buffer : List ℤ) (old new : ℤ)
    → Synced p r row buffer
    → r.mamba_last_track_idx ≡ some i
    → get_elem? buffer i ≡ some old
    → (p' : HybridPool S) × (r' : Req) × donate_ping_pong_slot p r new ≡ ok (old, p', r')
      × Synced p' r' row (set buffer i new)
      × ((x : ℕ) → held_slots x r' + occurs x (old ∷ []) ≡ held_slots x r + occurs x (new ∷ []))
unfolding donate_ping_pong_slot
donate_swaps p r row i buffer old new s last at =
    let look : donated r.mamba_ping_pong_track_buffer r.mamba_last_track_idx ≡ some (i, old) =
      ap (λ o. donated o r.mamba_last_track_idx) s.has_buffer
      ∙ ap (donated (some buffer)) last
      ∙ rw (at, donated) refl in
    let p' = record p { ping_pong_mapping = set p.ping_pong_mapping row (set buffer i new) } in
    let r' = record r { mamba_ping_pong_track_buffer = some (set buffer i new) } in
    let put : set_ping_pong_slot p r i new ≡ ok (p', r') =
      ap (λ o. set_slot_at o r.req_pool_idx p r i new) s.has_buffer
      ∙ ap (λ o. set_slot_at (some buffer) o p r i new) s.has_row in
    (
      p',
      r',
      rw (look, put, donate_ping_pong_slot) refl,
      record {
        has_row = s.has_row;
        has_buffer = refl;
        mapped =
            get_elem?-set_self p.ping_pong_mapping row (set buffer i new)
              (lt-of-get_elem? p.ping_pong_mapping row s.mapped);
      },
      λ x. omega (arith, occurs-set x i new old buffer at, ap (held_buffer x) s.has_buffer),
    )
