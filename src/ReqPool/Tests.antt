-- ===== src/ReqPool/Tests.antt =====
-- runtime-src/memory_pool.py: the request slots on concrete batches.
use sglang_flashnext_nvfp4kv.Prelude.{
  ◌⊎◌, set, get_or, ℕ, ◌+◌, ◌≡◌, refl, false, List, [], ◌∷◌, none, some, arith,
}
use sglang_flashnext_nvfp4kv.ReqPool.Slots.{
  assertion, Req, ReqToTokenPool, ok, alloc, free, available_size, need_size, all_may_reuse,
  AllHave, count, held,
}
use sglang_flashnext_nvfp4kv.Prelude.{
  Option, if◌then◌else◌, ltb, ◌≤◌, ◌++◌, true, length, take, drop, length-take, length-drop,
  take-append-drop, ap,
}
use sglang_flashnext_nvfp4kv.Prelude.Int.{ℤ, pos}
use sglang_flashnext_nvfp4kv.ReqPool.Hybrid.{SlotAllocator, HybridPool, occurs, buffer_slots}
use sglang_flashnext_nvfp4kv.ReqPool.PingPong.{
  hybrid_alloc, free_mamba_cache, donate_ping_pong_slot,
}
use sglang_flashnext_nvfp4kv.ReqPool.HybridSlots.{AllGiven, all_held, held_slots, occurs-append}
use sglang_flashnext_nvfp4kv.ReqPool.HybridAlloc.{hybrid_alloc_conserves}
use sglang_flashnext_nvfp4kv.ReqPool.HybridFree.{
  Synced, Freed, free_mamba_cache_conserves, donate_swaps,
}
use sglang_flashnext_nvfp4kv.ReqPool.Conserve.{alloc_conserves, free_conserves}

abbrev fresh : Req
fresh = record {
  req_pool_idx = none;
  inflight_middle_chunks = 0;
  kv_committed_len = 0;
  mamba_pool_idx = none;
  mamba_needs_clear = false;
  mamba_ping_pong_track_buffer = none;
  mamba_next_track_idx = none;
  mamba_last_track_idx = none;
}

abbrev chunked : Req
chunked = record fresh { req_pool_idx = some 4; inflight_middle_chunks = 1 }

abbrev three_free : ReqToTokenPool
three_free = record {
  size = 4;
  free_slots = 1 ∷ 2 ∷ 3 ∷ [];
  req_generation = 0 ∷ 0 ∷ 0 ∷ 0 ∷ 0 ∷ [];
}

abbrev batch : List Req
batch = fresh ∷ chunked ∷ fresh ∷ []

alloc_takes_tail :
    alloc three_free batch
    ≡ ok (
      record three_free { free_slots = 1 ∷ []; req_generation = 0 ∷ 0 ∷ 1 ∷ 1 ∷ 0 ∷ [] },
      record fresh { req_pool_idx = some 2 }
          ∷ chunked
          ∷ record fresh { req_pool_idx = some 3 }
          ∷ [],
    )
unfolding alloc
alloc_takes_tail = refl

alloc_conserves_example :
    (p' : ReqToTokenPool) × (reqs' : List Req) × alloc three_free batch ≡ ok (p', reqs')
    × AllHave reqs'
    × available_size p' + need_size batch ≡ available_size three_free
    × ((x : ℕ)
        → count x p'.free_slots + held x reqs' ≡ count x three_free.free_slots + held x batch)
unfolding available_size all_may_reuse need_size
alloc_conserves_example = alloc_conserves three_free batch refl (omega arith)

free_conserves_example :
    (chunked.req_pool_idx ≡ none) × (free three_free chunked ≡ assertion)
    ⊎ ((i : ℕ) × (p' : ReqToTokenPool) × (r' : Req) × (chunked.req_pool_idx ≡ some i)
        × (free three_free chunked ≡ ok (p', r'))
        × (free p' r' ≡ assertion)
        × ((x : ℕ)
            → count x p'.free_slots + held x (r' ∷ fresh ∷ [])
              ≡ count x three_free.free_slots + held x (chunked ∷ fresh ∷ []))
        × (alloc p' (r' ∷ [])
            ≡ ok (
              record three_free {
                req_generation =
                    set three_free.req_generation i (get_or three_free.req_generation i 0 + 1);
              },
              chunked ∷ [],
            )))
free_conserves_example = free_conserves three_free chunked (fresh ∷ [])

-- An allocator over a list of free slots, which hands out the first ones.
take_first : List ℤ → ℕ → Option (List ℤ × List ℤ)
take_first s n = if ltb (length s) n then none else some (take n s, drop n s)

take_first_enough :
    (s : List ℤ) (n : ℕ)
    → n ≤ length s
    → (zs : List ℤ) × (s' : List ℤ) × take_first s n ≡ some (zs, s')
      × (length zs ≡ n)
      × (length s' + n ≡ length s)
      × ((x : ℕ) → occurs x s' + occurs x zs ≡ occurs x s)
unfolding take_first
take_first_enough s n h = (
  take n s,
  drop n s,
  ground (arith, h),
  omega (arith, length-take n s, h),
  omega (arith, length-drop n s, h),
  λ x. omega (arith, occurs-append x (take n s) (drop n s), ap (occurs x) (take-append-drop n s)),
)

give_count : (s zs : List ℤ) (x : ℕ) → occurs x (s ++ zs) ≡ occurs x s + occurs x zs
give_count s zs x = occurs-append x s zs

first_slots : SlotAllocator (List ℤ)
first_slots = record {
  take_slots = take_first;
  give_back = λ s zs. s ++ zs;
  reset = λ s. pos 1 ∷ pos 2 ∷ pos 3 ∷ pos 4 ∷ pos 5 ∷ pos 6 ∷ [];
  available = length;
  free_count = λ s x. occurs x s;
  take_enough = take_first_enough;
  give_back_count = give_count;
}

abbrev hybrid : HybridPool (List ℤ)
hybrid = record {
  slots = three_free;
  allocator = pos 1 ∷ pos 2 ∷ pos 3 ∷ pos 4 ∷ pos 5 ∷ pos 6 ∷ pos 7 ∷ pos 8 ∷ pos 9 ∷ [];
  extra_buffer = true;
  lazy = false;
  buffer_size = 2;
  index_mapping = pos 0 ∷ pos 0 ∷ pos 0 ∷ pos 0 ∷ pos 0 ∷ [];
  ping_pong_mapping = [] ∷ [] ∷ [] ∷ [] ∷ [] ∷ [];
  write_pos = none;
  cache_base = none;
  is_flush = [];
}

hybrid_alloc_conserves_example :
    (p' : HybridPool (List ℤ)) × (reqs' : List Req) × hybrid_alloc first_slots hybrid batch
      ≡ ok (p', reqs')
    × AllHave reqs'
    × AllGiven reqs'
    × ((x : ℕ)
        → count x p'.slots.free_slots + held x reqs' ≡ count x three_free.free_slots + held x batch)
    × ((x : ℕ)
        → first_slots.free_count p'.allocator x + all_held x reqs'
          ≡ first_slots.free_count hybrid.allocator x + all_held x batch)
unfolding available_size all_may_reuse need_size first_slots buffer_slots
hybrid_alloc_conserves_example =
    hybrid_alloc_conserves first_slots hybrid batch (omega arith) refl (omega arith) (omega arith)

abbrev tracking : Req
tracking = record chunked {
  mamba_pool_idx = some (pos 11);
  mamba_ping_pong_track_buffer = some (pos 12 ∷ pos 13 ∷ []);
  mamba_next_track_idx = some 0;
  mamba_last_track_idx = some 1;
}

abbrev in_step : HybridPool (List ℤ)
in_step = record hybrid { ping_pong_mapping = [] ∷ [] ∷ [] ∷ [] ∷ (pos 12 ∷ pos 13 ∷ []) ∷ [] }

tracking-Synced : Synced in_step tracking 4 (pos 12 ∷ pos 13 ∷ [])
tracking-Synced = record { has_row = refl; has_buffer = refl; mapped = refl }

free_mamba_cache_conserves_example :
    Freed first_slots in_step tracking
      (pos 11)
      (pos 12 ∷ pos 13 ∷ [])
      (pos 13 ∷ [])
      (free_mamba_cache first_slots in_step tracking (some 1))
free_mamba_cache_conserves_example =
    free_mamba_cache_conserves first_slots in_step tracking (some 1) 4 (pos 11) (pos 12) (pos 13)
      refl refl refl tracking-Synced (omega arith)

donate_swaps_example :
    (p' : HybridPool (List ℤ)) × (r' : Req) × donate_ping_pong_slot in_step tracking (pos 20)
      ≡ ok (pos 13, p', r')
    × Synced p' r' 4 (pos 12 ∷ pos 20 ∷ [])
    × ((x : ℕ)
        → held_slots x r' + occurs x (pos 13 ∷ []) ≡ held_slots x tracking + occurs x (pos 20 ∷ []))
donate_swaps_example =
    donate_swaps in_step tracking 4 1 (pos 12 ∷ pos 13 ∷ []) (pos 13) (pos 20) tracking-Synced refl
      refl
