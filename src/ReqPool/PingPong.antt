-- ===== src/ReqPool/PingPong.antt =====
-- runtime-src/memory_pool.py: the operations of `HybridReqToTokenPool` over whole requests: the mapping
-- of the device, the ping-pong buffer's slots, `alloc`, `free_mamba_cache` and `clear`.
use sglang_flashnext_nvfp4kv.Prelude.{
  ℕ, zero, suc, ◌-◌, Bool, ◌||◌, List, [], ◌∷◌, map, Option, none, some, nat_eq, ◌==◌,
  if◌then◌else◌, set, get_or, get_elem?, take, drop,
}
use sglang_flashnext_nvfp4kv.Prelude.Int.{ℤ, pos, negsuc}
use sglang_flashnext_nvfp4kv.ReqPool.Slots.{Req, Reply, ok, no_space, assertion, alloc, clear}
use sglang_flashnext_nvfp4kv.ReqPool.Hybrid.{SlotAllocator, HybridPool, give_all}

-- The donated entry of a buffer, read before it is replaced.
unfoldable pub donated : Option (List ℤ) → Option ℕ → Option (ℕ × ℤ)
donated none last = none
donated (some b) none = none
donated (some b) (some i) = elim (get_elem? b i) [ none ↦ none | some z ↦ some (i, z) ]

module _ {S : Type 0} where
  -- `mapping[select_index] = …`, for the rows that have a slot.
  unfoldable pub record_row : HybridPool S → Req → HybridPool S
  record_row p r = elim r.req_pool_idx [
    | none ↦ p
    | some i ↦ record p {
      index_mapping = elim r.mamba_pool_idx [
        | none ↦ p.index_mapping
        | some z ↦ set p.index_mapping i z
      ];
      ping_pong_mapping =
          if p.extra_buffer
          then elim r.mamba_ping_pong_track_buffer [
            | none ↦ p.ping_pong_mapping
            | some b ↦ set p.ping_pong_mapping i b
          ]
          else p.ping_pong_mapping;
    }
  ]

  unfoldable pub record_all : HybridPool S → List Req → HybridPool S
  unfolding record_row
  record_all p [] = p
  record_all p (r ∷ rs) = record_all (record_row p r) rs

  -- `set_mamba_ping_pong_slot`: the request's buffer, and its row of the mapping.
  unfoldable pub set_slot_at :
      Option (List ℤ) → Option ℕ → HybridPool S → Req → ℕ → ℤ → Reply (HybridPool S × Req)
  set_slot_at none row p r idx z = assertion
  set_slot_at (some b) none p r idx z = assertion
  set_slot_at (some b) (some i) p r idx z = ok (
    record p { ping_pong_mapping = set p.ping_pong_mapping i (set b idx z) },
    record r { mamba_ping_pong_track_buffer = some (set b idx z) },
  )

  unfoldable pub set_ping_pong_slot : HybridPool S → Req → ℕ → ℤ → Reply (HybridPool S × Req)
  unfolding set_slot_at
  set_ping_pong_slot p r idx z = set_slot_at r.mamba_ping_pong_track_buffer r.req_pool_idx p r idx z

  -- `donate_mamba_ping_pong_slot`: the old slot, and the pool and request with the new one in place.
  unfoldable pub donate_ping_pong_slot : HybridPool S → Req → ℤ → Reply (ℤ × HybridPool S × Req)
  unfolding donated set_ping_pong_slot
  donate_ping_pong_slot p r new_slot =
      elim (donated r.mamba_ping_pong_track_buffer r.mamba_last_track_idx) [
        | none ↦ assertion
        | some (i, z) ↦ elim (set_ping_pong_slot p r i new_slot) [
          | ok (p', r') ↦ ok (z, p', r')
          | no_space ↦ no_space
          | assertion ↦ assertion
        ]
      ]

-- `buf[buf != -1]`.
unfoldable pub drop_unset : List ℤ → List ℤ
drop_unset [] = []
drop_unset (pos n ∷ zs) = pos n ∷ drop_unset zs
drop_unset (negsuc zero ∷ zs) = drop_unset zs
drop_unset (negsuc (suc n) ∷ zs) = negsuc (suc n) ∷ drop_unset zs

-- The part of the row to free: all of it, or all but the entry to keep; none fails an assertion.
unfoldable pub part_to_free : ℕ → List ℤ → Option ℕ → Option (List ℤ)
part_to_free size row none = some row
part_to_free size row (some k) =
    if k == 0 || k == 1
    then if size == 2
      then some (take 1 (drop (1 - k) row))
      else if size == 1
      then if k == 0 then some [] else none
      else none
    else none

-- The end of `alloc`: torch.stack of the batch's slots is an error for an empty batch.
unfoldable pub stack_and_record :
    {S : Type 0} → HybridPool S → List Req → Reply (HybridPool S × List Req)
unfolding record_all
stack_and_record p [] = assertion
stack_and_record p (r ∷ rs) = ok (record_all p (r ∷ rs), r ∷ rs)

module _ {S : Type 0} (a : SlotAllocator S) where
  -- `HybridReqToTokenPool.alloc`.
  unfoldable pub hybrid_alloc : HybridPool S → List Req → Reply (HybridPool S × List Req)
  unfolding give_all stack_and_record
  hybrid_alloc p reqs = elim (alloc p.slots reqs) [
    | no_space ↦ no_space
    | assertion ↦ assertion
    | ok (s, rs) ↦ elim (give_all a (record p { slots = s }) rs) [
      | none ↦ assertion
      | some (p', rs') ↦ stack_and_record p' rs'
    ]
  ]

  -- The end of `free_mamba_cache` with the extra buffer on. A request without a row of the table is
  -- an error here: torch would index the mapping by None.
  unfoldable pub free_buffer_at :
      Option ℕ → HybridPool S → Req → Option ℕ → Reply (HybridPool S × Req)
  unfolding part_to_free drop_unset
  free_buffer_at none p r keep = assertion
  free_buffer_at (some i) p r keep =
      elim (part_to_free p.buffer_size (get_or p.ping_pong_mapping i []) keep) [
        | none ↦ assertion
        | some part ↦ ok (
          record p {
            allocator = a.give_back p.allocator (if p.lazy then drop_unset part else part);
          },
          record r {
            mamba_ping_pong_track_buffer = none;
            mamba_next_track_idx = none;
            mamba_last_track_idx = none;
          },
        )
      ]

  -- The request's state slot, and whether the extra buffer is on.
  unfoldable pub free_state_if :
      Option ℤ → Bool → HybridPool S → Req → Option ℕ → Reply (HybridPool S × Req)
  unfolding free_buffer_at
  free_state_if none extra p r keep = assertion
  free_state_if (some z) extra p r keep =
      let p' = record p { allocator = a.give_back p.allocator (z ∷ []) } in
      let r' = record r { mamba_pool_idx = none } in
      if extra then free_buffer_at r.req_pool_idx p' r' keep else ok (p', r')

  -- `free_mamba_cache`.
  unfoldable pub free_mamba_cache : HybridPool S → Req → Option ℕ → Reply (HybridPool S × Req)
  unfolding free_state_if
  free_mamba_cache p r keep = free_state_if r.mamba_pool_idx p.extra_buffer p r keep

  -- `clear`, less the pools that hold the states themselves.
  unfoldable pub hybrid_clear : HybridPool S → HybridPool S
  hybrid_clear p = record p {
    slots = clear p.slots;
    allocator = a.reset p.allocator;
    index_mapping = map (λ z. pos 0) p.index_mapping;
    ping_pong_mapping =
        if p.extra_buffer then map (map (λ z. pos 0)) p.ping_pong_mapping else p.ping_pong_mapping;
  }
