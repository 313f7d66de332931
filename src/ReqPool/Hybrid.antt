-- ===== src/ReqPool/Hybrid.antt =====
-- runtime-src/memory_pool.py: `HybridReqToTokenPool`, which gives a request a slot of the recurrent
-- state and, with the extra buffer on, the slots of a ping-pong buffer. `MambaSlotAllocator` is a
-- parameter. An entry of a buffer that has no slot is -1. A failed assertion ends the call.
use sglang_flashnext_nvfp4kv.Prelude.{
  ℕ, ◌+◌, ◌-◌, ◌≤◌, ◌≡◌, Bool, true, false, List, [], ◌∷◌, ◌++◌, Option, none, some, nat_eq, ◌==◌,
  if◌then◌else◌, length, set, replicate,
}
use sglang_flashnext_nvfp4kv.Prelude.Int.{ℤ, pos, negsuc}
use sglang_flashnext_nvfp4kv.ReqPool.Slots.{Req, ReqToTokenPool}

-- How often a slot occurs.
abbrev pub is_slot : ℕ → ℤ → Bool
is_slot x (pos n) = n == x
is_slot x (negsuc n) = false

abbrev pub occurs : ℕ → List ℤ → ℕ
occurs x [] = 0
occurs x (z ∷ zs) = (if is_slot x z then 1 else 0) + occurs x zs

-- `MambaSlotAllocator`: a call hands out so many slots that were free, or none if there are fewer.
pub record SlotAllocator (S : Type 0) : Type 0 where
  pub take_slots : S → ℕ → Option (List ℤ × S)
  pub give_back : S → List ℤ → S
  pub reset : S → S
  pub available : S → ℕ
  pub free_count : S → ℕ → ℕ
  pub take_enough :
      (s : S) (n : ℕ)
      → n ≤ available s
      → (zs : List ℤ) × (s' : S) × take_slots s n ≡ some (zs, s')
        × (length zs ≡ n)
        × (available s' + n ≡ available s)
        × ((x : ℕ) → free_count s' x + occurs x zs ≡ free_count s x)
  pub give_back_count :
      (s : S) (zs : List ℤ) (x : ℕ) → free_count (give_back s zs) x ≡ free_count s x + occurs x zs

-- The pool; `buffer_size` is 2, or 1 under speculative decoding. The rings of the replay, where there
-- are any: the write positions, the origins and the flush flags.
pub record HybridPool (S : Type 0) : Type 0 where
  pub slots : ReqToTokenPool
  pub allocator : S
  pub extra_buffer : Bool
  pub lazy : Bool
  pub buffer_size : ℕ
  pub index_mapping : List ℤ
  pub ping_pong_mapping : List (List ℤ)
  pub write_pos : Option (List ℕ)
  pub cache_base : Option (List ℕ)
  pub is_flush : List ℕ

-- `t[idx] = 0`, for an index that an allocator handed out.
unfoldable pub zero_at : List ℕ → ℤ → List ℕ
zero_at xs (pos n) = set xs n 0
zero_at xs (negsuc n) = xs

unfoldable pub other_idx : ℕ → ℕ → ℕ
other_idx size next = if size == 2 then 1 - next else next

unfoldable pub unset : ℕ → List ℤ
unset n = replicate n (negsuc 0)

module _ {S : Type 0} (a : SlotAllocator S) where
  -- `_alloc_ping_pong_buffer`: `buf[:n] = slots` in a buffer of -1.
  unfoldable pub buffer_slots : HybridPool S → ℕ
  buffer_slots p = if p.lazy then 1 else p.buffer_size

  unfoldable pub alloc_ping_pong_buffer : HybridPool S → Req → Option (HybridPool S × Req)
  unfolding buffer_slots other_idx unset
  alloc_ping_pong_buffer p r = elim (a.take_slots p.allocator (buffer_slots p)) [
    | none ↦ none
    | some (zs, s) ↦ some (
      record p { allocator = s },
      record r {
        mamba_ping_pong_track_buffer = some (zs ++ unset (p.buffer_size - buffer_slots p));
        mamba_next_track_idx = some 0;
        mamba_last_track_idx = some (if p.lazy then 0 else other_idx p.buffer_size 0);
      },
    )
  ]

  -- A fresh slot of the recurrent state, its replay ring emptied.
  unfoldable pub fresh_state : HybridPool S → Req → ℤ → S → HybridPool S × Req
  unfolding zero_at
  fresh_state p r idx s = (
    record p {
      allocator = s;
      write_pos = elim p.write_pos [ none ↦ none | some w ↦ some (zero_at w idx) ];
      cache_base = elim p.cache_base [ none ↦ none | some b ↦ some (zero_at b idx) ];
      is_flush = elim p.cache_base [ none ↦ p.is_flush | some b ↦ zero_at p.is_flush idx ];
    },
    record r { mamba_pool_idx = some idx; mamba_needs_clear = true },
  )

  unfoldable pub give_state_if : Option ℤ → HybridPool S → Req → Option (HybridPool S × Req)
  unfolding fresh_state
  give_state_if (some idx) p r = some (p, r)
  give_state_if none p r = elim (a.take_slots p.allocator 1) [
    | none ↦ none
    | some ([], s) ↦ none
    | some (z ∷ zs, s) ↦ some (fresh_state p r z s)
  ]

  unfoldable pub give_state : HybridPool S → Req → Option (HybridPool S × Req)
  unfolding give_state_if
  give_state p r = give_state_if r.mamba_pool_idx p r

  unfoldable pub give_buffer_if :
      Bool → Option (List ℤ) → HybridPool S → Req → Option (HybridPool S × Req)
  unfolding alloc_ping_pong_buffer
  give_buffer_if false b p r = some (p, r)
  give_buffer_if true (some b) p r = some (p, r)
  give_buffer_if true none p r = alloc_ping_pong_buffer p r

  unfoldable pub give_buffer : HybridPool S → Req → Option (HybridPool S × Req)
  unfolding give_buffer_if
  give_buffer p r = give_buffer_if p.extra_buffer r.mamba_ping_pong_track_buffer p r

  -- The loop over the requests.
  unfoldable pub give_all : HybridPool S → List Req → Option (HybridPool S × List Req)
  unfolding give_state give_buffer
  give_all p [] = some (p, [])
  give_all p (r ∷ rs) = elim (give_state p r) [
    | none ↦ none
    | some (p1, r1) ↦ elim (give_buffer p1 r1) [
      | none ↦ none
      | some (p2, r2) ↦ elim (give_all p2 rs) [ none ↦ none | some (p3, rs3) ↦ some (p3, r2 ∷ rs3) ]
    ]
  ]
