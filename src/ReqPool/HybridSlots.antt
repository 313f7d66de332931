-- ===== src/ReqPool/HybridSlots.antt =====
-- runtime-src/memory_pool.py: the recurrent state's slots are neither lost nor handed out twice.
use sglang_flashnext_nvfp4kv.Prelude.{
  ℕ, zero, suc, ◌+◌, ◌-◌, ◌≤◌, ◌≡◌, refl, sym, ap, subst, Bool, true, false, List, [], ◌∷◌, ◌++◌,
  map, Option, none, some, arith, nat_eq, if◌then◌else◌, length,
}
use sglang_flashnext_nvfp4kv.Prelude.Int.{ℤ}
use sglang_flashnext_nvfp4kv.ReqPool.Slots.{Req}
use sglang_flashnext_nvfp4kv.ReqPool.Hybrid.{
  SlotAllocator, HybridPool, is_slot, occurs, buffer_slots, alloc_ping_pong_buffer, fresh_state,
  give_state_if, give_buffer_if, unset, other_idx,
}

-- How often a request holds a slot: for its state, and in its buffer.
abbrev pub held_state : ℕ → Option ℤ → ℕ
held_state x none = 0
held_state x (some z) = if is_slot x z then 1 else 0

abbrev pub held_buffer : ℕ → Option (List ℤ) → ℕ
held_buffer x none = 0
held_buffer x (some zs) = occurs x zs

abbrev pub held_slots : ℕ → Req → ℕ
held_slots x r = held_state x r.mamba_pool_idx + held_buffer x r.mamba_ping_pong_track_buffer

abbrev pub total : (Req → ℕ) → List Req → ℕ
total f [] = 0
total f (r ∷ rs) = f r + total f rs

abbrev pub all_held : ℕ → List Req → ℕ
all_held x = total (held_slots x)

-- The slots that a request still needs.
abbrev pub state_need : Option ℤ → ℕ
state_need none = 1
state_need (some z) = 0

abbrev pub buffer_need : Option (List ℤ) → ℕ → ℕ
buffer_need none n = n
buffer_need (some b) n = 0

-- What a request needs of a buffer, by the pool's settings.
abbrev pub wanted : Bool → ℕ → Option (List ℤ) → ℕ
wanted false n b = 0
wanted true n b = buffer_need b n

-- The slots that the loop takes.
abbrev pub needed : Bool → ℕ → List Req → ℕ
needed extra n =
    total (λ r. state_need r.mamba_pool_idx + wanted extra n r.mamba_ping_pong_track_buffer)

abbrev pub AllGiven : List Req → Type 0
AllGiven [] = Unit
AllGiven (r ∷ rs) = ((z : ℤ) × (r.mamba_pool_idx ≡ some z)) × AllGiven rs

abbrev pub rows_of : List Req → List (Option ℕ)
rows_of = map (λ r. r.req_pool_idx)

pub occurs-append : (x : ℕ) (ys zs : List ℤ) → occurs x (ys ++ zs) ≡ occurs x ys + occurs x zs
occurs-append x [] zs = omega arith
occurs-append x (y ∷ ys) zs = omega (arith, occurs-append x ys zs)

occurs-unset : (x n : ℕ) → occurs x (unset n) ≡ 0
unfolding unset
occurs-unset x zero = refl
occurs-unset x (suc n) = omega (arith, occurs-unset x n)

module _ {S : Type 0} (a : SlotAllocator S) where
  -- One step of the loop: what it spent, and that no slot was lost or doubled.
  pub record Moved (p p1 : HybridPool S) (r r1 : Req) (n : ℕ) : Type 0 where
    pub spent : a.available p1.allocator + n ≡ a.available p.allocator
    pub kept :
        (x : ℕ)
        → a.free_count p1.allocator x + held_slots x r1
          ≡ a.free_count p.allocator x + held_slots x r
    pub extra_same : p1.extra_buffer ≡ p.extra_buffer
    pub lazy_same : p1.lazy ≡ p.lazy
    pub size_same : p1.buffer_size ≡ p.buffer_size
    pub slots_same : p1.slots ≡ p.slots
    pub row_same : r1.req_pool_idx ≡ r.req_pool_idx

  pub buffer_slots-Moved :
      {p p1 : HybridPool S} {r r1 : Req} {n : ℕ}
      → Moved p p1 r r1 n
      → buffer_slots a p1 ≡ buffer_slots a p
  unfolding buffer_slots
  buffer_slots-Moved m = rw (m.lazy_same, m.size_same) refl

  abbrev pub StateGiven : HybridPool S → Req → Option (HybridPool S × Req) → Type 0
  StateGiven p r result =
      (p1 : HybridPool S) × (r1 : Req) × (result ≡ some (p1, r1))
      × Moved p p1 r r1 (state_need r.mamba_pool_idx)
      × (r1.mamba_ping_pong_track_buffer ≡ r.mamba_ping_pong_track_buffer)
      × ((z : ℤ) × (r1.mamba_pool_idx ≡ some z))

  pub give_state_if_lem :
      (o : Option ℤ) (p : HybridPool S) (r : Req)
      → r.mamba_pool_idx ≡ o
      → state_need o ≤ a.available p.allocator
      → StateGiven p r (give_state_if a o p r)
  unfolding give_state_if fresh_state
  give_state_if_lem (some z) p r e h = (
    p,
    r,
    refl,
    record {
      spent = omega (arith, ap state_need e);
      kept = λ x. refl;
      extra_same = refl;
      lazy_same = refl;
      size_same = refl;
      slots_same = refl;
      row_same = refl;
    },
    refl,
    (z, e),
  )
  give_state_if_lem none p r e h =
      let (zs, s, run, len, left, count) = a.take_enough p.allocator 1 h in
      by_slots zs s run len left count
    where
      by_slots :
          (zs : List ℤ) (s : S)
          → a.take_slots p.allocator 1 ≡ some (zs, s)
          → length zs ≡ 1
          → a.available s + 1 ≡ a.available p.allocator
          → ((x : ℕ) → a.free_count s x + occurs x zs ≡ a.free_count p.allocator x)
          → StateGiven p r (give_state_if a none p r)
      by_slots [] s run len left count = absurd (omega (arith, len))
      by_slots (z ∷ y ∷ zs) s run len left count = absurd (omega (arith, len))
      by_slots (z ∷ []) s run len left count = (
        (fresh_state a p r z s).0,
        (fresh_state a p r z s).1,
        rw (run, give_state_if) refl,
        record {
          spent = omega (arith, left, ap state_need e);
          kept = λ x. omega (arith, count x, ap (held_state x) e);
          extra_same = refl;
          lazy_same = refl;
          size_same = refl;
          slots_same = refl;
          row_same = refl;
        },
        refl,
        (z, refl),
      )

  abbrev pub BufferGiven : Bool → HybridPool S → Req → Option (HybridPool S × Req) → Type 0
  BufferGiven extra p r result =
      (p1 : HybridPool S) × (r1 : Req) × (result ≡ some (p1, r1))
      × Moved p p1 r r1 (wanted extra (buffer_slots a p) r.mamba_ping_pong_track_buffer)
      × (r1.mamba_pool_idx ≡ r.mamba_pool_idx)

  unmoved : (p : HybridPool S) (r : Req) → Moved p p r r 0
  unmoved p r = record {
    spent = omega arith;
    kept = λ x. refl;
    extra_same = refl;
    lazy_same = refl;
    size_same = refl;
    slots_same = refl;
    row_same = refl;
  }

  pub give_buffer_if_lem :
      (extra : Bool) (b : Option (List ℤ)) (p : HybridPool S) (r : Req)
      → r.mamba_ping_pong_track_buffer ≡ b
      → wanted extra (buffer_slots a p) b ≤ a.available p.allocator
      → BufferGiven extra p r (give_buffer_if a extra b p r)
  unfolding give_buffer_if
  give_buffer_if_lem false b p r e h = (p, r, refl, unmoved p r, refl)
  give_buffer_if_lem true (some b) p r e h = (
    p,
    r,
    refl,
    subst (λ n. Moved p p r r n) (sym (ap (λ o. buffer_need o (buffer_slots a p)) e)) (unmoved p r),
    refl,
  )
  give_buffer_if_lem true none p r e h =
      let n = buffer_slots a p in
      let (zs, s, run, len, left, count) = a.take_enough p.allocator n h in
      let pad = p.buffer_size - n in
      (
        record p { allocator = s },
        record r {
          mamba_ping_pong_track_buffer = some (zs ++ unset pad);
          mamba_next_track_idx = some 0;
          mamba_last_track_idx = some (if p.lazy then 0 else other_idx p.buffer_size 0);
        },
        rw (run, alloc_ping_pong_buffer) refl,
        record {
          spent = omega (arith, left, ap (λ o. buffer_need o n) e);
          kept = λ x. omega (
            arith,
            count x,
            ap (held_buffer x) e,
            occurs-append x zs (unset pad),
            occurs-unset x pad,
          );
          extra_same = refl;
          lazy_same = refl;
          size_same = refl;
          slots_same = refl;
          row_same = refl;
        },
        refl,
      )
