-- ===== src/ReqPool/Slots.antt =====
-- runtime-src/memory_pool.py: `ReqToTokenPool`, the rows of the request table. Requests are values; a
-- batch names no request object twice. `req_generation` is a vector by slot.
use sglang_flashnext_nvfp4kv.Prelude.{
  ℕ, suc, ◌+◌, ◌-◌, ◌≡◌, refl, Bool, true, ◌&&◌, ◌||◌, List, [], ◌∷◌, ◌++◌, Option, none, some,
  arith, nat_eq, ◌==◌, ltb, if◌then◌else◌, length, take, drop, set, get_or, count_up, replicate,
}
use sglang_flashnext_nvfp4kv.Prelude.Int.{ℤ}

-- The fields of `Req` that the pools read and write.
pub record Req : Type 0 where
  pub req_pool_idx : Option ℕ
  pub inflight_middle_chunks : ℕ
  pub kv_committed_len : ℕ
  pub mamba_pool_idx : Option ℤ
  pub mamba_needs_clear : Bool
  pub mamba_ping_pong_track_buffer : Option (List ℤ)
  pub mamba_next_track_idx : Option ℕ
  pub mamba_last_track_idx : Option ℕ

pub record ReqToTokenPool : Type 0 where
  pub size : ℕ
  pub free_slots : List ℕ
  pub req_generation : List ℕ

-- A call returns a value, `None`, or fails an assertion.
pub data Reply {ℓ} (A : Type ℓ) : Type ℓ where
  ok : A → Reply A
  no_space : Reply A
  assertion : Reply A

unfoldable pub init : ℕ → ReqToTokenPool
init size = record {
  size = size;
  free_slots = count_up size 1;
  req_generation = replicate (size + 1) 0;
}

unfoldable pub available_size : ReqToTokenPool → ℕ
available_size p = length p.free_slots

-- A reusing request is chunked or has committed KV.
unfoldable pub may_reuse : Req → Bool
may_reuse r = elim r.req_pool_idx [
  | none ↦ true
  | some _ ↦ ltb 0 r.inflight_middle_chunks || ltb 0 r.kv_committed_len
]

unfoldable pub all_may_reuse : List Req → Bool
unfolding may_reuse
all_may_reuse [] = true
all_may_reuse (r ∷ rs) = may_reuse r && all_may_reuse rs

-- `len(reqs) - len(reusing)`.
unfoldable pub need_size : List Req → ℕ
need_size [] = 0
need_size (r ∷ rs) = elim r.req_pool_idx [ none ↦ suc (need_size rs) | some _ ↦ need_size rs ]

-- The loop that hands out `select_index` in order.
unfoldable pub assign : List ℕ → List Req → List ℕ → List Req × List ℕ
assign sel [] gens = ([], gens)
assign sel (r ∷ rs) gens = elim r.req_pool_idx [
  | some _ ↦ let (rest, gens') = assign sel rs gens in (r ∷ rest, gens')
  | none ↦ elim sel [
    | [] ↦ (r ∷ rs, gens)
    | i ∷ is ↦
        let (rest, gens') = assign is rs (set gens i (get_or gens i 0 + 1)) in
        (record r { req_pool_idx = some i } ∷ rest, gens')
  ]
]

-- `alloc`: the pool, and the requests with their slots.
unfoldable pub alloc : ReqToTokenPool → List Req → Reply (ReqToTokenPool × List Req)
unfolding all_may_reuse need_size assign
alloc p reqs =
    let keep = length p.free_slots - need_size reqs in
    let (given, gens) = assign (drop keep p.free_slots) reqs p.req_generation in
    if all_may_reuse reqs
    then if ltb (length p.free_slots) (need_size reqs)
      then no_space
      else ok (record p { free_slots = take keep p.free_slots; req_generation = gens }, given)
    else assertion

-- `free`: the slot goes to the end of the free list.
unfoldable pub free : ReqToTokenPool → Req → Reply (ReqToTokenPool × Req)
free p r = elim r.req_pool_idx [
  | none ↦ assertion
  | some i ↦ ok (record p { free_slots = p.free_slots ++ i ∷ [] }, record r { req_pool_idx = none })
]

unfoldable pub clear : ReqToTokenPool → ReqToTokenPool
clear p = record p { free_slots = count_up p.size 1; req_generation = replicate (p.size + 1) 0 }

-- How often a slot is free, and how often it is held.
unfoldable pub count : ℕ → List ℕ → ℕ
count x [] = 0
count x (y ∷ ys) = (if y == x then 1 else 0) + count x ys

unfoldable pub held : ℕ → List Req → ℕ
held x [] = 0
held x (r ∷ rs) = (elim r.req_pool_idx [ none ↦ 0 | some i ↦ if i == x then 1 else 0 ]) + held x rs

pub count-append : (x : ℕ) (xs ys : List ℕ) → count x (xs ++ ys) ≡ count x xs + count x ys
unfolding count
count-append x [] ys = omega arith
count-append x (y ∷ xs) ys = omega (arith, count-append x xs ys)

abbrev pub AllHave : List Req → Type 0
AllHave [] = Unit
AllHave (r ∷ rs) = ((i : ℕ) × (r.req_pool_idx ≡ some i)) × AllHave rs

pub assign_lem :
    (sel : List ℕ) (reqs : List Req) (gens : List ℕ)
    → length sel ≡ need_size reqs
    → AllHave (assign sel reqs gens).0
      × ((x : ℕ) → held x (assign sel reqs gens).0 ≡ held x reqs + count x sel)
unfolding assign need_size held count
assign_lem [] [] gens h = (tt, λ x. omega arith)
assign_lem (i ∷ is) [] gens h = absurd (omega (arith, h))
assign_lem sel (r ∷ rs) gens h =
    by_slot r.req_pool_idx refl sel h (λ s. assign_lem s rs gens)
      (λ s i. assign_lem s rs (set gens i (get_or gens i 0 + 1)))
  where
    P : List ℕ → Type 0
    P s =
        AllHave (assign s (r ∷ rs) gens).0
        × ((x : ℕ) → held x (assign s (r ∷ rs) gens).0 ≡ held x (r ∷ rs) + count x s)

    Q : List ℕ → List ℕ → Type 0
    Q s gs =
        length s ≡ need_size rs
        → AllHave (assign s rs gs).0 × ((x : ℕ) → held x (assign s rs gs).0 ≡ held x rs + count x s)

    by_slot :
        (o : Option ℕ)
        → r.req_pool_idx ≡ o
        → (s : List ℕ) → length s ≡ need_size (r ∷ rs)
        → ((s : List ℕ) → Q s gens)
        → ((s : List ℕ) (i : ℕ) → Q s (set gens i (get_or gens i 0 + 1)))
        → P s
    by_slot (some i) e s hs same next =
        let ih = same s (ground (arith, hs, e)) in
        rw e (((i, refl), ih.0), (λ x. omega (arith, ih.1 x)))
    by_slot none e [] hs same next = absurd (ground (arith, hs, e))
    by_slot none e (i ∷ is) hs same next =
        let ih = next is i (ground (arith, hs, e)) in
        rw e (((i, refl), ih.0), (λ x. omega (arith, ih.1 x)))
