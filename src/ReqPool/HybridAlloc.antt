-- ===== src/ReqPool/HybridAlloc.antt =====
-- runtime-src/memory_pool.py: what `HybridReqToTokenPool.alloc` does to rows and state slots.
use sglang_flashnext_nvfp4kv.Prelude.{
  ℕ, ◌+◌, ◌-◌, ◌≤◌, ◌<◌, ◌≡◌, ◌∙◌, refl, ap, inl, inr, true, List, [], ◌∷◌, Option, none, some,
  arith, nat_eq, length, set, get_or, drop, Option-cases, Bool-cases, ltb,
}
use sglang_flashnext_nvfp4kv.ReqPool.Slots.{
  Req, ReqToTokenPool, Reply, ok, no_space, assertion, alloc, available_size, all_may_reuse,
  need_size, AllHave, count, held, assign,
}
use sglang_flashnext_nvfp4kv.ReqPool.Conserve.{alloc_conserves}
use sglang_flashnext_nvfp4kv.ReqPool.Hybrid.{SlotAllocator, HybridPool, buffer_slots}
use sglang_flashnext_nvfp4kv.ReqPool.PingPong.{
  record_row, record_all, stack_and_record, hybrid_alloc,
}
use sglang_flashnext_nvfp4kv.ReqPool.HybridLoop.{AllSettled, give_all_lem}
use sglang_flashnext_nvfp4kv.ReqPool.HybridSlots.{
  held_slots, all_held, state_need, wanted, needed, AllGiven, total, rows_of,
}

record_row-same :
    {S : Type 0} (p : HybridPool S) (r : Req)
    → ((record_row p r).allocator ≡ p.allocator) × ((record_row p r).slots ≡ p.slots)
unfolding record_row
record_row-same p r = elim (Option-cases r.req_pool_idx) [
  | inl e ↦ rw (e, record_row) (refl, refl)
  | inr (i, e) ↦ rw (e, record_row) (refl, refl)
]

record_all-same :
    {S : Type 0} (p : HybridPool S) (rs : List Req)
    → ((record_all p rs).allocator ≡ p.allocator) × ((record_all p rs).slots ≡ p.slots)
unfolding record_all
record_all-same p [] = (refl, refl)
record_all-same p (r ∷ rs) =
    let rest = record_all-same (record_row p r) rs in
    let one = record_row-same p r in (rest.0 ∙ one.0, rest.1 ∙ one.1)

-- `ReqToTokenPool.alloc` writes nothing of a request but its row.
assign-total :
    (f : Req → ℕ)
    → ((r : Req) (o : Option ℕ) → f (record r { req_pool_idx = o }) ≡ f r)
    → (sel : List ℕ) (reqs : List Req) (gens : List ℕ)
    → total f (assign sel reqs gens).0 ≡ total f reqs
unfolding assign
assign-total f same sel [] gens = refl
assign-total f same [] (r ∷ rs) gens = elim (Option-cases r.req_pool_idx) [
  | inl e ↦ rw (e, assign) (omega (arith, same r none))
  | inr (i, e) ↦ rw (e, assign) (omega (arith, assign-total f same [] rs gens))
]
assign-total f same (i ∷ is) (r ∷ rs) gens = elim (Option-cases r.req_pool_idx) [
  | inl e ↦
      rw (e, assign)
        (omega
          (arith, same r (some i), assign-total f same is rs (set gens i (get_or gens i 0 + 1))))
  | inr (j, e) ↦ rw (e, assign) (omega (arith, assign-total f same (i ∷ is) rs gens))
]

not_ok : {A : Type 0} {x : A} → assertion ≡ ok x → ⊥
not_ok h = cc

full_not_ok : {A : Type 0} {x : A} → no_space ≡ ok x → ⊥
full_not_ok h = cc

ok_of :
    {A B : Type 0} {x x' : A} {y y' : B}
    → ◌≡◌ {A = Reply (A × B)} (ok (x, y)) (ok (x', y'))
    → y ≡ y'
ok_of h = cc

alloc-given :
    (p p' : ReqToTokenPool) (reqs rs : List Req)
    → alloc p reqs ≡ ok (p', rs)
    → (assign (drop (length p.free_slots - need_size reqs) p.free_slots) reqs p.req_generation).0
      ≡ rs
unfolding alloc
alloc-given p p' reqs rs h = elim (Bool-cases (all_may_reuse reqs)) [
  | inr bad ↦ absurd (not_ok (rw bad at h))
  | inl may ↦ elim (Bool-cases (ltb (length p.free_slots) (need_size reqs))) [
    | inl few ↦ absurd (full_not_ok (rw (may, few) at h))
    | inr enough ↦ ok_of (rw (may, enough) at h)
  ]
]

alloc-total :
    (f : Req → ℕ)
    → ((r : Req) (o : Option ℕ) → f (record r { req_pool_idx = o }) ≡ f r)
    → (p p' : ReqToTokenPool) (reqs rs : List Req) → alloc p reqs ≡ ok (p', rs)
    → total f rs ≡ total f reqs
unfolding alloc
alloc-total f same p p' reqs rs h =
    let keep = length p.free_slots - need_size reqs in
    let sel = drop keep p.free_slots in
    let given = (assign sel reqs p.req_generation).0 in
    rw (← alloc-given p p' reqs rs h) (assign-total f same sel reqs p.req_generation)

AllHave-rows : (rs rs1 : List Req) → rows_of rs1 ≡ rows_of rs → AllHave rs → AllHave rs1
AllHave-rows [] [] e h = tt
AllHave-rows [] (r ∷ rs) e h = absurd (cc)
AllHave-rows (r ∷ rs) [] e h = absurd (cc)
AllHave-rows (r ∷ rs) (r1 ∷ rs1) e h =
    let top : r1.req_pool_idx ≡ r.req_pool_idx = cc in
    let rest : rows_of rs1 ≡ rows_of rs = cc in ((h.0.0, top ∙ h.0.1), AllHave-rows rs rs1 rest h.1)

held-rows : (x : ℕ) (rs rs1 : List Req) → rows_of rs1 ≡ rows_of rs → held x rs1 ≡ held x rs
unfolding held
held-rows x [] [] e = refl
held-rows x [] (r ∷ rs) e = absurd (cc)
held-rows x (r ∷ rs) [] e = absurd (cc)
held-rows x (r ∷ rs) (r1 ∷ rs1) e =
    let top : r1.req_pool_idx ≡ r.req_pool_idx = cc in
    let rest : rows_of rs1 ≡ rows_of rs = cc in cc (top, held-rows x rs rs1 rest)

total-one : (rs : List Req) → total (λ r. 1) rs ≡ length rs
total-one [] = refl
total-one (r ∷ rs) = omega (arith, total-one rs)

rows-length :
    (rs rs1 : List Req) → rows_of rs1 ≡ rows_of rs → total (λ r. 1) rs1 ≡ total (λ r. 1) rs
rows-length [] [] e = refl
rows-length [] (r ∷ rs) e = absurd (cc)
rows-length (r ∷ rs) [] e = absurd (cc)
rows-length (r ∷ rs) (r1 ∷ rs1) e =
    let rest : rows_of rs1 ≡ rows_of rs = cc in omega (arith, rows-length rs rs1 rest)

stack_ok :
    {S : Type 0} (p : HybridPool S) (rs : List Req)
    → 0 < length rs
    → stack_and_record p rs ≡ ok (record_all p rs, rs)
unfolding stack_and_record
stack_ok p [] h = absurd (omega (arith, h))
stack_ok p (r ∷ rs) h = refl

module _ {S : Type 0} (a : SlotAllocator S) where
  -- On a batch of at least one request, with every reusing request chunked or committed, a free row for each request without one, and as
  -- many free state slots as the batch still needs for states and buffers, `alloc` succeeds; every
  -- request then has a row of the table and a state slot, and for every row and every state slot the
  -- times it is free and the times it is held add up to what they were before the call.
  pub hybrid_alloc_conserves :
      (p : HybridPool S) (reqs : List Req)
      → 0 < length reqs
      → all_may_reuse reqs ≡ true
      → need_size reqs ≤ available_size p.slots
      → needed p.extra_buffer (buffer_slots a p) reqs ≤ a.available p.allocator
      → (p' : HybridPool S) × (reqs' : List Req) × hybrid_alloc a p reqs ≡ ok (p', reqs')
        × AllHave reqs'
        × AllGiven reqs'
        × ((x : ℕ)
            → count x p'.slots.free_slots + held x reqs' ≡ count x p.slots.free_slots + held x reqs)
        × ((x : ℕ)
            → a.free_count p'.allocator x + all_held x reqs'
              ≡ a.free_count p.allocator x + all_held x reqs)
  unfolding hybrid_alloc buffer_slots
  hybrid_alloc_conserves p reqs some_req may rows slots =
      let (t, rs, run, have, left, kept) = alloc_conserves p.slots reqs may rows in
      let need =
        alloc-total
          (λ r.
            state_need r.mamba_pool_idx
            + wanted p.extra_buffer (buffer_slots a p) r.mamba_ping_pong_track_buffer)
          (λ r o. refl) p.slots t reqs rs run in
      after t rs run have kept
        (give_all_lem a (record p { slots = t }) rs (omega (arith, slots, need)))
    where
      after :
          (t : ReqToTokenPool) (rs : List Req)
          → alloc p.slots reqs ≡ ok (t, rs)
          → AllHave rs
          → ((x : ℕ) → count x t.free_slots + held x rs ≡ count x p.slots.free_slots + held x reqs)
          → AllSettled a (record p { slots = t }) rs
          → (p' : HybridPool S) × (reqs' : List Req) × hybrid_alloc a p reqs ≡ ok (p', reqs')
            × AllHave reqs'
            × AllGiven reqs'
            × ((x : ℕ)
                → count x p'.slots.free_slots + held x reqs'
                  ≡ count x p.slots.free_slots + held x reqs)
            × ((x : ℕ)
                → a.free_count p'.allocator x + all_held x reqs'
                  ≡ a.free_count p.allocator x + all_held x reqs)
      after t rs run have kept (p1, rs1, run1, s) =
          let same = record_all-same p1 rs1 in
          (
            record_all p1 rs1,
            rs1,
            rw (run, run1, hybrid_alloc)
                (stack_ok p1 rs1 (
                  omega (
                    arith,
                    some_req,
                    total-one rs1,
                    total-one reqs,
                    alloc-total (λ r. 1) (λ r o. refl) p.slots t reqs rs run,
                    rows-length rs rs1 s.rows_same,
                  ))),
            AllHave-rows rs rs1 s.rows_same have,
            s.given,
            λ x. omega (
              arith,
              kept x,
              held-rows x rs rs1 s.rows_same,
              ap (λ q. count x q.free_slots) (same.1 ∙ s.table_same),
            ),
            λ x. omega (
              arith,
              s.total x,
              ap (λ q. a.free_count q x) same.0,
              alloc-total (held_slots x) (λ r o. refl) p.slots t reqs rs run,
            ),
          )
