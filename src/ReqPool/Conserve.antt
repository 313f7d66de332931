-- ===== src/ReqPool/Conserve.antt =====
-- runtime-src/memory_pool.py: what `ReqToTokenPool.alloc` and `free` do to the slots.
use sglang_flashnext_nvfp4kv.Prelude.{
  ◌⊎◌, inl, inr, Option-cases, set, get_or, length-append, ℕ, ◌+◌, ◌-◌, ◌≤◌, ◌≡◌, ◌∙◌, refl, sym,
  ap, true, false, List, [], ◌∷◌, ◌++◌, none, some, arith, nat_eq, ltb, length, length-drop, take,
  drop, take-append-drop, length-take,
}
use sglang_flashnext_nvfp4kv.ReqPool.Slots.{
  Req, ReqToTokenPool, ok, assertion, may_reuse, alloc, free, available_size, all_may_reuse,
  need_size, assign, assign_lem, AllHave, count, held, count-append,
}

not_ltb : {m n : ℕ} → m ≤ n → ltb n m ≡ false
not_ltb h = ground arith

split_count : (n x : ℕ) (xs : List ℕ) → count x (take n xs) + count x (drop n xs) ≡ count x xs
split_count n x xs =
    sym (count-append x (take n xs) (drop n xs)) ∙ ap (count x) (take-append-drop n xs)

same_row : (r : Req) (i : ℕ) → r.req_pool_idx ≡ some i → record r { req_pool_idx = some i } ≡ r
same_row r i e = ap (λ o. record r { req_pool_idx = o }) (sym e)

-- With every reusing request chunked or committed, and at least as many free slots as requests
-- without one, `alloc` succeeds, every request then has a slot, the pool keeps exactly the slots it
-- did not hand out, and for every slot the times it is free and the times it is held add up to what
-- they were before the call.
pub alloc_conserves :
    (p : ReqToTokenPool) (reqs : List Req)
    → all_may_reuse reqs ≡ true
    → need_size reqs ≤ available_size p
    → (p' : ReqToTokenPool) × (reqs' : List Req) × alloc p reqs ≡ ok (p', reqs')
      × AllHave reqs'
      × available_size p' + need_size reqs ≡ available_size p
      × ((x : ℕ) → count x p'.free_slots + held x reqs' ≡ count x p.free_slots + held x reqs)
unfolding alloc available_size
alloc_conserves p reqs h le =
    let keep = length p.free_slots - need_size reqs in
    let sel = drop keep p.free_slots in
    let (has, adds) =
      assign_lem sel reqs p.req_generation (omega (arith, length-drop keep p.free_slots, le)) in
    (
      record p {
        free_slots = take keep p.free_slots;
        req_generation = (assign sel reqs p.req_generation).1;
      },
      (assign sel reqs p.req_generation).0,
      rw (h, not_ltb le) refl,
      has,
      omega (arith, length-take keep p.free_slots, le),
      λ x. omega (arith, adds x, split_count keep x p.free_slots),
    )

take-length_append : (xs ys : List ℕ) → take (length xs) (xs ++ ys) ≡ xs
take-length_append [] ys = refl
take-length_append (x ∷ xs) ys = rw (take-length_append xs ys) refl

drop-length_append : (xs ys : List ℕ) → drop (length xs) (xs ++ ys) ≡ ys
drop-length_append [] ys = refl
drop-length_append (x ∷ xs) ys = drop-length_append xs ys

alloc-one :
    (p : ReqToTokenPool) (slots : List ℕ) (i : ℕ) (r : Req)
    → r.req_pool_idx ≡ none
    → p.free_slots ≡ slots ++ i ∷ []
    → alloc p (r ∷ [])
      ≡ ok (
        record p {
          free_slots = slots;
          req_generation = set p.req_generation i (get_or p.req_generation i 0 + 1);
        },
        record r { req_pool_idx = some i } ∷ [],
      )
unfolding alloc all_may_reuse may_reuse need_size assign
alloc-one p slots i r e f =
    let keep : length (slots ++ i ∷ []) - 1 ≡ length slots =
      omega (arith, length-append slots (i ∷ [])) in
    let full : ltb (length (slots ++ i ∷ [])) 1 ≡ false =
      ground (arith, length-append slots (i ∷ [])) in
    rw (e, f, keep, full, drop-length_append slots (i ∷ []), take-length_append slots (i ∷ [])) refl

-- `free` of a request without a slot fails its assertion. Of a request with one it succeeds: the request
-- then has none, so that to free it again fails the assertion; for every slot the times it is free and
-- the times it is held, with the rest of the batch, add up to what they were; and to allocate for that
-- request next gives it the same slot, whose generation is one higher, and the free list from before.
pub free_conserves :
    (p : ReqToTokenPool) (r : Req) (rest : List Req)
    → (r.req_pool_idx ≡ none) × (free p r ≡ assertion)
      ⊎ ((i : ℕ) × (p' : ReqToTokenPool) × (r' : Req) × (r.req_pool_idx ≡ some i)
          × (free p r ≡ ok (p', r'))
          × (free p' r' ≡ assertion)
          × ((x : ℕ)
              → count x p'.free_slots + held x (r' ∷ rest)
                ≡ count x p.free_slots + held x (r ∷ rest))
          × (alloc p' (r' ∷ [])
              ≡ ok (
                record p {
                  req_generation = set p.req_generation i (get_or p.req_generation i 0 + 1);
                },
                r ∷ [],
              )))
unfolding free count held
free_conserves p r rest = elim (Option-cases r.req_pool_idx) [
  | inl e ↦ inl (e, rw e refl)
  | inr (i, e) ↦
      let p' = record p { free_slots = p.free_slots ++ i ∷ [] } in
      let r' = record r { req_pool_idx = none } in
      let back : record r { req_pool_idx = some i } ≡ r = same_row r i e in
      inr (
        i,
        p',
        r',
        e,
        rw e refl,
        refl,
        (λ x. rw e (omega (arith, count-append x p.free_slots (i ∷ [])))),
        alloc-one p' p.free_slots i r' refl refl
            ∙ ap
                (λ q. ok (
                  record p {
                    req_generation = set p.req_generation i (get_or p.req_generation i 0 + 1);
                  },
                  q ∷ [],
                ))
                back,
      )
]
