-- ===== src/ReqPool/HybridLoop.antt =====
-- runtime-src/memory_pool.py: the loop of `HybridReqToTokenPool.alloc` over the requests.
use sglang_flashnext_nvfp4kv.Prelude.{
  ℕ, ◌+◌, ◌≤◌, ◌≡◌, ◌∙◌, refl, List, [], ◌∷◌, Option, some, arith, nat_eq,
}
use sglang_flashnext_nvfp4kv.Prelude.Int.{ℤ}
use sglang_flashnext_nvfp4kv.ReqPool.Slots.{Req}
use sglang_flashnext_nvfp4kv.ReqPool.Hybrid.{
  SlotAllocator, HybridPool, buffer_slots, give_state, give_buffer, give_all,
}
use sglang_flashnext_nvfp4kv.ReqPool.HybridSlots.{
  all_held, state_need, wanted, needed, AllGiven, rows_of, Moved, StateGiven, buffer_slots-Moved,
  give_state_if_lem, give_buffer_if_lem,
}

module _ {S : Type 0} (a : SlotAllocator S) where
  pub record Settled (p p1 : HybridPool S) (rs rs1 : List Req) : Type 0 where
    pub total :
        (x : ℕ)
        → a.free_count p1.allocator x + all_held x rs1 ≡ a.free_count p.allocator x + all_held x rs
    pub given : AllGiven rs1
    pub table_same : p1.slots ≡ p.slots
    pub rows_same : rows_of rs1 ≡ rows_of rs
    pub left_over :
        a.available p1.allocator + needed p.extra_buffer (buffer_slots a p) rs
        ≡ a.available p.allocator

  give_all-cons :
      (p p1 p2 p3 : HybridPool S) (r r1 r2 : Req) (rs rs3 : List Req)
      → give_state a p r ≡ some (p1, r1)
      → give_buffer a p1 r1 ≡ some (p2, r2)
      → give_all a p2 rs ≡ some (p3, rs3)
      → give_all a p (r ∷ rs) ≡ some (p3, r2 ∷ rs3)
  unfolding give_all
  give_all-cons p p1 p2 p3 r r1 r2 rs rs3 e e1 e2 = rw (e, e1, e2, give_all) refl

  -- What the buffer's step finds after the state's step.
  wanted-Moved :
      {p p1 : HybridPool S} {r r1 : Req} {n : ℕ} (b b1 : Option (List ℤ))
      → Moved a p p1 r r1 n
      → b1 ≡ b
      → wanted p1.extra_buffer (buffer_slots a p1) b1 ≡ wanted p.extra_buffer (buffer_slots a p) b
  wanted-Moved b b1 m e = rw (buffer_slots-Moved a m, m.extra_same, e) refl

  needed-Moved :
      {p p1 : HybridPool S} {r r1 : Req} {n : ℕ} (rs : List Req)
      → Moved a p p1 r r1 n
      → needed p1.extra_buffer (buffer_slots a p1) rs ≡ needed p.extra_buffer (buffer_slots a p) rs
  needed-Moved rs m = rw (buffer_slots-Moved a m, m.extra_same) refl

  Settled-cons :
      {p p1 p2 p3 : HybridPool S} {r r1 r2 : Req} {rs rs3 : List Req}
      → Moved a p p1 r r1 (state_need r.mamba_pool_idx)
      → r1.mamba_ping_pong_track_buffer ≡ r.mamba_ping_pong_track_buffer
      → (z : ℤ) × (r1.mamba_pool_idx ≡ some z)
      → Moved a p1 p2 r1 r2
          (wanted p1.extra_buffer (buffer_slots a p1) r1.mamba_ping_pong_track_buffer)
      → r2.mamba_pool_idx ≡ r1.mamba_pool_idx
      → Settled p2 p3 rs rs3
      → Settled p p3 (r ∷ rs) (r2 ∷ rs3)
  Settled-cons {p = p} {p1 = p1} {r = r} {r1 = r1} {rs = rs} m e idx m1 same s = record {
    total = λ x. omega (arith, m.kept x, m1.kept x, s.total x);
    given = ((idx.0, same ∙ idx.1), s.given);
    table_same = s.table_same ∙ m1.slots_same ∙ m.slots_same;
    rows_same = rw (m1.row_same, m.row_same, s.rows_same) refl;
    left_over = omega (
      arith,
      m.spent,
      m1.spent,
      s.left_over,
      wanted-Moved r.mamba_ping_pong_track_buffer r1.mamba_ping_pong_track_buffer m e,
      needed-Moved rs m,
      needed-Moved rs m1,
    );
  }

  -- What `give_all` gives where the slots suffice.
  abbrev pub AllSettled : HybridPool S → List Req → Type 0
  AllSettled p rs =
      (p1 : HybridPool S) × (rs1 : List Req) × (give_all a p rs ≡ some (p1, rs1))
      × Settled p p1 rs rs1

  pub give_all_lem :
      (p : HybridPool S) (rs : List Req)
      → needed p.extra_buffer (buffer_slots a p) rs ≤ a.available p.allocator
      → AllSettled p rs
  unfolding give_all
  give_all_lem p [] h = (
    p,
    [],
    refl,
    record {
      total = λ x. refl;
      given = tt;
      table_same = refl;
      rows_same = refl;
      left_over = omega arith;
    },
  )
  give_all_lem p (r ∷ rs) h =
      after_state (give_state_if_lem a r.mamba_pool_idx p r refl (omega (arith, h)))
        (λ q. give_all_lem q rs)
    where
      after_buffer :
          (p1 p2 : HybridPool S) (r1 r2 : Req)
          → give_state a p r ≡ some (p1, r1)
          → Moved a p p1 r r1 (state_need r.mamba_pool_idx)
          → r1.mamba_ping_pong_track_buffer ≡ r.mamba_ping_pong_track_buffer
          → (z : ℤ) × (r1.mamba_pool_idx ≡ some z)
          → give_buffer a p1 r1 ≡ some (p2, r2)
          → Moved a p1 p2 r1 r2
              (wanted p1.extra_buffer (buffer_slots a p1) r1.mamba_ping_pong_track_buffer)
          → r2.mamba_pool_idx ≡ r1.mamba_pool_idx
          → AllSettled p2 rs
          → AllSettled p (r ∷ rs)
      after_buffer p1 p2 r1 r2 run1 m1 e idx run2 m2 same (p3, rs3, run3, s) = (
        p3,
        r2 ∷ rs3,
        give_all-cons p p1 p2 p3 r r1 r2 rs rs3 run1 run2 run3,
        Settled-cons m1 e idx m2 same s,
      )

      after_state :
          StateGiven a p r (give_state a p r)
          → ((q : HybridPool S)
              → needed q.extra_buffer (buffer_slots a q) rs ≤ a.available q.allocator
              → AllSettled q rs)
          → AllSettled p (r ∷ rs)
      after_state (p1, r1, run1, m1, e, idx) ih =
          let want =
            wanted-Moved r.mamba_ping_pong_track_buffer r1.mamba_ping_pong_track_buffer m1 e in
          let (p2, r2, run2, m2, same) =
            give_buffer_if_lem a p1.extra_buffer r1.mamba_ping_pong_track_buffer p1 r1 refl
              (omega (arith, h, m1.spent, want)) in
          after_buffer p1 p2 r1 r2 run1 m1 e idx run2 m2 same (
            ih p2
              (omega (arith, h, m1.spent, m2.spent, want, needed-Moved rs m1, needed-Moved rs m2)))
