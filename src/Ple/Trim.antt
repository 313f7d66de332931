-- ===== src/Ple/Trim.antt =====
-- runtime-src/qwen4_exp_ple_table.py: the trimmer of the mapped table's resident set. A test of the stop
-- flag and a call of `madvise` answer by the offset and the range that they are made at; the resident
-- set is read before and after. The loop's fuel is the table's size, its offsets being distinct.
use sglang_flashnext_nvfp4kv.Prelude.{
  ℕ, zero, suc, ◌+◌, ◌-◌, ◌≤◌, ◌<◌, ◌≡◌, refl, inl, inr, Bool, not, List, [], ◌∷◌, Option, none,
  some, arith, nat_eq, ◌==◌, ltb, leb, if◌then◌else◌, min, Bool-cases, subst,
}

-- How the loop over the chunks ended.
pub data Ending : Type 0 where
  finished stopped refused : Ending

-- A table's mapping and the trimmer's settings.
pub record Mapping : Type 0 where
  pub addr : ℕ
  pub nbytes : ℕ
  pub budget : ℕ
  pub chunk : ℕ

module _ (stop : ℕ → Bool) (advise : ℕ → ℕ → Bool) (m : Mapping) where
  -- `for offset in range(0, nbytes, chunk)`, with the calls of `madvise` that were made.
  unfoldable pub trim_loop : ℕ → ℕ → List (ℕ × ℕ) × Ending
  trim_loop zero offset = ([], finished)
  trim_loop (suc fuel) offset =
      let length = min m.chunk (m.nbytes - offset) in
      let rest = trim_loop fuel (offset + m.chunk) in
      if not (ltb offset m.nbytes)
      then ([], finished)
      else if stop offset
      then ([], stopped)
      else if advise (m.addr + offset) length
      then ((m.addr + offset, length) ∷ rest.0, rest.1)
      else ((m.addr + offset, length) ∷ [], refused)

  abbrev pub freed_after : ℕ → Option ℕ → Ending → ℕ
  freed_after before after refused = 0
  freed_after before none finished = 0
  freed_after before none stopped = 0
  freed_after before (some a) finished = before - a
  freed_after before (some a) stopped = before - a

  -- `trim_once`: the calls made, and the bytes freed. A `range` of step 0 raises.
  unfoldable pub trim_once : Option ℕ → Option ℕ → Option (List (ℕ × ℕ) × ℕ)
  unfolding trim_loop
  trim_once none after = some ([], 0)
  trim_once (some before) after =
      let run = trim_loop m.nbytes 0 in
      if leb before m.budget
      then some ([], 0)
      else if m.chunk == 0
      then none
      else some (run.0, freed_after before after run.1)

-- Ranges that follow one another with no gap and no overlap, none empty or longer than a chunk.
abbrev pub Tiles : ℕ → ℕ → ℕ → List (ℕ × ℕ) → Type 0
Tiles chunk from to [] = from ≡ to
Tiles chunk from to ((a, n) ∷ calls) =
    (a ≡ from) × (0 < n) × (n ≤ chunk) × Tiles chunk (from + n) to calls

module _ (stop : ℕ → Bool) (advise : ℕ → ℕ → Bool) (m : Mapping) (positive : 0 < m.chunk) where
  -- What is shown of a run that starts at an offset.
  abbrev TilesFrom : ℕ → List (ℕ × ℕ) × Ending → Type 0
  TilesFrom offset run =
      (to : ℕ) × Tiles m.chunk (m.addr + min offset m.nbytes) to run.0
      × (to ≤ m.addr + m.nbytes)
      × (run.1 ≡ finished → to ≡ m.addr + m.nbytes)

  trim_loop-Tiles :
      (fuel offset : ℕ)
      → m.nbytes ≤ fuel + offset
      → TilesFrom offset (trim_loop stop advise m fuel offset)
  unfolding trim_loop
  trim_loop-Tiles zero offset h = (m.addr + m.nbytes, omega arith, omega arith, λ e. refl)
  trim_loop-Tiles (suc fuel) offset h = elim (Bool-cases (ltb offset m.nbytes)) [
    | inr past ↦ rw (past, trim_loop) (m.addr + m.nbytes, ground arith, omega arith, λ e. refl)
    | inl within ↦ elim (Bool-cases (stop offset)) [
      | inl halt ↦
          rw (within, halt, trim_loop) (m.addr + offset, ground arith, ground arith, λ e. cc)
      | inr run ↦ elim (Bool-cases (advise (m.addr + offset) (min m.chunk (m.nbytes - offset)))) [
        | inl done ↦
            let (to, tiles, low, all) =
              trim_loop-Tiles fuel (offset + m.chunk) (omega (arith, h)) in
            rw (within, run, done, trim_loop)
              (
                to,
                (
                  ground (arith, within),
                  ground (arith, within),
                  ground arith,
                  subst
                      (λ a. Tiles m.chunk a to (trim_loop stop advise m fuel (offset + m.chunk)).0)
                      (ground (arith, within)) tiles,
                ),
                low,
                all,
              )
        | inr fail ↦
            rw (within, run, fail, trim_loop)
              (
                m.addr + offset + min m.chunk (m.nbytes - offset),
                ground arith,
                ground arith,
                λ e. cc,
              )
      ]
    ]
  ]

  -- With chunks of at least one byte, a trim of a mapping over its budget makes calls that follow one
  -- another from the mapping's start, without gap, overlap or empty range, each of a chunk at most and
  -- none past the mapping's end; if the loop was neither stopped nor refused they cover the whole
  -- mapping and the fall of the resident set is returned, and after a refusal 0 is.
  pub trim_once-Tiles :
      (before after : ℕ)
      → m.budget < before
      → (calls : List (ℕ × ℕ)) × (freed : ℕ) × trim_once stop advise m (some before) (some after)
          ≡ some (calls, freed)
        × ((to : ℕ) × Tiles m.chunk m.addr to calls
            × (to ≤ m.addr + m.nbytes)
            × ((trim_loop stop advise m m.nbytes 0).1 ≡ finished → to ≡ m.addr + m.nbytes))
        × ((trim_loop stop advise m m.nbytes 0).1 ≡ finished → freed ≡ before - after)
        × ((trim_loop stop advise m m.nbytes 0).1 ≡ refused → freed ≡ 0)
  unfolding trim_once
  trim_once-Tiles before after over =
      let run = trim_loop stop advise m m.nbytes 0 in
      let (to, tiles, low, all) = trim_loop-Tiles m.nbytes 0 (omega arith) in
      (
        run.0,
        freed_after stop advise m before (some after) run.1,
        ground (arith, over, positive),
        (to, subst (λ a. Tiles m.chunk a to run.0) (omega arith) tiles, low, all),
        λ e. rw e refl,
        λ e. rw e refl,
      )
