-- ===== src/Ple/Tests.antt =====
-- runtime-src/qwen4_exp_ple_table.py: a hint for three ids, one outside the shard.
use sglang_flashnext_nvfp4kv.Prelude.{
  Option, ℕ, ◌+◌, ◌-◌, ◌*◌, ◌/◌, ◌^◌, ◌≡◌, ◌≤◌, ◌<◌, ◌↔◌, ◌⊎◌, refl, Bool, list_eq, lookup, true,
  false, List, [], ◌∷◌, some, arith, nat_eq, contains,
}
use sglang_flashnext_nvfp4kv.ColdPool.Weights.{All}
use sglang_flashnext_nvfp4kv.Ple.Sidecar.{
  Table, Directory, unreadable, is_valid, sidecar_write, write_steps,
}
use sglang_flashnext_nvfp4kv.Ple.Sealing.{Matches, Complete, is_valid_iff, write_steps-Matches}
use sglang_flashnext_nvfp4kv.Ple.Trim.{
  Mapping, Tiles, trim_loop, trim_once, finished, refused, trim_once-Tiles,
}
use sglang_flashnext_nvfp4kv.Ple.Table.{
  file, file_table, allocate_ple_host_table, make_prefetcher, prefetch_in_file,
}
use sglang_flashnext_nvfp4kv.Ple.Prefetch.{enqueue, enqueue_covers}

abbrev wanted : List ℕ
wanted = 105 ∷ 7 ∷ 101 ∷ []

hint : enqueue false 2 3_000 (some (100, 200)) wanted ≡ some (0 ∷ 1 ∷ 3 ∷ 4 ∷ [])
unfolding enqueue
hint = refl

enqueue_covers_example :
    (pages : List ℕ) × enqueue false 2 3_000 (some (100, 200)) wanted ≡ some pages
    × contains (((105 - 100) * 3_000 + 2_000) / 2 ^ 12) pages ≡ true
enqueue_covers_example =
    enqueue_covers 2 3_000 100 200 wanted 105 2_000 (omega arith) (omega arith) (omega arith)
      (omega arith) refl (omega arith)

abbrev table : Table ℕ
table = record {
  expected_bytes = 4_096;
  shape = 16 ∷ 128 ∷ [];
  dtype = 1;
  model = 9;
  fingerprints = (10, 1 ∷ 2 ∷ []) ∷ (11, 3 ∷ 4 ∷ []) ∷ [];
}

-- One source's modification time differs.
abbrev changed : Table ℕ
changed = record table { fingerprints = (10, 1 ∷ 2 ∷ []) ∷ (11, 3 ∷ 5 ∷ []) ∷ [] }

abbrev no_files : Directory ℕ
no_files = record { sidecar = unreadable; temporary = unreadable }

rejects_changed :
    is_valid (λ p. p) (sidecar_write (λ p. p) table no_files).sidecar (some 4_096) changed ≡ false
unfolding is_valid sidecar_write lookup
rejects_changed = refl

is_valid_iff_example :
    (is_valid (λ p. p) (sidecar_write (λ p. p) table no_files).sidecar (some 4_096) changed ≡ true)
    ↔ Matches (λ p. p) table (some 4_096) changed
is_valid_iff_example = is_valid_iff (λ p. p) table changed (some 4_096) no_files (refl, (refl, tt))

write_steps-Matches_example :
    All
      (λ c. (c.sidecar ≡ no_files.sidecar) ⊎ Complete (λ p. p) table (some 4_096) changed c)
      (write_steps (λ p. p) table no_files)
    × Complete (λ p. p) table (some 4_096) changed (sidecar_write (λ p. p) table no_files)
write_steps-Matches_example =
    write_steps-Matches (λ p. p) table changed (some 4_096) no_files (refl, (refl, tt))

abbrev mapping : Mapping
mapping = record { addr = 100; nbytes = 10; budget = 3; chunk = 4 }

trims :
    trim_once (λ o. false) (λ a n. true) mapping (some 9) (some 2)
    ≡ some ((100, 4) ∷ (104, 4) ∷ (108, 2) ∷ [], 7)
unfolding trim_once
trims = refl

trim_once-Tiles_example :
    (calls : List (ℕ × ℕ)) × (freed : ℕ) × trim_once
        (λ o. false)
        (λ a n. true)
        mapping
        (some 9)
        (some 2)
      ≡ some (calls, freed)
    × ((to : ℕ) × Tiles 4 100 to calls
        × (to ≤ 110)
        × ((trim_loop (λ o. false) (λ a n. true) mapping 10 0).1 ≡ finished → to ≡ 110))
    × ((trim_loop (λ o. false) (λ a n. true) mapping 10 0).1 ≡ finished → freed ≡ 9 - 2)
    × ((trim_loop (λ o. false) (λ a n. true) mapping 10 0).1 ≡ refused → freed ≡ 0)
trim_once-Tiles_example =
    trim_once-Tiles (λ o. false) (λ a n. true) mapping (omega arith) 9 2 (omega arith)

prefetch_in_file_example :
    (kept : Bool) × (allocate_ple_host_table file (100 ∷ 1_500 ∷ []) 2 (some 7)
      ≡ file_table 300_000 300_000 kept)
    × ((kept ≡ true) × (◌≡◌ {A = Option ℕ} (some 7) (some 300_000))
        ⊎ (kept ≡ false) × ¬ (◌≡◌ {A = Option ℕ} (some 7) (some 300_000)))
    × (make_prefetcher true (file_table 300_000 300_000 kept) (100 ∷ 1_500 ∷ []) 2 ≡ some 3_000)
    × 4 * 2 ^ 12 < 300_000
prefetch_in_file_example =
    prefetch_in_file 100 1_500 2 (some 7) 2 100 200 wanted (0 ∷ 1 ∷ 3 ∷ 4 ∷ []) 4 (omega arith)
      (omega arith) hint refl
