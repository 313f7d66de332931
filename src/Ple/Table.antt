-- ===== src/Ple/Table.antt =====
-- runtime-src/qwen4_exp_ple_table.py: where the table's bytes live, and the helpers made for it. A file
-- is known by its size, and by whether its bytes were kept; a directory is created at need.
use native.Mathlib.Nat.{mul_assoc}
use sglang_flashnext_nvfp4kv.Prelude.{
  ℕ, ◌+◌, ◌-◌, ◌*◌, ◌^◌, ◌≤◌, ◌<◌, ◌≡◌, ◌∙◌, ap, ◌⊎◌, refl, inl, inr, Bool, true, false, List, [],
  ◌∷◌, ◌++◌, Option, none, some, arith, nat_eq, nat_beq_iff, ◌==◌, ltb, if◌then◌else◌, contains,
  length, map, Bool-cases,
}
use sglang_flashnext_nvfp4kv.Ple.Prefetch.{
  enqueue, pages_for_rows, shard_rows, first_page, last_page, contains-unique,
  contains-append_either,
}
use sglang_flashnext_nvfp4kv.Ple.Trim.{Mapping}

pub data Backend : Type 0 where
  pinned file unknown : Backend

pub data HostTable : Type 0 where
  unknown_backend : HostTable
  pinned_table : HostTable
  -- The table's bytes, the file's size, and whether the file's bytes are those from before.
  file_table : ℕ → ℕ → Bool → HostTable

unfoldable pub numel : List ℕ → ℕ
numel [] = 1
numel (d ∷ ds) = d * numel ds

-- The size of the file after the test of its existence and size, and whether its bytes were kept.
unfoldable pub sized_file : ℕ → Option ℕ → ℕ × Bool
sized_file nbytes none = (nbytes, false)
sized_file nbytes (some size) = if size == nbytes then (size, true) else (nbytes, false)

-- `allocate_ple_host_table`; `existing` is the size of the file at the table's path.
unfoldable pub allocate_ple_host_table : Backend → List ℕ → ℕ → Option ℕ → HostTable
unfolding numel sized_file
allocate_ple_host_table unknown shape itemsize existing = unknown_backend
allocate_ple_host_table pinned shape itemsize existing = pinned_table
allocate_ple_host_table file shape itemsize existing =
    let nbytes = numel shape * itemsize in
    let (size, kept) = sized_file nbytes existing in file_table nbytes size kept

abbrev pub last_dim : ℕ → List ℕ → ℕ
last_dim d [] = d
last_dim d (x ∷ xs) = last_dim x xs

-- The row's bytes that `make_ple_file_prefetcher` computes.
unfoldable pub row_bytes_of : List ℕ → ℕ → ℕ
row_bytes_of [] itemsize = itemsize
row_bytes_of (d ∷ []) itemsize = itemsize
row_bytes_of (d ∷ x ∷ xs) itemsize = last_dim x xs * itemsize

-- `make_ple_file_prefetcher`: the row's bytes, if the table has a file and the setting is on.
unfoldable pub make_prefetcher : Bool → HostTable → List ℕ → ℕ → Option ℕ
unfolding row_bytes_of
make_prefetcher enabled unknown_backend shape itemsize = none
make_prefetcher enabled pinned_table shape itemsize = none
make_prefetcher enabled (file_table nbytes size kept) shape itemsize =
    if enabled then some (row_bytes_of shape itemsize) else none

-- `make_ple_file_rss_trimmer`, with the budget in bytes and the resident set if it can be read.
unfoldable pub make_trimmer : ℕ → ℕ → Option ℕ → HostTable → List ℕ → ℕ → Option Mapping
unfolding numel
make_trimmer addr budget rss unknown_backend shape itemsize = none
make_trimmer addr budget rss pinned_table shape itemsize = none
make_trimmer addr budget none (file_table nbytes size kept) shape itemsize = none
make_trimmer addr budget (some rss) (file_table nbytes size kept) shape itemsize =
    if budget == 0
    then none
    else some
        (record { addr = addr; nbytes = numel shape * itemsize; budget = budget; chunk = 2 ^ 30 })

shard_rows-lt :
    (from to row : ℕ) (ids : List ℕ)
    → contains row (shard_rows (some (from, to)) ids) ≡ true
    → row < to - from
unfolding shard_rows
shard_rows-lt from to row [] h = cc
shard_rows-lt from to row (x ∷ xs) h = ground (arith, shard_rows-lt from to row xs)

contains-map_inv :
    (f : ℕ → ℕ) (p : ℕ) (xs : List ℕ)
    → contains p (map f xs) ≡ true
    → (x : ℕ) × (contains x xs ≡ true) × (f x ≡ p)
contains-map_inv f p [] h = cc
contains-map_inv f p (x ∷ xs) h = elim (Bool-cases (f x == p)) [
  | inl e ↦ (x, ground arith, (nat_beq_iff (f x) p).0 e)
  | inr e ↦
      let (y, c, q) = contains-map_inv f p xs (ground (arith, h, e)) in (y, ground (arith, c), q)
]

-- A page of a row lies in the row: it starts before the row's end.
pages-in :
    (rows : List ℕ) (row_bytes p : ℕ)
    → 0 < row_bytes
    → contains p (pages_for_rows rows row_bytes) ≡ true
    → (row : ℕ) × (contains row rows ≡ true) × (p * 2 ^ 12 < row * row_bytes + row_bytes)
unfolding pages_for_rows first_page last_page
pages-in rows row_bytes p pos h =
    let firsts = map (first_page row_bytes) rows in
    let lasts = map (last_page row_bytes) rows in
    let split = contains-unique p (firsts ++ lasts) ∙ contains-append_either p firsts lasts in
    elim (Bool-cases (contains p firsts)) [
      | inl c ↦
          let (row, at, e) = contains-map_inv (first_page row_bytes) p rows c in
          (row, at, omega (arith, e, pos))
      | inr c ↦
          let (row, at, e) =
            contains-map_inv (last_page row_bytes) p rows (ground (arith, split, h, c)) in
          (row, at, omega (arith, e, pos))
    ]

sized_file_size : (nbytes : ℕ) (existing : Option ℕ) → (sized_file nbytes existing).0 ≡ nbytes
unfolding sized_file
sized_file_size nbytes none = refl
sized_file_size nbytes (some size) = ground arith

none-some : {pages : List ℕ} → none ≡ some pages → ⊥
none-some h = cc

enqueue-pages :
    (min_rows row_bytes from to : ℕ) (ids pages : List ℕ)
    → enqueue false min_rows row_bytes (some (from, to)) ids ≡ some pages
    → pages ≡ pages_for_rows (shard_rows (some (from, to)) ids) row_bytes
unfolding enqueue
enqueue-pages min_rows row_bytes from to ids pages h =
    by_test (Bool-cases (ltb (length ids) min_rows)) (shard_rows (some (from, to)) ids) refl
  where
    by_test :
        (ltb (length ids) min_rows ≡ true) ⊎ (ltb (length ids) min_rows ≡ false)
        → (rs : List ℕ) → shard_rows (some (from, to)) ids ≡ rs
        → pages ≡ pages_for_rows rs row_bytes
    by_test (inl few) rs e = absurd (none-some (rw few at h))
    by_test (inr many) [] e = absurd (none-some (rw (many, e) at h))
    by_test (inr many) (r ∷ rs) e =
        let run : some (pages_for_rows (r ∷ rs) row_bytes) ≡ some pages = rw (many, e) at h in cc

row_end : (row rows n : ℕ) → row < rows → row * n + n ≤ rows * n
row_end row rows n h = grind arith

-- The file's bytes are kept just when a file of the wanted size was there.
sized_file-kept :
    (nbytes : ℕ) (existing : Option ℕ)
    → ((sized_file nbytes existing).1 ≡ true) × (existing ≡ some nbytes)
      ⊎ ((sized_file nbytes existing).1 ≡ false) × ¬ (existing ≡ some nbytes)
unfolding sized_file
sized_file-kept nbytes none = inr (refl, λ h. cc)
sized_file-kept nbytes (some size) = elim (Bool-cases (size == nbytes)) [
  | inl e ↦ inl (rw e refl, ap some ((nat_beq_iff size nbytes).0 e))
  | inr e ↦ inr (rw e refl, λ h. ground (arith, e, h))
]

-- A table of `rows` rows in a file gets a file of exactly its bytes, whose old bytes are kept just when
-- a file of that size was there, and its prefetcher a row size such that every page that any hint for a
-- shard of at most `rows` rows names starts inside the file. Condition: a row has a byte.
pub prefetch_in_file :
    (rows dim itemsize : ℕ) (existing : Option ℕ) (min_rows from to : ℕ) (ids pages : List ℕ)
    (p : ℕ)
    → 0 < dim * itemsize
    → to - from ≤ rows
    → enqueue false min_rows (dim * itemsize) (some (from, to)) ids ≡ some pages
    → contains p pages ≡ true
    → (kept : Bool) × (allocate_ple_host_table file (rows ∷ dim ∷ []) itemsize existing
        ≡ file_table (rows * dim * itemsize) (rows * dim * itemsize) kept)
      × ((kept ≡ true) × (existing ≡ some (rows * dim * itemsize))
          ⊎ (kept ≡ false) × ¬ (existing ≡ some (rows * dim * itemsize)))
      × (make_prefetcher true
            (file_table (rows * dim * itemsize) (rows * dim * itemsize) kept)
            (rows ∷ dim ∷ [])
            itemsize
          ≡ some (dim * itemsize))
      × p * 2 ^ 12 < rows * dim * itemsize
unfolding allocate_ple_host_table make_prefetcher row_bytes_of
prefetch_in_file rows dim itemsize existing min_rows from to ids pages p pos fit run at =
    let n = rows * dim * itemsize in
    let times_one : dim * 1 ≡ dim = omega arith in
    let sent = enqueue-pages min_rows (dim * itemsize) from to ids pages run in
    let (row, there, low) =
      pages-in (shard_rows (some (from, to)) ids) (dim * itemsize) p pos (rw sent at at) in
    let inside = shard_rows-lt from to row ids there in
    (
      (sized_file n existing).1,
      rw (times_one, sized_file_size n existing) refl,
      sized_file-kept n existing,
      refl,
      omega (
        arith,
        low,
        row_end row rows (dim * itemsize) (omega (arith, inside, fit)),
        mul_assoc rows dim itemsize,
      ),
    )
