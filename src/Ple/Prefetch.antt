-- ===== src/Ple/Prefetch.antt =====
-- runtime-src/qwen4_exp_ple_table.py: which pages of the table's file a prefetch hint names. Ids are
-- natural numbers. `vocab` is the shard's range, or `none` for the default arguments, where the shard
-- starts at 0 and has no end.
use sglang_flashnext_nvfp4kv.Prelude.{
  ℕ, ◌+◌, ◌-◌, ◌*◌, ◌/◌, ◌^◌, ◌≤◌, ◌<◌, ◌≡◌, ◌∙◌, ◌⊎◌, refl, inl, inr, Bool, true, false, ◌&&◌,
  ◌||◌, List, [], ◌∷◌, ◌++◌, Option, none, some, arith, nat_eq, nat_beq_iff, ◌==◌, ltb, leb,
  if◌then◌else◌, contains, length, map, Bool-cases,
}

-- `unique(sorted=True)`, one number at a time.
unfoldable pub insert_unique : ℕ → List ℕ → List ℕ
insert_unique p [] = p ∷ []
insert_unique p (q ∷ qs) =
    let rest = insert_unique p qs in
    if p == q then q ∷ qs else if ltb p q then p ∷ q ∷ qs else q ∷ rest

unfoldable pub unique : List ℕ → List ℕ
unfolding insert_unique
unique [] = []
unique (p ∷ ps) = insert_unique p (unique ps)

unfoldable pub first_page : ℕ → ℕ → ℕ
first_page row_bytes row = row * row_bytes / 2 ^ 12

unfoldable pub last_page : ℕ → ℕ → ℕ
last_page row_bytes row = (row * row_bytes + (row_bytes - 1)) / 2 ^ 12

unfoldable pub pages_for_rows : List ℕ → ℕ → List ℕ
unfolding unique first_page last_page
pages_for_rows rows row_bytes =
    unique (map (first_page row_bytes) rows ++ map (last_page row_bytes) rows)

-- The rows of this rank's shard, counted from its start.
unfoldable pub shard_rows : Option (ℕ × ℕ) → List ℕ → List ℕ
shard_rows none ids = ids
shard_rows (some (from, to)) [] = []
shard_rows (some (from, to)) (id ∷ ids) =
    let rest = shard_rows (some (from, to)) ids in
    if leb from id && ltb id to then (id - from) ∷ rest else rest

-- `enqueue`: the pages that it submits, or none where it returns False.
unfoldable pub enqueue : Bool → ℕ → ℕ → Option (ℕ × ℕ) → List ℕ → Option (List ℕ)
unfolding shard_rows pages_for_rows
enqueue capturing min_rows row_bytes vocab ids =
    if ltb (length ids) min_rows
    then none
    else if capturing
    then none
    else elim (shard_rows vocab ids) [
      | [] ↦ none
      | r ∷ rs ↦ some (pages_for_rows (r ∷ rs) row_bytes)
    ]

contains-insert_unique :
    (g p : ℕ) (ps : List ℕ) → contains g (insert_unique p ps) ≡ (p == g || contains g ps)
unfolding insert_unique
contains-insert_unique g p [] = ground arith
contains-insert_unique g p (q ∷ qs) = ground (arith, contains-insert_unique g p qs)

pub contains-unique : (g : ℕ) (ps : List ℕ) → contains g (unique ps) ≡ contains g ps
unfolding unique
contains-unique g [] = refl
contains-unique g (p ∷ ps) =
    contains-insert_unique g p (unique ps) ∙ ground (arith, contains-unique g ps)

pub contains-append_either :
    (g : ℕ) (xs ys : List ℕ) → contains g (xs ++ ys) ≡ (contains g xs || contains g ys)
contains-append_either g [] ys = refl
contains-append_either g (x ∷ xs) ys = ground (arith, contains-append_either g xs ys)

contains-map :
    (f : ℕ → ℕ) (g : ℕ) (xs : List ℕ) → contains g xs ≡ true → contains (f g) (map f xs) ≡ true
contains-map f g [] h = h
contains-map f g (x ∷ xs) h = elim (Bool-cases (x == g)) [
  | inl e ↦ let e' : x ≡ g = (nat_beq_iff x g).0 e in rw e' (ground arith)
  | inr e ↦ ground (arith, contains-map f g xs (ground (arith, h, e)))
]

contains-shard_rows :
    (from to id : ℕ) (ids : List ℕ)
    → from ≤ id
    → id < to
    → contains id ids ≡ true
    → contains (id - from) (shard_rows (some (from, to)) ids) ≡ true
unfolding shard_rows
contains-shard_rows from to id [] l u h = h
contains-shard_rows from to id (x ∷ xs) l u h = elim (Bool-cases (x == id)) [
  | inl e ↦ ground (arith, e, l, u)
  | inr e ↦ ground (arith, contains-shard_rows from to id xs l u (ground (arith, h, e)))
]

not_short : {m n : ℕ} → m ≤ n → ltb n m ≡ false
not_short h = ground arith

-- An interval of at most a page and a byte touches the page of its start or of its end.
page_either :
    (a n byte : ℕ)
    → n ≤ 2 ^ 12 + 1
    → byte < n
    → ((a + byte) / 2 ^ 12 ≡ a / 2 ^ 12) ⊎ ((a + byte) / 2 ^ 12 ≡ (a + (n - 1)) / 2 ^ 12)
page_either a n byte small lt = elim (Bool-cases ((a + byte) / 2 ^ 12 == a / 2 ^ 12)) [
  | inl e ↦ inl ((nat_beq_iff ((a + byte) / 2 ^ 12) (a / 2 ^ 12)).0 e)
  | inr e ↦ inr (ground (arith, e, small, lt))
]

pages-cover :
    (rows : List ℕ) (row_bytes row byte : ℕ)
    → row_bytes ≤ 2 ^ 12 + 1
    → contains row rows ≡ true
    → byte < row_bytes
    → contains ((row * row_bytes + byte) / 2 ^ 12) (pages_for_rows rows row_bytes) ≡ true
unfolding pages_for_rows first_page last_page
pages-cover rows row_bytes row byte small h lt =
    let firsts = map (first_page row_bytes) rows in
    let lasts = map (last_page row_bytes) rows in
    let starts : contains (row * row_bytes / 2 ^ 12) firsts ≡ true =
      contains-map (first_page row_bytes) row rows h in
    let ends : contains ((row * row_bytes + (row_bytes - 1)) / 2 ^ 12) lasts ≡ true =
      contains-map (last_page row_bytes) row rows h in
    let page = (row * row_bytes + byte) / 2 ^ 12 in
    contains-unique page (firsts ++ lasts)
    ∙ contains-append_either page firsts lasts
    ∙ elim (page_either (row * row_bytes) row_bytes byte small lt) [
      | inl e ↦ rw (e, starts) refl
      | inr e ↦ rw (e, ends) (ground arith)
    ]

-- With enough ids outside a capture and rows of at most a page and a byte, `enqueue` submits, for
-- every id of the shard that it is given, the page of every byte of the id's row.
pub enqueue_covers :
    (min_rows row_bytes from to : ℕ) (ids : List ℕ) (id byte : ℕ)
    → min_rows ≤ length ids
    → row_bytes ≤ 2 ^ 12 + 1
    → from ≤ id
    → id < to
    → contains id ids ≡ true
    → byte < row_bytes
    → (pages : List ℕ) × enqueue false min_rows row_bytes (some (from, to)) ids ≡ some pages
      × contains (((id - from) * row_bytes + byte) / 2 ^ 12) pages ≡ true
unfolding enqueue pages_for_rows
enqueue_covers min_rows row_bytes from to ids id byte enough small l u h lt =
    go (shard_rows (some (from, to)) ids) refl
  where
    go :
        (rs : List ℕ)
        → shard_rows (some (from, to)) ids ≡ rs
        → (pages : List ℕ) × enqueue false min_rows row_bytes (some (from, to)) ids ≡ some pages
          × contains (((id - from) * row_bytes + byte) / 2 ^ 12) pages ≡ true
    go [] e = absurd (ground (arith, e, contains-shard_rows from to id ids l u h))
    go (r ∷ rs) e =
        let row = id - from in
        let found : contains row (r ∷ rs) ≡ true =
          rw e at (contains-shard_rows from to id ids l u h) in
        (
          pages_for_rows (r ∷ rs) row_bytes,
          rw (not_short enough, e) refl,
          pages-cover (r ∷ rs) row_bytes row byte small found lt,
        )
