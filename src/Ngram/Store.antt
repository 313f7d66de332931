-- ===== src/Ngram/Store.antt =====
-- A store of contexts of two tokens, which keeps the laws of the pool of contexts.
use sglang_flashnext_nvfp4kv.Prelude.{
  ℕ, suc, ◌+◌, ◌≡◌, ◌∙◌, refl, ap, true, false, List, [], ◌∷◌, map, arith, length, get_or, nat_eq,
  nat_beq_iff, ◌==◌, if◌then◌else◌, contains, Bool-cases, inl, inr,
}
use sglang_flashnext_nvfp4kv.ColdPool.Ownership.{Distinct}
use sglang_flashnext_nvfp4kv.Ngram.Prepare.{ContextPool}
use sglang_flashnext_nvfp4kv.Ngram.Rows.{AllOfWidth}
use sglang_flashnext_nvfp4kv.Ngram.Extend.{ContextLaws, Apart}

-- Contexts of two tokens by slot.
abbrev pub Store : Type 0
Store = ℕ → ℕ × ℕ

abbrev row_at : Store → ℕ → List ℕ
row_at p i = (p i).0 ∷ (p i).1 ∷ []

abbrev write : Store → List ℕ → List (List ℕ) → Store
write p [] rows = p
write p (x ∷ xs) [] = p
write p (x ∷ xs) (r ∷ rows) =
    λ i. let rest = write p xs rows i in if x == i then (get_or r 0 0, get_or r 1 0) else rest

abbrev pub store : ContextPool Store
store = record {
  mamba_index = λ p r. r + 1;
  context_width = λ p. 2;
  get_context = λ p slots. map (row_at p) slots;
  set_context = write;
  set_intermediate = λ p rows. p;
}

rows-AllOfWidth : (p : Store) (slots : List ℕ) → AllOfWidth 2 (map (row_at p) slots)
rows-AllOfWidth p [] = omega arith
rows-AllOfWidth p (x ∷ xs) = (refl, rows-AllOfWidth p xs)

length-rows : (p : Store) (slots : List ℕ) → length (map (row_at p) slots) ≡ length slots
length-rows p [] = refl
length-rows p (x ∷ xs) = ap suc (length-rows p xs)

write_elsewhere :
    (p : Store) (slots : List ℕ) (rows : List (List ℕ)) (i : ℕ)
    → contains i slots ≡ false
    → write p slots rows i ≡ p i
write_elsewhere p [] rows i h = refl
write_elsewhere p (x ∷ xs) [] i h = refl
write_elsewhere p (x ∷ xs) (r ∷ rows) i h =
    let e : (x == i) ≡ false = ground arith in rw e (write_elsewhere p xs rows i (ground arith))

map_elsewhere :
    (p : Store) (slots others : List ℕ) (rows : List (List ℕ))
    → Apart slots others
    → map (row_at (write p slots rows)) others ≡ map (row_at p) others
map_elsewhere p slots [] rows h = refl
map_elsewhere p slots (i ∷ others) rows h = elim (Bool-cases (contains i slots)) [
  | inl q ↦ let f = h i q in ground (arith, nat_beq_iff i i)
  | inr q ↦
      let e = write_elsewhere p slots rows i q in
      let rest = map_elsewhere p slots others rows (λ x k. ground (arith, h x k)) in
      rw (e, rest) refl
]

head_elsewhere :
    (p : Store) (x : ℕ) (r : List ℕ) (xs : List ℕ) (rows : List (List ℕ)) (others : List ℕ)
    → contains x others ≡ false
    → map (row_at (write p (x ∷ xs) (r ∷ rows))) others ≡ map (row_at (write p xs rows)) others
head_elsewhere p x r xs rows [] h = refl
head_elsewhere p x r xs rows (i ∷ others) h =
    let e : (x == i) ≡ false = ground (arith, nat_beq_iff x i, nat_beq_iff i x) in
    let rest = head_elsewhere p x r xs rows others (ground arith) in rw (e, rest) refl

two_entries : (r : List ℕ) → length r ≡ 2 → get_or r 0 0 ∷ get_or r 1 0 ∷ [] ≡ r
two_entries [] h = absurd (omega arith)
two_entries (x ∷ []) h = absurd (omega arith)
two_entries (x ∷ y ∷ []) h = refl
two_entries (x ∷ y ∷ z ∷ r) h = absurd (omega arith)

read_back :
    (p : Store) (slots : List ℕ) (rows : List (List ℕ))
    → Distinct slots
    → length rows ≡ length slots
    → AllOfWidth 2 rows
    → map (row_at (write p slots rows)) slots ≡ rows
read_back p [] [] d l w = refl
read_back p [] (r ∷ rows) d l w = absurd (omega arith)
read_back p (x ∷ xs) [] d l w = absurd (omega arith)
read_back p (x ∷ xs) (r ∷ rows) d l w =
    let e : (x == x) ≡ true = ground arith in
    let rest = head_elsewhere p x r xs rows xs d.0 ∙ read_back p xs rows d.1 (omega arith) w.1 in
    rw (rest, e, two_entries r w.0) refl

pub store_laws : ContextLaws store
store_laws = record {
  of_width = rows-AllOfWidth;
  length_get = length-rows;
  read_back = read_back;
  read_other = map_elsewhere;
  keeps_width = λ p slots rows. refl;
  keeps_table = λ p slots rows r. refl;
}
