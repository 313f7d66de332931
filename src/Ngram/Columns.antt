-- ===== src/Ngram/Columns.antt =====
-- The columns of the shifted rows and of their products.
use Prim.Native.Nat.{bit_xor}
use sglang_flashnext_nvfp4kv.Prelude.{
  ℕ, zero, suc, ◌+◌, ◌-◌, ◌≤◌, ◌<◌, ◌≡◌, ◌∙◌, refl, ap, sym, List, [], ◌∷◌, map, arith, length,
  length-map, get_or, count_up, range, nat_eq, Bool, true, false, if◌then◌else◌,
}
use sglang_flashnext_nvfp4kv.Ngram.Heads.{NgramEmbedding}
use sglang_flashnext_nvfp4kv.Ngram.Shift.{shift_right_ignore_eos}
use sglang_flashnext_nvfp4kv.Ngram.Back.{token_back, shift_right_ignore_eos-token_back}
use sglang_flashnext_nvfp4kv.Ngram.Hash.{mul_int64, xor_rows}

pub get_or-map :
    (f : ℕ → ℕ) (xs : List ℕ) (i d : ℕ) → i < length xs → get_or (map f xs) i d ≡ f (get_or xs i d)
get_or-map f [] i d h = absurd (omega arith)
get_or-map f (x ∷ xs) zero d h = refl
get_or-map f (x ∷ xs) (suc i) d h = get_or-map f xs i d (omega arith)

pub get_or-xor_rows :
    (xs ys : List ℕ) (i : ℕ)
    → i < length xs
    → length xs ≡ length ys
    → get_or (xor_rows xs ys) i 0 ≡ bit_xor (get_or xs i 0) (get_or ys i 0)
unfolding xor_rows
get_or-xor_rows [] ys i h e = absurd (omega arith)
get_or-xor_rows (x ∷ xs) [] i h e = absurd (omega arith)
get_or-xor_rows (x ∷ xs) (y ∷ ys) zero h e = refl
get_or-xor_rows (x ∷ xs) (y ∷ ys) (suc i) h e = get_or-xor_rows xs ys i (omega arith) (omega arith)

pub length-xor_rows : (xs ys : List ℕ) → length xs ≡ length ys → length (xor_rows xs ys) ≡ length xs
unfolding xor_rows
length-xor_rows [] ys e = refl
length-xor_rows (x ∷ xs) [] e = absurd (omega arith)
length-xor_rows (x ∷ xs) (y ∷ ys) e = ap suc (length-xor_rows xs ys (omega arith))

-- The list that the code builds of the shifted rows.
abbrev pub shifted_rows : NgramEmbedding → List ℕ → List (List ℕ)
shifted_rows e context =
    context ∷ map (shift_right_ignore_eos e.eos_token_id context) (count_up (e.ngram_size - 1) 1)

get_or-map-count_up :
    (f : ℕ → List ℕ) (n i j : ℕ) → j < n → get_or (map f (count_up n i)) j [] ≡ f (i + j)
get_or-map-count_up f zero i j h = absurd (omega arith)
get_or-map-count_up f (suc n) i zero h = let e : i ≡ i + 0 = omega arith in ap f e
get_or-map-count_up f (suc n) i (suc j) h =
    let e : suc i + j ≡ i + suc j = omega arith in
    get_or-map-count_up f n (suc i) j (omega arith) ∙ ap f e

pub length-count_up : (n i : ℕ) → length (count_up n i) ≡ n
length-count_up zero i = refl
length-count_up (suc n) i = ap suc (length-count_up n (suc i))

pub get_or-count_up : (n i j d : ℕ) → j < n → get_or (count_up n i) j d ≡ i + j
get_or-count_up zero i j d h = absurd (omega arith)
get_or-count_up (suc n) i zero d h = omega arith
get_or-count_up (suc n) i (suc j) d h = omega (arith, get_or-count_up n (suc i) j d (omega arith))

shift_zero : (eos : ℕ) (row : List ℕ) → shift_right_ignore_eos eos row 0 ≡ row
unfolding shift_right_ignore_eos
shift_zero eos row = refl

pub get_or-past : (xs : List ℕ) (i d : ℕ) → length xs ≤ i → get_or xs i d ≡ d
get_or-past [] i d h = refl
get_or-past (x ∷ xs) zero d h = absurd (omega arith)
get_or-past (x ∷ xs) (suc i) d h = get_or-past xs i d (omega arith)

pub either_token : (P : ℕ → Type 0) (b : Bool) {x y : ℕ} → P x → P y → P (if b then x else y)
either_token P true p q = p
either_token P false p q = q

module _ (e : NgramEmbedding) (context : List ℕ) where
  pub get_or-shifted_rows :
      (pos : ℕ)
      → pos < e.ngram_size
      → get_or (shifted_rows e context) pos []
        ≡ map (λ i. token_back e.eos_token_id context i pos) (range (length context))
  get_or-shifted_rows zero h =
      sym (shift_zero e.eos_token_id context)
      ∙ shift_right_ignore_eos-token_back e.eos_token_id context 0
  get_or-shifted_rows (suc pos) h =
      let q : 1 + pos ≡ suc pos = omega arith in
      get_or-map-count_up (shift_right_ignore_eos e.eos_token_id context) (e.ngram_size - 1) 1 pos
        (omega arith)
      ∙ ap (shift_right_ignore_eos e.eos_token_id context) q
      ∙ shift_right_ignore_eos-token_back e.eos_token_id context (suc pos)

  -- The products of one shifted row.
  abbrev pub products : ℕ → List ℕ
  products pos =
      map (λ t. mul_int64 t (get_or e.layer_multipliers pos 0))
        (get_or (shifted_rows e context) pos [])

  pub length-products : (pos : ℕ) → pos < e.ngram_size → length (products pos) ≡ length context
  length-products pos h =
      let columns = range (length context) in
      let back = λ (i : ℕ). token_back e.eos_token_id context i pos in
      rw (get_or-shifted_rows pos h) (
        omega (
          arith,
          length-map (map back columns) (λ t. mul_int64 t (get_or e.layer_multipliers pos 0)),
          length-map columns back,
          length-count_up (length context) 0,
        ))
