-- ===== src/Prelude/Lists.antt =====
-- Lists measured and indexed by native numbers, under the library's names.
use Prim.Native.Nat.{ℕ, zero, suc, ◌+◌, ◌-◌, ◌≤◌, ◌<◌, min}
use mathlib.Core.Path.{◌≡◌, ◌∙◌, refl, ap, sym}
use mathlib.Core.Logic.{◌≢◌}
use mathlib.Core.List.{List, [], ◌∷◌, ◌++◌, map}
use mathlib.Core.Option.{Option, none, some}
use native.Mathlib.Omega.{arith}

module _ {ℓ} {A : Type ℓ} where
  abbrev pub length : List A → ℕ
  length [] = 0
  length (x ∷ xs) = suc (length xs)

  abbrev pub get_elem? : List A → ℕ → Option A
  get_elem? [] i = none
  get_elem? (x ∷ xs) zero = some x
  get_elem? (x ∷ xs) (suc i) = get_elem? xs i

  -- A write out of bounds changes nothing.
  abbrev pub set : List A → ℕ → A → List A
  set [] i v = []
  set (x ∷ xs) zero v = v ∷ xs
  set (x ∷ xs) (suc i) v = x ∷ set xs i v

  pub length-append : (xs ys : List A) → length (xs ++ ys) ≡ length xs + length ys
  length-append [] ys = omega arith
  length-append (x ∷ xs) ys = omega (arith, length-append xs ys)

module _ {ℓ} {A : Type ℓ} where
  pub length-set : (xs : List A) (i : ℕ) (v : A) → length (set xs i v) ≡ length xs
  length-set [] i v = refl
  length-set (x ∷ xs) zero v = refl
  length-set (x ∷ xs) (suc i) v = ap suc (length-set xs i v)

  pub get_elem?-set_self :
      (xs : List A) (i : ℕ) (v : A) → i < length xs → get_elem? (set xs i v) i ≡ some v
  get_elem?-set_self [] i v h = elim h [ ]
  get_elem?-set_self (x ∷ xs) zero v h = refl
  get_elem?-set_self (x ∷ xs) (suc i) v h = get_elem?-set_self xs i v (omega arith)

  pub get_elem?-set_ne :
      (xs : List A) {i j : ℕ} (v : A) → i ≢ j → get_elem? (set xs i v) j ≡ get_elem? xs j
  get_elem?-set_ne [] v h = refl
  get_elem?-set_ne (x ∷ xs) {i = zero} {j = zero} v h = absurd (h refl)
  get_elem?-set_ne (x ∷ xs) {i = zero} {j = suc j} v h = refl
  get_elem?-set_ne (x ∷ xs) {i = suc i} {j = zero} v h = refl
  get_elem?-set_ne (x ∷ xs) {i = suc i} {j = suc j} v h = get_elem?-set_ne xs v (λ e. h (ap suc e))

module _ {ℓ} {A : Type ℓ} where
  abbrev pub get_or : List A → ℕ → A → A
  get_or [] i d = d
  get_or (x ∷ xs) zero d = x
  get_or (x ∷ xs) (suc i) d = get_or xs i d

  abbrev pub take : ℕ → List A → List A
  take zero xs = []
  take (suc n) [] = []
  take (suc n) (x ∷ xs) = x ∷ take n xs

  abbrev pub drop : ℕ → List A → List A
  drop zero xs = xs
  drop (suc n) [] = []
  drop (suc n) (x ∷ xs) = drop n xs

  abbrev pub replicate : ℕ → A → List A
  replicate zero a = []
  replicate (suc n) a = a ∷ replicate n a

  pub take-append-drop : (n : ℕ) (xs : List A) → take n xs ++ drop n xs ≡ xs
  take-append-drop zero xs = refl
  take-append-drop (suc n) [] = refl
  take-append-drop (suc n) (x ∷ xs) = rw (take-append-drop n xs)

  pub length-take : (n : ℕ) (xs : List A) → length (take n xs) ≡ min n (length xs)
  length-take zero xs = omega arith
  length-take (suc n) [] = omega arith
  length-take (suc n) (x ∷ xs) = omega (arith, length-take n xs)

  pub length-drop : (n : ℕ) (xs : List A) → length (drop n xs) ≡ length xs - n
  length-drop zero xs = omega arith
  length-drop (suc n) [] = omega arith
  length-drop (suc n) (x ∷ xs) = omega (arith, length-drop n xs)

  pub length-replicate : (n : ℕ) (a : A) → length (replicate n a) ≡ n
  length-replicate zero a = refl
  length-replicate (suc n) a = ap suc (length-replicate n a)

  pub length-map {κ} : {B : Type κ} (xs : List A) (f : A → B) → length (map f xs) ≡ length xs
  length-map [] f = refl
  length-map (x ∷ xs) f = ap suc (length-map xs f)

module _ {ℓ} {A : Type ℓ} where
  pub get_elem?-some : (xs : List A) (i : ℕ) → i < length xs → (a : A) × (get_elem? xs i ≡ some a)
  get_elem?-some [] i h = elim h [ ]
  get_elem?-some (x ∷ xs) zero h = (x, refl)
  get_elem?-some (x ∷ xs) (suc i) h = get_elem?-some xs i (omega arith)

  pub lt-of-get_elem? : (xs : List A) (i : ℕ) {a : A} → get_elem? xs i ≡ some a → i < length xs
  lt-of-get_elem? [] i h = cc
  lt-of-get_elem? (x ∷ xs) zero h = omega arith
  lt-of-get_elem? (x ∷ xs) (suc i) h = omega (arith, lt-of-get_elem? xs i h)

-- `count_up n i` is i, i + 1, … with n entries.
abbrev pub count_up : ℕ → ℕ → List ℕ
count_up zero i = []
count_up (suc n) i = i ∷ count_up n (suc i)

abbrev pub range : ℕ → List ℕ
range n = count_up n 0

pub get_elem?-map {ℓ κ} :
    {A : Type ℓ} {B : Type κ} (f : A → B) (xs : List A) (j : ℕ) (a : A)
    → get_elem? xs j ≡ some a
    → get_elem? (map f xs) j ≡ some (f a)
get_elem?-map f [] j a h = cc
get_elem?-map f (x ∷ xs) zero a h = cc
get_elem?-map f (x ∷ xs) (suc j) a h = get_elem?-map f xs j a h

pub get_or-get_elem? {ℓ} :
    {A : Type ℓ} (xs : List A) (j : ℕ) (d a : A) → get_elem? xs j ≡ some a → get_or xs j d ≡ a
get_or-get_elem? [] j d a h = cc
get_or-get_elem? (x ∷ xs) zero d a h = cc
get_or-get_elem? (x ∷ xs) (suc j) d a h = get_or-get_elem? xs j d a h

pub count_up-plus : (n m i : ℕ) → count_up (n + m) i ≡ count_up n i ++ count_up m (i + n)
count_up-plus zero m i =
    let e : 0 + m ≡ m = omega arith in
    let e' : i ≡ i + 0 = omega arith in ap (λ k. count_up k i) e ∙ ap (count_up m) e'
count_up-plus (suc n) m i =
    let e : suc n + m ≡ suc (n + m) = omega arith in
    let e' : suc i + n ≡ i + suc n = omega arith in
    ap (λ k. count_up k i) e
    ∙ ap (λ r. i ∷ r) (count_up-plus n m (suc i) ∙ ap (λ k. count_up n (suc i) ++ count_up m k) e')

module _ {ℓ} {B : Type ℓ} where
  -- Two maps over a range agree when they agree at each of its numbers.
  pub map-count_up :
      (f g : ℕ → B) (n i : ℕ)
      → ((j : ℕ) → i ≤ j → j < i + n → f j ≡ g j)
      → map f (count_up n i) ≡ map g (count_up n i)
  map-count_up f g zero i h = refl
  map-count_up f g (suc n) i h =
      let e : f i ≡ g i = h i (omega arith) (omega arith) in
      let rest : map f (count_up n (suc i)) ≡ map g (count_up n (suc i)) =
        map-count_up f g n (suc i) (λ j p q. h j (omega arith) (omega arith)) in
      rw (e, rest)

  -- A map over a range from i on, and one over the range from k on.
  pub map-shift :
      (f g : ℕ → B) (n i k : ℕ)
      → ((j : ℕ) → j < n → f (i + j) ≡ g (k + j))
      → map f (count_up n i) ≡ map g (count_up n k)
  map-shift f g zero i k h = refl
  map-shift f g (suc n) i k h =
      let e : i + 0 ≡ i = omega arith in
      let e' : k + 0 ≡ k = omega arith in
      let first : f i ≡ g k = ap f (sym e) ∙ h 0 (omega arith) ∙ ap g e' in
      let rest : map f (count_up n (suc i)) ≡ map g (count_up n (suc k)) =
        map-shift f g n (suc i) (suc k) (λ j p.
          let a : suc i + j ≡ i + suc j = omega arith in
          let b : k + suc j ≡ suc k + j = omega arith in
          ap f a ∙ h (suc j) (omega arith) ∙ ap g b) in
      rw (first, rest)
