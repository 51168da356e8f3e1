-- ===== src/Base/Lists.antt =====
-- Lists measured and indexed by native numbers, under the library's names, and predicates on lists.
use Prim.Native.Nat.{ℕ, zero, suc, ◌+◌, ◌≤◌, ◌<◌}
use mathlib.Core.Path.{◌≡◌, refl, ap}
use mathlib.Core.Bool.{Bool, true, false, ◌||◌}
use mathlib.Core.Logic.{◌≢◌}
use mathlib.Core.List.{List, [], ◌∷◌, ◌++◌}
use mathlib.Core.Option.{Option, none, some}
use native.Mathlib.Omega.{arith}

module _ {ℓ} {A : Type ℓ} where
  abbrev pub length : List A → ℕ
  length [] = 0
  length (x ∷ xs) = suc (length xs)

  abbrev pub get_elem? : List A → ℕ → Option A
  get_elem? [] i = none
  get_elem? (x ∷ xs) zero = some x
  get_elem? (x ∷ xs) (suc i) = get_elem? xs i

  -- `xs` reversed in front of `ys`: a split vector put together again.
  abbrev pub rev_append : List A → List A → List A
  rev_append [] ys = ys
  rev_append (x ∷ xs) ys = rev_append xs (x ∷ ys)

  -- Whether some element passes the test.
  abbrev pub any : (A → Bool) → List A → Bool
  any p [] = false
  any p (x ∷ xs) = p x || any p xs

  pub length-append : (xs ys : List A) → length (xs ++ ys) ≡ length xs + length ys
  length-append [] ys = omega arith
  length-append (x ∷ xs) ys = omega (arith, length-append xs ys)

-- std::vector::erase at an index in range.
abbrev pub remove_at {ℓ} : {A : Type ℓ} → List A → ℕ → List A
remove_at [] i = []
remove_at (x ∷ xs) zero = xs
remove_at (x ∷ xs) (suc i) = x ∷ remove_at xs i

pub remove_at-append {ℓ} :
    {A : Type ℓ} (xs ys : List A) (i : ℕ)
    → i < length xs
    → remove_at (xs ++ ys) i ≡ remove_at xs i ++ ys
remove_at-append [] ys i h = absurd (omega arith)
remove_at-append (x ∷ xs) ys zero h = refl
remove_at-append (x ∷ xs) ys (suc i) h = ap (◌∷◌ x) (remove_at-append xs ys i (omega arith))

pub remove_at-last {ℓ} :
    {A : Type ℓ} (xs : List A) (y : A) (i : ℕ)
    → i ≡ length xs
    → remove_at (xs ++ y ∷ []) i ≡ xs ++ []
remove_at-last [] y zero h = refl
remove_at-last [] y (suc i) h = absurd (omega arith)
remove_at-last (x ∷ xs) y zero h = absurd (omega arith)
remove_at-last (x ∷ xs) y (suc i) h = ap (◌∷◌ x) (remove_at-last xs y i (omega arith))

pub length-remove_at {ℓ} :
    {A : Type ℓ} (xs : List A) (i : ℕ) → i < length xs → length (remove_at xs i) + 1 ≡ length xs
length-remove_at [] i h = absurd (omega arith)
length-remove_at (x ∷ xs) zero h = omega arith
length-remove_at (x ∷ xs) (suc i) h = omega (arith, length-remove_at xs i (omega arith))

-- std::vector::insert at an index up to the size.
abbrev pub insert_nth {ℓ} : {A : Type ℓ} → List A → ℕ → A → List A
insert_nth xs zero a = a ∷ xs
insert_nth [] (suc i) a = []
insert_nth (x ∷ xs) (suc i) a = x ∷ insert_nth xs i a

-- An assignment to an element in range.
abbrev pub update_nth {ℓ} : {A : Type ℓ} → List A → ℕ → (A → A) → List A
update_nth [] i f = []
update_nth (x ∷ xs) zero f = f x ∷ xs
update_nth (x ∷ xs) (suc i) f = x ∷ update_nth xs i f

-- A predicate by recursion computes to tuples, which the tactics read and build.
abbrev pub All {ℓ κ} : {A : Type ℓ} → (A → Type κ) → List A → Type κ
All P [] = Unit
All P (x ∷ xs) = P x × All P xs

-- std::copy_if: the elements that pass a test.
abbrev pub keep_if {ℓ} : {A : Type ℓ} → (A → Bool) → List A → List A
keep_if p [] = []
keep_if p (x ∷ xs) = elim (p x) [ true ↦ x ∷ keep_if p xs | false ↦ keep_if p xs ]

module _ {ℓ} {A : Type ℓ} where
  -- A write out of bounds changes nothing.
  abbrev pub set : List A → ℕ → A → List A
  set [] i v = []
  set (x ∷ xs) zero v = v ∷ xs
  set (x ∷ xs) (suc i) v = x ∷ set xs i v

  abbrev pub take : ℕ → List A → List A
  take zero xs = []
  take (suc n) [] = []
  take (suc n) (x ∷ xs) = x ∷ take n xs

  pub get_elem?-remove_at_below :
      (xs : List A) (i j : ℕ) → j < i → get_elem? (remove_at xs i) j ≡ get_elem? xs j
  get_elem?-remove_at_below [] i j h = refl
  get_elem?-remove_at_below (x ∷ xs) zero j h = elim h [ ]
  get_elem?-remove_at_below (x ∷ xs) (suc i) zero h = refl
  get_elem?-remove_at_below (x ∷ xs) (suc i) (suc j) h =
      get_elem?-remove_at_below xs i j (omega arith)

  pub get_elem?-remove_at_above :
      (xs : List A) (i j : ℕ) → i ≤ j → get_elem? (remove_at xs i) j ≡ get_elem? xs (suc j)
  get_elem?-remove_at_above [] i j h = refl
  get_elem?-remove_at_above (x ∷ xs) zero j h = refl
  get_elem?-remove_at_above (x ∷ xs) (suc i) zero h = elim h [ ]
  get_elem?-remove_at_above (x ∷ xs) (suc i) (suc j) h =
      get_elem?-remove_at_above xs i j (omega arith)

  pub get_elem?-set_self :
      (xs : List A) (i : ℕ) (v : A) → i < length xs → get_elem? (set xs i v) i ≡ some v
  get_elem?-set_self [] i v h = elim h [ ]
  get_elem?-set_self (x ∷ xs) zero v h = refl
  get_elem?-set_self (x ∷ xs) (suc i) v h = get_elem?-set_self xs i v (omega arith)

  pub get_elem?-set_ne :
      (xs : List A) (i j : ℕ) (v : A) → i ≢ j → get_elem? (set xs i v) j ≡ get_elem? xs j
  get_elem?-set_ne [] i j v h = refl
  get_elem?-set_ne (x ∷ xs) zero zero v h = absurd (h refl)
  get_elem?-set_ne (x ∷ xs) zero (suc j) v h = refl
  get_elem?-set_ne (x ∷ xs) (suc i) zero v h = refl
  get_elem?-set_ne (x ∷ xs) (suc i) (suc j) v h = get_elem?-set_ne xs i j v (λ e. h (ap suc e))

  pub get_elem?-take : (xs : List A) (n j : ℕ) → j < n → get_elem? (take n xs) j ≡ get_elem? xs j
  get_elem?-take xs zero j h = elim h [ ]
  get_elem?-take [] (suc n) j h = refl
  get_elem?-take (x ∷ xs) (suc n) zero h = refl
  get_elem?-take (x ∷ xs) (suc n) (suc j) h = get_elem?-take xs n j (omega arith)

pub get_elem?-inside {ℓ} :
    {A : Type ℓ} (xs : List A) (i : ℕ) {x : A} → get_elem? xs i ≡ some x → i < length xs
get_elem?-inside [] i h = cc
get_elem?-inside (x ∷ xs) zero h = omega arith
get_elem?-inside (x ∷ xs) (suc i) h = omega (arith, get_elem?-inside xs i h)

pub get_elem?-beyond {ℓ} :
    {A : Type ℓ} (xs : List A) (i : ℕ) → get_elem? xs i ≡ none → length xs ≤ i
get_elem?-beyond [] i h = omega arith
get_elem?-beyond (x ∷ xs) zero h = cc
get_elem?-beyond (x ∷ xs) (suc i) h = omega (arith, get_elem?-beyond xs i h)

pub All-map {ℓ κ μ} :
    {A : Type ℓ} {P : A → Type κ} {Q : A → Type μ} (xs : List A)
    → ((x : A) → P x → Q x)
    → All P xs
    → All Q xs
All-map [] f h = tt
All-map (x ∷ xs) f h = (f x h.0, All-map xs f h.1)

pub All-append {ℓ κ} :
    {A : Type ℓ} (P : A → Type κ) (xs ys : List A) → All P xs → All P ys → All P (xs ++ ys)
All-append P [] ys h k = k
All-append P (x ∷ xs) ys h k = (h.0, All-append P xs ys h.1 k)

module _ {ℓ} {A : Type ℓ} (p : A → Bool) where
  pub keep_if-true : (x : A) (xs : List A) → p x ≡ true → keep_if p (x ∷ xs) ≡ x ∷ keep_if p xs
  keep_if-true x xs h = rw (h, keep_if) refl

  pub keep_if-false : (x : A) (xs : List A) → p x ≡ false → keep_if p (x ∷ xs) ≡ keep_if p xs
  keep_if-false x xs h = rw (h, keep_if) refl
