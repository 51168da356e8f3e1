-- ===== src/Base/Splits.antt =====
-- Positions in a list that is made of two parts.
use Prim.Native.Nat.{ℕ, zero, suc, ◌+◌}
use mathlib.Core.Path.{◌≡◌, refl, ap, subst}
use mathlib.Core.List.{List, [], ◌∷◌, ◌++◌}
use mathlib.Core.Option.{some}
use mathlib.Core.Bool.{true}
use native.Mathlib.Omega.{arith}
use realm_cocoa.Base.Lists.{length, get_elem?, remove_at, insert_nth, update_nth, set, All}
use realm_cocoa.Base.Strings.{empty}

module _ {ℓ} {A : Type ℓ} where
  pub remove_at-behind :
      (xs ys : List A) (k i : ℕ) → k ≡ length xs + i → remove_at (xs ++ ys) k ≡ xs ++ remove_at ys i
  remove_at-behind [] ys k i h = ap (λ n. remove_at ys n) (omega arith)
  remove_at-behind (x ∷ xs) ys zero i h = absurd (omega arith)
  remove_at-behind (x ∷ xs) ys (suc k) i h = ap (◌∷◌ x) (remove_at-behind xs ys k i (omega arith))

  pub insert_nth-behind :
      (xs ys : List A) (k i : ℕ) (a : A)
      → k ≡ length xs + i
      → insert_nth (xs ++ ys) k a ≡ xs ++ insert_nth ys i a
  insert_nth-behind [] ys k i a h = ap (λ n. insert_nth ys n a) (omega arith)
  insert_nth-behind (x ∷ xs) ys zero i a h = absurd (omega arith)
  insert_nth-behind (x ∷ xs) ys (suc k) i a h =
      ap (◌∷◌ x) (insert_nth-behind xs ys k i a (omega arith))

  pub update_nth-behind :
      (xs ys : List A) (k i : ℕ) (f : A → A)
      → k ≡ length xs + i
      → update_nth (xs ++ ys) k f ≡ xs ++ update_nth ys i f
  update_nth-behind [] ys k i f h = ap (λ n. update_nth ys n f) (omega arith)
  update_nth-behind (x ∷ xs) ys zero i f h = absurd (omega arith)
  update_nth-behind (x ∷ xs) ys (suc k) i f h =
      ap (◌∷◌ x) (update_nth-behind xs ys k i f (omega arith))

  pub set-behind :
      (xs ys : List A) (k i : ℕ) (v : A) → k ≡ length xs + i → set (xs ++ ys) k v ≡ xs ++ set ys i v
  set-behind [] ys k i v h = ap (λ n. set ys n v) (omega arith)
  set-behind (x ∷ xs) ys zero i v h = absurd (omega arith)
  set-behind (x ∷ xs) ys (suc k) i v h = ap (◌∷◌ x) (set-behind xs ys k i v (omega arith))

  pub get_elem?-behind :
      (xs ys : List A) (k i : ℕ) → k ≡ length xs + i → get_elem? (xs ++ ys) k ≡ get_elem? ys i
  get_elem?-behind [] ys k i h = ap (λ n. get_elem? ys n) (omega arith)
  get_elem?-behind (x ∷ xs) ys zero i h = absurd (omega arith)
  get_elem?-behind (x ∷ xs) ys (suc k) i h = get_elem?-behind xs ys k i (omega arith)

  pub get_elem?-before :
      (xs ys : List A) (i : ℕ) (x : A) → get_elem? xs i ≡ some x → get_elem? (xs ++ ys) i ≡ some x
  get_elem?-before [] ys i x h = cc
  get_elem?-before (y ∷ xs) ys zero x h = h
  get_elem?-before (y ∷ xs) ys (suc i) x h = get_elem?-before xs ys i x h

  pub append_assoc : (xs ys zs : List A) → (xs ++ ys) ++ zs ≡ xs ++ (ys ++ zs)
  append_assoc [] ys zs = refl
  append_assoc (x ∷ xs) ys zs = ap (◌∷◌ x) (append_assoc xs ys zs)

  pub append_nil : (xs : List A) → xs ++ [] ≡ xs
  append_nil [] = refl
  append_nil (x ∷ xs) = ap (◌∷◌ x) (append_nil xs)

pub get_elem?-All {ℓ κ} :
    {A : Type ℓ} (P : A → Type κ) (xs : List A) (i : ℕ) (x : A)
    → All P xs
    → get_elem? xs i ≡ some x
    → P x
get_elem?-All P [] i x h e = cc
get_elem?-All P (y ∷ xs) zero x h e = let same : y ≡ x = cc in subst P same h.0
get_elem?-All P (y ∷ xs) (suc i) x h e = get_elem?-All P xs i x h.1 e

pub empty→nil {ℓ} : {A : Type ℓ} (xs : List A) → empty xs ≡ true → [] ≡ xs
empty→nil [] h = refl
empty→nil (x ∷ xs) h = cc
