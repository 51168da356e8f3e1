-- ===== src/Base/Strings.antt =====
-- std::string as a list of bytes, with its order.
use Prim.Native.Nat.{ℕ}
use mathlib.Core.Path.{◌≡◌, refl}
use mathlib.Core.Bool.{Bool, true, false, ◌&&◌, ◌||◌}
use mathlib.Core.List.{List, [], ◌∷◌}
use native.Mathlib.Omega.{arith}
use realm_cocoa.Base.Tests.{ltb, ◌==◌}

abbrev pub Str : Type 0
Str = List ℕ

abbrev pub empty {ℓ} : {A : Type ℓ} → List A → Bool
empty [] = true
empty (x ∷ xs) = false

-- std::string::operator<
abbrev pub str_less : Str → Str → Bool
str_less xs [] = false
str_less [] (y ∷ ys) = true
str_less (x ∷ xs) (y ∷ ys) = ltb x y || x == y && str_less xs ys

abbrev pub str_eq : Str → Str → Bool
str_eq [] [] = true
str_eq [] (y ∷ ys) = false
str_eq (x ∷ xs) [] = false
str_eq (x ∷ xs) (y ∷ ys) = x == y && str_eq xs ys

pub str_eq→eq : (xs ys : Str) → str_eq xs ys ≡ true → xs ≡ ys
str_eq→eq [] [] h = refl
str_eq→eq [] (y ∷ ys) h = cc
str_eq→eq (x ∷ xs) [] h = cc
str_eq→eq (x ∷ xs) (y ∷ ys) h = grind (arith, str_eq→eq xs ys)

pub str_eq_self : (xs : Str) → str_eq xs xs ≡ true
str_eq_self [] = refl
str_eq_self (x ∷ xs) = ground (arith, str_eq_self xs)

pub str_less_self : (xs : Str) → str_less xs xs ≡ false
str_less_self [] = refl
str_less_self (x ∷ xs) = ground (arith, str_less_self xs)

pub str_less-asym : (xs ys : Str) → str_less xs ys ≡ true → str_less ys xs ≡ false
str_less-asym xs [] h = cc
str_less-asym [] (y ∷ ys) h = refl
str_less-asym (x ∷ xs) (y ∷ ys) h = ground (arith, str_less-asym xs ys)

-- A name that is not below one which is past `zs` is not `zs` either.
pub str_eq-past :
    (xs ys zs : Str)
    → str_less xs zs ≡ false
    → str_eq xs zs ≡ false
    → str_less ys xs ≡ false
    → str_eq ys zs ≡ false
str_eq-past [] [] [] h e g = cc
str_eq-past [] [] (z ∷ zs) h e g = cc
str_eq-past [] (y ∷ ys) [] h e g = cc
str_eq-past [] (y ∷ ys) (z ∷ zs) h e g = cc
str_eq-past (x ∷ xs) [] zs h e g = cc
str_eq-past (x ∷ xs) (y ∷ ys) [] h e g = refl
str_eq-past (x ∷ xs) (y ∷ ys) (z ∷ zs) h e g = ground (arith, str_eq-past xs ys zs)

pub str_eq-less : (xs ys : Str) → str_less xs ys ≡ true → str_eq xs ys ≡ false
str_eq-less xs [] h = cc
str_eq-less [] (y ∷ ys) h = refl
str_eq-less (x ∷ xs) (y ∷ ys) h = ground (arith, str_eq-less xs ys)

pub str_less-past :
    (xs ys zs : Str) → str_less xs zs ≡ false → str_less ys xs ≡ false → str_less ys zs ≡ false
str_less-past xs ys [] h g = refl
str_less-past [] ys (z ∷ zs) h g = cc
str_less-past (x ∷ xs) [] (z ∷ zs) h g = cc
str_less-past (x ∷ xs) (y ∷ ys) (z ∷ zs) h g = ground (arith, str_less-past xs ys zs)

pub str_eq-swap : (xs ys : Str) → str_eq xs ys ≡ str_eq ys xs
str_eq-swap [] [] = refl
str_eq-swap [] (y ∷ ys) = refl
str_eq-swap (x ∷ xs) [] = refl
str_eq-swap (x ∷ xs) (y ∷ ys) = ground (arith, str_eq-swap xs ys)
