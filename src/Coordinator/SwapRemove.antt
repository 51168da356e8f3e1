-- ===== src/Coordinator/SwapRemove.antt =====
-- The removal of dead queries (Realm/ObjectStore/impl/realm_coordinator.cpp), which fills each gap
-- with the last query.
pub mod Kept
use mathlib.Core.List.{Perm, Permᴰ}
use mathlib.Core.Logic.{∥∥₁_map}
use mathlib.Core.List.Perm
use mathlib.Core.List.Permᴰ
use realm_cocoa.Base.{
  ℕ, zero, suc, ◌+◌, ◌≤◌, ◌<◌, ◌≡◌, refl, sym, subst, ap, ◌∙◌, Bool, true, false, List, [], ◌∷◌,
  Option, none, some, ltb, if◌then◌else◌, length, get_elem?, set, take, All, keep_if, keep_if-true,
  keep_if-false, get_elem?-inside, get_elem?-beyond, arith, inl, inr, Bool-cases, Option-cases,
}
use realm_cocoa.Coordinator.{Query, back, pop_back, remove_swapping, swap_remove_from, swap_remove}

back-perm : (y : Query) (ys : List Query) → Perm (back y ys ∷ pop_back (y ∷ ys)) (y ∷ ys)
back-perm y [] = Perm.refl (y ∷ [])
back-perm y (z ∷ zs) =
    Perm.trans (Perm.swap y (back z zs) (pop_back (z ∷ zs))) (Perm.cons y (back-perm z zs))

pop_back-cons : (x : Query) (xs : List Query) → 0 < length xs → pop_back (x ∷ xs) ≡ x ∷ pop_back xs
pop_back-cons x [] h = elim h [ ]
pop_back-cons x (y ∷ ys) h = refl

length-set : (xs : List Query) (i : ℕ) (q : Query) → length (set xs i q) ≡ length xs
length-set [] i q = refl
length-set (x ∷ xs) zero q = refl
length-set (x ∷ xs) (suc i) q = omega (arith, length-set xs i q)

remove_swapping-cons :
    (q x : Query) (xs : List Query) (i : ℕ)
    → i < length xs
    → remove_swapping q (x ∷ xs) (suc i) ≡ x ∷ remove_swapping q xs i
remove_swapping-cons q x [] i h = elim h [ ]
remove_swapping-cons q x (y ∷ ys) i h = elim (Bool-cases (ltb (i + 1) (length (y ∷ ys)))) [
  | inl e ↦
      let e2 : ltb (suc i + 1) (suc (suc (length ys))) ≡ true = ground arith in
      rw (e, e2)
        (pop_back-cons x (set (y ∷ ys) i (back y ys))
          (omega (arith, length-set (y ∷ ys) i (back y ys))))
  | inr e ↦
      let e2 : ltb (suc i + 1) (suc (suc (length ys))) ≡ false = ground arith in rw (e, e2) refl
]

remove_swapping-perm :
    (q : Query) (xs : List Query) (i : ℕ)
    → get_elem? xs i ≡ some q
    → Perm (q ∷ remove_swapping q xs i) xs
remove_swapping-perm q [] i h = cc
remove_swapping-perm q (x ∷ []) zero h = let e : q ≡ x = cc in Perm.cons' e (Perm.refl [])
remove_swapping-perm q (x ∷ y ∷ ys) zero h =
    let e : q ≡ x = cc in
    let two : ltb 1 (suc (suc (length ys))) ≡ true = ground arith in
    rw two (Perm.cons' e (back-perm y ys))
remove_swapping-perm q (x ∷ xs) (suc i) h =
    rw (remove_swapping-cons q x xs i (get_elem?-inside xs i h)) (
      Perm.trans (Perm.swap x q (remove_swapping q xs i))
        (Perm.cons x (remove_swapping-perm q xs i h)))

take-remove_swapping :
    (q : Query) (xs : List Query) (i : ℕ)
    → i < length xs
    → take i (remove_swapping q xs i) ≡ take i xs
take-remove_swapping q xs zero h = refl
take-remove_swapping q [] (suc i) h = elim h [ ]
take-remove_swapping q (x ∷ xs) (suc i) h =
    rw (remove_swapping-cons q x xs i (omega arith))
      (ap (◌∷◌ x) (take-remove_swapping q xs i (omega arith)))

abbrev pub IsAlive : Query → Type 0
IsAlive q = q.is_alive ≡ true

take-All : (xs : List Query) (i : ℕ) → length xs ≤ i → All IsAlive (take i xs) → All IsAlive xs
take-All [] i l h = tt
take-All (x ∷ xs) zero l h = absurd (omega arith)
take-All (x ∷ xs) (suc i) l h = (h.0, take-All xs i (omega arith) h.1)

take-next :
    (xs : List Query) (i : ℕ) (q : Query)
    → get_elem? xs i ≡ some q
    → IsAlive q
    → All IsAlive (take i xs)
    → All IsAlive (take (suc i) xs)
take-next [] i q e a h = cc
take-next (x ∷ xs) zero q e a h = let e' : q ≡ x = cc in (subst IsAlive e' a, tt)
take-next (x ∷ xs) (suc i) q e a h = (h.0, take-next xs i q e a h.1)

abbrev pub alive : List Query → List Query
alive xs = keep_if (λ q. q.is_alive) xs

alive-All : (xs : List Query) → All IsAlive xs → alive xs ≡ xs
alive-All [] h = refl
alive-All (x ∷ xs) h = keep_if-true (λ q. q.is_alive) x xs h.0 ∙ ap (◌∷◌ x) (alive-All xs h.1)

-- A query in front of a list if a test has passed.
abbrev front : Bool → Query → List Query → List Query
front true x xs = x ∷ xs
front false x xs = xs

front-cons :
    (b : Bool) (x : Query) {xs ys : List Query} → Permᴰ xs ys → Permᴰ (front b x xs) (front b x ys)
front-cons true x d = Permᴰ.cons refl d
front-cons false x d = d

front-swap :
    (a b : Bool) (x y : Query) (zs : List Query)
    → Permᴰ (front a x (front b y zs)) (front b y (front a x zs))
front-swap true true x y zs = Permᴰ.swap refl refl
front-swap true false x y zs = Permᴰ.refl (x ∷ zs)
front-swap false true x y zs = Permᴰ.refl (y ∷ zs)
front-swap false false x y zs = Permᴰ.refl zs

alive-front : (x : Query) (xs : List Query) → alive (x ∷ xs) ≡ front x.is_alive x (alive xs)
alive-front x xs = elim (Bool-cases x.is_alive) [
  | inl a ↦ keep_if-true (λ q. q.is_alive) x xs a ∙ sym (ap (λ b. front b x (alive xs)) a)
  | inr a ↦ keep_if-false (λ q. q.is_alive) x xs a ∙ sym (ap (λ b. front b x (alive xs)) a)
]

alive-fronts :
    (x y : Query) (xs : List Query)
    → alive (x ∷ y ∷ xs) ≡ front x.is_alive x (front y.is_alive y (alive xs))
alive-fronts x y xs = alive-front x (y ∷ xs) ∙ ap (front x.is_alive x) (alive-front y xs)

keep_permᴰ : (xs ys : List Query) → Permᴰ xs ys → Permᴰ (alive xs) (alive ys)
keep_permᴰ [] [] Permᴰ.nil = Permᴰ.nil
keep_permᴰ (x ∷ xs) (y ∷ ys) (Permᴰ.cons e d) =
    subst (λ z. Permᴰ (alive (x ∷ xs)) (alive (z ∷ ys))) e
      (rw (alive-front x xs, alive-front x ys) (front-cons x.is_alive x (keep_permᴰ xs ys d)))
keep_permᴰ (x ∷ y ∷ xs) (z ∷ w ∷ _) (Permᴰ.swap e f) =
    subst (λ u. Permᴰ (alive (x ∷ y ∷ xs)) (alive (z ∷ u ∷ xs))) e
      (subst (λ u. Permᴰ (alive (x ∷ y ∷ xs)) (alive (u ∷ x ∷ xs))) f
        (rw (alive-fronts x y xs, alive-fronts y x xs)
          (front-swap x.is_alive y.is_alive x y (alive xs))))
keep_permᴰ xs zs (Permᴰ.trans d e) = Permᴰ.trans (keep_permᴰ xs _ d) (keep_permᴰ _ zs e)

alive-perm : (xs ys : List Query) → Perm xs ys → Perm (alive xs) (alive ys)
alive-perm xs ys p = ∥∥₁_map {B = Permᴰ (alive xs) (alive ys)} p (keep_permᴰ xs ys)

-- What the loop is to leave.
abbrev pub IsSwept : List Query → List Query → Type 0
IsSwept xs ys = All IsAlive ys × Perm ys (alive xs)

done : (xs : List Query) → All IsAlive xs → IsSwept xs xs
done xs h = (h, subst (Perm xs) (sym (alive-All xs h)) (Perm.refl xs))

length-pop_back : (xs : List Query) → 0 < length xs → suc (length (pop_back xs)) ≡ length xs
length-pop_back [] h = elim h [ ]
length-pop_back (x ∷ []) h = refl
length-pop_back (x ∷ y ∷ ys) h = ap suc (length-pop_back (y ∷ ys) (omega arith))

length-remove_swapping :
    (q : Query) (xs : List Query) (i : ℕ)
    → get_elem? xs i ≡ some q
    → suc (length (remove_swapping q xs i)) ≡ length xs
length-remove_swapping q xs i e =
    let h = get_elem?-inside xs i e in
    let kept = length-set xs i (back q xs) in
    elim (Bool-cases (ltb (i + 1) (length xs))) [
      | inl b ↦ rw b (length-pop_back (set xs i (back q xs)) (omega (arith, h, kept)) ∙ kept)
      | inr b ↦ rw b (length-pop_back xs (omega (arith, h)))
    ]

IsSwept-removed :
    (q : Query) (xs : List Query) (i : ℕ) {ys : List Query}
    → get_elem? xs i ≡ some q
    → q.is_alive ≡ false
    → IsSwept (remove_swapping q xs i) ys
    → IsSwept xs ys
IsSwept-removed q xs i e a h =
    let p = alive-perm (q ∷ remove_swapping q xs i) xs (remove_swapping-perm q xs i e) in
    let dropped = keep_if-false (λ q. q.is_alive) q (remove_swapping q xs i) a in
    (h.0, Perm.trans h.1 (subst (λ ys. Perm ys (alive xs)) dropped p))

pub round-alive :
    (rounds i : ℕ) (xs : List Query) {q : Query}
    → get_elem? xs i ≡ some q
    → IsAlive q
    → swap_remove_from (suc rounds) i xs ≡ swap_remove_from rounds (i + 1) xs
unfolding swap_remove_from
round-alive rounds i xs e a = rw (swap_remove_from, e, a) refl

pub round-dead :
    (rounds i : ℕ) (xs : List Query) {q : Query}
    → get_elem? xs i ≡ some q
    → q.is_alive ≡ false
    → swap_remove_from (suc rounds) i xs ≡ swap_remove_from rounds i (remove_swapping q xs i)
unfolding swap_remove_from
round-dead rounds i xs e a = rw (swap_remove_from, e, a) refl

swap_remove_from-IsSwept :
    (rounds i : ℕ) (xs : List Query)
    → length xs ≤ i + rounds
    → All IsAlive (take i xs)
    → IsSwept xs (swap_remove_from rounds i xs)
unfolding swap_remove_from
swap_remove_from-IsSwept zero i xs l h = done xs (take-All xs i (omega arith) h)
swap_remove_from-IsSwept (suc rounds) i xs l h = elim (Option-cases (get_elem? xs i)) [
  | inl e ↦ rw (e, swap_remove_from) (done xs (take-All xs i (get_elem?-beyond xs i e) h))
  | inr (q, e) ↦ elim (Bool-cases q.is_alive) [
    | inl a ↦ rw (round-alive rounds i xs e a) (
        swap_remove_from-IsSwept rounds (i + 1) xs (omega (arith, l))
          (subst (λ n. All IsAlive (take n xs)) {x = suc i} (omega arith) (take-next xs i q e a h)))
    | inr a ↦ rw (round-dead rounds i xs e a) (
        IsSwept-removed q xs i e a (
          swap_remove_from-IsSwept rounds i (remove_swapping q xs i)
            (omega (arith, l, length-remove_swapping q xs i e))
            (subst (All IsAlive) (sym (take-remove_swapping q xs i (get_elem?-inside xs i e))) h)))
  ]
]

-- swap_remove leaves the live queries, each as often as it was there, and no other.
pub swap_remove_lem : (xs : List Query) → IsSwept xs (swap_remove xs)
unfolding swap_remove
swap_remove_lem xs = swap_remove_from-IsSwept (length xs) 0 xs (omega arith) tt
