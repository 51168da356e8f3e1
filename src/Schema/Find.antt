-- ===== src/Schema/Find.antt =====
-- The constructor of Schema and its lookup by name (Realm/ObjectStore/schema.cpp).
use mathlib.Core.List.{Memᴰ}
use realm_cocoa.Base.{
  All-map, ℕ, zero, suc, ◌≡◌, ◌≤◌, refl, subst, ap, ◌↔◌, ◌⊎◌, inl, inr, Bool, true, false, not,
  List, [], ◌∷◌, Option, none, some, if◌then◌else◌, length, get_elem?, arith, All, Bool-cases,
  Option-cases, Str, str_less, str_eq, str_eq→eq, str_eq-past, str_less-past, str_eq-less,
  str_less-asym,
}
use realm_cocoa.Base.Search.{lower_bound, lower_bound-point, point, point-within, IsMonotone}
use realm_cocoa.Schema.{ObjectSchema, Schema, compare_by_name, insert_by_name, schema, find}

abbrev pub named : Str → ObjectSchema → Bool
named name o = str_eq o.name name

-- No class comes before one of a smaller name.
abbrev pub IsSorted : Schema → Type 0
IsSorted [] = Unit
IsSorted (x ∷ xs) = All (λ y. compare_by_name y x ≡ false) xs × IsSorted xs

module _ {ℓ} (P : ObjectSchema → Type ℓ) where
  pub insert_by_name-All :
      (o : ObjectSchema) (xs : Schema) → P o → All P xs → All P (insert_by_name o xs)
  insert_by_name-All o [] p h = (p, h)
  insert_by_name-All o (x ∷ xs) p h = elim (Bool-cases (compare_by_name x o)) [
    | inl e ↦ rw e (h.0, insert_by_name-All o xs p h.1)
    | inr e ↦ rw e (p, h)
  ]

  pub All-insert_by_name :
      (o : ObjectSchema) (xs : Schema) → All P (insert_by_name o xs) → P o × All P xs
  All-insert_by_name o [] h = h
  All-insert_by_name o (x ∷ xs) h = elim (Bool-cases (compare_by_name x o)) [
    | inl e ↦
        let h' : All P (x ∷ insert_by_name o xs) =
          subst (λ b. All P (if b then x ∷ insert_by_name o xs else o ∷ x ∷ xs)) e h in
        let (q, r) = All-insert_by_name o xs h'.1 in (q, (h'.0, r))
    | inr e ↦ subst (λ b. All P (if b then x ∷ insert_by_name o xs else o ∷ x ∷ xs)) e h
  ]

  pub schema-All : (os : List ObjectSchema) → All P os ↔ All P (schema os)
  unfolding schema
  schema-All [] = (λ h. h, λ h. h)
  schema-All (o ∷ os) = (
    λ h. insert_by_name-All o (schema os) h.0 ((schema-All os).0 h.1),
    λ h. let (q, r) = All-insert_by_name o (schema os) h in (q, (schema-All os).1 r),
  )

above-All :
    (x : ObjectSchema) (xs : Schema) (name : Str)
    → str_less x.name name ≡ false
    → All (λ y. compare_by_name y x ≡ false) xs
    → All (λ y. str_less y.name name ≡ false) xs
above-All x [] name l h = tt
above-All x (y ∷ ys) name l h = (str_less-past x.name y.name name l h.0, above-All x ys name l h.1)

insert_by_name-IsSorted :
    (o : ObjectSchema) (xs : Schema) → IsSorted xs → IsSorted (insert_by_name o xs)
insert_by_name-IsSorted o [] h = (tt, h)
insert_by_name-IsSorted o (x ∷ xs) h = elim (Bool-cases (compare_by_name x o)) [
  | inl e ↦ rw e (
    insert_by_name-All (λ y. compare_by_name y x ≡ false) o xs (str_less-asym x.name o.name e) h.0,
    insert_by_name-IsSorted o xs h.1,
  )
  | inr e ↦ rw e ((e, above-All x xs o.name e h.0), h)
]

pub schema-IsSorted : (os : List ObjectSchema) → IsSorted (schema os)
unfolding schema
schema-IsSorted [] = tt
schema-IsSorted (o ∷ os) = insert_by_name-IsSorted o (schema os) (schema-IsSorted os)

past-All :
    (x : ObjectSchema) (xs : Schema) (name : Str)
    → str_less x.name name ≡ false
    → str_eq x.name name ≡ false
    → All (λ y. compare_by_name y x ≡ false) xs
    → All (λ y. named name y ≡ false) xs
past-All x [] name l e h = tt
past-All x (y ∷ ys) name l e h =
    (str_eq-past x.name y.name name l e h.0, past-All x ys name l e h.1)

sorted-IsMonotone :
    (s : Schema) (name : Str) → IsSorted s → IsMonotone (λ o. str_less o.name name) s
sorted-IsMonotone [] name h = tt
sorted-IsMonotone (x ∷ xs) name h = (λ e. above-All x xs name e h.0, sorted-IsMonotone xs name h.1)

-- What the search for a name is to give: a class of the name, or the word that there is none.
abbrev pub IsFound : Str → List ObjectSchema → Option ObjectSchema → Type 0
IsFound name os none = All (λ o. named name o ≡ false) os
IsFound name os (some o) = (o.name ≡ name) × Memᴰ o os

All-at :
    (P : ObjectSchema → Type 0) (s : Schema) (i : ℕ) (o : ObjectSchema)
    → All P s
    → get_elem? s i ≡ some o
    → P o
All-at P [] i o h e = cc
All-at P (x ∷ xs) zero o h e = let e' : x ≡ o = cc in subst P e' h.0
All-at P (x ∷ xs) (suc i) o h e = All-at P xs i o h.1 e

All-Mem : (s : Schema) → All (λ o. Memᴰ o s) s
All-Mem [] = tt
All-Mem (x ∷ xs) = (Memᴰ.head refl, All-map xs (λ o m. Memᴰ.tail m) (All-Mem xs))

-- A class that the search stops at is of the name, or no class is.
abbrev Settled : Str → Schema → Option ObjectSchema → Type 0
Settled name s none = All (λ o. named name o ≡ false) s
Settled name s (some o) = (named name o ≡ true) ⊎ All (λ o. named name o ≡ false) s

Settled-skip :
    (name : Str) (x : ObjectSchema) (xs : Schema) (r : Option ObjectSchema)
    → named name x ≡ false
    → Settled name xs r
    → Settled name (x ∷ xs) r
Settled-skip name x xs none e h = (e, h)
Settled-skip name x xs (some o) e (inl h) = inl h
Settled-skip name x xs (some o) e (inr h) = inr (e, h)

point-Settled :
    (s : Schema) (name : Str)
    → IsSorted s
    → Settled name s (get_elem? s (point (λ o. str_less o.name name) s))
point-Settled [] name h = tt
point-Settled (x ∷ xs) name h = elim (Bool-cases (str_less x.name name)) [
  | inl e ↦ rw e (Settled-skip name x xs _ (str_eq-less x.name name e) (point-Settled xs name h.1))
  | inr e ↦ rw e (elim (Bool-cases (named name x)) [
    | inl n ↦ inl n
    | inr n ↦ inr (n, past-All x xs name e n h.0)
  ])
]

get_elem?-length : (s : Schema) → get_elem? s (length s) ≡ none
get_elem?-length [] = refl
get_elem?-length (x ∷ xs) = get_elem?-length xs

IsFound-schema :
    (os : List ObjectSchema) (name : Str) (i : ℕ)
    → Settled name (schema os) (get_elem? (schema os) i)
    → (o : ObjectSchema) → get_elem? (schema os) i ≡ some o
    → named name o ≡ true
    → IsFound name os (get_elem? (schema os) i)
IsFound-schema os name i h o e n = rw e (
  str_eq→eq o.name name n,
  All-at (λ o. Memᴰ o os) (schema os) i o ((schema-All (λ o. Memᴰ o os) os).0 (All-Mem os)) e,
)

IsFound-none :
    (os : List ObjectSchema) (name : Str) (i : ℕ)
    → All (λ o. named name o ≡ false) (schema os)
    → get_elem? (schema os) i ≡ none
    → IsFound name os (get_elem? (schema os) i)
IsFound-none os name i h e = rw e ((schema-All (λ o. named name o ≡ false) os).1 h)

find-none :
    (s : Schema) (name : Str) (i : ℕ)
    → lower_bound (λ o. str_less o.name name) s ≡ i
    → get_elem? s i ≡ none
    → find s name ≡ i
unfolding find
find-none s name i at e = rw (at, e, find) at

find-some :
    (s : Schema) (name : Str) (i : ℕ) (o : ObjectSchema)
    → lower_bound (λ o. str_less o.name name) s ≡ i
    → get_elem? s i ≡ some o
    → find s name ≡ (if not (named name o) then length s else i)
unfolding find
find-some s name i o at e =
    rw (at, e, find) (ap (λ j. if not (named name o) then length s else j) at)

-- Looked up in the schema made of any classes, a name gives a class of the name among them, and
-- `end()` if and only if there is none.
pub find_lem :
    (os : List ObjectSchema) (name : Str)
    → IsFound name os (get_elem? (schema os) (find (schema os) name))
find_lem os name =
    let s = schema os in
    let i = point (λ o. str_less o.name name) s in
    let at =
      lower_bound-point (λ o. str_less o.name name) s
        (sorted-IsMonotone s name (schema-IsSorted os)) in
    let found = point-Settled s name (schema-IsSorted os) in
    elim (Option-cases (get_elem? s i)) [
      | inl e ↦
          rw (find-none s name i at e) (IsFound-none os name i (subst (Settled name s) e found) e)
      | inr (o, e) ↦ elim (Bool-cases (named name o)) [
        | inl n ↦ rw (find-some s name i o at e, n) (IsFound-schema os name i found o e n)
        | inr n ↦
            rw (find-some s name i o at e, n)
              (IsFound-none os name (length s)
                (elim (subst (Settled name s) e found) [ inl m ↦ cc | inr all ↦ all ])
                (get_elem?-length s))
      ]
    ]

pub find-within : (os : List ObjectSchema) (name : Str) → find (schema os) name ≤ length (schema os)
find-within os name =
    let s = schema os in
    let i = point (λ o. str_less o.name name) s in
    let at =
      lower_bound-point (λ o. str_less o.name name) s
        (sorted-IsMonotone s name (schema-IsSorted os)) in
    let within = point-within (λ o. str_less o.name name) s in
    elim (Option-cases (get_elem? s i)) [
      | inl e ↦ rw (find-none s name i at e) within
      | inr (o, e) ↦ rw (find-some s name i o at e) (ground arith)
    ]
