-- ===== src/ObjectStore/Agree.antt =====
-- When ObjectStore::verify_object_schema (Realm/ObjectStore/object_store.cpp) finds no fault.
use realm_cocoa.Base.{
  ℕ, ◌≡◌, ◌≢◌, ◌⊎◌, refl, sym, ap, ◌∙◌, ◌↔◌, inl, inr, Bool, true, false, not, ◌&&◌, List, [], ◌∷◌,
  str_eq, str_eq_self, str_eq→eq, str_eq-swap, All, Bool-cases, ◌==◌, if◌then◌else◌, arith,
}
use realm_cocoa.Schema.{
  PropertyType, type_int, type_bool, type_float, type_double, type_string, type_data, type_any,
  type_date, type_object, type_array, code, same_type, Property, ObjectSchema,
}
use realm_cocoa.ObjectStore.{property_has_changed, verify_object_schema}
use realm_cocoa.ObjectStore.Verify.{matches, has_name, names, verify_object_schema-matches}

-- The type of a value of the enumeration.
abbrev type_of : ℕ → PropertyType
type_of n =
    if n == 0
    then type_int
    else if n == 1
    then type_bool
    else if n == 9
    then type_float
    else if n == 10
    then type_double
    else if n == 2
    then type_string
    else if n == 4
    then type_data
    else if n == 6
    then type_any
    else if n == 7
    then type_date
    else if n == 12
    then type_object
    else type_array

type_of-code : (k : PropertyType) → type_of (code k) ≡ k
type_of-code type_int = refl
type_of-code type_bool = refl
type_of-code type_float = refl
type_of-code type_double = refl
type_of-code type_string = refl
type_of-code type_data = refl
type_of-code type_any = refl
type_of-code type_date = refl
type_of-code type_object = refl
type_of-code type_array = refl

==→eq : (m n : ℕ) → (m == n) ≡ true → m ≡ n
==→eq m n h = ground arith

same_type→eq : (k l : PropertyType) → same_type k l ≡ true → k ≡ l
same_type→eq k l h = sym (type_of-code k) ∙ ap type_of (==→eq (code k) (code l) h) ∙ type_of-code l

==_self : (n : ℕ) → (n == n) ≡ true
==_self n = ground arith

-- The type, the class that it links to and whether it may be null are those of `c`.
abbrev pub Agrees : Property → Property → Type 0
Agrees c p = (p.kind ≡ c.kind) × (p.object_type ≡ c.object_type) × (p.is_nullable ≡ c.is_nullable)

-- There is a property with the name of `c`, and the first that has it agrees with `c`.
abbrev pub HasMatch : List Property → Property → Type 0
HasMatch [] c = ⊥
HasMatch (p ∷ ps) c = ((p.name ≡ c.name) × Agrees c p) ⊎ ((p.name ≢ c.name) × HasMatch ps c)

and-true : (a b : Bool) → (a && b) ≡ true → (a ≡ true) × (b ≡ true)
and-true true b h = (refl, h)
and-true false b h = cc

same_bool : (a b : Bool) → (if a then not b else b) ≡ false → b ≡ a
same_bool true true h = refl
same_bool true false h = cc
same_bool false true h = cc
same_bool false false h = refl

not_changed : Property → Property → Bool
not_changed c p =
    same_type c.kind p.kind
    && (str_eq c.object_type p.object_type
        && not (if c.is_nullable then not p.is_nullable else p.is_nullable))

property_has_changed-not :
    (c p : Property)
    → str_eq p.name c.name ≡ true
    → not (property_has_changed c p) ≡ not_changed c p
unfolding property_has_changed not_changed
property_has_changed-not c p h = let name = str_eq-swap c.name p.name ∙ h in ground (arith, name)

Agrees-not_changed : (c p : Property) → (not_changed c p ≡ true) ↔ Agrees c p
unfolding not_changed
Agrees-not_changed c p = (
  λ h.
      let (k, rest) = and-true (same_type c.kind p.kind) _ h in
      let (o, n) = and-true (str_eq c.object_type p.object_type) _ rest in
      (
        sym (same_type→eq c.kind p.kind k),
        sym (str_eq→eq c.object_type p.object_type o),
        same_bool c.is_nullable p.is_nullable (ground arith),
      ),
  λ h. rw (h.0, h.1, h.2, ==_self (code c.kind), str_eq_self c.object_type) (even c.is_nullable),
)
  where
    even : (b : Bool) → not (if b then not b else b) ≡ true
    even true = refl
    even false = refl

matches-HasMatch : (ps : List Property) (c : Property) → (matches ps c ≡ true) ↔ HasMatch ps c
matches-HasMatch [] c = (λ h. cc, λ h. absurd h)
matches-HasMatch (p ∷ ps) c = elim (Bool-cases (str_eq p.name c.name)) [
  | inl e ↦
      let same = property_has_changed-not c p e in
      let agrees = Agrees-not_changed c p in
      let name = str_eq→eq p.name c.name e in
      let step : matches (p ∷ ps) c ≡ not (property_has_changed c p) = rw e refl in
      (
        λ h. inl (name, agrees.0 (sym same ∙ sym step ∙ h)),
        λ h. elim h [ inl k ↦ step ∙ same ∙ agrees.1 k.1 | inr k ↦ absurd (k.0 name) ],
      )
  | inr e ↦
      let rest = matches-HasMatch ps c in
      let step : matches (p ∷ ps) c ≡ matches ps c = rw e refl in
      let other : p.name ≢ c.name =
        λ k. let same = ap (λ n. str_eq n c.name) k ∙ str_eq_self c.name in cc in
      (
        λ h. inr (other, rest.0 (sym step ∙ h)),
        λ h. elim h [ inl k ↦ absurd (other k.0) | inr k ↦ step ∙ rest.1 k.1 ],
      )
]

All-HasMatch : (ps cs : List Property) → All (λ c. matches ps c ≡ true) cs ↔ All (HasMatch ps) cs
All-HasMatch ps [] = (λ h. tt, λ h. tt)
All-HasMatch ps (c ∷ cs) =
    let here = matches-HasMatch ps c in
    let rest = All-HasMatch ps cs in (λ h. (here.0 h.0, rest.0 h.1), λ h. (here.1 h.0, rest.1 h.1))

-- The comparison finds no fault if and only if, for each property of the table, the target has a
-- property of its name and the first of them has its type, its linked class and its nullability, the
-- primary keys are the same, and every property of the target has the name of one of the table's.
-- Whether a property is primary or indexed, and its column, are not compared.
pub verify_object_schema_lem :
    (table target : ObjectSchema)
    → ((verify_object_schema table target).errors ≡ []) ↔ (
        All (HasMatch target.properties) table.properties
        × (table.primary_key ≡ target.primary_key)
        × All (λ n. has_name table.properties n ≡ true) (names target.properties))
verify_object_schema_lem table target =
    let code_says = verify_object_schema-matches table target in
    let each = All-HasMatch target.properties table.properties in
    (
      λ h.
          let (m, k, n) = code_says.0 h in
          (each.0 m, str_eq→eq table.primary_key target.primary_key k, n),
      λ h. code_says.1 (each.1 h.0, rw h.1 (str_eq_self target.primary_key), h.2),
    )
