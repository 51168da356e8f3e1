-- ===== src/Schema/Consistency.antt =====
-- Schema::validate (Realm/ObjectStore/schema.cpp) against what a schema has to satisfy.
use mathlib.Core.List.{Memᴰ}
use realm_cocoa.Base.{
  get_elem?-beyond, get_elem?-inside, ℕ, suc, ◌+◌, ◌≤◌, ◌≡◌, refl, subst, ◌↔◌, inl, inr, Bool, true,
  false, not, ◌&&◌, ◌||◌, List, [], ◌∷◌, ◌++◌, none, some, ◌==◌, if◌then◌else◌, length, get_elem?,
  any, All, Option-cases, arith, Str, empty, str_eq_self,
}
use realm_cocoa.Schema.{
  PropertyType, type_int, type_bool, type_string, type_any, type_date, type_object, type_array,
  Property, ObjectSchema, Schema, Invalid, same_type, is_indexable, schema, find, report,
  links_nowhere, wrong_nullability, check_properties, check_objects, validate,
}
use realm_cocoa.Schema.Find.{named, IsFound, find_lem, find-within, schema-All}

-- Whether properties of a type may be nullable, and may not.
abbrev pub allowed : PropertyType → Bool → Bool
allowed type_object nullable = nullable
allowed type_array nullable = not nullable
allowed type_any nullable = not nullable
allowed _ nullable = true

abbrev pub can_index : PropertyType → Bool
can_index type_int = true
can_index type_bool = true
can_index type_string = true
can_index type_date = true
can_index _ = false

abbrev pub primaries : List Property → ℕ
primaries [] = 0
primaries (p ∷ ps) = if p.is_primary then suc (primaries ps) else primaries ps

abbrev pub IsValidProperty : List ObjectSchema → Property → Type 0
IsValidProperty os p =
    ((empty p.object_type || any (named p.object_type) os) ≡ true)
    × (allowed p.kind p.is_nullable ≡ true)
    × ((not p.is_indexed || can_index p.kind) ≡ true)

abbrev pub IsValid : List ObjectSchema → ObjectSchema → Type 0
IsValid os o = All (IsValidProperty os) o.properties × (primaries o.properties ≤ 1)

nullability_table :
    (k : PropertyType) (b : Bool)
    → (if b then same_type k type_array || same_type k type_any else same_type k type_object)
      ≡ not (allowed k b)
nullability_table type_object true = refl
nullability_table type_object false = refl
nullability_table type_array true = refl
nullability_table type_array false = refl
nullability_table type_any true = refl
nullability_table type_any false = refl
nullability_table _ true = refl
nullability_table _ false = refl

wrong_nullability_lem : (p : Property) → wrong_nullability p ≡ not (allowed p.kind p.is_nullable)
unfolding wrong_nullability
wrong_nullability_lem p = nullability_table p.kind p.is_nullable

index_table :
    (k : PropertyType)
    → (same_type k type_int
        || same_type k type_bool
        || same_type k type_string
        || same_type k type_date)
      ≡ can_index k
index_table type_int = refl
index_table type_bool = refl
index_table type_string = refl
index_table type_date = refl
index_table _ = refl

is_indexable_lem : (p : Property) → is_indexable p ≡ can_index p.kind
unfolding is_indexable
is_indexable_lem p = index_table p.kind

none-any :
    (name : Str) (os : List ObjectSchema)
    → All (λ o. named name o ≡ false) os
    → any (named name) os ≡ false
none-any name [] h = refl
none-any name (o ∷ os) h = rw (h.0, none-any name os h.1) refl

Mem-any :
    (name : Str) (o : ObjectSchema) (os : List ObjectSchema)
    → o.name ≡ name
    → Memᴰ o os
    → any (named name) os ≡ true
Mem-any name o [] e m = elim m [ ]
Mem-any name o (x ∷ xs) e (Memᴰ.head h) =
    let e' : x.name ≡ name = cc in rw (e', str_eq_self name) refl
Mem-any name o (x ∷ xs) e (Memᴰ.tail m) = rw (Mem-any name o xs e m) (ground arith)

-- `find(name) == end()`, when no class has the name.
find-end :
    (os : List ObjectSchema) (name : Str)
    → (find (schema os) name == length (schema os)) ≡ not (any (named name) os)
find-end os name =
    let s = schema os in
    let i = find s name in
    let found = find_lem os name in
    elim (Option-cases (get_elem? s i)) [
      | inl e ↦
          let n = none-any name os (subst (IsFound name os) e found) in
          rw n (ground (arith, get_elem?-beyond s i e, find-within os name))
      | inr (o, e) ↦
          let m = subst (IsFound name os) e found in
          rw (Mem-any name o os m.0 m.1) (ground (arith, get_elem?-inside s i e))
    ]

links_nowhere_lem :
    (os : List ObjectSchema) (p : Property)
    → links_nowhere (schema os) p ≡ not (empty p.object_type || any (named p.object_type) os)
unfolding links_nowhere
links_nowhere_lem os p = rw (find-end os p.object_type) (ground arith)

report_nil :
    (b : Bool) (e : Invalid) (es : List Invalid)
    → ((report b e ++ es) ≡ []) ↔ ((b ≡ false) × (es ≡ []))
report_nil true e es = (λ h. cc, λ h. let f = h.0 in cc)
report_nil false e es = (λ h. (refl, h), λ h. h.1)

-- The reports for one property and those for the ones behind it.
check_property :
    (s : Schema) (name : Str) (primary : Bool) (p : Property) (ps : List Property)
    → (check_properties s name primary (p ∷ ps) ≡ []) ↔ (
        (links_nowhere s p ≡ false)
        × (wrong_nullability p ≡ false)
        × ((p.is_primary && primary) ≡ false)
        × ((p.is_indexed && not (is_indexable p)) ≡ false)
        × (check_properties s name (primary || p.is_primary) ps ≡ []))
unfolding check_properties
check_property s name primary p ps = grind (arith, report_nil)

-- Whether a primary key has been seen, as a number.
abbrev seen : Bool → ℕ
seen b = if b then 1 else 0

check_properties_lem :
    (os : List ObjectSchema) (name : Str) (primary : Bool) (ps : List Property)
    → (check_properties (schema os) name primary ps ≡ [])
      ↔ (All (IsValidProperty os) ps × (seen primary + primaries ps ≤ 1))
check_properties_lem os name primary [] =
    unfold check_properties in (λ h. (tt, ground arith), λ h. refl)
check_properties_lem os name primary (p ∷ ps) = ground (
  arith,
  check_property (schema os) name primary p ps,
  links_nowhere_lem os p,
  wrong_nullability_lem p,
  is_indexable_lem p,
  check_properties_lem os name (primary || p.is_primary) ps,
)

append_nil : (xs ys : List Invalid) → ((xs ++ ys) ≡ []) ↔ ((xs ≡ []) × (ys ≡ []))
append_nil [] ys = (λ e. (refl, e), λ h. h.1)
append_nil (x ∷ xs) ys = (λ e. cc, λ h. let e = h.0 in cc)

check_objects_lem :
    (os : List ObjectSchema) (s : List ObjectSchema)
    → (check_objects (schema os) s ≡ []) ↔ All (IsValid os) s
unfolding check_objects
check_objects_lem os [] = (λ h. tt, λ h. refl)
check_objects_lem os (o ∷ s) = ground (
  arith,
  append_nil (check_properties (schema os) o.name false o.properties) (check_objects (schema os) s),
  check_properties_lem os o.name false o.properties,
  check_objects_lem os s,
)

validate-check_objects : (s : Schema) → (validate s ≡ none) ↔ (check_objects s s ≡ [])
unfolding validate
validate-check_objects s =
    elim (check_objects s s)
      as (λ es. (elim es [ [] ↦ none | e ∷ es ↦ some (e ∷ es) ] ≡ none) ↔ (es ≡ [])) [
        | [] ↦ (λ h. refl, λ h. refl)
        | e ∷ es ↦ (λ h. cc, λ h. cc)
      ]

-- The schema made of any classes is accepted if and only if, for every class of them, each property
-- links to a class there is or to none, is nullable where its type has to be and not where it must
-- not be, and is indexed only where its type can be, and at most one property is a primary key.
pub validate_lem : (os : List ObjectSchema) → (validate (schema os) ≡ none) ↔ All (IsValid os) os
validate_lem os =
    let all = schema-All (IsValid os) os in
    let objects = check_objects_lem os (schema os) in
    let checked = validate-check_objects (schema os) in
    (λ h. all.1 (objects.0 (checked.0 h)), λ h. checked.1 (objects.1 (all.0 h)))
