-- ===== src/ObjectStore/Update/Fates.antt =====
-- What becomes of each column of a table in ObjectStore::create_tables
-- (Realm/ObjectStore/object_store.cpp), as a function of the class that the table is brought to.
use realm_cocoa.Base.{
  ℕ, map, ◌+◌, ◌≡◌, refl, sym, ap, ◌∙◌, inl, inr, Bool, true, false, ◌||◌, List, [], ◌∷◌, none,
  some, if◌then◌else◌, length, Str, str_eq, Bool-cases, Option-cases, ◌==◌, arith,
}
use realm_cocoa.Schema.{
  PropertyType, type_int, type_bool, type_float, type_double, type_string, type_data, type_any,
  type_date, type_object, type_array, Property, code, same_type,
}
use realm_cocoa.ObjectStore.{property_has_changed, first_named, set_column}
use realm_cocoa.ObjectStore.Tables.{Column, object_type_for_table_name}
use realm_cocoa.ObjectStore.Update.{
  is_link, is_extra, property_can_be_migrated_to_nullable, at_column,
}

pub data Fate : Type 0 where
  removed unchanged made_optional : Fate

unfoldable pub fate_of : Property → Property → Fate
unfolding property_can_be_migrated_to_nullable property_has_changed
fate_of c t =
    if property_can_be_migrated_to_nullable c t
    then made_optional
    else if property_has_changed c t
    then removed
    else unchanged

abbrev pub fate : List Property → Property → Fate
fate target c = elim (first_named target c.name) [ none ↦ removed | some t ↦ fate_of c t ]

abbrev pub is_removed : Fate → Bool
is_removed removed = true
is_removed unchanged = false
is_removed made_optional = false

pub is_extra-fate :
    (target : List Property) (c : Property) → is_extra target c ≡ is_removed (fate target c)
unfolding is_extra fate_of
is_extra-fate target c = elim (Option-cases (first_named target c.name)) [
  | inl e ↦ rw (e, is_extra, fate) refl
  | inr (t, e) ↦ elim (Bool-cases (property_can_be_migrated_to_nullable c t)) [
    | inl m ↦ elim (Bool-cases (property_has_changed c t)) [
      | inl h ↦ rw (e, is_extra, fate) (rw (m, h, fate_of) refl)
      | inr h ↦ rw (e, is_extra, fate) (rw (m, h, fate_of) refl)
    ]
    | inr m ↦ elim (Bool-cases (property_has_changed c t)) [
      | inl h ↦ rw (e, is_extra, fate) (rw (m, h, fate_of) refl)
      | inr h ↦ rw (e, is_extra, fate) (rw (m, h, fate_of) refl)
    ]
  ]
]

-- Columns are not looked at.
fate_of-columns : (c t : Property) (i j : ℕ) → fate_of (at_column c i) (at_column t j) ≡ fate_of c t
unfolding fate_of property_can_be_migrated_to_nullable property_has_changed
fate_of-columns c t i j = refl

pub fate-at_column :
    (target : List Property) (c : Property) (i : ℕ) → fate target (at_column c i) ≡ fate target c
fate-at_column target c i = elim (Option-cases (first_named target c.name)) [
  | inl e ↦ rw (e, fate) refl
  | inr (t, e) ↦ rw (e, fate) (fate_of-columns c t i t.table_column)
]

pub fate-set_column :
    (target : List Property) (name : Str) (i : ℕ) (c : Property)
    → fate (set_column target name i) c ≡ fate target c
fate-set_column [] name i c = refl
fate-set_column (p ∷ ps) name i c = elim (Bool-cases (str_eq p.name name)) [
  | inl e ↦ elim (Bool-cases (str_eq p.name c.name)) [
    | inl d ↦ rw (e, d, fate) (fate_of-columns c p c.table_column i)
    | inr d ↦ rw (e, d, fate) refl
  ]
  | inr e ↦ elim (Bool-cases (str_eq p.name c.name)) [
    | inl d ↦ rw (e, d, fate) refl
    | inr d ↦ rw (e, d, fate) (fate-set_column ps name i c)
  ]
]

-- The type of a value of the enumeration.
kind_of : ℕ → PropertyType
kind_of n =
    if n == 0
    then type_int
    else if n == 1
    then type_bool
    else if n == 9
    then type_float
    else if n == 10
    then type_double
    else if n == 2
    then type_string
    else if n == 4
    then type_data
    else if n == 6
    then type_any
    else if n == 7
    then type_date
    else if n == 12
    then type_object
    else type_array

kind_of-code : (k : PropertyType) → kind_of (code k) ≡ k
unfolding kind_of
kind_of-code type_int = refl
kind_of-code type_bool = refl
kind_of-code type_float = refl
kind_of-code type_double = refl
kind_of-code type_string = refl
kind_of-code type_data = refl
kind_of-code type_any = refl
kind_of-code type_date = refl
kind_of-code type_object = refl
kind_of-code type_array = refl

pub same_type→eq : (a b : PropertyType) → same_type a b ≡ true → a ≡ b
same_type→eq a b h =
    let e : code a ≡ code b = ground arith in sym (kind_of-code a) ∙ ap kind_of e ∙ kind_of-code b

-- How a column reads as a property.
abbrev pub nullable_of : {V : Type 0} → Column V → Bool
nullable_of c = c.is_nullable || same_type c.kind type_object

abbrev pub object_type_of : {V : Type 0} → Column V → Str
object_type_of c = if is_link c.kind then object_type_for_table_name c.link_target else []

-- The column is the one of the property: its name, its type, what it links to and whether it is
-- nullable are the property's.
abbrev pub IsColumnOf : {V : Type 0} → Property → Column V → Type 0
IsColumnOf p c =
    (c.name ≡ p.name)
    × (c.kind ≡ p.kind)
    × (object_type_of c ≡ p.object_type)
    × (nullable_of c ≡ p.is_nullable)

-- The properties are those of the columns, of which the first is number `k`.
abbrev pub Reads : {V : Type 0} → ℕ → List (Column V) → List Property → Type 0
Reads k [] [] = Unit
Reads k [] (p ∷ ps) = [] ≡ p ∷ ps
Reads k (c ∷ cs) [] = c ∷ cs ≡ []
Reads k (c ∷ cs) (p ∷ ps) = IsColumnOf p c × (p.table_column ≡ k) × Reads (k + 1) cs ps

-- A class but for the columns of its properties.
abbrev pub uncolumned : List Property → List Property
uncolumned ps = map (λ p. at_column p 0) ps

pub uncolumned-set_column :
    (ps : List Property) (name : Str) (i : ℕ) → uncolumned (set_column ps name i) ≡ uncolumned ps
uncolumned-set_column [] name i = refl
uncolumned-set_column (p ∷ ps) name i = elim (Bool-cases (str_eq p.name name)) [
  | inl e ↦ rw e refl
  | inr e ↦ rw e (ap (◌∷◌ (at_column p 0)) (uncolumned-set_column ps name i))
]

-- The same, whatever the numbers of the columns.
abbrev pub Alike : {V : Type 0} → List (Column V) → List Property → Type 0
Alike [] [] = Unit
Alike [] (p ∷ ps) = [] ≡ p ∷ ps
Alike (c ∷ cs) [] = c ∷ cs ≡ []
Alike (c ∷ cs) (p ∷ ps) = IsColumnOf p c × Alike cs ps

pub Reads-Alike :
    {V : Type 0} (k : ℕ) (cols : List (Column V)) (cs : List Property)
    → Reads k cols cs
    → Alike cols cs × (length cols ≡ length cs)
Reads-Alike k [] [] r = (tt, refl)
Reads-Alike k [] (p ∷ ps) r = cc
Reads-Alike k (c ∷ cs) [] r = cc
Reads-Alike k (c ∷ cols) (p ∷ ps) r =
    let (a, l) = Reads-Alike (k + 1) cols ps r.2 in ((r.0, a), omega arith)
