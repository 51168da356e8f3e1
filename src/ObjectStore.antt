-- ===== src/ObjectStore.antt =====
-- Realm/ObjectStore/object_store.cpp: the comparison of the schema of a file with a target schema.
pub mod Verify
pub mod Agree
pub mod Columns
pub mod Tables
pub mod Update
pub mod Group
pub mod Migration
use realm_cocoa.Base.{
  ℕ, Bool, true, false, not, ◌||◌, List, [], ◌∷◌, ◌++◌, Option, none, some, if◌then◌else◌, Str,
  str_eq,
}
use realm_cocoa.Schema.{Property, ObjectSchema, same_type}

-- The exceptions that the comparison collects, each with the name of the class.
pub data Mismatch : Type 0 where
  missing_property extra_property : Str → Property → Mismatch
  mismatched_properties : Str → Property → Property → Mismatch
  changed_primary_key : Str → Str → Str → Mismatch

abbrev differs : Bool → Bool → Bool
differs a b = if a then not b else b

unfoldable pub property_has_changed : Property → Property → Bool
property_has_changed p1 p2 =
    not (same_type p1.kind p2.kind)
    || not (str_eq p1.name p2.name)
    || not (str_eq p1.object_type p2.object_type)
    || differs p1.is_nullable p2.is_nullable

-- *property_for_name(name)
abbrev pub first_named : List Property → Str → Option Property
first_named [] name = none
first_named (p ∷ ps) name =
    let rest = first_named ps name in if str_eq p.name name then some p else rest

-- property_for_name(name)->table_column = column
abbrev pub set_column : List Property → Str → ℕ → List Property
set_column [] name column = []
set_column (p ∷ ps) name column =
    let rest = set_column ps name column in
    if str_eq p.name name then record p { table_column = column } ∷ ps else p ∷ rest

pub record Aligned : Type 0 where
  pub errors : List Mismatch
  pub properties : List Property

abbrev pub with_error : Mismatch → Aligned → Aligned
with_error e a = record a { errors = e ∷ a.errors }

-- The first loop of verify_object_schema.
unfoldable pub align : Str → List Property → List Property → Aligned
unfolding property_has_changed
align name [] target = record { errors = []; properties = target }
align name (c ∷ cs) target = elim (first_named target c.name) [
  | none ↦ with_error (missing_property name c) (align name cs target)
  | some t ↦ elim (property_has_changed c t) [
    | true ↦ with_error (mismatched_properties name c t) (align name cs target)
    | false ↦ align name cs (set_column target c.name c.table_column)
  ]
]

-- The last loop of verify_object_schema.
unfoldable pub extra_properties : Str → List Property → List Property → List Mismatch
extra_properties name table [] = []
extra_properties name table (p ∷ ps) = elim (first_named table p.name) [
  | none ↦ extra_property name p ∷ extra_properties name table ps
  | some t ↦ extra_properties name table ps
]

abbrev pub changed_key : ObjectSchema → ObjectSchema → List Mismatch
changed_key table target =
    if str_eq table.primary_key target.primary_key
    then []
    else changed_primary_key table.name table.primary_key target.primary_key ∷ []

-- The exceptions, and the properties of the target, which the source changes in place.
unfoldable pub verify_object_schema : ObjectSchema → ObjectSchema → Aligned
unfolding align extra_properties
verify_object_schema table target =
    let aligned = align table.name table.properties target.properties in
    let extra = extra_properties table.name table.properties aligned.properties in
    record {
      errors = aligned.errors ++ (changed_key table target ++ extra);
      properties = aligned.properties;
    }
