-- ===== src/Tests/Schemas.antt =====
-- Schemas (Realm/ObjectStore/schema.cpp and object_schema.cpp) at concrete inputs.
use mathlib.Core.List.{Memᴰ}
use realm_cocoa.Base.{◌≡◌, refl, true, false, [], ◌∷◌, some, none, All, Str, arith}
use realm_cocoa.Schema.{
  type_int, type_object, Property, ObjectSchema, Schema, schema, find, validate,
  invalid_nullability, missing_object_type, set_primary_key_property,
}
use realm_cocoa.Schema.Find.{find_lem}
use realm_cocoa.ObjectStore.{verify_object_schema, property_has_changed}
use realm_cocoa.ObjectStore.Agree.{verify_object_schema_lem}
use realm_cocoa.ObjectStore.Columns.{verify_object_schema-columns}
use realm_cocoa.Schema.Consistency.{validate_lem}
use realm_cocoa.Schema.PrimaryKey.{set_primary_key_property_lem}
use realm_cocoa.ObjectStore.Migration.{ok, verify_schema}
use realm_cocoa.ObjectStore.Migration.Schemas.{Passes, verify_schema_lem}

-- "Dog", "Person", "id" and "owner"
abbrev pub dog_name : Str
dog_name = 68 ∷ 111 ∷ 103 ∷ []

abbrev pub person_name : Str
person_name = 80 ∷ 101 ∷ 114 ∷ 115 ∷ 111 ∷ 110 ∷ []

abbrev pub id_name : Str
id_name = 105 ∷ 100 ∷ []

abbrev pub owner_name : Str
owner_name = 111 ∷ 119 ∷ 110 ∷ 101 ∷ 114 ∷ []

abbrev id_property : Property
id_property = record {
  name = id_name;
  kind = type_int;
  object_type = [];
  is_primary = false;
  is_indexed = true;
  is_nullable = false;
  table_column = 0;
}

abbrev owner_property : Property
owner_property = record {
  name = owner_name;
  kind = type_object;
  object_type = person_name;
  is_primary = false;
  is_indexed = false;
  is_nullable = true;
  table_column = 1;
}

abbrev person : ObjectSchema
person = record { name = person_name; properties = id_property ∷ []; primary_key = id_name }

abbrev dog : ObjectSchema
dog = record { name = dog_name; properties = id_property ∷ owner_property ∷ []; primary_key = [] }

sorted_by_name : schema (person ∷ dog ∷ []) ≡ dog ∷ person ∷ []
unfolding schema
sorted_by_name = refl

find_lem_example : (person.name ≡ person_name) × Memᴰ person (person ∷ dog ∷ [])
unfolding schema find
find_lem_example = find_lem (person ∷ dog ∷ []) person_name

validate_lem_example : validate (schema (person ∷ dog ∷ [])) ≡ none
validate_lem_example = (validate_lem (person ∷ dog ∷ [])).1 (ground arith)

-- A link to a class that is not there, which is not nullable, is two errors.
abbrev lost_property : Property
lost_property = record owner_property { is_nullable = false }

two_errors :
    validate (schema (record dog { properties = lost_property ∷ [] } ∷ []))
    ≡ some (
        missing_object_type dog_name lost_property
        ∷ invalid_nullability dog_name lost_property
        ∷ [])
unfolding validate schema
two_errors = refl

set_primary_key_property_lem_example :
    set_primary_key_property person
    ≡ some (record person { properties = record id_property { is_primary = true } ∷ [] })
set_primary_key_property_lem_example = (set_primary_key_property_lem person refl).0

-- The class as the program declares it: the properties in another order, with no columns.
abbrev target : ObjectSchema
target = record dog {
  properties =
      record owner_property { table_column = 99 } ∷ record id_property { table_column = 99 } ∷ [];
}

no_errors : (verify_object_schema dog target).errors ≡ []
unfolding verify_object_schema
no_errors = refl

verify_object_schema_lem_example : (verify_object_schema dog target).errors ≡ []
unfolding property_has_changed
verify_object_schema_lem_example = (verify_object_schema_lem dog target).1 (ground arith)

verify_object_schema-columns_example :
    (verify_object_schema dog target).properties ≡ owner_property ∷ id_property ∷ []
verify_object_schema-columns_example =
    verify_object_schema-columns dog target (ground arith) (ground arith) no_errors

passes : All (Passes (dog ∷ []) false) (target ∷ [])
unfolding find verify_object_schema
passes = (refl, tt)

verify_schema_lem_example : (s : Schema) × (verify_schema (dog ∷ []) (target ∷ []) false ≡ ok s)
verify_schema_lem_example = (verify_schema_lem (dog ∷ []) (target ∷ []) false).1 passes
