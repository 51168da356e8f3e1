-- ===== src/Tests/Migrations.antt =====
-- The update of a file to a schema (Realm/ObjectStore/object_store.cpp) at a concrete file.
use realm_cocoa.Base.{
  ◌+◌, ◌≡◌, refl, true, false, Bool, List, [], ◌∷◌, some, Str, if◌then◌else◌, str_eq, All, arith,
}
use realm_cocoa.Schema.{
  type_int, type_string, type_object, Property, ObjectSchema, find, set_primary_key_property,
}
use realm_cocoa.ObjectStore.{verify_object_schema}
use realm_cocoa.ObjectStore.Tables.{table_name_for_object_type}
use realm_cocoa.ObjectStore.Update.{
  update_columns, table_properties, is_link, add_missing, make_optional,
  property_can_be_migrated_to_nullable, old_column, remove_extra, is_extra, add_property,
  remove_placeholder, change_to_optional, copy_property_values,
}
use realm_cocoa.ObjectStore.Update.Fates.{uncolumned, Reads}
use realm_cocoa.ObjectStore.Update.Add.{fits}
use realm_cocoa.ObjectStore.Update.Stands.{Stands}
use realm_cocoa.ObjectStore.Update.Result.{new_columns, update_columns_lem}
use realm_cocoa.ObjectStore.Group.{
  primary_key_table_name, get_primary_key_for_object, set_primary_key_for_object, set_primary_key,
  table_for_object_type, object_schema,
}
use realm_cocoa.ObjectStore.Group.PrimaryKeys.{set_primary_key_for_object_lem}
use realm_cocoa.ObjectStore.Migration.{ok, has_table, update_table, needs_update}
use realm_cocoa.ObjectStore.Migration.OneClass.{update_table_lem}
use realm_cocoa.Tests.Tables.{Table, tables, table_laws, columns_of, made, written}
use realm_cocoa.Tests.Groups.{Group, groups, group_laws, put}
use realm_cocoa.Tests.Schemas.{dog_name, person_name, id_name, owner_name}

-- "old"
abbrev old_name : Str
old_name = 111 ∷ 108 ∷ 100 ∷ []

-- Two dogs, with an integer each and a string that is to go.
abbrev dog_table : Table
dog_table = record {
  cells =
      record (made type_int id_name false []) { cell = λ row. row + 7 }
      ∷ made type_string old_name false []
      ∷ [];
  size = 2;
  keys = [];
}

abbrev person_table : Table
person_table = record { cells = made type_int id_name false [] ∷ []; size = 1; keys = [] }

abbrev key_table : Table
key_table = record { cells = []; size = 1; keys = (dog_name, id_name) ∷ [] }

abbrev pub file : Group
file =
    (primary_key_table_name, key_table)
    ∷ (table_name_for_object_type dog_name, dog_table)
    ∷ (table_name_for_object_type person_name, person_table)
    ∷ []

-- The class of the table, with its primary key.
abbrev id_before : Property
id_before = record {
  name = id_name;
  kind = type_int;
  object_type = [];
  is_primary = true;
  is_indexed = false;
  is_nullable = false;
  table_column = 0;
}

abbrev old_before : Property
old_before = record {
  name = old_name;
  kind = type_string;
  object_type = [];
  is_primary = false;
  is_indexed = false;
  is_nullable = false;
  table_column = 1;
}

abbrev pub before : ObjectSchema
before = record { name = dog_name; properties = id_before ∷ old_before ∷ []; primary_key = id_name }

-- The target: a link to an owner, and the integer made optional, with no primary key.
abbrev owner_after : Property
owner_after = record {
  name = owner_name;
  kind = type_object;
  object_type = person_name;
  is_primary = false;
  is_indexed = false;
  is_nullable = true;
  table_column = 0;
}

abbrev id_after : Property
id_after = record {
  name = id_name;
  kind = type_int;
  object_type = [];
  is_primary = false;
  is_indexed = false;
  is_nullable = true;
  table_column = 0;
}

abbrev pub after : ObjectSchema
after = record { name = dog_name; properties = owner_after ∷ id_after ∷ []; primary_key = [] }

abbrev in_file : Str → Bool
in_file = has_table tables groups file

reads_before : object_schema tables groups file dog_name ≡ some before
unfolding object_schema get_primary_key_for_object table_properties set_primary_key_property
    table_for_object_type
reads_before = refl

fits_after : All (λ p. fits in_file p ≡ true) after.properties
unfolding is_link
fits_after = (refl, (refl, tt))

dog_table-Reads : Reads 0 (columns_of dog_table) before.properties
unfolding is_link
dog_table-Reads = ((refl, refl, refl, refl), refl, ((refl, refl, refl, refl), refl, tt))

found : table_for_object_type tables groups file dog_name ≡ some dog_table
unfolding table_for_object_type
found = refl

update_columns_lem_example :
    (r : Table × List Property) × (update_columns tables in_file dog_table before.properties
        after.properties
      ≡ some r)
    × (columns_of r.0
        ≡ new_columns tables table_laws 2 (columns_of dog_table) before.properties after.properties)
    × (uncolumned r.1 ≡ uncolumned after.properties)
    × All (Stands (columns_of r.0)) r.1
update_columns_lem_example =
    update_columns_lem tables table_laws in_file dog_table before.properties after.properties
      dog_table-Reads (refl, (refl, tt)) fits_after (omega arith)

update_table_lem_example :
    (r : Group × ObjectSchema) × (t : Table) × (update_table tables groups file after ≡ ok r)
    × (table_for_object_type tables groups r.0 dog_name ≡ some t)
    × (get_primary_key_for_object tables groups r.0 dog_name ≡ [])
    × ((verify_object_schema
          (record {
            name = dog_name;
            properties = table_properties tables t;
            primary_key = get_primary_key_for_object tables groups r.0 dog_name;
          })
          r.1).errors
        ≡ [])
update_table_lem_example =
    update_table_lem tables table_laws groups group_laws file dog_table key_table before after found
      reads_before refl (refl, tt) (refl, (refl, tt)) fits_after (omega arith)

set_primary_key_for_object_lem_example :
    (g : Group) × (set_primary_key_for_object tables groups file dog_name old_name ≡ some g)
    × (g
        ≡ put file primary_key_table_name
            (set_primary_key tables groups key_table dog_name old_name))
    × (get_primary_key_for_object tables groups g dog_name ≡ (
        if str_eq dog_name dog_name
        then old_name
        else get_primary_key_for_object tables groups file dog_name))
set_primary_key_for_object_lem_example =
    set_primary_key_for_object_lem tables groups group_laws file key_table dog_name old_name
      dog_name refl (refl, tt)

-- Each column keeps its values, the owners are added behind, and both properties are given the number
-- of their column.
updated_dogs :
    update_columns tables in_file dog_table before.properties after.properties
    ≡ some (
      record {
        cells =
            record (made type_int id_name true []) { cell = written (written (λ row. 0) 0 7) 1 8 }
            ∷ made type_object owner_name false (table_name_for_object_type person_name)
            ∷ [];
        size = 2;
        keys = [];
      },
      record owner_after { table_column = 1 } ∷ id_after ∷ [],
    )
unfolding update_columns add_missing make_optional property_can_be_migrated_to_nullable old_column
    remove_extra is_extra add_property remove_placeholder change_to_optional copy_property_values
updated_dogs = refl

-- Two classes with the same two properties in another order, each with the other one indexed.
abbrev indexed_id : ObjectSchema
indexed_id = record {
  name = dog_name;
  properties = record id_before { is_indexed = true } ∷ old_before ∷ [];
  primary_key = [];
}

abbrev indexed_old : ObjectSchema
indexed_old = record {
  name = dog_name;
  properties = record old_before { is_indexed = true } ∷ id_before ∷ [];
  primary_key = [];
}

-- The indices are compared by position, so the two pass for the same.
compared_by_position : needs_update (indexed_id ∷ []) (indexed_old ∷ []) ≡ false
unfolding needs_update find
compared_by_position = refl
