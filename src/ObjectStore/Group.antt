-- ===== src/ObjectStore/Group.antt =====
-- The core library's group of tables, and what Realm/ObjectStore/object_store.cpp keeps in its tables
-- of metadata: the version of the schema, and the primary key of each class.
pub mod KeyRows
pub mod PrimaryKeys
use realm_cocoa.Base.{
  ℕ, ◌≡◌, Bool, true, false, List, [], ◌∷◌, Option, none, some, if◌then◌else◌, Str, str_eq, empty,
  ◌==◌,
}
use realm_cocoa.Schema.{
  type_int, type_string, ObjectSchema, Schema, schema, set_primary_key_property,
}
use realm_cocoa.RealmCache.{not_versioned}
use realm_cocoa.ObjectStore.Tables.{Tables, table_name_for_object_type, object_type_for_table_name}
use realm_cocoa.ObjectStore.Update.{table_properties}

-- metadata
abbrev metadata_table_name : Str
metadata_table_name = 109 ∷ 101 ∷ 116 ∷ 97 ∷ 100 ∷ 97 ∷ 116 ∷ 97 ∷ []

-- version
abbrev version_column_name : Str
version_column_name = 118 ∷ 101 ∷ 114 ∷ 115 ∷ 105 ∷ 111 ∷ 110 ∷ []

-- pk
abbrev pub primary_key_table_name : Str
primary_key_table_name = 112 ∷ 107 ∷ []

-- pk_table
abbrev primary_key_object_class_column_name : Str
primary_key_object_class_column_name = 112 ∷ 107 ∷ 95 ∷ 116 ∷ 97 ∷ 98 ∷ 108 ∷ 101 ∷ []

-- pk_property
abbrev primary_key_property_name_column_name : Str
primary_key_property_name_column_name =
    112 ∷ 107 ∷ 95 ∷ 112 ∷ 114 ∷ 111 ∷ 112 ∷ 101 ∷ 114 ∷ 116 ∷ 121 ∷ []

abbrev pub primary_key_object_class_column_index : ℕ
primary_key_object_class_column_index = 0

abbrev pub primary_key_property_name_column_index : ℕ
primary_key_property_name_column_index = 1

-- The operations of a Group. Tables are changed in place through a TableRef: `put_table` is what the
-- group is then. `table_names` stands for the loop over the indices of the tables; `none` of
-- `add_search_index` for a LogicError, of `find_first_string` for not_found.
pub record Groups (T : Tables) : Type 1 where
  pub Group : Type 0
  pub get_table : Group → Str → Option T.Table
  pub put_table : Group → Str → T.Table → Group
  pub get_or_add_table : Group → Str → Group × T.Table × Bool
  pub remove_table : Group → Str → Group
  pub table_names : Group → List Str
  pub add_search_index : T.Table → ℕ → Option T.Table
  pub remove_search_index : T.Table → ℕ → T.Table
  pub distinct_size : T.Table → ℕ → ℕ
  pub find_first_string : T.Table → ℕ → Str → Option ℕ
  pub get_string : T.Table → ℕ → ℕ → Str
  pub set_string : T.Table → ℕ → ℕ → Str → T.Table
  pub get_int : T.Table → ℕ → ℕ → ℕ
  pub set_int : T.Table → ℕ → ℕ → ℕ → T.Table
  pub add_empty_row : T.Table → T.Table × ℕ
  pub remove_row : T.Table → ℕ → T.Table

module _ (T : Tables) (G : Groups T) where
  unfoldable pub has_metadata_tables : G.Group → Bool
  has_metadata_tables group = elim (G.get_table group primary_key_table_name) [
    | none ↦ false
    | some pk ↦ elim (G.get_table group metadata_table_name) [ none ↦ false | some table ↦ true ]
  ]

  unfoldable pub create_metadata_tables : G.Group → G.Group
  create_metadata_tables group =
      let (group1, pk, created) = G.get_or_add_table group primary_key_table_name in
      let pk1 = (T.add_column pk type_string primary_key_object_class_column_name false).0 in
      let pk2 = (T.add_column pk1 type_string primary_key_property_name_column_name false).0 in
      let group2 =
        if T.get_column_count pk == 0
        then G.put_table group1 primary_key_table_name pk2
        else group1 in
      let (group3, table, created') = G.get_or_add_table group2 metadata_table_name in
      let table1 = (T.add_column table type_int version_column_name false).0 in
      let table2 = G.set_int (G.add_empty_row table1).0 0 0 not_versioned in
      if T.get_column_count table == 0
      then G.put_table group3 metadata_table_name table2
      else group3

  unfoldable pub get_schema_version : G.Group → ℕ
  get_schema_version group = elim (G.get_table group metadata_table_name) [
    | none ↦ not_versioned
    | some table ↦ if T.get_column_count table == 0 then not_versioned else G.get_int table 0 0
  ]

  unfoldable pub set_schema_version : G.Group → ℕ → G.Group
  set_schema_version group version =
      let (group1, table, created) = G.get_or_add_table group metadata_table_name in
      G.put_table group1 metadata_table_name (G.set_int table 0 0 version)

  unfoldable pub get_primary_key_for_object : G.Group → Str → Str
  get_primary_key_for_object group object_type = elim (G.get_table group primary_key_table_name) [
    | none ↦ []
    | some table ↦
        elim (G.find_first_string table primary_key_object_class_column_index object_type) [
          | none ↦ []
          | some row ↦ G.get_string table primary_key_property_name_column_index row
        ]
  ]

  -- The row of a class, and its table with one if it had none.
  unfoldable pub row_for_object : T.Table → Str → T.Table × ℕ
  row_for_object table object_type =
      elim (G.find_first_string table primary_key_object_class_column_index object_type) [
        | some row ↦ (table, row)
        | none ↦
            let (added, row) = G.add_empty_row table in
            (G.set_string added primary_key_object_class_column_index row object_type, row)
      ]

  -- The table of the primary keys with that of a class set, or removed if it is empty.
  unfoldable pub set_primary_key : T.Table → Str → Str → T.Table
  unfolding row_for_object
  set_primary_key table object_type primary_key =
      if empty primary_key
      then elim (G.find_first_string table primary_key_object_class_column_index object_type) [
        | none ↦ table
        | some row ↦ G.remove_row table row
      ]
      else let (found, row) = row_for_object table object_type in
        G.set_string found primary_key_property_name_column_index row primary_key

  -- `none` where the table is missing, which the source dereferences.
  unfoldable pub set_primary_key_for_object : G.Group → Str → Str → Option G.Group
  unfolding set_primary_key
  set_primary_key_for_object group object_type primary_key =
      elim (G.get_table group primary_key_table_name) [
        | none ↦ none
        | some table ↦ some (
            G.put_table group primary_key_table_name
              (set_primary_key table object_type primary_key))
      ]

  unfoldable pub table_for_object_type : G.Group → Str → Option T.Table
  table_for_object_type group object_type =
      G.get_table group (table_name_for_object_type object_type)

  -- The constructor of a class from its table, which throws where the primary key is no property;
  -- `none` for that, and for no table.
  unfoldable pub object_schema : G.Group → Str → Option ObjectSchema
  object_schema group name = elim (table_for_object_type group name) [
    | none ↦ none
    | some table ↦ set_primary_key_property (record {
      name = name;
      properties = table_properties T table;
      primary_key = get_primary_key_for_object group name;
    })
  ]

  -- The classes of the tables with the prefix of one, in their order.
  unfoldable pub schemas_named : G.Group → List Str → Option (List ObjectSchema)
  schemas_named group [] = some []
  schemas_named group (name ∷ names) =
      let object_type = object_type_for_table_name name in
      elim (schemas_named group names) [
        | none ↦ none
        | some rest ↦
            if empty object_type
            then some rest
            else elim (object_schema group object_type) [ none ↦ none | some o ↦ some (o ∷ rest) ]
      ]

  unfoldable pub schema_from_group : G.Group → Option Schema
  unfolding schemas_named
  schema_from_group group = elim (schemas_named group (G.table_names group)) [
    | none ↦ none
    | some os ↦ some (schema os)
  ]

  unfoldable pub delete_data_for_object : G.Group → Str → Option G.Group
  delete_data_for_object group object_type = elim (table_for_object_type group object_type) [
    | none ↦ some group
    | some table ↦
        set_primary_key_for_object (G.remove_table group (table_name_for_object_type object_type))
          object_type []
  ]

  unfoldable pub all_empty : G.Group → List Str → Bool
  all_empty group [] = true
  all_empty group (name ∷ names) =
      let rest = all_empty group names in
      if empty (object_type_for_table_name name) then rest else elim (G.get_table group name) [
        | none ↦ rest
        | some table ↦ if T.size table == 0 then rest else false
      ]

  unfoldable pub is_empty : G.Group → Bool
  is_empty group = all_empty group (G.table_names group)
