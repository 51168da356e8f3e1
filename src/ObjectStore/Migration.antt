-- ===== src/ObjectStore/Migration.antt =====
-- The update of a file to a schema (Realm/ObjectStore/object_store.cpp): create_tables, verify_schema,
-- needs_update, update_indexes, validate_primary_column_uniqueness and update_realm_with_schema.
pub mod OneClass
pub mod Schemas
use realm_cocoa.Base.{
  ℕ, Bool, true, false, not, ◌&&◌, ◌||◌, List, [], ◌∷◌, ◌++◌, Option, none, some, if◌then◌else◌,
  length, get_elem?, Str, str_eq, empty, ltb, ◌==◌,
}
use realm_cocoa.Schema.{Property, ObjectSchema, Schema, requires_index, find}
use realm_cocoa.RealmCache.{not_versioned}
use realm_cocoa.ObjectStore.{Mismatch, Aligned, differs, first_named, verify_object_schema}
use realm_cocoa.ObjectStore.Tables.{Tables, table_name_for_object_type}
use realm_cocoa.ObjectStore.Update.{update_columns}
use realm_cocoa.ObjectStore.Group.{
  Groups, create_metadata_tables, get_schema_version, set_schema_version,
  set_primary_key_for_object, table_for_object_type, object_schema,
}

-- The exceptions of a SchemaMismatchException.
pub data SchemaFault : Type 0 where
  no_table : Str → SchemaFault
  mismatched : Mismatch → SchemaFault

-- What is thrown. `missing_table` stands for a failed assertion and for a table that is not there,
-- `migration_failed` for an exception of the migration function.
pub data Failure : Type 0 where
  missing_table invalid_primary_key migration_failed : Failure
  invalid_schema_version : ℕ → ℕ → Failure
  schema_mismatch : List SchemaFault → Failure
  duplicate_primary_key not_indexable : Str → Property → Failure

pub data Outcome (A : Type 0) : Type 0 where
  ok : A → Outcome A
  error : Failure → Outcome A

infixl 5 ◌>>=◌
abbrev pub ◌>>=◌ : {A B : Type 0} → Outcome A → (A → Outcome B) → Outcome B
ok a >>= f = f a
error e >>= f = error e

abbrev pub or_else : {A : Type 0} → Failure → Option A → Outcome A
or_else e none = error e
or_else e (some a) = ok a

-- verify_schema

abbrev pub faults_of : List Mismatch → List SchemaFault → List SchemaFault
faults_of [] rest = rest
faults_of (e ∷ es) rest = mismatched e ∷ faults_of es rest

-- The loop: its exceptions, and the target, whose columns are aligned in place.
unfoldable pub compare_schemas : Schema → Bool → Schema → List SchemaFault × Schema
unfolding find verify_object_schema
compare_schemas actual allow_missing_tables [] = ([], [])
compare_schemas actual allow_missing_tables (o ∷ os) =
    let (faults, rest) = compare_schemas actual allow_missing_tables os in
    elim (get_elem? actual (find actual o.name)) [
      | none ↦ (if allow_missing_tables then faults else no_table o.name ∷ faults, o ∷ rest)
      | some table ↦
          let aligned = verify_object_schema table o in
          (faults_of aligned.errors faults, record o { properties = aligned.properties } ∷ rest)
    ]

unfoldable pub verify_schema : Schema → Schema → Bool → Outcome Schema
unfolding compare_schemas
verify_schema actual target allow_missing_tables =
    let (faults, aligned) = compare_schemas actual allow_missing_tables target in
    elim faults [ [] ↦ ok aligned | f ∷ fs ↦ error (schema_mismatch (f ∷ fs)) ]

-- needs_update

-- Whether the indices differ at some position of the target's properties.
abbrev pub index_differs : List Property → List Property → Bool
index_differs [] old = false
index_differs (p ∷ ps) [] = false
index_differs (p ∷ ps) (q ∷ qs) = differs p.is_indexed q.is_indexed || index_differs ps qs

unfoldable pub needs_update : Schema → Schema → Bool
unfolding find
needs_update old_schema [] = false
needs_update old_schema (target ∷ rest) =
    let later = needs_update old_schema rest in
    elim (get_elem? old_schema (find old_schema target.name)) [
      | none ↦ true
      | some matching ↦
          if not (length matching.properties == length target.properties)
          then false
          else if index_differs target.properties matching.properties
          then true
          else later
    ]

module _ (T : Tables) (G : Groups T) where
  -- create_tables

  -- The first pass: which classes are to be updated.
  unfoldable pub create_missing : G.Group → Bool → Schema → G.Group × List Bool
  create_missing group update_existing [] = (group, [])
  create_missing group update_existing (o ∷ os) =
      let (group1, table, created) = G.get_or_add_table group (table_name_for_object_type o.name) in
      let (group2, flags) = create_missing group1 update_existing os in
      (group2, (update_existing || created) ∷ flags)

  unfoldable pub update_primary_key : G.Group → ObjectSchema → ObjectSchema → Outcome G.Group
  update_primary_key group current target =
      if not (empty target.primary_key)
      then if not (str_eq current.primary_key target.primary_key)
        then or_else missing_table
            (set_primary_key_for_object T G group target.name target.primary_key)
        else ok group
      else if not (empty current.primary_key)
      then or_else missing_table (set_primary_key_for_object T G group target.name [])
      else ok group

  -- Whether a name has a table.
  abbrev pub has_table : G.Group → Str → Bool
  has_table group name = elim (G.get_table group name) [ none ↦ false | some table ↦ true ]

  -- The second pass for one class.
  unfoldable pub update_table : G.Group → ObjectSchema → Outcome (G.Group × ObjectSchema)
  update_table group target = do
    table ← or_else missing_table (table_for_object_type T G group target.name)
    current ← or_else invalid_primary_key (object_schema T G group target.name)
    updated ←
        or_else missing_table
          (update_columns T (has_table group) table current.properties target.properties)
    let group1 = G.put_table group (table_name_for_object_type target.name) updated.0
    group2 ← update_primary_key group1 current target
    ok (group2, record target { properties = updated.1 })

  unfoldable pub update_tables : G.Group → Schema → List Bool → Outcome (G.Group × Schema)
  unfolding update_table
  update_tables group [] flags = ok (group, [])
  update_tables group (o ∷ os) [] = ok (group, o ∷ os)
  update_tables group (o ∷ os) (false ∷ flags) = do
    rest ← update_tables group os flags
    ok (rest.0, o ∷ rest.1)
  update_tables group (o ∷ os) (true ∷ flags) = do
    updated ← update_table group o
    rest ← update_tables updated.0 os flags
    ok (rest.0, updated.1 ∷ rest.1)

  unfoldable pub create_tables : G.Group → Schema → Bool → Outcome (G.Group × Schema)
  unfolding create_missing update_tables
  create_tables group target update_existing =
      let (group1, flags) = create_missing group update_existing target in
      update_tables group1 target flags

  -- update_indexes

  -- The loop over the properties of a class: the table, and whether it has changed.
  unfoldable pub index_properties : Str → List Property → T.Table → Outcome (T.Table × Bool)
  unfolding requires_index
  index_properties name [] table = ok (table, false)
  index_properties name (p ∷ ps) table =
      if not (differs (requires_index p) (T.has_search_index table p.table_column))
      then index_properties name ps table
      else do
        table1 ←
            (if requires_index p
              then or_else (not_indexable name p) (G.add_search_index table p.table_column)
              else ok (G.remove_search_index table p.table_column))
        rest ← index_properties name ps table1
        ok (rest.0, true)

  unfoldable pub update_indexes : G.Group → Schema → Outcome (G.Group × Bool)
  unfolding index_properties
  update_indexes group [] = ok (group, false)
  update_indexes group (o ∷ os) = elim (table_for_object_type T G group o.name) [
    | none ↦ update_indexes group os
    | some table ↦ do
      indexed ← index_properties o.name o.properties table
      let group1 = G.put_table group (table_name_for_object_type o.name) indexed.0
      rest ← update_indexes group1 os
      ok (rest.0, indexed.1 || rest.1)
  ]

  -- Whether a primary key holds a value twice; the key is that of the class, by its name.
  unfoldable pub validate_primary_column_uniqueness : G.Group → Schema → Outcome Unit
  validate_primary_column_uniqueness group [] = ok tt
  validate_primary_column_uniqueness group (o ∷ os) =
      elim (first_named o.properties o.primary_key) [
        | none ↦ validate_primary_column_uniqueness group os
        | some p ↦ do
          table ← or_else missing_table (table_for_object_type T G group o.name)
          if not (G.distinct_size table p.table_column == T.size table)
              then error (duplicate_primary_key o.name p)
              else validate_primary_column_uniqueness group os
      ]

  -- Whether the file is at the version, or the exception for a file that is past it.
  unfoldable pub is_schema_at_version : G.Group → ℕ → Outcome Bool
  is_schema_at_version group version =
      let old_version = get_schema_version T G group in
      if ltb version old_version && not (old_version == not_versioned)
      then error (invalid_schema_version old_version version)
      else ok (old_version == version)

  -- The migration and what follows it, for a file with data of an older version.
  unfoldable pub migrate :
      (G.Group → Schema → Outcome (G.Group × Schema))
      → G.Group
      → Schema
      → Outcome (G.Group × Schema)
  unfolding validate_primary_column_uniqueness
  migrate migration group schema =
      if get_schema_version T G group == not_versioned then ok (group, schema) else do
        migrated ← migration group schema
        valid ← validate_primary_column_uniqueness migrated.0 migrated.1
        ok migrated

  unfoldable pub update_realm_with_schema :
      G.Group
      → Schema
      → ℕ
      → Schema
      → (G.Group → Schema → Outcome (G.Group × Schema))
      → Outcome (G.Group × Schema)
  unfolding is_schema_at_version create_tables update_indexes migrate
  update_realm_with_schema group old_schema version schema migration = do
    current ← is_schema_at_version group version
    created ← create_tables (create_metadata_tables T G group) schema (not current)
    verified ← (if current then verify_schema old_schema created.1 true else ok created.1)
    indexed ← update_indexes created.0 verified
    if current then ok (indexed.0, verified) else do
      migrated ← migrate migration indexed.0 verified
      ok (set_schema_version T G migrated.0 version, migrated.1)
