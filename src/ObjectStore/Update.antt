-- ===== src/ObjectStore/Update.antt =====
-- ObjectStore::create_tables (Realm/ObjectStore/object_store.cpp): the columns of one table are brought
-- to those of its class, and the table's class is read back (Realm/ObjectStore/object_schema.cpp).
pub mod Copy
pub mod Fates
pub mod Optional
pub mod Remove
pub mod Add
pub mod Places
pub mod Stands
pub mod Result
pub mod Partners
pub mod Verified
use realm_cocoa.Base.{
  ℕ, ◌+◌, ◌-◌, ◌%◌, Bool, true, false, not, ◌&&◌, ◌||◌, List, [], ◌∷◌, map, Option, none, some,
  ◌==◌, if◌then◌else◌, Str, str_eq, word, npos, decr, length,
}
use realm_cocoa.Schema.{
  PropertyType, type_bool, type_any, type_object, type_array, Property, same_type,
}
use realm_cocoa.ObjectStore.{property_has_changed, first_named, set_column}
use realm_cocoa.ObjectStore.Tables.{Tables, object_type_for_table_name, table_name_for_object_type}

-- What link columns have, objects and arrays.
unfoldable pub is_link : PropertyType → Bool
is_link k = same_type k type_object || same_type k type_array

unfoldable pub property_can_be_migrated_to_nullable : Property → Property → Bool
property_can_be_migrated_to_nullable old_property new_property =
    same_type old_property.kind new_property.kind
    && not old_property.is_nullable
    && new_property.is_nullable
    && str_eq new_property.name old_property.name

-- The types whose values copy_property_values copies.
unfoldable pub is_copied : PropertyType → Bool
is_copied type_any = false
is_copied type_object = false
is_copied type_array = false
is_copied _ = true

-- Whether the column of a property is removed.
unfoldable pub is_extra : List Property → Property → Bool
unfolding property_has_changed property_can_be_migrated_to_nullable
is_extra target c = elim (first_named target c.name) [
  | none ↦ true
  | some t ↦ property_has_changed c t && not (property_can_be_migrated_to_nullable c t)
]

-- `-=` on a size_t
abbrev pub minus : ℕ → ℕ → ℕ
minus a b = (a + word - b) % word

abbrev pub placeholder : Str
placeholder = 112 ∷ 108 ∷ 97 ∷ 99 ∷ 101 ∷ 104 ∷ 111 ∷ 108 ∷ 100 ∷ 101 ∷ 114 ∷ []

abbrev pub at_column : Property → ℕ → Property
at_column p column = record p { table_column = column }

-- The column that a property has kept: none where it is new or its old column was removed.
unfoldable pub old_column : List Property → Property → Option ℕ
old_column current t = elim (first_named current t.name) [
  | none ↦ none
  | some c ↦ elim (c.table_column == npos) [ true ↦ none | false ↦ some c.table_column ]
]

module _ (T : Tables) where
  unfoldable pub property_at : T.Table → ℕ → Property
  unfolding is_link
  property_at table col =
      let kind = T.get_column_type table col in
      record {
        name = T.get_column_name table col;
        kind = kind;
        object_type =
            if is_link kind then object_type_for_table_name (T.get_link_target table col) else [];
        is_primary = false;
        is_indexed = T.has_search_index table col;
        is_nullable = T.is_nullable table col || same_type kind type_object;
        table_column = col;
      }

  -- The loop over the columns, with the number of those left.
  unfoldable pub properties_from : T.Table → ℕ → ℕ → List Property
  unfolding property_at
  properties_from table col ℕ.zero = []
  properties_from table col (ℕ.suc left) =
      property_at table col ∷ properties_from table (col + 1) left

  unfoldable pub table_properties : T.Table → List Property
  unfolding properties_from
  table_properties table = properties_from table 0 (T.get_column_count table)

  -- The loop over the rows, with the number of those left.
  unfoldable pub copy_rows : PropertyType → ℕ → ℕ → ℕ → ℕ → T.Table → T.Table
  copy_rows kind old_column new_column row ℕ.zero table = table
  copy_rows kind old_column new_column row (ℕ.suc left) table =
      let value = T.get_value kind table old_column row in
      copy_rows kind old_column new_column (row + 1) left
        (T.set_value kind table new_column row value)

  unfoldable pub copy_property_values : Property → Property → T.Table → T.Table
  unfolding copy_rows is_copied
  copy_property_values source destination table =
      if is_copied destination.kind
      then copy_rows destination.kind source.table_column destination.table_column 0 (T.size table)
          table
      else table

  -- A column changes from required to optional: a new one takes its place.
  unfoldable pub change_to_optional : T.Table → Property → Property → T.Table
  change_to_optional table c t =
      let column = c.table_column in
      let inserted = T.insert_column table column t.kind t.name t.is_nullable in
      let copied = copy_property_values (at_column c (column + 1)) (at_column t column) inserted in
      T.remove_column copied (column + 1)

  unfoldable pub make_optional : T.Table → List Property → List Property → T.Table × List Property
  make_optional table [] target = (table, target)
  make_optional table (c ∷ cs) target = elim (first_named target c.name) [
    | none ↦ make_optional table cs target
    | some t ↦ elim (property_can_be_migrated_to_nullable c t) [
      | false ↦ make_optional table cs target
      | true ↦
          make_optional (change_to_optional table c t) cs (set_column target c.name c.table_column)
    ]
  ]

  -- `size` is the number of properties, `deleted` of those whose column is removed already. The
  -- flag says whether the placeholder was added.
  unfoldable pub remove_extra :
      List Property → ℕ → ℕ → Bool → T.Table → List Property → T.Table × List Property × Bool
  remove_extra target size deleted inserted table [] = (table, [], inserted)
  remove_extra target size deleted inserted table (c ∷ cs) =
      let moved = at_column c (minus c.table_column deleted) in
      elim (is_extra target moved) [
        | false ↦
            let (table', cs', inserted') = remove_extra target size deleted inserted table cs in
            (table', moved ∷ cs', inserted')
        | true ↦
            let last = deleted == decr size in
            let kept = if last then (T.add_column table type_bool placeholder false).0 else table in
            let (table', cs', inserted') =
              remove_extra target size (deleted + 1) (inserted || last)
                (T.remove_column kept moved.table_column) cs in
            (table', at_column c npos ∷ cs', inserted')
      ]

  -- The new column of a property; `tables` says which names have a table. A link to none fails an
  -- assertion.
  unfoldable pub add_property : (Str → Bool) → T.Table → Property → Option (T.Table × ℕ)
  unfolding is_link
  add_property tables table t =
      let link_table = table_name_for_object_type t.object_type in
      if is_link t.kind
      then if tables link_table
        then some (T.add_column_link table t.kind t.name link_table)
        else none
      else some (T.add_column table t.kind t.name t.is_nullable)

  unfoldable pub add_missing :
      (Str → Bool) → List Property → T.Table → List Property → Option (T.Table × List Property)
  add_missing tables current table [] = some (table, [])
  add_missing tables current table (t ∷ ts) = elim (old_column current t) [
    | some column ↦ elim (add_missing tables current table ts) [
      | none ↦ none
      | some (table', ts') ↦ some (table', at_column t column ∷ ts')
    ]
    | none ↦ elim (add_property tables table t) [
      | none ↦ none
      | some (grown, column) ↦ elim (add_missing tables current grown ts) [
        | none ↦ none
        | some (table', ts') ↦ some (table', at_column t column ∷ ts')
      ]
    ]
  ]

  unfoldable pub remove_placeholder : Bool → T.Table × List Property → T.Table × List Property
  remove_placeholder inserted (table, target) =
      if inserted
      then (T.remove_column table 0, map (λ t. at_column t (decr t.table_column)) target)
      else (table, target)

  -- The second pass for one table, up to its primary key.
  unfoldable pub update_columns :
      (Str → Bool) → T.Table → List Property → List Property → Option (T.Table × List Property)
  update_columns tables table current target =
      let (table1, target1) = make_optional table current target in
      let (table2, current2, inserted) =
        remove_extra target1 (length current) 0 false table1 current in
      elim (add_missing tables current2 table2 target1) [
        | none ↦ none
        | some added ↦ some (remove_placeholder inserted added)
      ]
