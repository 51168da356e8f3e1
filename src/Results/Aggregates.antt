-- ===== src/Results/Aggregates.antt =====
-- Results::aggregate of Realm/ObjectStore/results.cpp, for max, min, sum and average.
use realm_cocoa.Base.{ℕ, Bool, true, false, ◌&&◌, Option, none, some, ltb, ◌==◌, if◌then◌else◌}
use realm_cocoa.Realm.{SharedGroup}
use realm_cocoa.Results
use realm_cocoa.Results.{
  Mode, mode_empty, mode_table, mode_query, mode_table_view, is_table_view, SortOrder, ColumnType,
  type_date_time, type_other, Aggregate, sum, average, Core, unsupported_column_type, null_pointer,
  invalid_transaction, incorrect_thread, out_of_bounds, new_async_query, Results, from_query, Call,
  returned, threw, other_thread, validate_read, validate_write, update_tableview, of_table, of_view,
}

module _ (S : SharedGroup) (C : Core) where
  infixl 5 ◌>>=◌
  abbrev ◌>>=◌ : {A B : Type 0} → Call S C A → (A → Results S C → Call S C B) → Call S C B
  c >>= f = Results.◌>>=◌ S C c f

  -- What `aggregate` is given no function for, but one that throws.
  abbrev pub unsupported : Aggregate → ColumnType → Bool
  unsupported sum type_date_time = true
  unsupported average type_date_time = true
  unsupported _ _ = false

  abbrev pub is_other : ColumnType → Bool
  is_other type_other = true
  is_other _ = false

  abbrev pub returns_none : Aggregate → Bool
  returns_none sum = false
  returns_none _ = true

  abbrev pub view_value : Aggregate → ℕ → C.World → C.View → Option C.Value
  view_value agg column w v =
      if returns_none agg && C.view_size w v == 0
      then none
      else some (C.aggregate_view w v agg column)

  abbrev pub table_value : Aggregate → ℕ → C.World → C.Table → Option C.Value
  table_value agg column w t =
      if returns_none agg && C.table_size w t == 0
      then none
      else some (C.aggregate_table w t agg column)

  -- Nothing, or the exception of a function that only throws.
  abbrev pub checked : Bool → Option C.Value → Results S C → Call S C (Option C.Value)
  checked throws none r = returned none r
  checked throws (some v) r =
      if throws then threw unsupported_column_type r else returned (some v) r

  -- do_agg, for a column's type
  unfoldable pub aggregate_typed :
      ℕ → Aggregate → ℕ → ColumnType → C.Table → Results S C → Call S C (Option C.Value)
  aggregate_typed thread agg column type t r =
      if is_other type
      then threw unsupported_column_type r
      else ((elim r.mode [
        | mode_empty ↦ returned none r
        | mode_table ↦ returned (table_value agg column r.world t) r
        | mode_query ↦ of_view S C thread (view_value agg column) r
        | mode_table_view ↦ of_view S C thread (view_value agg column) r
      ])
          >>= checked (unsupported agg type))

  unfoldable pub aggregate : ℕ → Aggregate → ℕ → Results S C → Call S C (Option C.Value)
  aggregate thread agg column r = validate_read S C thread r >>= λ _ r. elim r.table [
    | none ↦ returned none r
    | some t ↦
        if ltb (C.column_count r.world t) column
        then threw (out_of_bounds column (C.column_count r.world t)) r
        else aggregate_typed thread agg column (C.column_type r.world t column) t r
  ]
