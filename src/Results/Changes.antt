-- ===== src/Results/Changes.antt =====
-- What changes Results, makes others of them or watches them (Realm/ObjectStore/results.cpp).
use realm_cocoa.Base.{ℕ, ◌+◌, false, ◌||◌, none, some, if◌then◌else◌}
use realm_cocoa.AsyncQuery.{AsyncQuery, add_callback}
use realm_cocoa.Realm.{SharedGroup, is_in_transaction}
use realm_cocoa.Results
use realm_cocoa.Results.{
  Mode, mode_empty, mode_table, mode_query, mode_table_view, is_table_view, SortOrder, ColumnType,
  type_date_time, type_other, Aggregate, sum, average, Core, unsupported_column_type, null_pointer,
  invalid_transaction, incorrect_thread, out_of_bounds, new_async_query, Results, from_query, Call,
  returned, threw, other_thread, validate_read, validate_write, update_tableview, of_table, of_view,
}

module _ (S : SharedGroup) (C : Core) where
  infixl 5 ◌>>=◌
  abbrev ◌>>=◌ : {A B : Type 0} → Call S C A → (A → Results S C → Call S C B) → Call S C B
  c >>= f = Results.◌>>=◌ S C c f

  abbrev pub clear_view : ℕ → Results S C → Call S C Unit
  clear_view thread r =
      validate_write S C thread r >>= (λ _ r. update_tableview S C thread r) >>= λ _ r.
      let cleared = C.view_clear r.world r.table_view in
      returned tt (record r { world = cleared.0; table_view = cleared.1 })

  unfoldable pub clear_table_mode : ℕ → Results S C → Call S C Unit
  clear_table_mode thread r = validate_write S C thread r >>= λ _ r. elim r.table [
    | none ↦ threw null_pointer r
    | some t ↦ returned tt (record r { world = C.table_clear r.world t })
  ]

  unfoldable pub clear : ℕ → Results S C → Call S C Unit
  clear thread r = elim r.mode [
    | mode_empty ↦ returned tt r
    | mode_table ↦ clear_table_mode thread r
    | mode_query ↦ clear_view thread r
    | mode_table_view ↦ clear_view thread r
  ]

  unfoldable pub get_query : ℕ → Results S C → Call S C C.Query
  get_query thread r = validate_read S C thread r >>= λ _ r. elim r.mode [
    | mode_empty ↦ returned r.query r
    | mode_query ↦ returned r.query r
    | mode_table_view ↦ returned (C.view_query r.table_view) r
    | mode_table ↦ of_table S C C.where_query r
  ]

  unfoldable pub sort : ℕ → SortOrder → C.View → Results S C → Call S C (Results S C)
  sort thread order default r =
      get_query thread r >>= λ q r. returned (from_query S C r.realm r.world q order default) r

  unfoldable pub filter : ℕ → C.Query → C.View → Results S C → Call S C (Results S C)
  filter thread query default r = get_query thread r >>= λ q r.
      returned (from_query S C r.realm r.world (C.and_query q query) r.sort default) r

  -- `default` is a default table view.
  unfoldable pub get_tableview : ℕ → C.View → Results S C → Call S C C.View
  get_tableview thread default r = validate_read S C thread r >>= λ _ r. elim r.mode [
    | mode_empty ↦ returned default r
    | mode_query ↦ of_view S C thread (λ w v. v) r
    | mode_table_view ↦ of_view S C thread (λ w v. v) r
    | mode_table ↦ of_table S C (λ t. C.find_all r.world (C.where_query t)) r
  ]

  -- The query that calls back. The constructor of a query asks for get_query().
  unfoldable pub start_background : ℕ → Results S C → Call S C AsyncQuery
  start_background thread r = elim r.background_query [
    | some q ↦ returned q r
    | none ↦ get_query thread r >>= λ _ r.
        returned new_async_query
          (record r { background_query = some new_async_query; registered = r.registered + 1 })
  ]

  unfoldable pub async : ℕ → Results S C → Call S C Unit
  async thread r = elim r.realm [
    | none ↦ threw null_pointer r
    | some realm ↦
        if realm.read_only || is_in_transaction S realm
        then threw invalid_transaction r
        else (start_background thread r >>= λ q r.
            if other_thread S C thread r.realm
            then threw incorrect_thread r
            else returned tt (record r { background_query = some (add_callback q) }))
  ]

  -- Results::Internal::set_table_view
  unfoldable pub set_table_view : C.View → Results S C → Results S C
  set_table_view tv r = record r {
    wants_background_updates =
        if is_table_view r.mode then r.has_used_table_view else r.wants_background_updates;
    table_view = tv;
    mode = mode_table_view;
    has_used_table_view = false;
  }
