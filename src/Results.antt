-- ===== src/Results.antt =====
-- Realm/ObjectStore/results.cpp: a table, a query or a table view seen as one sequence of rows. The
-- core library's tables, queries and table views are an argument.
pub mod Answers
pub mod Updates
pub mod Uses
pub mod Aggregates
pub mod Changes
pub mod Clearing
use realm_cocoa.Base.{
  ℕ, ◌+◌, ◌-◌, ◌≡◌, Bool, true, false, not, ◌&&◌, ◌||◌, List, [], ◌∷◌, Option, none, some, ltb, leb,
  ◌==◌, if◌then◌else◌, npos, empty, word,
}
use realm_cocoa.AsyncQuery.{AsyncQuery, add_callback}
use realm_cocoa.Realm.{SharedGroup, Realm, is_in_transaction, can_deliver_notifications}
use realm_cocoa.LinkList.{Row}

-- Results::Mode
pub data Mode : Type 0 where
  mode_empty mode_table mode_query mode_table_view : Mode

abbrev pub is_table_view : Mode → Bool
is_table_view mode_table_view = true
is_table_view _ = false

pub record SortOrder : Type 0 where
  pub column_indices : List ℕ
  pub ascending : List Bool

pub data ColumnType : Type 0 where
  type_int type_float type_double type_date_time type_other : ColumnType

pub data Aggregate : Type 0 where
  maximum minimum sum average : Aggregate

-- The operations of the core library's accessors that the source calls. `World` is what the file
-- holds, and a row is its number in the table.
pub record Core : Type 1 where
  pub World : Type 0
  pub Table : Type 0
  pub Query : Type 0
  pub View : Type 0
  pub Value : Type 0
  pub table_number : Table → ℕ
  pub table_attached : World → Table → Bool
  pub table_size : World → Table → ℕ
  pub table_clear : World → Table → World
  pub column_count : World → Table → ℕ
  pub column_type : World → Table → ℕ → ColumnType
  pub aggregate_table : World → Table → Aggregate → ℕ → Value
  pub query_table : Query → Table
  pub where_query : Table → Query
  pub and_query : Query → Query → Query
  pub count : World → Query → ℕ
  pub find_all : World → Query → View
  pub sort : World → SortOrder → View → View
  pub view_attached : World → View → Bool
  pub view_size : World → View → ℕ
  pub view_get : World → View → ℕ → ℕ
  pub find_by_source_ndx : World → View → ℕ → ℕ
  pub sync_if_needed : World → View → View
  pub view_query : View → Query
  pub view_clear : World → View → World × View
  pub aggregate_view : World → View → Aggregate → ℕ → Value

-- The exceptions. The last is a call through a null pointer.
pub data Failure : Type 0 where
  incorrect_thread invalidated invalid_transaction detatched_accessor incorrect_table : Failure
  unsupported_column_type null_pointer : Failure
  out_of_bounds : ℕ → ℕ → Failure

-- A query that has just been made, without callbacks.
abbrev pub new_async_query : AsyncQuery
new_async_query = record {
  callbacks = [];
  callback_index = npos;
  have_callbacks = false;
  error = false;
  delivered_table_version = word - 1;
  notifications = 0;
}

module _ (S : SharedGroup) (C : Core) where
  -- `world` is what the file holds, and `registered` counts the queries that the coordinator was given.
  pub record Results : Type 0 where
    pub realm : Option (Realm S)
    pub world : C.World
    pub query : C.Query
    pub table_view : C.View
    pub table : Option C.Table
    pub sort : SortOrder
    pub mode : Mode
    pub background_query : Option AsyncQuery
    pub has_used_table_view : Bool
    pub wants_background_updates : Bool
    pub registered : ℕ

  -- The constructors. `table_view` is the default table view where the source gives none.
  abbrev pub from_query : Option (Realm S) → C.World → C.Query → SortOrder → C.View → Results
  from_query realm world query sort table_view = record {
    realm = realm;
    world = world;
    query = query;
    table_view = table_view;
    table = some (C.query_table query);
    sort = sort;
    mode = mode_query;
    background_query = none;
    has_used_table_view = false;
    wants_background_updates = true;
    registered = 0;
  }

  abbrev pub from_table : Option (Realm S) → C.World → C.Table → C.Query → C.View → Results
  from_table realm world table query table_view = record {
    realm = realm;
    world = world;
    query = query;
    table_view = table_view;
    table = some table;
    sort = record { column_indices = []; ascending = [] };
    mode = mode_table;
    background_query = none;
    has_used_table_view = false;
    wants_background_updates = true;
    registered = 0;
  }

  -- A call that returns, or throws and leaves the Results as they then are.
  pub data Call (A : Type 0) : Type 0 where
    returned : A → Results → Call A
    threw : Failure → Results → Call A

  infixl 5 ◌>>=◌
  abbrev pub ◌>>=◌ : {A B : Type 0} → Call A → (A → Results → Call B) → Call B
  returned a r >>= f = f a r
  threw e r >>= f = threw e r

  abbrev pub other_thread : ℕ → Option (Realm S) → Bool
  other_thread thread none = false
  other_thread thread (some realm) = not (realm.thread_id == thread)

  abbrev pub detached : C.World → Option C.Table → Bool
  detached w none = false
  detached w (some t) = not (C.table_attached w t)

  unfoldable pub validate_read : ℕ → Results → Call Unit
  validate_read thread r =
      if other_thread thread r.realm
      then threw incorrect_thread r
      else if detached r.world r.table
      then threw invalidated r
      else if is_table_view r.mode && not (C.view_attached r.world r.table_view)
      then threw invalidated r
      else returned tt r

  abbrev pub in_write : Option (Realm S) → Bool
  in_write none = false
  in_write (some realm) = is_in_transaction S realm

  unfoldable pub validate_write : ℕ → Results → Call Unit
  unfolding validate_read
  validate_write thread r = validate_read thread r >>= λ _ r.
      if not (in_write r.realm) then threw invalid_transaction r else returned tt r

  -- The result of the query, in order.
  abbrev pub found : C.World → C.Query → SortOrder → C.View
  found w q sort =
      if empty sort.column_indices then C.find_all w q else C.sort w sort (C.find_all w q)

  -- The background query that update_tableview starts.
  abbrev pub start_updates : Results → Call Unit
  start_updates r = elim r.background_query [
    | some _ ↦ returned tt r
    | none ↦ elim r.realm [
      | none ↦ threw null_pointer r
      | some realm ↦
          if not (is_in_transaction S realm) && can_deliver_notifications S realm
          then returned tt
              (record r { background_query = some new_async_query; registered = r.registered + 1 })
          else returned tt r
    ]
  ]

  unfoldable pub update_tableview : ℕ → Results → Call Unit
  unfolding validate_read
  update_tableview thread r = validate_read thread r >>= λ _ r. elim r.mode [
    | mode_empty ↦ returned tt r
    | mode_table ↦ returned tt r
    | mode_query ↦
        returned tt (record r { table_view = found r.world r.query r.sort; mode = mode_table_view })
    | mode_table_view ↦ start_updates r >>= λ _ r. returned tt (record r {
      has_used_table_view = true;
      table_view = C.sync_if_needed r.world r.table_view;
    })
  ]

  -- What `f` makes of the table, which is not null in Table mode.
  abbrev pub of_table : {A : Type 0} → (C.Table → A) → Results → Call A
  of_table f r = elim r.table [ none ↦ threw null_pointer r | some t ↦ returned (f t) r ]

  unfoldable pub of_view : {A : Type 0} → ℕ → (C.World → C.View → A) → Results → Call A
  unfolding update_tableview
  of_view thread f r = update_tableview thread r >>= λ _ r. returned (f r.world r.table_view) r

  unfoldable pub size : ℕ → Results → Call ℕ
  size thread r = validate_read thread r >>= λ _ r. elim r.mode [
    | mode_empty ↦ returned 0 r
    | mode_table ↦ of_table (C.table_size r.world) r
    | mode_query ↦ returned (C.count r.world r.query) r
    | mode_table_view ↦ of_view thread C.view_size r
  ]

  -- The row at a position, and the one that a table or a view of a size has there.
  abbrev pub table_row : C.World → ℕ → C.Table → Option ℕ
  table_row w row_ndx t = if ltb row_ndx (C.table_size w t) then some row_ndx else none

  abbrev pub view_row : ℕ → C.World → C.View → Option ℕ
  view_row row_ndx w v =
      if ltb row_ndx (C.view_size w v) then some (C.view_get w v row_ndx) else none

  -- The row that `get` returns, if it does not throw.
  unfoldable pub look_up : ℕ → ℕ → Results → Call (Option ℕ)
  look_up thread row_ndx r = validate_read thread r >>= λ _ r. elim r.mode [
    | mode_empty ↦ returned none r
    | mode_table ↦ of_table (table_row r.world row_ndx) r
    | mode_query ↦ of_view thread (view_row row_ndx) r
    | mode_table_view ↦ of_view thread (view_row row_ndx) r
  ]

  unfoldable pub or_throw : ℕ → ℕ → Option ℕ → Results → Call ℕ
  unfolding size
  or_throw thread row_ndx none r = size thread r >>= λ n r. threw (out_of_bounds row_ndx n) r
  or_throw thread row_ndx (some row) r = returned row r

  unfoldable pub get : ℕ → ℕ → Results → Call ℕ
  unfolding look_up or_throw
  get thread row_ndx r = look_up thread row_ndx r >>= or_throw thread row_ndx

  -- front() and back() are the rows at the ends.
  abbrev pub first_of : C.World → C.View → Option ℕ
  first_of w v = if C.view_size w v == 0 then none else some (C.view_get w v 0)

  abbrev pub last_of : C.World → C.View → Option ℕ
  last_of w v = if C.view_size w v == 0 then none else some (C.view_get w v (C.view_size w v - 1))

  unfoldable pub first : ℕ → Results → Call (Option ℕ)
  first thread r = validate_read thread r >>= λ _ r. elim r.mode [
    | mode_empty ↦ returned none r
    | mode_table ↦ of_table (λ t. if C.table_size r.world t == 0 then none else some 0) r
    | mode_query ↦ of_view thread first_of r
    | mode_table_view ↦ of_view thread first_of r
  ]

  unfoldable pub last : ℕ → Results → Call (Option ℕ)
  last thread r = validate_read thread r >>= λ _ r. elim r.mode [
    | mode_empty ↦ returned none r
    | mode_table ↦
        of_table
          (λ t. if C.table_size r.world t == 0 then none else some (C.table_size r.world t - 1)) r
    | mode_query ↦ of_view thread last_of r
    | mode_table_view ↦ of_view thread last_of r
  ]

  -- index_of(size_t)
  unfoldable pub index_of : ℕ → ℕ → Results → Call ℕ
  index_of thread row_ndx r = validate_read thread r >>= λ _ r. elim r.mode [
    | mode_empty ↦ returned npos r
    | mode_table ↦ returned row_ndx r
    | mode_query ↦ of_view thread (λ w v. C.find_by_source_ndx w v row_ndx) r
    | mode_table_view ↦ of_view thread (λ w v. C.find_by_source_ndx w v row_ndx) r
  ]

  abbrev pub of_other_table : Option C.Table → Row → Bool
  of_other_table none row = false
  of_other_table (some t) row = not (row.table == C.table_number t)

  -- index_of(Row const&)
  unfoldable pub index_of_row : ℕ → Row → Results → Call ℕ
  unfolding validate_read index_of
  index_of_row thread row r = validate_read thread r >>= λ _ r.
      if not row.is_attached
      then threw detatched_accessor r
      else if of_other_table r.table row
      then threw incorrect_table r
      else index_of thread row.index r
