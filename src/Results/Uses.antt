-- ===== src/Results/Uses.antt =====
-- Whether Results want to be updated in the background, across all that is done with them between two
-- deliveries (set_table_view and the operations of Realm/ObjectStore/results.cpp).
use realm_cocoa.Base.{
  ℕ, ◌≡◌, refl, ◌∙◌, Bool, false, not, ◌||◌, List, [], ◌∷◌, Option, none, some, ltb,
}
use realm_cocoa.Realm.{SharedGroup, is_in_transaction}
use realm_cocoa.Results.{
  Core, Row, Aggregate, ColumnType, Results, Call, returned, threw, in_write, other_thread,
  of_other_table, validate_read, validate_write, index_of_row, of_view, mode_empty, mode_table,
  mode_query, mode_table_view, update_tableview, out_of_bounds, ◌>>=◌,
}
use realm_cocoa.Results.Changes.{
  clear, clear_view, clear_table_mode, get_query, get_tableview, start_background, async,
  set_table_view,
}
use realm_cocoa.Results.Aggregates.{
  aggregate, aggregate_typed, checked, unsupported, is_other, table_value, view_value,
}
use realm_cocoa.Results.Answers.{Question, ask}
use realm_cocoa.Results.Updates.{
  after, Keeps, Keeps-bind, Keeps-if, Keeps-mode, Keeps-option, validate_read-Keeps,
  update_tableview-Keeps, of_view-Keeps, of_table-Keeps, index_of-Keeps, ask-Keeps,
}

module _ (S : SharedGroup) (C : Core) where
  -- What is done with Results besides the delivery of a table view. sort and filter begin with
  -- get_query, and leave the Results as that does.
  pub data Use : Type 0 where
    asks : Question → Use
    finds : Row → Use
    aggregates : Aggregate → ℕ → Use
    clears queries watches : Use
    takes_view : C.View → Use

  unfoldable pub apply : ℕ → Use → Results S C → Results S C
  apply thread (asks q) r = after S C (ask S C thread q r)
  apply thread (finds row) r = after S C (index_of_row S C thread row r)
  apply thread (aggregates agg column) r = after S C (aggregate S C thread agg column r)
  apply thread clears r = after S C (clear S C thread r)
  apply thread queries r = after S C (get_query S C thread r)
  apply thread watches r = after S C (async S C thread r)
  apply thread (takes_view default) r = after S C (get_tableview S C thread default r)

  unfoldable pub apply_all : ℕ → List Use → Results S C → Results S C
  apply_all thread [] r = r
  apply_all thread (u ∷ us) r = apply_all thread us (apply thread u r)

  validate_write-Keeps : (thread : ℕ) (r : Results S C) → Keeps S C (validate_write S C thread r) r
  unfolding validate_write
  validate_write-Keeps thread r =
      Keeps-bind S C (validate_read S C thread r) _ r (validate_read-Keeps S C thread r)
        (λ _ r. Keeps-if S C (not (in_write S C r.realm)) (threw _ r) (returned tt r) r refl refl)

  clear_view-Keeps : (thread : ℕ) (r : Results S C) → Keeps S C (clear_view S C thread r) r
  clear_view-Keeps thread r =
      let view : Unit → Results S C → Call S C Unit = λ _ r. update_tableview S C thread r in
      Keeps-bind S C (◌>>=◌ S C (validate_write S C thread r) view) _ r
        (Keeps-bind S C (validate_write S C thread r) view r (validate_write-Keeps thread r)
          (λ _ r. update_tableview-Keeps S C thread r))
        (λ _ r. refl)

  clear_table_mode-Keeps :
      (thread : ℕ) (r : Results S C) → Keeps S C (clear_table_mode S C thread r) r
  unfolding clear_table_mode
  clear_table_mode-Keeps thread r =
      Keeps-bind S C (validate_write S C thread r) _ r (validate_write-Keeps thread r)
        (λ _ r. Keeps-option S C r.table (threw _ r) _ r refl (λ t. refl))

  clear-Keeps : (thread : ℕ) (r : Results S C) → Keeps S C (clear S C thread r) r
  unfolding clear
  clear-Keeps thread r =
      Keeps-mode S C r.mode (returned tt r) (clear_table_mode S C thread r)
        (clear_view S C thread r) (clear_view S C thread r) r refl (clear_table_mode-Keeps thread r)
        (clear_view-Keeps thread r) (clear_view-Keeps thread r)

  get_query-Keeps : (thread : ℕ) (r : Results S C) → Keeps S C (get_query S C thread r) r
  unfolding get_query
  get_query-Keeps thread r =
      Keeps-bind S C (validate_read S C thread r) _ r (validate_read-Keeps S C thread r) (λ _ r.
        Keeps-mode S C r.mode (returned _ r) _ (returned _ r) (returned _ r) r refl
          (of_table-Keeps S C C.where_query r) refl refl)

  get_tableview-Keeps :
      (thread : ℕ) (default : C.View) (r : Results S C)
      → Keeps S C (get_tableview S C thread default r) r
  unfolding get_tableview
  get_tableview-Keeps thread default r =
      Keeps-bind S C (validate_read S C thread r) _ r (validate_read-Keeps S C thread r) (λ _ r.
        Keeps-mode S C r.mode (returned default r) _ _ _ r refl (of_table-Keeps S C _ r)
          (of_view-Keeps S C thread _ r) (of_view-Keeps S C thread _ r))

  async-Keeps : (thread : ℕ) (r : Results S C) → Keeps S C (async S C thread r) r
  unfolding async start_background
  async-Keeps thread r = Keeps-option S C r.realm (threw _ r) _ r refl (λ realm.
      Keeps-if S C (realm.read_only || is_in_transaction S realm) (threw _ r) _ r refl (
        Keeps-bind S C (start_background S C thread r) _ r
          (Keeps-option S C r.background_query _ (λ q. returned q r) r
            (Keeps-bind S C (get_query S C thread r) _ r (get_query-Keeps thread r) (λ _ r. refl))
            (λ q. refl))
          (λ q r.
            Keeps-if S C (other_thread S C thread r.realm) (threw _ r) (returned tt _) r refl
              refl)))

  checked-Keeps :
      (throws : Bool) (o : Option C.Value) (r : Results S C) → Keeps S C (checked S C throws o r) r
  checked-Keeps throws none r = refl
  checked-Keeps throws (some v) r =
      Keeps-if S C throws (threw _ r) (returned (some v) r) r refl refl

  aggregate_typed-Keeps :
      (thread : ℕ) (agg : Aggregate) (column : ℕ) (type : ColumnType) (t : C.Table)
      (r : Results S C)
      → Keeps S C (aggregate_typed S C thread agg column type t r) r
  unfolding aggregate_typed
  aggregate_typed-Keeps thread agg column type t r =
      let nothing : Call S C (Option C.Value) = returned none r in
      let all = returned (table_value S C agg column r.world t) r in
      let viewed = of_view S C thread (view_value S C agg column) r in
      let c : Call S C (Option C.Value) = elim r.mode [
        | mode_empty ↦ nothing
        | mode_table ↦ all
        | mode_query ↦ viewed
        | mode_table_view ↦ viewed
      ] in
      let k = of_view-Keeps S C thread (view_value S C agg column) r in
      Keeps-if S C (is_other S C type) (threw _ r) _ r refl (
        Keeps-bind S C c (checked S C (unsupported S C agg type)) r
          (Keeps-mode S C r.mode nothing all viewed viewed r refl refl k k)
          (λ o r. checked-Keeps (unsupported S C agg type) o r))

  aggregate-Keeps :
      (thread : ℕ) (agg : Aggregate) (column : ℕ) (r : Results S C)
      → Keeps S C (aggregate S C thread agg column r) r
  unfolding aggregate
  aggregate-Keeps thread agg column r =
      Keeps-bind S C (validate_read S C thread r) _ r (validate_read-Keeps S C thread r) (λ _ r.
        Keeps-option S C r.table (returned none r) _ r refl (λ t.
          Keeps-if S C (ltb (C.column_count r.world t) column)
            (threw (out_of_bounds column (C.column_count r.world t)) r)
            (aggregate_typed S C thread agg column (C.column_type r.world t column) t r) r refl
            (aggregate_typed-Keeps thread agg column (C.column_type r.world t column) t r)))

  index_of_row-Keeps :
      (thread : ℕ) (row : Row) (r : Results S C) → Keeps S C (index_of_row S C thread row r) r
  unfolding index_of_row
  index_of_row-Keeps thread row r =
      Keeps-bind S C (validate_read S C thread r) _ r (validate_read-Keeps S C thread r) (λ _ r.
        Keeps-if S C (not row.is_attached) (threw _ r) _ r refl (
          Keeps-if S C (of_other_table S C r.table row) (threw _ r) _ r refl
            (index_of-Keeps S C thread row.index r)))

  apply-Keeps :
      (thread : ℕ) (u : Use) (r : Results S C)
      → (apply thread u r).wants_background_updates ≡ r.wants_background_updates
  unfolding apply
  apply-Keeps thread (asks q) r = ask-Keeps S C thread q r
  apply-Keeps thread (finds row) r = index_of_row-Keeps thread row r
  apply-Keeps thread (aggregates agg column) r = aggregate-Keeps thread agg column r
  apply-Keeps thread clears r = clear-Keeps thread r
  apply-Keeps thread queries r = get_query-Keeps thread r
  apply-Keeps thread watches r = async-Keeps thread r
  apply-Keeps thread (takes_view default) r = get_tableview-Keeps thread default r

  apply_all-Keeps :
      (thread : ℕ) (us : List Use) (r : Results S C)
      → (apply_all thread us r).wants_background_updates ≡ r.wants_background_updates
  unfolding apply_all
  apply_all-Keeps thread [] r = refl
  apply_all-Keeps thread (u ∷ us) r =
      apply_all-Keeps thread us (apply thread u r) ∙ apply-Keeps thread u r

  -- Once a table view has been delivered over one that nobody had used, background updates are not
  -- wanted, and until the next delivery they stay so, whatever is done with the Results meanwhile: the
  -- reads, the aggregates, clear, the queries and table views made of them, async, and whether a call
  -- returns or throws.
  pub never_resumed :
      (thread : ℕ) (first_view second_view : C.View) (us : List Use) (r : Results S C)
      → (apply_all thread us (
          set_table_view S C second_view
            (set_table_view S C first_view r))).wants_background_updates
        ≡ false
  unfolding set_table_view
  never_resumed thread first_view second_view us r =
      apply_all-Keeps thread us (set_table_view S C second_view (set_table_view S C first_view r))
