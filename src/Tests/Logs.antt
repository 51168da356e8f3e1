-- ===== src/Tests/Logs.antt =====
-- Transaction logs (Realm/ObjectStore/impl/transact_log_handler.cpp) at concrete inputs.
use mathlib.Core.List.{Perm}
use realm_cocoa.Base.{ℕ, ◌≡◌, refl, true, false, List, [], ◌∷◌, map, some, none, arith}
use realm_cocoa.Base.Search.{lower_bound}
use realm_cocoa.TransactLog
use realm_cocoa.TransactLog.{Instr, accepted, schema_error, parse, Setter}
use realm_cocoa.TransactLog.Validator.{Validator, initial, validate_log, is_new}
use realm_cocoa.TransactLog.Validator.NewTables.{Table, olds, replay, created_at, validate_log_lem}
use realm_cocoa.TransactLog.Observer.{
  ObserverState, Observer, observe, erase_rows, clear_table, mark_dirty, shift_observers, is_row,
  change_column, set_changed,
}
use realm_cocoa.TransactLog.Observer.Rows.{erase_row, update_table, observed, erase_rows_lem}
use realm_cocoa.TransactLog.Observer.MarkDirty.{
  IsSorted, mark_dirty_lem, observers-IsSorted, mark_dirty_misses,
}
use realm_cocoa.TransactLog.Observer.Invalidated.{accounted, parse-observe-perm}
use realm_cocoa.TransactLog.Observer.LinkLists.{effects, update_first, select_link_list_lem}
use realm_cocoa.TransactLog.Advance.{advance, begin, cancel, Event, start}
use realm_cocoa.TransactLog.Advance.Schema.{advance-olds, begin-observed}

abbrev old_table : ℕ → Table
old_table n = record { created = false; id = n; edits = 0 }

-- A table is made before the one there is, and gets a column.
abbrev new_first : List Instr
new_first =
    TransactLog.insert_group_level_table 0
    ∷ TransactLog.select_table 0
    ∷ TransactLog.insert_column 0
    ∷ []

abbrev new_first_end : Validator
new_first_end = record { current_table = 0; new_tables = 0 ∷ [] }

new_first-accepted : validate_log initial new_first ≡ accepted new_first_end
unfolding validate_log is_new
new_first-accepted = refl

validate_log_lem_example :
    let g = replay (record { list = old_table 7 ∷ []; selected = 0 }) new_first in
    (olds g.list ≡ old_table 7 ∷ []) × ((j : ℕ) → is_new new_first_end j ≡ created_at g.list j)
unfolding replay
validate_log_lem_example =
    validate_log_lem (old_table 7 ∷ []) new_first new_first_end (refl, tt)
      (unfold replay in omega arith) (omega arith) new_first-accepted

-- A column of a table that was there.
old_column :
    validate_log initial (TransactLog.select_table 0 ∷ TransactLog.insert_column 0 ∷ [])
    ≡ schema_error
unfolding validate_log is_new
old_column = refl

abbrev row_1 : ObserverState
row_1 = record { table_ndx = 0; row_ndx = 1; info = 11; changes = [] }

abbrev row_2 : ObserverState
row_2 = record { table_ndx = 0; row_ndx = 2; info = 12; changes = [] }

abbrev watching : Observer
watching = start (row_1 ∷ row_2 ∷ [])

abbrev rows : ℕ → List ℕ
rows t = 100 ∷ 101 ∷ 102 ∷ []

erase_rows_lem_example :
    let s' = erase_rows watching 1 2 true in
    let rows' = update_table rows 0 (erase_row (rows 0) 1 true) in
    (map (observed rows') s'.observers ≡ some 102 ∷ []) × (s'.invalidated ≡ 11 ∷ [])
erase_rows_lem_example =
    erase_rows_lem rows watching 1 true (omega arith) (λ e. omega arith, (λ e. omega arith, tt))

mark_dirty_lem_example :
    (mark_dirty watching 2 3).observers ≡ row_1 ∷ change_column 3 set_changed row_2 ∷ []
mark_dirty_lem_example = mark_dirty_lem watching 2 3 (omega arith)

observers-IsSorted_example :
    IsSorted (shift_observers 0 watching.observers)
    × IsSorted (clear_table watching).observers
    × IsSorted (erase_rows watching 1 2 false).observers
observers-IsSorted_example = observers-IsSorted watching 0 1 2 (omega arith) (omega arith)

mark_dirty_misses_example :
    let s' = erase_rows watching 0 2 true in
    (s'.observers ≡ row_1 ∷ record row_2 { row_ndx = 0 } ∷ []) × (mark_dirty s' 0 3 ≡ s')
mark_dirty_misses_example =
    mark_dirty_misses watching row_1 row_2 0 3 refl refl refl (omega arith) (omega arith)

-- Row 1 is erased, and row 2 is then written to at its new place.
abbrev erase_and_write : List Instr
erase_and_write = TransactLog.erase_rows 1 2 true ∷ TransactLog.write Setter.set_int 0 1 ∷ []

abbrev erased_and_written : Observer
erased_and_written = record watching {
  observers = change_column 0 set_changed (record row_2 { row_ndx = 1 }) ∷ [];
  invalidated = 11 ∷ [];
}

run : parse observe watching erase_and_write ≡ accepted erased_and_written
unfolding parse observe lower_bound
run = refl

parse-observe-perm_example : Perm (accounted erased_and_written) (accounted watching)
parse-observe-perm_example = parse-observe-perm watching erased_and_written erase_and_write run

abbrev link_ops : List Instr
link_ops = TransactLog.link_list_erase 1 ∷ TransactLog.link_list_erase 1 ∷ []

select_link_list_lem_example :
    (t : Observer) × (parse observe watching (TransactLog.select_link_list 4 2 ∷ link_ops)
      ≡ accepted t)
    × (t.observers
        ≡ update_first (is_row 0 2) (change_column 4 (effects link_ops)) watching.observers)
    × (t.invalidated ≡ [])
select_link_list_lem_example = select_link_list_lem watching 4 2 link_ops (tt, (tt, tt))

abbrev silent : List Event
silent = []

advance-olds_example :
    olds (replay (record { list = old_table 7 ∷ []; selected = 0 }) new_first).list
    ≡ old_table 7 ∷ []
advance-olds_example =
    advance-olds none (old_table 7 ∷ []) new_first true silent (refl, tt)
      (unfold replay in omega arith) (omega arith) (unfold advance validate_log is_new in refl)

begin-observed_example :
    (begin (some (row_1 ∷ [])) (some (TransactLog.erase_column 0 ∷ [])) true false ≡ schema_error)
    × (cancel (some (row_1 ∷ [])) (some (TransactLog.erase_column 0 ∷ [])) true ≡ schema_error)
    × (begin none (some (TransactLog.erase_column 0 ∷ [])) true false ≡ accepted [])
    × (cancel none (some (TransactLog.erase_column 0 ∷ [])) true ≡ accepted [])
unfolding parse
begin-observed_example = begin-observed row_1 [] (start (row_1 ∷ [])) [] [] 0 true refl
