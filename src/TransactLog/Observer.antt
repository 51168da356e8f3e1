-- ===== src/TransactLog/Observer.antt =====
-- TransactLogObserver (Realm/ObjectStore/impl/transact_log_handler.cpp) and ObserverState
-- (Realm/ObjectStore/binding_context.hpp): the handlers that keep track of observed rows.
pub mod Rows
pub mod MarkDirty
pub mod Invalidated
pub mod Columns
pub mod LinkLists
pub mod Validated
use realm_cocoa.Base.{
  update_nth, ℕ, zero, suc, ◌+◌, ◌-◌, ◌*◌, ◌%◌, Bool, true, false, not, ◌&&◌, ◌||◌, List, [], ◌∷◌,
  ◌++◌, Option, none, some, ltb, leb, ◌==◌, if◌then◌else◌, incr, decr, length, get_elem?, max,
}
use realm_cocoa.Base.Search.{lower_bound}
use realm_cocoa.ColumnInfo
use realm_cocoa.ColumnInfo.{ColumnInfo, Kind, set_kind, insert_kind, remove_kind, fresh}
use realm_cocoa.TransactLog.{Instr, Outcome, accepted, undefined, ◌>>=◌}
use realm_cocoa.TransactLog
use realm_cocoa.TransactLog.Validator.{Validator, validate, insert_table}

-- `info` is the binding's opaque pointer.
pub record ObserverState : Type 0 where
  pub table_ndx : ℕ
  pub row_ndx : ℕ
  pub info : ℕ
  pub changes : List ColumnInfo

-- m_active_linklist: null, the address of column `col` of the observer at a position, or the
-- address of a ColumnInfo that is gone.
pub data Active : Type 0 where
  null dangling : Active
  points : ℕ → ℕ → Active

pub record Observer : Type 0 where
  pub validator : Validator
  pub open validator use *
  pub observers : List ObserverState
  pub invalidated : List ℕ
  pub active : Active

-- std::vector::resize to a larger size.
abbrev pub pad : ℕ → List ColumnInfo → List ColumnInfo
pad zero cs = cs
pad (suc n) [] = fresh ∷ pad n []
pad (suc n) (c ∷ cs) = c ∷ pad n cs

-- get_change: the columns, grown to hold the index. Column indices stay below the largest size_t.
unfoldable pub get_change : List ColumnInfo → ℕ → List ColumnInfo
get_change changes i =
    if leb (length changes) i then pad (max (length changes * 2) (i + 1)) changes else changes

-- An assignment to a column of an observer.
abbrev pub change_column : ℕ → (ColumnInfo → ColumnInfo) → ObserverState → ObserverState
change_column col f o = record o { changes = update_nth (get_change o.changes col) col f }

-- The address that the growth of a vector of columns leaves behind.
abbrev pub grown : ℕ → List ColumnInfo → ℕ → Active → Active
grown pos changes col null = null
grown pos changes col dangling = dangling
grown pos changes col (points p c) =
    if p == pos && leb (length changes) col then dangling else points p c

-- The ordering of ObserverState against the row looked for.
abbrev pub before_row : ℕ → ℕ → ObserverState → Bool
before_row table row o = ltb o.table_ndx table || o.table_ndx == table && ltb o.row_ndx row

abbrev pub is_row : ℕ → ℕ → ObserverState → Bool
is_row table row o = o.table_ndx == table && o.row_ndx == row

abbrev pub set_changed : ColumnInfo → ColumnInfo
set_changed c = record c { changed = true }

unfoldable pub mark_dirty : Observer → ℕ → ℕ → Observer
unfolding get_change
mark_dirty s row_ndx col_ndx =
    let pos = lower_bound (before_row s.current_table row_ndx) s.observers in
    elim (get_elem? s.observers pos) [
      | none ↦ s
      | some o ↦
          if is_row s.current_table row_ndx o
          then record s {
            observers = update_nth s.observers pos (change_column col_ndx set_changed);
            active = grown pos o.changes col_ndx s.active;
          }
          else s
    ]

unfoldable pub shift_observers : ℕ → List ObserverState → List ObserverState
shift_observers table_ndx [] = []
shift_observers table_ndx (o ∷ os) =
    record o { table_ndx = if leb table_ndx o.table_ndx then incr o.table_ndx else o.table_ndx }
    ∷ shift_observers table_ndx os

-- The erasure of the observer at a position moves those behind it, and their columns, down.
abbrev pub forget : ℕ → Active → Active
forget pos null = null
forget pos dangling = dangling
forget pos (points p c) =
    if p == pos then dangling else if ltb pos p then points (p - 1) c else points p c

pub record Swept : Type 0 where
  pub observers : List ObserverState
  pub invalidated : List ℕ
  pub active : Active

-- The loops of erase_rows and clear_table: `fate` is `none` for an observer to invalidate.
unfoldable pub sweep :
    (ObserverState → Option ObserverState) → List ObserverState → ℕ → Active → Swept
sweep fate [] pos active = record { observers = []; invalidated = []; active = active }
sweep fate (o ∷ os) pos active = elim (fate o) [
  | none ↦
      let rest = sweep fate os pos (forget pos active) in
      record rest { invalidated = o.info ∷ rest.invalidated }
  | some o' ↦
      let rest = sweep fate os (pos + 1) active in record rest { observers = o' ∷ rest.observers }
]

abbrev pub after_sweep : Observer → Swept → Observer
after_sweep s w = record s {
  observers = w.observers;
  invalidated = s.invalidated ++ w.invalidated;
  active = w.active;
}

unfoldable pub erased : ℕ → ℕ → ℕ → Bool → ObserverState → Option ObserverState
erased table row_ndx last_row_ndx unordered o =
    if o.table_ndx == table
    then if o.row_ndx == row_ndx
      then none
      else if unordered && o.row_ndx == last_row_ndx
      then some (record o { row_ndx = row_ndx })
      else if not unordered && ltb row_ndx o.row_ndx
      then some (record o { row_ndx = o.row_ndx - 1 })
      else some o
    else some o

unfoldable pub erase_rows : Observer → ℕ → ℕ → Bool → Observer
unfolding sweep erased
erase_rows s row_ndx last_row_ndx unordered =
    after_sweep s
      (sweep (erased s.current_table row_ndx last_row_ndx unordered) s.observers 0 s.active)

unfoldable pub cleared : ℕ → ObserverState → Option ObserverState
cleared table o = if o.table_ndx == table then none else some o

unfoldable pub clear_table : Observer → Observer
unfolding sweep cleared
clear_table s = after_sweep s (sweep (cleared s.current_table) s.observers 0 s.active)

-- The loop of select_link_list, from a position on.
unfoldable pub select_from : Observer → ℕ → ℕ → List ObserverState → ℕ → Observer
unfolding get_change
select_from s col row [] pos = record s { active = null }
select_from s col row (o ∷ os) pos =
    if is_row s.current_table row o
    then record s {
      observers = update_nth s.observers pos (change_column col (λ c. c));
      active = points pos col;
    }
    else select_from s col row os (pos + 1)

-- A handler that changes the column of the active link list, if there is one.
unfoldable pub change_active : Observer → (ColumnInfo → ColumnInfo) → Outcome Observer
change_active s f = elim s.active [
  | null ↦ accepted s
  | dangling ↦ undefined
  | points pos col ↦ accepted (record s {
    observers = update_nth s.observers pos (λ o. record o { changes = update_nth o.changes col f });
  })
]

-- An instruction that the base class handles.
inherited : Observer → Instr → Outcome Observer
inherited s i = do v ← validate s.validator i; accepted (record s { validator = v })

-- A handler that the base class does not see.
unfoldable pub observe : Observer → Instr → Outcome Observer
unfolding mark_dirty shift_observers insert_table erase_rows clear_table select_from change_active
    inherited
observe s (TransactLog.insert_group_level_table table_ndx) = accepted (record s {
  validator = insert_table s.validator table_ndx;
  observers = shift_observers table_ndx s.observers;
})
observe s TransactLog.insert_empty_rows = accepted s
observe s (TransactLog.erase_rows row last unordered) = accepted (erase_rows s row last unordered)
observe s TransactLog.clear_table = accepted (clear_table s)
observe s (TransactLog.select_link_list col row) = accepted (select_from s col row s.observers 0)
observe s (TransactLog.link_list_set i) =
    change_active s (ColumnInfo.append_link_list_change set_kind i)
observe s (TransactLog.link_list_insert i) =
    change_active s (ColumnInfo.append_link_list_change insert_kind i)
observe s (TransactLog.link_list_erase i) =
    change_active s (ColumnInfo.append_link_list_change remove_kind i)
observe s (TransactLog.link_list_nullify i) =
    change_active s (ColumnInfo.append_link_list_change remove_kind i)
observe s (TransactLog.link_list_swap i j) = change_active s (ColumnInfo.link_list_swap i j)
observe s (TransactLog.link_list_clear n) = change_active s (ColumnInfo.link_list_clear n)
observe s (TransactLog.link_list_move from to) = change_active s (ColumnInfo.link_list_move from to)
observe s (TransactLog.write setter col row) = accepted (mark_dirty s row col)
observe s i = inherited s i
