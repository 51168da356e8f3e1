-- ===== src/TransactLog/Observer/MarkDirty.antt =====
-- `mark_dirty` (Realm/ObjectStore/impl/transact_log_handler.cpp) finds its observer by a binary
-- search, which rests on the order of the observers.
use realm_cocoa.Base.{
  update_nth, ℕ, ◌+◌, ◌<◌, ◌≡◌, refl, true, false, List, [], ◌∷◌, Option, none, some, arith, leb,
  if◌then◌else◌, get_elem?, All, map, Bool-cases, Option-cases, inl, inr, ◌⊎◌, incr, word,
}
use realm_cocoa.Base.Search.{lower_bound, lower_bound-point, point, IsMonotone}
use realm_cocoa.TransactLog.Observer.{
  ObserverState, Observer, before_row, is_row, change_column, set_changed, mark_dirty, erase_rows,
  erased, sweep, shift_observers, Active, forget, clear_table, cleared,
}

-- The order of observers: by table, then by row; no row has two observers.
abbrev pub Precedes : ObserverState → ObserverState → Type 0
Precedes o p = (o.table_ndx < p.table_ndx) ⊎ ((o.table_ndx ≡ p.table_ndx) × (o.row_ndx < p.row_ndx))

abbrev pub IsSorted : List ObserverState → Type 0
IsSorted [] = Unit {0}
IsSorted (o ∷ os) = All (Precedes o) os × IsSorted os

module _ (table row : ℕ) where
  behind_row :
      (o : ObserverState) (os : List ObserverState)
      → before_row table row o ≡ false
      → All (Precedes o) os
      → All (λ p. before_row table row p ≡ false) os
  behind_row o [] e a = tt
  behind_row o (p ∷ os) e a = (ground (arith, a.0), behind_row o os e a.1)

  IsSorted-IsMonotone :
      (os : List ObserverState) → IsSorted os → IsMonotone (before_row table row) os
  IsSorted-IsMonotone [] s = tt
  IsSorted-IsMonotone (o ∷ os) s = (λ e. behind_row o os e s.0, IsSorted-IsMonotone os s.1)

  -- What an assignment through the search's result does.
  abbrev update_found :
      (ObserverState → ObserverState) → List ObserverState → ℕ → List ObserverState
  update_found f os pos = elim (get_elem? os pos) [
    | none ↦ os
    | some o ↦ if is_row table row o then update_nth os pos f else os
  ]

  map_behind :
      (f : ObserverState → ObserverState) (o : ObserverState) (os : List ObserverState)
      → before_row table row o ≡ false
      → All (Precedes o) os
      → map (λ p. if is_row table row p then f p else p) os ≡ os
  map_behind f o [] e a = refl
  map_behind f o (p ∷ os) e a =
      let past : is_row table row p ≡ false = ground (arith, a.0) in
      ground (arith, map_behind f o os e a.1)

  update_found-map :
      (f : ObserverState → ObserverState) (os : List ObserverState)
      → IsSorted os
      → update_found f os (point (before_row table row) os)
        ≡ map (λ p. if is_row table row p then f p else p) os
  update_found-map f [] s = refl
  update_found-map f (o ∷ os) s = elim (Bool-cases (before_row table row o)) [
    | inl before ↦ ground (arith, update_found-map f os s.1)
    | inr here ↦ ground (arith, map_behind f o os here s.0)
  ]

-- With the observers in order, `mark_dirty` marks the column as changed for the observer of the
-- row, if there is one, and touches no other.
pub mark_dirty_lem :
    (s : Observer) (row col : ℕ)
    → IsSorted s.observers
    → (mark_dirty s row col).observers
      ≡ map
          (λ o. if is_row s.current_table row o then change_column col set_changed o else o)
          s.observers
unfolding mark_dirty
mark_dirty_lem s row col h =
    let less = before_row s.current_table row in
    let at =
      lower_bound-point less s.observers (IsSorted-IsMonotone s.current_table row s.observers h) in
    let found =
      update_found-map s.current_table row (change_column col set_changed) s.observers h in
    elim (Option-cases (get_elem? s.observers (point less s.observers))) [
      | inl gone ↦ rw (at, mark_dirty) (ground (arith, gone, found))
      | inr (o, here) ↦ rw (at, mark_dirty) (ground (arith, here, found))
    ]

module _ (fate : ObserverState → Option ObserverState)
    (order : (o p o' p' : ObserverState)
      → Precedes o p
      → fate o ≡ some o'
      → fate p ≡ some p'
      → Precedes o' p') where
  sweep-All :
      (o o' : ObserverState) (os : List ObserverState) (pos : ℕ) (active : Active)
      → fate o ≡ some o'
      → All (Precedes o) os
      → All (Precedes o') (sweep fate os pos active).observers
  unfolding sweep
  sweep-All o o' [] pos active e a = tt
  sweep-All o o' (p ∷ os) pos active e a = elim (Option-cases (fate p)) [
    | inl gone ↦ rw (gone, sweep) (sweep-All o o' os pos (forget pos active) e a.1)
    | inr (p', kept) ↦
        rw (kept, sweep) (order o p o' p' a.0 e kept, sweep-All o o' os (pos + 1) active e a.1)
  ]

  sweep-IsSorted :
      (os : List ObserverState) (pos : ℕ) (active : Active)
      → IsSorted os
      → IsSorted (sweep fate os pos active).observers
  unfolding sweep
  sweep-IsSorted [] pos active s = tt
  sweep-IsSorted (o ∷ os) pos active s = elim (Option-cases (fate o)) [
    | inl gone ↦ rw (gone, sweep) (sweep-IsSorted os pos (forget pos active) s.1)
    | inr (o', kept) ↦
        rw (kept, sweep)
          (sweep-All o o' os (pos + 1) active kept s.0, sweep-IsSorted os (pos + 1) active s.1)
  ]

erased-order :
    (table row last : ℕ) (o p o' p' : ObserverState)
    → Precedes o p
    → erased table row last false o ≡ some o'
    → erased table row last false p ≡ some p'
    → Precedes o' p'
unfolding erased
erased-order table row last o p o' p' h e f = ground arith

cleared-order :
    (table : ℕ) (o p o' p' : ObserverState)
    → Precedes o p
    → cleared table o ≡ some o'
    → cleared table p ≡ some p'
    → Precedes o' p'
unfolding cleared
cleared-order table o p o' p' h e f = ground arith

shift_observers-All :
    (table : ℕ) (o : ObserverState) (os : List ObserverState)
    → All (λ p. p.table_ndx + 1 < word) (o ∷ os)
    → All (Precedes o) os
    → All
        (Precedes (record o {
          table_ndx = if leb table o.table_ndx then incr o.table_ndx else o.table_ndx;
        }))
        (shift_observers table os)
unfolding shift_observers
shift_observers-All table o [] b a = tt
shift_observers-All table o (p ∷ os) b a =
    (ground (arith, b.1, a.0), shift_observers-All table o os (b.0, b.1.1) a.1)

shift_observers-IsSorted :
    (table : ℕ) (os : List ObserverState)
    → All (λ p. p.table_ndx + 1 < word) os
    → IsSorted os
    → IsSorted (shift_observers table os)
unfolding shift_observers
shift_observers-IsSorted table [] b s = tt
shift_observers-IsSorted table (o ∷ os) b s =
    (shift_observers-All table o os b s.0, shift_observers-IsSorted table os b.1 s.1)

-- The order that the search needs survives the insertion of a table, the clearing of one and the
-- erasure of a row in order.
pub observers-IsSorted :
    (s : Observer) (table row last : ℕ)
    → All (λ o. o.table_ndx + 1 < word) s.observers
    → IsSorted s.observers
    → IsSorted (shift_observers table s.observers)
      × IsSorted (clear_table s).observers
      × IsSorted (erase_rows s row last false).observers
unfolding clear_table erase_rows
observers-IsSorted s table row last b h = (
  shift_observers-IsSorted table s.observers b h,
  sweep-IsSorted (cleared s.current_table) (cleared-order s.current_table) s.observers 0 s.active h,
  sweep-IsSorted (erased s.current_table row last false) (erased-order s.current_table row last)
      s.observers 0 s.active h,
)

swap_last :
    (s : Observer) (o p : ObserverState) (row : ℕ)
    → s.observers ≡ o ∷ p ∷ []
    → o.table_ndx ≡ s.current_table
    → p.table_ndx ≡ s.current_table
    → row < o.row_ndx
    → o.row_ndx < p.row_ndx
    → (erase_rows s row p.row_ndx true).observers ≡ o ∷ record p { row_ndx = row } ∷ []
unfolding erase_rows
swap_last s o p row e a b h k = ground arith

-- A row that stands behind a greater one is not found.
mark_dirty_ahead :
    (s : Observer) (o p : ObserverState) (row col : ℕ)
    → s.observers ≡ o ∷ p ∷ []
    → o.table_ndx ≡ s.current_table
    → p.table_ndx ≡ s.current_table
    → row < o.row_ndx
    → p.row_ndx ≡ row
    → mark_dirty s row col ≡ s
unfolding mark_dirty lower_bound
mark_dirty_ahead s o p row col e a b h k = ground arith

-- It does not survive the unordered erasure, which the search is not told of: where the last row
-- moves below another observed row, a later assignment to the moved row is found for no observer,
-- and no column is marked.
pub mark_dirty_misses :
    (s : Observer) (o p : ObserverState) (row col : ℕ)
    → s.observers ≡ o ∷ p ∷ []
    → o.table_ndx ≡ s.current_table
    → p.table_ndx ≡ s.current_table
    → row < o.row_ndx
    → o.row_ndx < p.row_ndx
    → let s' = erase_rows s row p.row_ndx true in
      (s'.observers ≡ o ∷ record p { row_ndx = row } ∷ []) × (mark_dirty s' row col ≡ s')
unfolding erase_rows
mark_dirty_misses s o p row col e a b h k =
    let moved : (erase_rows s row p.row_ndx true).observers ≡ o ∷ record p { row_ndx = row } ∷ [] =
      swap_last s o p row e a b h k in
    (
      moved,
      mark_dirty_ahead (erase_rows s row p.row_ndx true) o (record p { row_ndx = row }) row col
          moved a b h refl,
    )
