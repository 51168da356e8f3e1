-- ===== src/TransactLog/Observer/Rows.antt =====
-- `erase_rows` and `clear_table` of Realm/ObjectStore/impl/transact_log_handler.cpp against the rows
-- of the tables: an observer follows its row.
use realm_cocoa.Base.{
  ℕ, zero, suc, ◌+◌, ◌-◌, ◌<◌, ◌≡◌, ◌≢◌, refl, Bool, true, false, not, List, [], ◌∷◌, ◌++◌, Option,
  none, some, arith, ltb, ◌==◌, if◌then◌else◌, length, remove_at, keep_if, get_elem?, set, take,
  All, map, ap, ◌∙◌, Bool-cases, Option-cases, inl, inr, sym, get_elem?-remove_at_below,
  get_elem?-remove_at_above, get_elem?-set_self, get_elem?-set_ne, get_elem?-take,
}
use mathlib.Core.Path.{ap₂}
use mathlib.Core.List.{map-id}
use realm_cocoa.TransactLog.Observer.{
  ObserverState, Observer, Active, is_row, erased, sweep, erase_rows, clear_table, cleared, forget,
}

-- The rows of one table, after a row is erased: those behind it move up, or, unordered, the last
-- row takes its place (Table::move_last_over of the core library).
unfoldable pub move_last_over {ℓ} : {A : Type ℓ} → List A → ℕ → List A
move_last_over rows row = elim (get_elem? rows (length rows - 1)) [
  | none ↦ rows
  | some last ↦ take (length rows - 1) (set rows row last)
]

abbrev pub erase_row {ℓ} : {A : Type ℓ} → List A → ℕ → Bool → List A
erase_row rows row unordered = if unordered then move_last_over rows row else remove_at rows row

-- The rows of every table, by the table's index.
abbrev pub update_table {ℓ} : {A : Type ℓ} → (ℕ → List A) → ℕ → List A → ℕ → List A
update_table rows table new t = if t == table then new else rows t

-- What an observer observes.
abbrev pub observed {ℓ} : {A : Type ℓ} → (ℕ → List A) → ObserverState → Option A
observed rows o = get_elem? (rows o.table_ndx) o.row_ndx

module _ {ℓ} {A : Type ℓ} where
  get_elem?-last : (xs : List A) (i : ℕ) → i < length xs → (x : A) × (get_elem? xs i ≡ some x)
  get_elem?-last [] i h = absurd (omega arith)
  get_elem?-last (x ∷ xs) zero h = (x, refl)
  get_elem?-last (x ∷ xs) (suc i) h = get_elem?-last xs i (omega arith)

  -- A row that stays keeps its index, or was the last and has that of the erased one.
  kept_by_last :
      (rows : List A) (row j : ℕ) (last : A)
      → row < length rows
      → j < length rows
      → j ≢ row
      → get_elem? rows (length rows - 1) ≡ some last
      → get_elem?
          (take (length rows - 1) (set rows row last))
          (if j == length rows - 1 then row else j)
        ≡ get_elem? rows j
  kept_by_last rows row j last h k ne e = elim (Bool-cases (j == length rows - 1)) [
    | inl there ↦
        let j_last : j ≡ length rows - 1 = ground arith in
        rw there (
          get_elem?-take (set rows row last) (length rows - 1) row (omega arith)
          ∙ get_elem?-set_self rows row last h
          ∙ sym e
          ∙ ap (get_elem? rows) (sym j_last))
    | inr other ↦ rw other (
        get_elem?-take (set rows row last) (length rows - 1) j (ground arith)
        ∙ get_elem?-set_ne rows row j last (λ eq. ne (sym eq)))
  ]

  move_last_over-kept :
      (rows : List A) (row j : ℕ)
      → row < length rows
      → j < length rows
      → j ≢ row
      → get_elem? (move_last_over rows row) (if j == length rows - 1 then row else j)
        ≡ get_elem? rows j
  unfolding move_last_over
  move_last_over-kept rows row j h k ne = elim (Option-cases (get_elem? rows (length rows - 1))) [
    | inl gone ↦
        let (last, e) = get_elem?-last rows (length rows - 1) (omega arith) in
        absurd (ground (arith, e))
    | inr (last, e) ↦ rw (e, move_last_over) (kept_by_last rows row j last h k ne e)
  ]

  remove_at-kept :
      (rows : List A) (row j : ℕ)
      → j ≢ row
      → get_elem? (remove_at rows row) (if ltb row j then j - 1 else j) ≡ get_elem? rows j
  remove_at-kept rows row zero ne =
      let e : ltb row zero ≡ false = ground arith in
      rw e (get_elem?-remove_at_below rows row zero (omega arith))
  remove_at-kept rows row (suc j) ne = elim (Bool-cases (ltb row (suc j))) [
    | inl above ↦
        let down : suc j - 1 ≡ j = omega arith in
        rw (above, down) (get_elem?-remove_at_above rows row j (ground arith))
    | inr below ↦ rw below (get_elem?-remove_at_below rows row (suc j) (ground arith))
  ]

-- Where a row stands after another one is erased.
abbrev row_after : ℕ → ℕ → Bool → ℕ → ℕ
row_after row last unordered j =
    if unordered then (if j == last then row else j) else if ltb row j then j - 1 else j

erase_row-kept {ℓ} :
    {A : Type ℓ} (rows : List A) (row j : ℕ) (unordered : Bool)
    → row < length rows
    → j < length rows
    → j ≢ row
    → get_elem? (erase_row rows row unordered) (row_after row (length rows - 1) unordered j)
      ≡ get_elem? rows j
erase_row-kept rows row j true h k ne = move_last_over-kept rows row j h k ne
erase_row-kept rows row j false h k ne = remove_at-kept rows row j ne

abbrev follow : ℕ → ℕ → ℕ → Bool → ObserverState → ObserverState
follow table row last unordered o =
    if o.table_ndx == table
    then record o { row_ndx = row_after row last unordered o.row_ndx }
    else o

erased-follow :
    (table row last : ℕ) (unordered : Bool) (o : ObserverState)
    → erased table row last unordered o
      ≡ (if is_row table row o then none else some (follow table row last unordered o))
unfolding erased
erased-follow table row last true o = ground arith
erased-follow table row last false o = ground arith

-- The observers that a loop keeps and the pointers that it reports.
sweep-keep_if :
    (fate : ObserverState → Option ObserverState) (gone : ObserverState → Bool)
    (f : ObserverState → ObserverState) (os : List ObserverState) (pos : ℕ) (active : Active)
    → ((o : ObserverState) → fate o ≡ (if gone o then none else some (f o)))
    → ((sweep fate os pos active).observers ≡ map f (keep_if (λ o. not (gone o)) os))
      × ((sweep fate os pos active).invalidated ≡ map (λ o. o.info) (keep_if gone os))
unfolding sweep
sweep-keep_if fate gone f [] pos active e = (refl, refl)
sweep-keep_if fate gone f (o ∷ os) pos active e = elim (Bool-cases (gone o)) [
  | inl y ↦ ground (arith, e o, sweep-keep_if fate gone f os pos (forget pos active) e)
  | inr n ↦ ground (arith, e o, sweep-keep_if fate gone f os (pos + 1) active e)
]

observed-follow :
    {A : Type 0} (rows : ℕ → List A) (table row : ℕ) (unordered : Bool) (o : ObserverState)
    → row < length (rows table)
    → (o.table_ndx ≡ table → o.row_ndx < length (rows table))
    → is_row table row o ≡ false
    → observed
        (update_table rows table (erase_row (rows table) row unordered))
        (follow table row (length (rows table) - 1) unordered o)
      ≡ observed rows o
observed-follow rows table row unordered o h v n = elim (Bool-cases (o.table_ndx == table)) [
  | inl same ↦
      let t : o.table_ndx ≡ table = ground arith in
      let ne : o.row_ndx ≢ row = ground arith in
      rw (same, same)
        (erase_row-kept (rows table) row o.row_ndx unordered h (v t) ne
          ∙ ap (λ u. get_elem? (rows u) o.row_ndx) (sym t))
  | inr other ↦ rw (other, other) refl
]

map_kept :
    {A : Type 0} (rows : ℕ → List A) (table row : ℕ) (unordered : Bool) (os : List ObserverState)
    → row < length (rows table)
    → All (λ o. o.table_ndx ≡ table → o.row_ndx < length (rows table)) os
    → map (observed (update_table rows table (erase_row (rows table) row unordered))) (
        map
          (follow table row (length (rows table) - 1) unordered)
          (keep_if (λ o. not (is_row table row o)) os))
      ≡ map (observed rows) (keep_if (λ o. not (is_row table row o)) os)
map_kept rows table row unordered [] h v = refl
map_kept rows table row unordered (o ∷ os) h v = elim (Bool-cases (is_row table row o)) [
  | inl y ↦ rw (y, keep_if) (map_kept rows table row unordered os h v.1)
  | inr n ↦
      rw (n, keep_if)
        (ap₂ ◌∷◌ (observed-follow rows table row unordered o h v.0 n)
          (map_kept rows table row unordered os h v.1))
]

-- When a row of the current table is erased, in order or by moving the last row over it, the
-- observers of that row are taken out and their pointers reported, and every other observer, in its
-- old place among the rest, observes the row that it observed before.
pub erase_rows_lem :
    {A : Type 0} (rows : ℕ → List A) (s : Observer) (row : ℕ) (unordered : Bool)
    → row < length (rows s.current_table)
    → All
        (λ o. o.table_ndx ≡ s.current_table → o.row_ndx < length (rows s.current_table))
        s.observers
    → let table = s.current_table in
      let s' = erase_rows s row (length (rows table) - 1) unordered in
      let rows' = update_table rows table (erase_row (rows table) row unordered) in
      (map (observed rows') s'.observers
        ≡ map (observed rows) (keep_if (λ o. not (is_row table row o)) s.observers))
      × (s'.invalidated
          ≡ s.invalidated ++ map (λ o. o.info) (keep_if (is_row table row) s.observers))
unfolding erase_rows
erase_rows_lem rows s row unordered h v =
    let table = s.current_table in
    let last = length (rows table) - 1 in
    let (kept, lost) =
      sweep-keep_if (erased table row last unordered) (is_row table row)
        (follow table row last unordered) s.observers 0 s.active
        (erased-follow table row last unordered) in
    (rw kept (map_kept rows table row unordered s.observers h v), ap (◌++◌ s.invalidated) lost)

-- Clearing a table invalidates its observers, and leaves those of the other tables as they are.
pub clear_table_lem :
    (s : Observer)
    → ((clear_table s).observers ≡ keep_if (λ o. not (o.table_ndx == s.current_table)) s.observers)
      × ((clear_table s).invalidated
          ≡ s.invalidated
            ++ map (λ o. o.info) (keep_if (λ o. o.table_ndx == s.current_table) s.observers))
unfolding clear_table cleared
clear_table_lem s =
    let (kept, lost) =
      sweep-keep_if (cleared s.current_table) (λ o. o.table_ndx == s.current_table) (λ o. o)
        s.observers 0 s.active (λ o. refl) in
    (kept ∙ map-id _, ap (◌++◌ s.invalidated) lost)
