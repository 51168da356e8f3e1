-- ===== src/TransactLog/Observer/Columns.antt =====
-- The vector of columns of an observer (`get_change` in Realm/ObjectStore/impl/transact_log_handler.cpp).
use mathlib.Core.Path.{ap₂}
use realm_cocoa.Base.{
  update_nth, ℕ, zero, suc, ◌+◌, ◌*◌, ◌≤◌, ◌<◌, ◌≡◌, refl, List, [], ◌∷◌, arith, leb, ◌==◌,
  if◌then◌else◌, length, ap, ◌∙◌, Bool-cases, inl, inr, max,
}
use realm_cocoa.ColumnInfo.{ColumnInfo, fresh}
use realm_cocoa.TransactLog.Observer.{ObserverState, change_column, get_change, pad}

-- The column at an index; columns past the end of the vector have not changed.
abbrev pub column_at : List ColumnInfo → ℕ → ColumnInfo
column_at [] i = fresh
column_at (c ∷ cs) zero = c
column_at (c ∷ cs) (suc i) = column_at cs i

column_at-pad :
    (n : ℕ) (cs : List ColumnInfo) (i : ℕ) → length cs ≤ n → column_at (pad n cs) i ≡ column_at cs i
column_at-pad zero [] i h = refl
column_at-pad zero (c ∷ cs) i h = elim h [ ]
column_at-pad (suc n) [] zero h = refl
column_at-pad (suc n) [] (suc i) h = column_at-pad n [] i (omega arith)
column_at-pad (suc n) (c ∷ cs) zero h = refl
column_at-pad (suc n) (c ∷ cs) (suc i) h = column_at-pad n cs i (omega arith)

length-pad : (n : ℕ) (cs : List ColumnInfo) → length cs ≤ n → length (pad n cs) ≡ n
length-pad zero [] h = refl
length-pad zero (c ∷ cs) h = elim h [ ]
length-pad (suc n) [] h = ap suc (length-pad n [] (omega arith))
length-pad (suc n) (c ∷ cs) h = ap suc (length-pad n cs (omega arith))

column_at-update_nth :
    (cs : List ColumnInfo) (i j : ℕ) (f : ColumnInfo → ColumnInfo)
    → i < length cs
    → column_at (update_nth cs i f) j ≡ (if j == i then f (column_at cs i) else column_at cs j)
column_at-update_nth [] i j f h = elim h [ ]
column_at-update_nth (c ∷ cs) zero zero f h = refl
column_at-update_nth (c ∷ cs) zero (suc j) f h = ground arith
column_at-update_nth (c ∷ cs) (suc i) zero f h = ground arith
column_at-update_nth (c ∷ cs) (suc i) (suc j) f h =
    ground (arith, column_at-update_nth cs i j f (omega arith))

-- Growing the vector of columns and assigning through the reference sets the one column, which
-- starts out unchanged if the vector did not reach it, and no other.
pub change_column-column_at :
    (o : ObserverState) (col j : ℕ) (f : ColumnInfo → ColumnInfo)
    → column_at (change_column col f o).changes j
      ≡ (if j == col then f (column_at o.changes col) else column_at o.changes j)
unfolding get_change
change_column-column_at o col j f = elim (Bool-cases (leb (length o.changes) col)) [
  | inl short ↦
      let n = max (length o.changes * 2) (col + 1) in
      let fits : length o.changes ≤ n = ground arith in
      let room : col < length (pad n o.changes) = rw (length-pad n o.changes fits) (omega arith) in
      rw (short, get_change)
        (column_at-update_nth (pad n o.changes) col j f room
          ∙ ap₂ (λ a b. if j == col then f a else b) (column_at-pad n o.changes col fits)
              (column_at-pad n o.changes j fits))
  | inr long ↦ rw (long, get_change) (column_at-update_nth o.changes col j f (ground arith))
]
