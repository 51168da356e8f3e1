-- ===== src/TransactLog/Validator/NewTables.antt =====
-- What TransactLogValidator (Realm/ObjectStore/impl/transact_log_handler.cpp) lets through, against
-- the tables that the log builds.
use realm_cocoa.Base.{
  ℕ, zero, suc, ◌+◌, ◌-◌, ◌≤◌, ◌<◌, ◌≡◌, refl, Bool, true, false, ◌||◌, List, [], ◌∷◌, ◌++◌, arith,
  ltb, ◌==◌, if◌then◌else◌, word, length, insert_nth, remove_at, any, Bool-cases, inl, inr, sym,
  All, get_elem?, none, some, ap, ◌∙◌,
}
use realm_cocoa.TransactLog.{
  Instr, insert_group_level_table, erase_group_level_table, rename_group_level_table,
  move_group_level_table, insert_column, insert_link_column, add_primary_key, set_link_type,
  erase_column, erase_link_column, rename_column, move_column, remove_primary_key,
  select_descriptor, select_table, accepted, parse, >>=-eq-accepted,
}
use realm_cocoa.TransactLog.Validator.{
  Validator, is_new, shift_tables, insert_table, validate, initial, validate_log,
  schema_error_unless_new_table,
}

-- A table, as the log's transaction leaves it: whether the transaction made it, which one it is and
-- how often its columns or its name were changed.
pub record Table : Type 0 where
  pub created : Bool
  pub id : ℕ
  pub edits : ℕ

pub record Tables : Type 0 where
  pub list : List Table
  pub selected : ℕ

abbrev pub edit : List Table → ℕ → List Table
edit [] i = []
edit (t ∷ ts) zero = record t { edits = t.edits + 1 } ∷ ts
edit (t ∷ ts) (suc i) = t ∷ edit ts i

abbrev pub new_table : Table
new_table = record { created = true; id = 0; edits = 0 }

abbrev pub edit_selected : Tables → Tables
edit_selected g = record g { list = edit g.list g.selected }

-- What each instruction does to the tables of the group.
unfoldable pub apply : Tables → Instr → Tables
apply g (insert_group_level_table t) = record g { list = insert_nth g.list t new_table }
apply g (erase_group_level_table t) = record g { list = remove_at g.list t }
apply g (rename_group_level_table t) = record g { list = edit g.list t }
apply g (move_group_level_table from to) = record g { list = edit g.list from }
apply g (insert_column col) = edit_selected g
apply g (insert_link_column col) = edit_selected g
apply g (add_primary_key col) = edit_selected g
apply g (set_link_type col) = edit_selected g
apply g (erase_column col) = edit_selected g
apply g (erase_link_column col) = edit_selected g
apply g (rename_column col) = edit_selected g
apply g (move_column from to) = edit_selected g
apply g remove_primary_key = edit_selected g
apply g (select_table t) = record g { selected = t }
apply g _ = g

unfoldable pub replay : Tables → List Instr → Tables
replay g [] = g
replay g (i ∷ is) = replay (apply g i) is

-- The tables that were there before the transaction.
abbrev pub olds : List Table → List Table
olds [] = []
olds (t ∷ ts) = if t.created then olds ts else t ∷ olds ts

-- A new table is put among those there are.
abbrev pub Fits : ℕ → Instr → Type 0
Fits n (insert_group_level_table t) = t ≤ n
Fits n _ = Unit {0}

abbrev pub FitsLog : Tables → List Instr → Type 0
FitsLog g [] = Unit {0}
FitsLog g (i ∷ is) = Fits (length g.list) i × FitsLog (apply g i) is

abbrev pub created_at : List Table → ℕ → Bool
created_at ts i = elim (get_elem? ts i) [ none ↦ false | some t ↦ t.created ]

abbrev has : ℕ → List ℕ → Bool
has j ts = any (λ t. t == j) ts

shift_tables-has :
    (at j : ℕ) (ts : List ℕ)
    → All (λ t. t + 1 < word) ts
    → has j (shift_tables at ts)
      ≡ (if ltb j at then has j ts else if j == at then false else has (j - 1) ts)
unfolding shift_tables
shift_tables-has at j [] a = ground arith
shift_tables-has at j (t ∷ ts) a = ground (arith, shift_tables-has at j ts a.1)

has-append : (j : ℕ) (xs ys : List ℕ) → has j (xs ++ ys) ≡ (has j xs || has j ys)
has-append j [] ys = refl
has-append j (x ∷ xs) ys = ground (arith, has-append j xs ys)

insert_nth-created_at :
    (ts : List Table) (at j : ℕ)
    → at ≤ length ts
    → created_at (insert_nth ts at new_table) j
      ≡ (if ltb j at then created_at ts j else if j == at then true else created_at ts (j - 1))
insert_nth-created_at ts zero zero h = refl
insert_nth-created_at ts zero (suc j) h = ground arith
insert_nth-created_at [] (suc at) j h = absurd (omega arith)
insert_nth-created_at (t ∷ ts) (suc at) zero h = ground arith
insert_nth-created_at (t ∷ ts) (suc at) (suc zero) h =
    ground (arith, insert_nth-created_at ts at zero)
insert_nth-created_at (t ∷ ts) (suc at) (suc (suc j)) h =
    ground (arith, insert_nth-created_at ts at (suc j))

insert_nth-olds : (ts : List Table) (at : ℕ) → olds (insert_nth ts at new_table) ≡ olds ts
insert_nth-olds ts zero = refl
insert_nth-olds [] (suc at) = refl
insert_nth-olds (t ∷ ts) (suc at) = ground (arith, insert_nth-olds ts at)

edit-olds : (ts : List Table) (i : ℕ) → created_at ts i ≡ true → olds (edit ts i) ≡ olds ts
edit-olds [] i e = refl
edit-olds (t ∷ ts) zero e = ground arith
edit-olds (t ∷ ts) (suc i) e = ground (arith, edit-olds ts i)

edit-created_at : (ts : List Table) (i j : ℕ) → created_at (edit ts i) j ≡ created_at ts j
edit-created_at [] i j = refl
edit-created_at (t ∷ ts) zero zero = refl
edit-created_at (t ∷ ts) zero (suc j) = refl
edit-created_at (t ∷ ts) (suc i) zero = refl
edit-created_at (t ∷ ts) (suc i) (suc j) = edit-created_at ts i j

length-edit : (ts : List Table) (i : ℕ) → length (edit ts i) ≡ length ts
length-edit [] i = refl
length-edit (t ∷ ts) zero = refl
length-edit (t ∷ ts) (suc i) = ap suc (length-edit ts i)

length-insert_nth :
    (ts : List Table) (at : ℕ) (t : Table)
    → at ≤ length ts
    → length (insert_nth ts at t) ≡ length ts + 1
length-insert_nth ts zero t h = omega arith
length-insert_nth [] (suc at) t h = absurd (omega arith)
length-insert_nth (u ∷ ts) (suc at) t h = omega (arith, length-insert_nth ts at t (omega arith))

shift_tables-All :
    (at n : ℕ) (ts : List ℕ)
    → n + 1 < word
    → at ≤ n
    → All (λ t. t < n) ts
    → All (λ t. t < n + 1) (shift_tables at ts ++ at ∷ [])
unfolding shift_tables
shift_tables-All at n [] w h a = omega arith
shift_tables-All at n (t ∷ ts) w h a = ground (arith, shift_tables-All at n ts w h a.1)

All-weaken : (n : ℕ) (ts : List ℕ) → n + 1 < word → All (λ t. t < n) ts → All (λ t. t + 1 < word) ts
All-weaken n [] w a = tt
All-weaken n (t ∷ ts) w a = (omega arith, All-weaken n ts w a.1)

-- The validator's new tables are exactly those that the transaction made.
pub record Agrees (v : Validator) (g : Tables) : Type 0 where
  pub exact : (j : ℕ) → is_new v j ≡ created_at g.list j
  pub bounded : All (λ t. t < length g.list) v.new_tables
  pub current : v.current_table ≡ g.selected

pub record Kept (v : Validator) (g g' : Tables) : Type 0 where
  pub agrees : Agrees v g'
  pub olds_same : olds g'.list ≡ olds g.list
  pub longer : length g'.list ≤ length g.list + 1

insert_table-Kept :
    (v : Validator) (g : Tables) (at : ℕ)
    → Agrees v g
    → at ≤ length g.list
    → length g.list + 1 < word
    → Kept (insert_table v at) g (apply g (insert_group_level_table at))
unfolding insert_table apply is_new
insert_table-Kept v g at h le w = record {
  agrees = record {
    exact = λ j. ground (
      arith,
      shift_tables-has at j v.new_tables (All-weaken (length g.list) v.new_tables w h.bounded),
      has-append j (shift_tables at v.new_tables) (at ∷ []),
      insert_nth-created_at g.list at j le,
      h.exact j,
      h.exact (j - 1),
    );
    bounded =
        rw (length-insert_nth g.list at new_table le)
          (shift_tables-All at (length g.list) v.new_tables w le h.bounded);
    current = h.current;
  };
  olds_same = insert_nth-olds g.list at;
  longer = omega (arith, length-insert_nth g.list at new_table le);
}

edit_selected-Kept :
    (v v' : Validator) (g : Tables)
    → Agrees v g
    → schema_error_unless_new_table v ≡ accepted v'
    → Kept v' g (edit_selected g)
unfolding schema_error_unless_new_table
edit_selected-Kept v v' g h e = elim (Bool-cases (is_new v v.current_table)) [
  | inl new ↦
      let same : v ≡ v' = ground arith in
      let made : created_at g.list g.selected ≡ true =
        ground (arith, h.exact v.current_table, h.current) in
      rw (← same) (record {
        agrees = record {
          exact = λ j. h.exact j ∙ sym (edit-created_at g.list g.selected j);
          bounded = rw length-edit h.bounded;
          current = h.current;
        };
        olds_same = edit-olds g.list g.selected made;
        longer = omega (arith, length-edit g.list g.selected);
      })
  | inr old ↦ absurd (ground arith)
]

unchanged-Kept : (v v' : Validator) (g : Tables) → Agrees v g → v ≡ v' → Kept v' g g
unchanged-Kept v v' g h e = rw (← e) (record { agrees = h; olds_same = refl; longer = omega arith })

validate-Kept :
    (v v' : Validator) (g : Tables) (i : Instr)
    → Agrees v g
    → Fits (length g.list) i
    → length g.list + 1 < word
    → validate v i ≡ accepted v'
    → Kept v' g (apply g i)
unfolding validate apply
validate-Kept v v' g (insert_group_level_table at) h f w e =
    let same : insert_table v at ≡ v' = cc in rw (← same) (insert_table-Kept v g at h f w)
validate-Kept v v' g (insert_column col) h f w e = edit_selected-Kept v v' g h e
validate-Kept v v' g (insert_link_column col) h f w e = edit_selected-Kept v v' g h e
validate-Kept v v' g (add_primary_key col) h f w e = edit_selected-Kept v v' g h e
validate-Kept v v' g (set_link_type col) h f w e = edit_selected-Kept v v' g h e
validate-Kept v v' g (select_table t) h f w e =
    let same : record v { current_table = t } ≡ v' = cc in
    rw (← same) (record {
      agrees = record { exact = λ j. h.exact j; bounded = h.bounded; current = refl };
      olds_same = refl;
      longer = omega arith;
    })
validate-Kept v v' g (select_descriptor levels) h f w e = unchanged-Kept v v' g h (ground arith)
validate-Kept v v' g (erase_group_level_table t) h f w e = cc
validate-Kept v v' g (rename_group_level_table t) h f w e = cc
validate-Kept v v' g (move_group_level_table from to) h f w e = cc
validate-Kept v v' g (erase_column col) h f w e = cc
validate-Kept v v' g (erase_link_column col) h f w e = cc
validate-Kept v v' g (rename_column col) h f w e = cc
validate-Kept v v' g (move_column from to) h f w e = cc
validate-Kept v v' g remove_primary_key h f w e = cc
validate-Kept v v' g _ h f w e = unchanged-Kept v v' g h (cc)

parse-Kept :
    (v v' : Validator) (g : Tables) (log : List Instr)
    → Agrees v g
    → FitsLog g log
    → length g.list + length log < word
    → parse validate v log ≡ accepted v'
    → Agrees v' (replay g log) × (olds (replay g log).list ≡ olds g.list)
unfolding parse replay
parse-Kept v v' g [] h f w e = let same : v ≡ v' = cc in rw (← same) (h, refl)
parse-Kept v v' g (i ∷ log) h f w e =
    let (u, first, rest) = >>=-eq-accepted (validate v i) (λ u. parse validate u log) e in
    let kept = validate-Kept v u g i h f.0 (omega arith) first in
    let (agrees, same) =
      parse-Kept u v' (apply g i) log kept.agrees f.1 (omega (arith, kept.longer)) rest in
    (agrees, same ∙ kept.olds_same)

created_at-false :
    (ts : List Table) (j : ℕ) → All (λ t. t.created ≡ false) ts → created_at ts j ≡ false
created_at-false [] j a = refl
created_at-false (t ∷ ts) zero a = a.0
created_at-false (t ∷ ts) (suc j) a = created_at-false ts j a.1

olds-All : (ts : List Table) → All (λ t. t.created ≡ false) ts → olds ts ≡ ts
olds-All [] a = refl
olds-All (t ∷ ts) a = ground (arith, a.0, olds-All ts a.1)

-- A log that the validator accepts, over tables that all were there before it, leaves those tables
-- as they were: none is gone, moved past another, renamed or given a column. And the tables that the
-- validator counts as new are, at each index, those that the log has made.
pub validate_log_lem :
    (ts : List Table) (log : List Instr) (v : Validator)
    → All (λ t. t.created ≡ false) ts
    → FitsLog (record { list = ts; selected = 0 }) log
    → length ts + length log < word
    → validate_log initial log ≡ accepted v
    → let g = replay (record { list = ts; selected = 0 }) log in
      (olds g.list ≡ ts) × ((j : ℕ) → is_new v j ≡ created_at g.list j)
unfolding validate_log
validate_log_lem ts log v old f w e =
    let start : Agrees initial (record { list = ts; selected = 0 }) = record {
      exact = λ j. unfold is_new in sym (created_at-false ts j old);
      bounded = tt;
      current = refl;
    } in
    let (agrees, same) =
      parse-Kept initial v (record { list = ts; selected = 0 }) log start f w e in
    (same ∙ olds-All ts old, agrees.exact)
