-- ===== src/Tests/IndexSets.antt =====
-- Index sets and the columns of link lists (Realm/ObjectStore/index_set.cpp and
-- Realm/ObjectStore/impl/transact_log_handler.cpp) at concrete inputs.
use realm_cocoa.Base.{
  ℕ, ◌+◌, ◌≡◌, ◌||◌, refl, true, false, List, [], ◌∷◌, arith, ltb, ◌==◌, if◌then◌else◌, ◌≤◌, ◌-◌,
}
use realm_cocoa.IndexSet
use realm_cocoa.IndexSet.Ranges.{IndexSet, covers, Ascends}
use realm_cocoa.IndexSet.{shifted}
use realm_cocoa.IndexSet.Add.{add_lem}
use realm_cocoa.IndexSet.InsertAt.{insert_at_lem}
use realm_cocoa.IndexSet.AddShifted.{absent, total, add_shifted_lem}
use realm_cocoa.ColumnInfo.{insert_kind, remove_kind, set_all, fresh, link_list_clear}
use realm_cocoa.ColumnInfo.Removals.{remaining, erase_each, remove_each, positions, erase_each_lem}
use realm_cocoa.ColumnInfo.Insertions.{
  marks_from, insert_all, insert_values, old_elements, insert_all_lem,
}
use realm_cocoa.ColumnInfo.Kinds.{Change, append_all, append_all_lem, link_list_clear_undercounts}

-- {1, 2, 5}
abbrev three : IndexSet
three = record { first = 1; second = 3 } ∷ record { first = 5; second = 6 } ∷ []

add_lem_example :
    Ascends 0 9 (IndexSet.add three 3)
    × ((j : ℕ) → covers (IndexSet.add three 3) j ≡ ((j == 3) || covers three j))
add_lem_example = add_lem 9 3 three (omega arith) (omega arith) (omega arith)

insert_at_lem_example :
    Ascends 0 10 (IndexSet.insert_at three 2)
    × ((j : ℕ)
        → covers (IndexSet.insert_at three 2) j
          ≡ ((j == 2) || (if ltb j 2 then covers three j else covers three (j - 1))))
insert_at_lem_example = insert_at_lem 9 2 three (omega arith) (omega arith) (omega arith)

add_shifted_lem_example :
    let k = (shifted three 2).index in
    (covers three k ≡ false)
    × (absent three k ≡ 2)
    × (k ≤ 2 + total three)
    × Ascends 0 9 (IndexSet.add_shifted three 2)
    × ((j : ℕ) → covers (IndexSet.add_shifted three 2) j ≡ ((j == k) || covers three j))
add_shifted_lem_example = add_shifted_lem 9 2 three (omega arith) (omega arith) (omega arith)

-- The indices 0, 3, 4, 6 are not in the set; the third of them is 4.
shifted_four : (shifted three 2).index ≡ 4
unfolding shifted
shifted_four = refl

add_between :
    IndexSet.add (IndexSet.add (IndexSet.add [] 0) 2) 1
    ≡ record { first = 0; second = 2 } ∷ record { first = 2; second = 3 } ∷ []
unfolding IndexSet.add
add_between = refl

erase_each_lem_example :
    remaining (erase_each (1 ∷ 1 ∷ 2 ∷ []) fresh).indices 5
    ≡ remove_each (1 ∷ 1 ∷ 2 ∷ []) (positions 5)
erase_each_lem_example = erase_each_lem 5 (1 ∷ 1 ∷ 2 ∷ []) (omega arith) (omega arith)

insert_all_lem_example :
    marks_from (insert_all (1 ∷ 0 ∷ 4 ∷ []) fresh).indices 0 (2 + 3)
    ≡ insert_values true (1 ∷ 0 ∷ 4 ∷ []) (old_elements 2)
insert_all_lem_example = insert_all_lem 2 (1 ∷ 0 ∷ 4 ∷ []) (omega arith) (omega arith)

abbrev erase_then_insert : List Change
erase_then_insert = record { kind = insert_kind; index = 0 } ∷ []

append_all_lem_example :
    ((append_all (record { kind = remove_kind; index = 2 } ∷ erase_then_insert) fresh).kind
      ≡ set_all)
    × ((append_all (record { kind = remove_kind; index = 2 } ∷ erase_then_insert) fresh).changed
        ≡ true)
append_all_lem_example =
    append_all_lem (record { kind = remove_kind; index = 2 }) erase_then_insert tt (tt, tt)

link_list_clear_undercounts_example :
    let o = link_list_clear 3 (erase_each (0 ∷ 0 ∷ []) fresh) in
    (o.kind ≡ remove_kind) × (o.changed ≡ true) × ((j : ℕ) → covers o.indices j ≡ ltb j 4)
link_list_clear_undercounts_example = link_list_clear_undercounts 5 (omega arith) (omega arith)
