-- ===== src/ColumnInfo/Insertions.antt =====
-- The indices of a column whose link list has only had elements inserted
-- (Realm/ObjectStore/impl/transact_log_handler.cpp) are positions in the list as it becomes.
use realm_cocoa.Base.{
  ℕ, zero, suc, ◌+◌, ◌-◌, ◌≤◌, ◌<◌, ◌≡◌, refl, Bool, true, false, ◌||◌, List, [], ◌∷◌, arith, ltb,
  ◌==◌, if◌then◌else◌, word, length, insert_nth, ap, ◌∙◌,
}
use native.Mathlib.Nat.{add-zero}
use native.Mathlib.Numerals.{add-one}
use realm_cocoa.IndexSet.Ranges.{IndexSet, covers, Ascends}
use realm_cocoa.IndexSet
use realm_cocoa.IndexSet.Add.{add_lem}
use realm_cocoa.IndexSet.InsertAt.{insert_at_lem}
use realm_cocoa.ColumnInfo.{ColumnInfo, none_kind, insert_kind, fresh, append_link_list_change}

-- Which of the `n` positions from `j` on are in the set.
unfoldable pub marks_from : IndexSet → ℕ → ℕ → List Bool
marks_from s j zero = []
marks_from s j (suc n) = covers s j ∷ marks_from s (suc j) n

-- The set `s'` has `index`, and the rest of `s` moved out of its way.
abbrev MakesRoom : ℕ → IndexSet → IndexSet → Type 0
MakesRoom index s s' =
    (j : ℕ) → covers s' j ≡ ((j == index) || (if ltb j index then covers s j else covers s (j - 1)))

marks_from_moved :
    (s s' : IndexSet) (index j n : ℕ)
    → MakesRoom index s s'
    → index ≤ j
    → marks_from s' (suc j) n ≡ marks_from s j n
unfolding marks_from
marks_from_moved s s' index j zero e h = refl
marks_from_moved s s' index j (suc n) e h =
    ground (arith, e (suc j), marks_from_moved s s' index (suc j) n e (omega arith))

marks_from-insert_nth :
    (s s' : IndexSet) (index d j n : ℕ)
    → MakesRoom index s s'
    → j + d ≡ index
    → d ≤ n
    → marks_from s' j (suc n) ≡ insert_nth (marks_from s j n) d true
unfolding marks_from
marks_from-insert_nth s s' index zero j n e h le =
    ground (arith, e j, marks_from_moved s s' index j n e (omega arith))
marks_from-insert_nth s s' index (suc d) j zero e h le = absurd (omega arith)
marks_from-insert_nth s s' index (suc d) j (suc n) e h le =
    ground (arith, e j, marks_from-insert_nth s s' index d (suc j) n e (omega arith) (omega arith))

-- A column that has seen insertions at most, into a list that now has `n` elements.
pub data IsInsertion (n : ℕ) (o : ColumnInfo) : Type 0 where
  untouched : o.kind ≡ none_kind → o.indices ≡ [] → IsInsertion n o
  inserted : o.kind ≡ insert_kind → Ascends 0 n o.indices → IsInsertion n o

module _ (n : ℕ) (w : n + 1 < word) where
  marks_from-link_list_insert :
      (o : ColumnInfo) (i : ℕ)
      → IsInsertion n o
      → i ≤ n
      → let o' = append_link_list_change insert_kind i o in
        IsInsertion (n + 1) o'
        × (marks_from o'.indices 0 (suc n) ≡ insert_nth (marks_from o.indices 0 n) i true)
  unfolding append_link_list_change
  marks_from-link_list_insert o i (untouched k e) h =
      let (asc, added) = add_lem (n + 1) i [] (omega arith) (omega arith) w in
      rw (k, append_link_list_change, e)
        (
          inserted refl asc,
          marks_from-insert_nth [] (IndexSet.add [] i) i i 0 n (λ j. ground (arith, added j))
              (omega arith) h,
        )
  marks_from-link_list_insert o i (inserted k a) h =
      let (asc, added) = insert_at_lem n i o.indices a h w in
      rw (k, append_link_list_change)
        (
          inserted refl asc,
          marks_from-insert_nth o.indices (IndexSet.insert_at o.indices i) i i 0 n added
              (omega arith) h,
        )

-- A run of `link_list_insert` handlers.
abbrev pub insert_all : List ℕ → ColumnInfo → ColumnInfo
insert_all [] o = o
insert_all (i ∷ is) o = insert_all is (append_link_list_change insert_kind i o)

-- The same insertions of one value into a list.
abbrev pub insert_values {ℓ} : {A : Type ℓ} → A → List ℕ → List A → List A
insert_values a [] xs = xs
insert_values a (i ∷ is) xs = insert_values a is (insert_nth xs i a)

-- Each insertion is in range of the list that the ones before it leave.
abbrev pub InRoom : ℕ → List ℕ → Type 0
InRoom n [] = Unit {0}
InRoom n (i ∷ is) = (i ≤ n) × InRoom (suc n) is

insert_all-marks :
    (n : ℕ) (is : List ℕ) (o : ColumnInfo)
    → n + length is < word
    → IsInsertion n o
    → InRoom n is
    → marks_from (insert_all is o).indices 0 (n + length is)
      ≡ insert_values true is (marks_from o.indices 0 n)
insert_all-marks n [] o w r h = rw add-zero
insert_all-marks n (i ∷ is) o w r h =
    let (r', e) = marks_from-link_list_insert n (omega arith) o i r h.0 in
    let rest =
      insert_all-marks (suc n) is (append_link_list_change insert_kind i o) (omega arith)
        (rw (← add-one n) r') h.1 in
    let regroup : n + suc (length is) ≡ suc n + length is = omega arith in
    rw regroup (rest ∙ ap (insert_values true is) e)

-- A list of `n` elements that are all old.
abbrev pub old_elements : ℕ → List Bool
old_elements zero = []
old_elements (suc n) = false ∷ old_elements n

marks_from-nil : (j n : ℕ) → marks_from [] j n ≡ old_elements n
unfolding marks_from
marks_from-nil j zero = refl
marks_from-nil j (suc n) = ap (◌∷◌ false) (marks_from-nil (suc j) n)

-- After insertions into a list of `n` elements, each in range, the indices that the column reports
-- are exactly the positions at which the new elements stand in the end.
pub insert_all_lem :
    (n : ℕ) (is : List ℕ)
    → n + length is < word
    → InRoom n is
    → marks_from (insert_all is fresh).indices 0 (n + length is)
      ≡ insert_values true is (old_elements n)
insert_all_lem n is w h =
    insert_all-marks n is fresh w (untouched refl refl) h
    ∙ ap (insert_values true is) (marks_from-nil 0 n)
