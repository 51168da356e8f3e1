-- ===== src/ColumnInfo/Kinds.antt =====
-- Which kind of change a column of Realm/ObjectStore/impl/transact_log_handler.cpp ends with, and
-- what `link_list_clear` and `link_list_move` report.
use realm_cocoa.Base.{
  ℕ, zero, suc, ◌+◌, ◌-◌, ◌≤◌, ◌<◌, ◌≡◌, refl, Bool, true, false, ◌&&◌, ◌||◌, List, [], ◌∷◌, arith,
  ltb, leb, if◌then◌else◌, word, length, ap, ◌∙◌, All, ◌⊎◌, inl, inr, Bool-cases, min, max, subst,
  sym, ◌%◌,
}
use realm_cocoa.IndexSet.Ranges.{IndexSet, covers, Ascends}
use realm_cocoa.IndexSet
use realm_cocoa.IndexSet.{Shifted}
use realm_cocoa.IndexSet.Add.{add_lem}
use realm_cocoa.IndexSet.AddShifted.{total, absent-total}
use realm_cocoa.ColumnInfo.Removals.{remaining, erase_each, length-remaining}
use realm_cocoa.ColumnInfo.{
  ColumnInfo, Kind, none_kind, set_kind, insert_kind, remove_kind, set_all, fresh, append_to, moved,
  cleared, size_before, append_link_list_change, link_list_clear, link_list_move, add_each,
}

-- The kinds that a handler of one change passes.
abbrev pub IsChange : Kind → Type 0
IsChange none_kind = ⊥
IsChange set_all = ⊥
IsChange _ = Unit {0}

abbrev pub same_kind : Kind → Kind → Bool
same_kind none_kind none_kind = true
same_kind set_kind set_kind = true
same_kind insert_kind insert_kind = true
same_kind remove_kind remove_kind = true
same_kind set_all set_all = true
same_kind _ _ = false

pub record Change : Type 0 where
  pub kind : Kind
  pub index : ℕ

abbrev pub append_all : List Change → ColumnInfo → ColumnInfo
append_all [] o = o
append_all (c ∷ cs) o = append_all cs (append_link_list_change c.kind c.index o)

abbrev pub uniform : Kind → List Change → Bool
uniform k [] = true
uniform k (c ∷ cs) = same_kind c.kind k && uniform k cs

append_all-set_all : (cs : List Change) (o : ColumnInfo) → o.kind ≡ set_all → append_all cs o ≡ o
unfolding append_link_list_change
append_all-set_all [] o e = refl
append_all-set_all (c ∷ cs) o e =
    let same : append_to c.kind c.index o o.kind ≡ o = rw e in
    ap (append_all cs) same ∙ append_all-set_all cs o e

append-kind :
    (k k' : Kind) (i : ℕ) (o : ColumnInfo)
    → IsChange k
    → IsChange k'
    → o.kind ≡ k
    → (append_link_list_change k' i o).kind ≡ (if same_kind k' k then k else set_all)
unfolding append_link_list_change append_to
append-kind set_kind set_kind i o c c' e = ground arith
append-kind k k' i o c c' e = ground arith

append_all-kind :
    (k : Kind) (cs : List Change) (o : ColumnInfo)
    → IsChange k
    → All (λ c. IsChange c.kind) cs
    → o.kind ≡ k
    → (append_all cs o).kind ≡ (if uniform k cs then k else set_all)
append_all-kind k [] o c all e = e
append_all-kind k (d ∷ cs) o c all e = elim (Bool-cases (same_kind d.kind k)) [
  | inl same ↦ rw same (
      append_all-kind k cs (append_link_list_change d.kind d.index o) c all.1
        (append-kind k d.kind d.index o c all.0 e ∙ rw same))
  | inr other ↦
      let e' = append-kind k d.kind d.index o c all.0 e ∙ rw other in
      rw other (
        ap (λ (u : ColumnInfo). u.kind)
          (append_all-set_all cs (append_link_list_change d.kind d.index o) e')
        ∙ e')
]

append-changed :
    (k : Kind) (i : ℕ) (o : ColumnInfo)
    → o.changed ≡ true
    → (append_link_list_change k i o).changed ≡ true
unfolding append_link_list_change append_to
append-changed set_kind i o e = ground arith
append-changed k i o e = ground arith

append_all-changed :
    (cs : List Change) (o : ColumnInfo) → o.changed ≡ true → (append_all cs o).changed ≡ true
append_all-changed [] o e = e
append_all-changed (c ∷ cs) o e = append_all-changed cs _ (append-changed c.kind c.index o e)

append-fresh :
    (k : Kind) (i : ℕ)
    → append_link_list_change k i fresh
      ≡ record { changed = true; kind = k; indices = IndexSet.add [] i }
unfolding append_link_list_change append_to
append-fresh set_kind i = refl
append-fresh k i = refl

-- A fresh column that sees one change and then others ends with the kind of the first if all are
-- of that kind, and as a change of the whole list otherwise; either way it is marked as changed.
pub append_all_lem :
    (c : Change) (cs : List Change)
    → IsChange c.kind
    → All (λ d. IsChange d.kind) cs
    → ((append_all (c ∷ cs) fresh).kind ≡ (if uniform c.kind cs then c.kind else set_all))
      × ((append_all (c ∷ cs) fresh).changed ≡ true)
append_all_lem c cs h all =
    subst
      (λ o.
        ((append_all cs o).kind ≡ (if uniform c.kind cs then c.kind else set_all))
        × ((append_all cs o).changed ≡ true))
      (sym (append-fresh c.kind c.index))
      (append_all-kind c.kind cs start h all refl, append_all-changed cs start refl)
  where
    start : ColumnInfo
    start = record { changed = true; kind = c.kind; indices = IndexSet.add [] c.index }

add_each-covers :
    (hi rounds i : ℕ) (s : IndexSet)
    → hi < word
    → Ascends 0 hi s
    → i + rounds ≤ hi
    → Ascends 0 hi (add_each rounds i s)
      × ((j : ℕ) → covers (add_each rounds i s) j ≡ (leb i j && ltb j (i + rounds) || covers s j))
unfolding add_each
add_each-covers hi zero i s w a h = (a, λ j. ground arith)
add_each-covers hi (suc rounds) i s w a h =
    let (asc, added) = add_lem hi i s a (omega arith) w in
    let (asc', rest) = add_each-covers hi rounds (i + 1) (IndexSet.add s i) w asc (omega arith) in
    (asc', λ j. ground (arith, added j, rest j))

-- The span from `lo` to `hi`, both included, joins the indices.
abbrev pub Spans : ℕ → ℕ → ℕ → ColumnInfo → ColumnInfo → Type 0
Spans bound lo hi o o' =
    (o'.kind ≡ set_kind)
    × Ascends 0 bound o'.indices
    × ((j : ℕ) → covers o'.indices j ≡ (leb lo j && leb j hi || covers o.indices j))

moved-Spans :
    (bound lo hi : ℕ) (o : ColumnInfo)
    → bound < word
    → lo ≤ hi
    → hi < bound
    → Ascends 0 bound o.indices
    → (o.kind ≡ none_kind) ⊎ (o.kind ≡ set_kind)
    → Spans bound lo hi o (moved lo hi o o.kind)
unfolding moved
moved-Spans bound lo hi o w le h a (inl e) =
    let (asc, added) = add_each-covers bound (hi + 1 - lo) lo o.indices w a (omega arith) in
    subst (λ k. Spans bound lo hi o (moved lo hi o k)) (sym e)
      (refl, asc, λ j. ground (arith, added j))
moved-Spans bound lo hi o w le h a (inr e) =
    let (asc, added) = add_each-covers bound (hi + 1 - lo) lo o.indices w a (omega arith) in
    subst (λ k. Spans bound lo hi o (moved lo hi o k)) (sym e)
      (e, asc, λ j. ground (arith, added j))

-- A move within a list whose column is untouched, or has seen assignments only, adds the positions
-- from the one end of the move to the other, both included, in whichever direction it goes.
pub link_list_move_lem :
    (hi from to : ℕ) (o : ColumnInfo)
    → hi < word
    → from < hi
    → to < hi
    → Ascends 0 hi o.indices
    → (o.kind ≡ none_kind) ⊎ (o.kind ≡ set_kind)
    → Spans hi (min from to) (max from to) o (link_list_move from to o)
unfolding link_list_move
link_list_move_lem hi from to o w h k a e = elim (Bool-cases (ltb to from)) [
  | inl back ↦
      let lo : min from to ≡ to = ground arith in
      let up : max from to ≡ from = ground arith in
      rw (back, lo, up) (moved-Spans hi to from o w (ground arith) h a e)
  | inr on ↦
      let lo : min from to ≡ from = ground arith in
      let up : max from to ≡ to = ground arith in
      rw (on, lo, up) (moved-Spans hi from to o w (ground arith) k a e)
]

set-covers : (n j : ℕ) → covers (IndexSet.set n) j ≡ ltb j n
unfolding IndexSet.set
set-covers n j = ground arith

-- A clear of a list that the column has no removals or insertions for reports every position of the
-- list as removed, whatever was assigned to before.
pub link_list_clear_lem :
    (n : ℕ) (o : ColumnInfo)
    → (o.kind ≡ none_kind) ⊎ (o.kind ≡ set_kind)
    → ((link_list_clear n o).kind ≡ remove_kind)
      × ((link_list_clear n o).changed ≡ true)
      × ((j : ℕ) → covers (link_list_clear n o).indices j ≡ ltb j n)
unfolding link_list_clear
link_list_clear_lem n o (inl e) = rw (e, cleared) (refl, refl, set-covers n)
link_list_clear_lem n o (inr e) = rw (e, cleared) (refl, refl, set-covers n)

-- After removals that left no two removed positions side by side, a clear of what remains reports
-- every position that the list had at the start.
pub link_list_clear_removed :
    (n : ℕ) (o : ColumnInfo)
    → n < word
    → o.kind ≡ remove_kind
    → Ascends 0 n o.indices
    → IndexSet.size o.indices ≡ total o.indices
    → (j : ℕ) → covers (link_list_clear (length (remaining o.indices n)) o).indices j ≡ ltb j n
unfolding link_list_clear
link_list_clear_removed n o w e a once j =
    let whole : (length (remaining o.indices n) + IndexSet.size o.indices) % word ≡ n =
      omega (arith, length-remaining o.indices n, absent-total n o.indices a) in
    rw (e, cleared, size_before, whole) (set-covers n j)

-- `size()` counts ranges: when the first element of a list of `n` is removed twice, which is one
-- range of two indices, a clear of the `n - 2` that remain reports a removal of exactly the positions
-- below `n - 1`, so that the last position of the list at the start is left out.
pub link_list_clear_undercounts :
    (n : ℕ)
    → 2 ≤ n
    → n < word
    → let o = link_list_clear (n - 2) (erase_each (0 ∷ 0 ∷ []) fresh) in
      (o.kind ≡ remove_kind) × (o.changed ≡ true) × ((j : ℕ) → covers o.indices j ≡ ltb j (n - 1))
unfolding link_list_clear append_link_list_change IndexSet.size IndexSet.add IndexSet.add_shifted
link_list_clear_undercounts n h w =
    let whole : (n - 2 + 1) % word ≡ n - 1 = omega arith in
    (refl, refl, λ j. ap (λ m. covers (IndexSet.set m) j) whole ∙ set-covers (n - 1) j)
