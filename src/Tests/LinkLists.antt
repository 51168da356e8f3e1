-- ===== src/Tests/LinkLists.antt =====
-- Lists (Realm/ObjectStore/list.cpp) over a link view that is a list of rows.
use realm_cocoa.Base.{
  ℕ, ◌≡◌, refl, Bool, true, false, List, [], ◌∷◌, ◌++◌, Option, none, some, length, get_elem?,
  remove_at, insert_nth, inr, inl,
}
use realm_cocoa.Base
use realm_cocoa.LinkList
use realm_cocoa.LinkList.{LinkView, ListAccessor, out_of_bounds, ok, error, verify_valid_row}
use realm_cocoa.LinkList.Bounds.{
  inserts, moves, moved, swapped, IsLinkView, perform, IsPerformed, perform_lem,
}
use realm_cocoa.Tests.Realms.{group, realm}

abbrev view : LinkView
view = record {
  State = List ℕ;
  is_attached = λ v. true;
  target_table = λ v. 3;
  size = λ v. length v;
  get = λ v i. elim (get_elem? v i) [ none ↦ 0 | some row ↦ row ];
  find = λ v row. 0;
  add = λ v row. v ++ row ∷ [];
  insert = λ v i row. insert_nth v i row;
  move = λ v i j. moved v i j;
  remove = λ v i. remove_at v i;
  clear = λ v. [];
  set = λ v i row. Base.set v i row;
  swap = λ v i j. swapped v i j;
  remove_all_target_rows = λ v. [];
}

view-IsLinkView : IsLinkView view
view-IsLinkView = record {
  rows = λ v. v;
  size-rows = λ v. refl;
  rows-add = λ v row. refl;
  rows-insert = λ v i row h. refl;
  rows-move = λ v i j h k. refl;
  rows-remove = λ v i h. refl;
  rows-clear = λ v. refl;
  rows-set = λ v i row h. refl;
  rows-swap = λ v i j h k. refl;
  rows-remove_all_target_rows = λ v. refl;
}

abbrev three : ListAccessor group view
three = record { realm = realm; link_view = some (7 ∷ 8 ∷ 9 ∷ []) }

moved_three : perform group view 1 three (moves 0 2) ≡ ok (8 ∷ 9 ∷ 7 ∷ [])
unfolding LinkList.move
moved_three = refl

insert_too_far : perform group view 1 three (inserts 4 5) ≡ error (out_of_bounds 4 4)
unfolding LinkList.insert
insert_too_far = refl

perform_lem_example :
    IsPerformed group view view-IsLinkView 1 three
      (moves 0 2)
      (perform group view 1 three (moves 0 2))
perform_lem_example = perform_lem group view view-IsLinkView 1 three (moves 0 2)
