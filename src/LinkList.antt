-- ===== src/LinkList.antt =====
-- Realm/ObjectStore/list.cpp: the List accessor, which guards the core library's LinkView, an argument.
pub mod Bounds
use realm_cocoa.Base.{
  ℕ, ◌+◌, ◌≤◌, ◌<◌, ◌≡◌, Bool, true, false, not, ◌&&◌, ◌||◌, List, [], ◌∷◌, ◌++◌, Option, none,
  some, ltb, ◌==◌, if◌then◌else◌, length, get_elem?, npos,
}
use realm_cocoa.Realm
use realm_cocoa.Realm.{SharedGroup, is_in_transaction}

-- A row of some table, as far as `find` looks at it.
pub record Row : Type 0 where
  pub is_attached : Bool
  pub table : ℕ
  pub index : ℕ

-- The operations of a LinkView that the source calls.
pub record LinkView : Type 1 where
  pub State : Type 0
  pub is_attached : State → Bool
  pub target_table : State → ℕ
  pub size : State → ℕ
  pub get : State → ℕ → ℕ
  pub find : State → ℕ → ℕ
  pub add : State → ℕ → State
  pub insert : State → ℕ → ℕ → State
  pub move : State → ℕ → ℕ → State
  pub remove : State → ℕ → State
  pub clear : State → State
  pub set : State → ℕ → ℕ → State
  pub swap : State → ℕ → ℕ → State
  pub remove_all_target_rows : State → State

-- The exceptions of a List.
pub data Failure : Type 0 where
  incorrect_thread invalidated invalid_transaction : Failure
  out_of_bounds : ℕ → ℕ → Failure

pub data Result (A : Type 0) : Type 0 where
  ok : A → Result A
  error : Failure → Result A

infixl 5 ◌>>=◌
abbrev pub ◌>>=◌ : {A B : Type 0} → Result A → (A → Result B) → Result B
ok a >>= f = f a
error e >>= f = error e

-- The positions from which a List may insert are one more than those of its elements.
unfoldable pub verify_valid_row : ℕ → ℕ → Bool → Result Unit
verify_valid_row size row_ndx insertion =
    if ltb size row_ndx || not insertion && row_ndx == size
    then error (out_of_bounds row_ndx (if insertion then size + 1 else size))
    else ok tt

module _ (S : SharedGroup) (V : LinkView) where
  pub record ListAccessor : Type 0 where
    pub realm : Realm.Realm S
    pub link_view : Option V.State

  -- Whether the list is there, or the exception of verify_thread.
  unfoldable pub is_valid : ℕ → ListAccessor → Result Bool
  is_valid thread l =
      if not (l.realm.thread_id == thread)
      then error incorrect_thread
      else elim l.link_view [ none ↦ ok false | some v ↦ ok (V.is_attached v) ]

  -- The link view, which is not null then.
  unfoldable pub verify_attached : ℕ → ListAccessor → Result V.State
  unfolding is_valid
  verify_attached thread l = do
    valid ← is_valid thread l
    if not valid
        then error invalidated
        else elim l.link_view [ none ↦ error invalidated | some v ↦ ok v ]

  unfoldable pub verify_in_transaction : ℕ → ListAccessor → Result V.State
  unfolding verify_attached is_in_transaction
  verify_in_transaction thread l = do
    v ← verify_attached thread l
    if not (is_in_transaction S l.realm) then error invalid_transaction else ok v

  unfoldable pub size : ℕ → ListAccessor → Result ℕ
  unfolding verify_attached
  size thread l = do v ← verify_attached thread l; ok (V.size v)

  unfoldable pub get : ℕ → ListAccessor → ℕ → Result ℕ
  unfolding verify_attached verify_valid_row
  get thread l row_ndx = do
    v ← verify_attached thread l
    _ ← verify_valid_row (V.size v) row_ndx false
    ok (V.get v row_ndx)

  unfoldable pub find : ℕ → ListAccessor → Row → Result ℕ
  unfolding verify_attached
  find thread l row = do
    v ← verify_attached thread l
    if not row.is_attached || not (row.table == V.target_table v)
        then ok npos
        else ok (V.find v row.index)

  unfoldable pub add : ℕ → ListAccessor → ℕ → Result V.State
  unfolding verify_in_transaction
  add thread l target = do v ← verify_in_transaction thread l; ok (V.add v target)

  unfoldable pub insert : ℕ → ListAccessor → ℕ → ℕ → Result V.State
  unfolding verify_in_transaction verify_valid_row
  insert thread l row_ndx target = do
    v ← verify_in_transaction thread l
    _ ← verify_valid_row (V.size v) row_ndx true
    ok (V.insert v row_ndx target)

  unfoldable pub move : ℕ → ListAccessor → ℕ → ℕ → Result V.State
  unfolding verify_in_transaction verify_valid_row
  move thread l source_ndx dest_ndx = do
    v ← verify_in_transaction thread l
    _ ← verify_valid_row (V.size v) source_ndx false
    _ ← verify_valid_row (V.size v) dest_ndx false
    ok (V.move v source_ndx dest_ndx)

  unfoldable pub remove : ℕ → ListAccessor → ℕ → Result V.State
  unfolding verify_in_transaction verify_valid_row
  remove thread l row_ndx = do
    v ← verify_in_transaction thread l
    _ ← verify_valid_row (V.size v) row_ndx false
    ok (V.remove v row_ndx)

  unfoldable pub remove_all : ℕ → ListAccessor → Result V.State
  unfolding verify_in_transaction
  remove_all thread l = do v ← verify_in_transaction thread l; ok (V.clear v)

  unfoldable pub set : ℕ → ListAccessor → ℕ → ℕ → Result V.State
  unfolding verify_in_transaction verify_valid_row
  set thread l row_ndx target = do
    v ← verify_in_transaction thread l
    _ ← verify_valid_row (V.size v) row_ndx false
    ok (V.set v row_ndx target)

  unfoldable pub swap : ℕ → ListAccessor → ℕ → ℕ → Result V.State
  unfolding verify_in_transaction verify_valid_row
  swap thread l ndx1 ndx2 = do
    v ← verify_in_transaction thread l
    _ ← verify_valid_row (V.size v) ndx1 false
    _ ← verify_valid_row (V.size v) ndx2 false
    ok (V.swap v ndx1 ndx2)

  unfoldable pub delete_all : ℕ → ListAccessor → Result V.State
  unfolding verify_in_transaction
  delete_all thread l = do v ← verify_in_transaction thread l; ok (V.remove_all_target_rows v)
