-- ===== src/Results/Answers.antt =====
-- The rows that Results (Realm/ObjectStore/results.cpp) stand for, in whichever mode.
pub mod Steps
pub mod Rows
pub mod Tables
pub mod Asked
use realm_cocoa.Base.{
  ℕ, zero, suc, ◌+◌, ◌-◌, ◌≡◌, ◌<◌, ◌⊎◌, inl, inr, refl, Bool, true, false, not, ◌&&◌, List, [],
  ◌∷◌, ◌++◌, Option, none, some, ltb, ◌==◌, if◌then◌else◌, npos, length, get_elem?, empty,
  Bool-cases, arith, incr,
}
use realm_cocoa.Realm.{SharedGroup, Realm}
use realm_cocoa.Results.{
  Core, Mode, mode_empty, mode_table, mode_query, mode_table_view, is_table_view, SortOrder,
  Failure, out_of_bounds, Results, Call, returned, threw, ◌>>=◌, found, validate_read,
  update_tableview, of_view, size, get, first, last, index_of, first_of, last_of, view_row,
  table_row, start_updates,
}

-- The position of the first occurrence, or not_found.
abbrev pub position_from : ℕ → ℕ → List ℕ → ℕ
position_from i row [] = npos
position_from i row (x ∷ xs) = if x == row then i else position_from (i + 1) row xs

abbrev pub from : ℕ → ℕ → List ℕ
from k zero = []
from k (suc n) = k ∷ from (suc k) n

abbrev pub upto : ℕ → List ℕ
upto n = from 0 n

-- What the core library documents of its accessors.
pub record IsCore (C : Core) : Type 0 where
  pub rows : C.World → C.View → List ℕ
  pub size-rows : (w : C.World) (v : C.View) → C.view_size w v ≡ length (rows w v)
  pub get-rows :
      (w : C.World) (v : C.View) (i : ℕ)
      → i < length (rows w v)
      → get_elem? (rows w v) i ≡ some (C.view_get w v i)
  pub find-rows :
      (w : C.World) (v : C.View) (row : ℕ)
      → C.find_by_source_ndx w v row ≡ position_from 0 row (rows w v)
  pub count-rows : (w : C.World) (q : C.Query) → C.count w q ≡ length (rows w (C.find_all w q))
  pub length-sort :
      (w : C.World) (order : SortOrder) (v : C.View)
      → length (rows w (C.sort w order v)) ≡ length (rows w v)
  pub find_all-attached : (w : C.World) (q : C.Query) → C.view_attached w (C.find_all w q) ≡ true
  pub sort-attached :
      (w : C.World) (order : SortOrder) (v : C.View)
      → C.view_attached w v ≡ true
      → C.view_attached w (C.sort w order v) ≡ true
  pub sync-attached :
      (w : C.World) (v : C.View)
      → C.view_attached w v ≡ true
      → C.view_attached w (C.sync_if_needed w v) ≡ true
  pub sync-sync :
      (w : C.World) (v : C.View) → C.sync_if_needed w (C.sync_if_needed w v) ≡ C.sync_if_needed w v
  pub sync-find_all :
      (w : C.World) (q : C.Query) → C.sync_if_needed w (C.find_all w q) ≡ C.find_all w q
  pub sync-sort :
      (w : C.World) (order : SortOrder) (v : C.View)
      → C.sync_if_needed w v ≡ v
      → C.sync_if_needed w (C.sort w order v) ≡ C.sort w order v

module _ (S : SharedGroup) (C : Core) (laws : IsCore C) where
  -- The rows that Results stand for: those that the table, the query or the table view has now.
  abbrev pub contents : Results S C → List ℕ
  contents r = elim r.mode [
    | mode_empty ↦ []
    | mode_table ↦ elim r.table [ none ↦ [] | some t ↦ upto (C.table_size r.world t) ]
    | mode_query ↦ laws.rows r.world (found S C r.world r.query r.sort)
    | mode_table_view ↦ laws.rows r.world (C.sync_if_needed r.world r.table_view)
  ]

  -- Results that the thread may read: those backed by nothing, and those of its own Realm, a table
  -- that is attached and, in that mode, a table view that is attached.
  abbrev pub IsReadable : ℕ → Results S C → Type 0
  IsReadable thread r =
      ((r.mode ≡ mode_empty) × (r.realm ≡ none) × (r.table ≡ none))
      ⊎ ((realm : Realm S) × (t : C.Table) × (r.realm ≡ some realm)
          × (r.table ≡ some t)
          × ((realm.thread_id == thread) ≡ true)
          × (C.table_attached r.world t ≡ true)
          × (is_table_view r.mode && not (C.view_attached r.world r.table_view) ≡ false))

pub data Question : Type 0 where
  sizes firsts lasts : Question
  gets indexes : ℕ → Question

pub data Answer : Type 0 where
  number : ℕ → Answer
  row : Option ℕ → Answer

-- What a sequence of rows answers.
pub data Reply : Type 0 where
  answers : Answer → Reply
  refuses : Failure → Reply

abbrev pub last_row : List ℕ → Option ℕ
last_row xs = get_elem? xs (length xs - 1)

abbrev pub row_or_refuse : ℕ → ℕ → Option ℕ → Reply
row_or_refuse i n none = refuses (out_of_bounds i n)
row_or_refuse i n (some x) = answers (row (some x))

abbrev pub reply : Question → List ℕ → Reply
reply sizes xs = answers (number (length xs))
reply firsts xs = answers (row (get_elem? xs 0))
reply lasts xs = answers (row (last_row xs))
reply (gets i) xs = row_or_refuse i (length xs) (get_elem? xs i)
reply (indexes x) xs = answers (number (position_from 0 x xs))

module _ (S : SharedGroup) (C : Core) where
  -- What the code answers.
  abbrev pub ask : ℕ → Question → Results S C → Call S C Answer
  ask thread sizes r = ◌>>=◌ S C (size S C thread r) (λ n r. returned (number n) r)
  ask thread firsts r = ◌>>=◌ S C (first S C thread r) (λ x r. returned (row x) r)
  ask thread lasts r = ◌>>=◌ S C (last S C thread r) (λ x r. returned (row x) r)
  ask thread (gets i) r = ◌>>=◌ S C (get S C thread i r) (λ x r. returned (row (some x)) r)
  ask thread (indexes x) r = ◌>>=◌ S C (index_of S C thread x r) (λ n r. returned (number n) r)

  abbrev pub outcome : Reply → Results S C → Call S C Answer
  outcome (answers a) r = returned a r
  outcome (refuses e) r = threw e r

-- What Results are after a question: they stand for the same rows, and can be read.
abbrev pub Same : (S : SharedGroup) (C : Core) → IsCore C → ℕ → Results S C → Results S C → Type 0
Same S C laws thread r r' =
    (contents S C laws r' ≡ contents S C laws r) × IsReadable S C laws thread r'
