-- ===== src/LinkList/Bounds.antt =====
-- The mutations of a List (Realm/ObjectStore/list.cpp) against lists of rows.
use realm_cocoa.Base.{
  ◌⊎◌, ℕ, ◌+◌, ◌≤◌, ◌<◌, ◌≡◌, refl, ap, ◌∙◌, Bool, true, false, not, ◌&&◌, ◌||◌, List, [], ◌∷◌,
  ◌++◌, Option, none, some, ltb, ◌==◌, if◌then◌else◌, length, get_elem?, remove_at, insert_nth,
  arith, inl, inr, Bool-cases, Option-cases,
}
use realm_cocoa.Base
use realm_cocoa.Realm.{SharedGroup, is_in_transaction}
use realm_cocoa.LinkList.{
  LinkView, Failure, incorrect_thread, invalidated, invalid_transaction, out_of_bounds, Result, ok,
  error, verify_valid_row, ListAccessor, verify_in_transaction, verify_attached, is_valid, add,
  insert, move, remove, remove_all, set, swap, delete_all,
}

pub data Op : Type 0 where
  adds removes : ℕ → Op
  inserts moves sets swaps : ℕ → ℕ → Op
  removes_all deletes_all : Op

abbrev pub moved : List ℕ → ℕ → ℕ → List ℕ
moved rows i j = elim (get_elem? rows i) [
  | none ↦ rows
  | some row ↦ insert_nth (remove_at rows i) j row
]

abbrev pub swapped : List ℕ → ℕ → ℕ → List ℕ
swapped rows i j = elim (get_elem? rows i) [
  | none ↦ rows
  | some a ↦ elim (get_elem? rows j) [ none ↦ rows | some b ↦ Base.set (Base.set rows i b) j a ]
]

-- What an operation is to do to the rows.
abbrev pub apply : Op → List ℕ → List ℕ
apply (adds row) rows = rows ++ row ∷ []
apply (inserts i row) rows = insert_nth rows i row
apply (moves i j) rows = moved rows i j
apply (removes i) rows = remove_at rows i
apply (sets i row) rows = Base.set rows i row
apply (swaps i j) rows = swapped rows i j
apply removes_all rows = []
apply deletes_all rows = []

-- What the core library documents of a link view, by the rows that it stands for. Deleting the rows
-- that a list links to takes them out of it.
pub record IsLinkView (V : LinkView) : Type 0 where
  pub rows : V.State → List ℕ
  pub size-rows : (v : V.State) → V.size v ≡ length (rows v)
  pub rows-add : (v : V.State) (row : ℕ) → rows (V.add v row) ≡ apply (adds row) (rows v)
  pub rows-insert :
      (v : V.State) (i row : ℕ)
      → i ≤ length (rows v)
      → rows (V.insert v i row) ≡ apply (inserts i row) (rows v)
  pub rows-move :
      (v : V.State) (i j : ℕ)
      → i < length (rows v)
      → j < length (rows v)
      → rows (V.move v i j) ≡ apply (moves i j) (rows v)
  pub rows-remove :
      (v : V.State) (i : ℕ) → i < length (rows v) → rows (V.remove v i) ≡ apply (removes i) (rows v)
  pub rows-clear : (v : V.State) → rows (V.clear v) ≡ []
  pub rows-set :
      (v : V.State) (i row : ℕ)
      → i < length (rows v)
      → rows (V.set v i row) ≡ apply (sets i row) (rows v)
  pub rows-swap :
      (v : V.State) (i j : ℕ)
      → i < length (rows v)
      → j < length (rows v)
      → rows (V.swap v i j) ≡ apply (swaps i j) (rows v)
  pub rows-remove_all_target_rows : (v : V.State) → rows (V.remove_all_target_rows v) ≡ []

-- The positions that an operation on a list of `n` rows takes, each with the first that is too large.
abbrev pub limits : Op → ℕ → List (ℕ × ℕ)
limits (inserts i row) n = (i, n + 1) ∷ []
limits (moves i j) n = (i, n) ∷ (j, n) ∷ []
limits (removes i) n = (i, n) ∷ []
limits (sets i row) n = (i, n) ∷ []
limits (swaps i j) n = (i, n) ∷ (j, n) ∷ []
limits _ n = []

abbrev pub fault : List (ℕ × ℕ) → Option Failure
fault [] = none
fault ((i, limit) ∷ rest) =
    let later = fault rest in if ltb i limit then later else some (out_of_bounds i limit)

verify_inside :
    (n i : ℕ) → verify_valid_row n i false ≡ (if ltb i n then ok tt else error (out_of_bounds i n))
unfolding verify_valid_row
verify_inside n i = ground arith

verify_insertion :
    (n i : ℕ)
    → verify_valid_row n i true ≡ (if ltb i (n + 1) then ok tt else error (out_of_bounds i (n + 1)))
unfolding verify_valid_row
verify_insertion n i = ground arith

module _ (S : SharedGroup) (V : LinkView) where
  abbrev pub perform : ℕ → ListAccessor S V → Op → Result V.State
  perform thread l (adds row) = add S V thread l row
  perform thread l (inserts i row) = insert S V thread l i row
  perform thread l (moves i j) = move S V thread l i j
  perform thread l (removes i) = remove S V thread l i
  perform thread l removes_all = remove_all S V thread l
  perform thread l (sets i row) = set S V thread l i row
  perform thread l (swaps i j) = swap S V thread l i j
  perform thread l deletes_all = delete_all S V thread l

  -- The operation of the link view itself.
  abbrev direct : V.State → Op → V.State
  direct v (adds row) = V.add v row
  direct v (inserts i row) = V.insert v i row
  direct v (moves i j) = V.move v i j
  direct v (removes i) = V.remove v i
  direct v removes_all = V.clear v
  direct v (sets i row) = V.set v i row
  direct v (swaps i j) = V.swap v i j
  direct v deletes_all = V.remove_all_target_rows v

  abbrev guarded : Option Failure → V.State → Result V.State
  guarded none v = ok v
  guarded (some e) v = error e

  perform-guarded :
      (thread : ℕ) (l : ListAccessor S V) (v : V.State) (op : Op)
      → verify_in_transaction S V thread l ≡ ok v
      → perform thread l op ≡ guarded (fault (limits op (V.size v))) (direct v op)
  unfolding add insert move remove remove_all set swap delete_all
  perform-guarded thread l v (adds row) h = rw h refl
  perform-guarded thread l v (inserts i row) h = elim (Bool-cases (ltb i (V.size v + 1))) [
    | inl e ↦ rw (h, verify_insertion (V.size v) i, e) refl
    | inr e ↦ rw (h, verify_insertion (V.size v) i, e) refl
  ]
  perform-guarded thread l v (moves i j) h = elim (Bool-cases (ltb i (V.size v))) [
    | inl e ↦ elim (Bool-cases (ltb j (V.size v))) [
      | inl e' ↦ rw (h, verify_inside (V.size v) i, e, verify_inside (V.size v) j, e') refl
      | inr e' ↦ rw (h, verify_inside (V.size v) i, e, verify_inside (V.size v) j, e') refl
    ]
    | inr e ↦ rw (h, verify_inside (V.size v) i, e) refl
  ]
  perform-guarded thread l v (removes i) h = elim (Bool-cases (ltb i (V.size v))) [
    | inl e ↦ rw (h, verify_inside (V.size v) i, e) refl
    | inr e ↦ rw (h, verify_inside (V.size v) i, e) refl
  ]
  perform-guarded thread l v removes_all h = rw h refl
  perform-guarded thread l v (sets i row) h = elim (Bool-cases (ltb i (V.size v))) [
    | inl e ↦ rw (h, verify_inside (V.size v) i, e) refl
    | inr e ↦ rw (h, verify_inside (V.size v) i, e) refl
  ]
  perform-guarded thread l v (swaps i j) h = elim (Bool-cases (ltb i (V.size v))) [
    | inl e ↦ elim (Bool-cases (ltb j (V.size v))) [
      | inl e' ↦ rw (h, verify_inside (V.size v) i, e, verify_inside (V.size v) j, e') refl
      | inr e' ↦ rw (h, verify_inside (V.size v) i, e, verify_inside (V.size v) j, e') refl
    ]
    | inr e ↦ rw (h, verify_inside (V.size v) i, e) refl
  ]
  perform-guarded thread l v deletes_all h = rw h refl

  perform-refused :
      (thread : ℕ) (l : ListAccessor S V) (e : Failure) (op : Op)
      → verify_in_transaction S V thread l ≡ error e
      → perform thread l op ≡ error e
  unfolding add insert move remove remove_all set swap delete_all
  perform-refused thread l e (adds row) h = rw h refl
  perform-refused thread l e (inserts i row) h = rw h refl
  perform-refused thread l e (moves i j) h = rw h refl
  perform-refused thread l e (removes i) h = rw h refl
  perform-refused thread l e removes_all h = rw h refl
  perform-refused thread l e (sets i row) h = rw h refl
  perform-refused thread l e (swaps i j) h = rw h refl
  perform-refused thread l e deletes_all h = rw h refl

  -- Why a list cannot be changed at all.
  abbrev pub unavailable : ℕ → ListAccessor S V → Option Failure
  unavailable thread l =
      if not (l.realm.thread_id == thread) then some incorrect_thread else elim l.link_view [
        | none ↦ some invalidated
        | some v ↦
            if not (V.is_attached v)
            then some invalidated
            else if not (is_in_transaction S l.realm)
            then some invalid_transaction
            else none
      ]

  abbrev Verified : ListAccessor S V → Option Failure → Result V.State → Type 0
  Verified l none (ok v) = l.link_view ≡ some v
  Verified l none (error e) = ⊥
  Verified l (some e) (ok v) = ⊥
  Verified l (some e) (error e') = e ≡ e'

  verify-Verified :
      (thread : ℕ) (l : ListAccessor S V)
      → Verified l (unavailable thread l) (verify_in_transaction S V thread l)
  unfolding verify_in_transaction verify_attached is_valid
  verify-Verified thread l = elim (Bool-cases (l.realm.thread_id == thread)) [
    | inr own ↦ rw own refl
    | inl own ↦ elim (Option-cases l.link_view) [
      | inl e ↦ rw (own, e) refl
      | inr (v, e) ↦ elim (Bool-cases (V.is_attached v)) [
        | inr a ↦ rw (own, e, a) refl
        | inl a ↦ elim (Bool-cases (is_in_transaction S l.realm)) [
          | inl t ↦ rw (own, e, a, t) refl
          | inr t ↦ rw (own, e, a, t) refl
        ]
      ]
    ]
  ]

  module _ (L : IsLinkView V) where
    direct-rows :
        (op : Op) (v : V.State)
        → fault (limits op (length (L.rows v))) ≡ none
        → L.rows (direct v op) ≡ apply op (L.rows v)
    direct-rows (adds row) v h = L.rows-add v row
    direct-rows (inserts i row) v h = L.rows-insert v i row (ground arith)
    direct-rows (moves i j) v h = L.rows-move v i j (ground arith) (ground arith)
    direct-rows (removes i) v h = L.rows-remove v i (ground arith)
    direct-rows removes_all v h = L.rows-clear v
    direct-rows (sets i row) v h = L.rows-set v i row (ground arith)
    direct-rows (swaps i j) v h = L.rows-swap v i j (ground arith) (ground arith)
    direct-rows deletes_all v h = L.rows-remove_all_target_rows v

-- What comes of an operation: the rows that it is to leave, or the first of the reasons against it.
abbrev pub IsPerformed :
    (S : SharedGroup) (V : LinkView)
    → IsLinkView V
    → ℕ
    → ListAccessor S V
    → Op
    → Result V.State
    → Type 0
IsPerformed S V L thread l op (ok v') =
    (v : V.State) × (l.link_view ≡ some v)
    × (unavailable S V thread l ≡ none)
    × (fault (limits op (length (L.rows v))) ≡ none)
    × (L.rows v' ≡ apply op (L.rows v))
IsPerformed S V L thread l op (error e) =
    (unavailable S V thread l ≡ some e)
    ⊎ ((v : V.State) × (l.link_view ≡ some v)
        × (unavailable S V thread l ≡ none)
        × (fault (limits op (length (L.rows v))) ≡ some e))

guarded-IsPerformed :
    (S : SharedGroup) (V : LinkView) (L : IsLinkView V) (thread : ℕ) (l : ListAccessor S V)
    (op : Op) (v : V.State) (f : Option Failure)
    → l.link_view ≡ some v
    → unavailable S V thread l ≡ none
    → fault (limits op (length (L.rows v))) ≡ f
    → IsPerformed S V L thread l op (guarded S V f (direct S V v op))
guarded-IsPerformed S V L thread l op v none at u h = (v, at, u, h, direct-rows S V L op v h)
guarded-IsPerformed S V L thread l op v (some e) at u h = inr (v, at, u, h)

perform-Verified :
    (S : SharedGroup) (V : LinkView) (L : IsLinkView V) (thread : ℕ) (l : ListAccessor S V)
    (op : Op) (f : Option Failure) (r : Result V.State)
    → unavailable S V thread l ≡ f
    → verify_in_transaction S V thread l ≡ r
    → Verified S V l f r
    → IsPerformed S V L thread l op (perform S V thread l op)
perform-Verified S V L thread l op none (ok v) u r h =
    rw (perform-guarded S V thread l v op r, L.size-rows v)
      (guarded-IsPerformed S V L thread l op v (fault (limits op (length (L.rows v)))) h u refl)
perform-Verified S V L thread l op none (error e) u r h = absurd h
perform-Verified S V L thread l op (some e) (ok v) u r h = absurd h
perform-Verified S V L thread l op (some e) (error e') u r h =
    rw (perform-refused S V thread l e' op r) (inl (u ∙ ap some h))

-- A mutation of a list, whatever the state of the list and of its Realm: on the Realm's thread, with
-- the list attached and in a write transaction, and with every position in range, it does to the rows
-- what it is to do. Otherwise it throws, for the first of these reasons that holds, and with the
-- position and the bound that it breaks.
pub perform_lem :
    (S : SharedGroup) (V : LinkView) (L : IsLinkView V) (thread : ℕ) (l : ListAccessor S V)
    (op : Op)
    → IsPerformed S V L thread l op (perform S V thread l op)
perform_lem S V L thread l op =
    perform-Verified S V L thread l op (unavailable S V thread l)
      (verify_in_transaction S V thread l) refl refl (verify-Verified S V thread l)
