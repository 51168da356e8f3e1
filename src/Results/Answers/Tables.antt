-- ===== src/Results/Answers/Tables.antt =====
-- What Results backed by nothing or by a table answer (Realm/ObjectStore/results.cpp).
use realm_cocoa.Base.{
  ℕ, ◌-◌, ◌≡◌, ◌<◌, refl, ap, sym, ◌∙◌, [], Option, none, some, ltb, ◌==◌, get_elem?, arith,
  if◌then◌else◌,
}
use realm_cocoa.Realm.{SharedGroup}
use realm_cocoa.Results.{
  Core, mode_empty, mode_table, Results, returned, validate_read, of_table, size, look_up, or_throw,
  get, first, last, index_of, table_row,
}
use realm_cocoa.Results.Answers.{
  Question, sizes, firsts, lasts, gets, indexes, number, row, Reply, answers, reply, row_or_refuse,
  ask, outcome, upto,
}
use realm_cocoa.Results.Answers.Rows.{length-from, position_from-from, table-row, table-end}

-- What is asked of `get` are two steps of the code, the second of which may be left out.
module _ (S : SharedGroup) (C : Core) (thread : ℕ) where
  pub get-look_up :
      (i n : ℕ) (x : Option ℕ) (r r' r'' : Results S C)
      → look_up S C thread i r ≡ returned x r'
      → size S C thread r' ≡ returned n r''
      → ask S C thread (gets i) r
        ≡ outcome S C (row_or_refuse i n x) (elim x [ none ↦ r'' | some _ ↦ r' ])
  unfolding get or_throw
  get-look_up i n none r r' r'' e l = rw (e, l) refl
  get-look_up i n (some x) r r' r'' e l = rw e refl

  either-way :
      (i : ℕ) (x : Option ℕ) (n : ℕ) (r : Results S C)
      → outcome S C (row_or_refuse i n x) (elim x [ none ↦ r | some _ ↦ r ])
        ≡ outcome S C (row_or_refuse i n x) r
  either-way i none n r = refl
  either-way i (some x) n r = refl

  size-empty :
      (r : Results S C)
      → r.mode ≡ mode_empty
      → validate_read S C thread r ≡ returned tt r
      → size S C thread r ≡ returned 0 r
  unfolding size
  size-empty r em ok = rw ok (simp em)

  look_up-empty :
      (i : ℕ) (r : Results S C)
      → r.mode ≡ mode_empty
      → validate_read S C thread r ≡ returned tt r
      → look_up S C thread i r ≡ returned none r
  unfolding look_up
  look_up-empty i r em ok = rw ok (simp em)

  pub ask-empty :
      (q : Question) (r : Results S C)
      → r.mode ≡ mode_empty
      → validate_read S C thread r ≡ returned tt r
      → ask S C thread q r ≡ outcome S C (reply q []) r
  unfolding first last index_of
  ask-empty sizes r em ok = rw (size-empty r em ok) refl
  ask-empty firsts r em ok = rw ok (simp em)
  ask-empty lasts r em ok = rw ok (simp em)
  ask-empty (gets i) r em ok =
      get-look_up i 0 none r r r (look_up-empty i r em ok) (size-empty r em ok)
  ask-empty (indexes x) r em ok = rw ok (simp em)

  -- The answers of a table of a size.
  abbrev pub of_size : Question → ℕ → Reply
  of_size sizes n = answers (number n)
  of_size firsts n = answers (row (if n == 0 then none else some 0))
  of_size lasts n = answers (row (if n == 0 then none else some (n - 1)))
  of_size (gets i) n = row_or_refuse i n (if ltb i n then some i else none)
  of_size (indexes x) n = answers (number x)

  size-table :
      (r : Results S C) (t : C.Table)
      → r.mode ≡ mode_table
      → r.table ≡ some t
      → validate_read S C thread r ≡ returned tt r
      → size S C thread r ≡ returned (C.table_size r.world t) r
  unfolding size
  size-table r t em et ok = rw ok (simp (em, of_table, et))

  look_up-table :
      (i : ℕ) (r : Results S C) (t : C.Table)
      → r.mode ≡ mode_table
      → r.table ≡ some t
      → validate_read S C thread r ≡ returned tt r
      → look_up S C thread i r ≡ returned (table_row S C r.world i t) r
  unfolding look_up
  look_up-table i r t em et ok = rw ok (simp (em, of_table, et))

  pub ask-table :
      (q : Question) (r : Results S C) (t : C.Table)
      → r.mode ≡ mode_table
      → r.table ≡ some t
      → validate_read S C thread r ≡ returned tt r
      → ask S C thread q r ≡ outcome S C (of_size q (C.table_size r.world t)) r
  unfolding first last index_of
  ask-table sizes r t em et ok = rw (size-table r t em et ok) refl
  ask-table firsts r t em et ok = rw ok (simp (em, of_table, et))
  ask-table lasts r t em et ok = rw ok (simp (em, of_table, et))
  ask-table (gets i) r t em et ok =
      get-look_up i (C.table_size r.world t) (table_row S C r.world i t) r r r
        (look_up-table i r t em et ok) (size-table r t em et ok)
      ∙ either-way i (table_row S C r.world i t) (C.table_size r.world t) r
  ask-table (indexes x) r t em et ok = rw ok (simp em)

abbrev pub Asks : Question → ℕ → Type 0
Asks (indexes x) n = x < n
Asks sizes n = Unit
Asks firsts n = Unit
Asks lasts n = Unit
Asks (gets i) n = Unit

pub of_size-reply :
    (S : SharedGroup) (C : Core) (thread : ℕ) (q : Question) (n : ℕ)
    → Asks q n
    → of_size S C thread q n ≡ reply q (upto n)
of_size-reply S C thread sizes n h = ap (λ n. answers (number n)) (sym (length-from 0 n))
of_size-reply S C thread firsts n h = ap (λ x. answers (row x)) (table-end n 0 (omega arith))
of_size-reply S C thread lasts n h =
    ap (λ x. answers (row x))
      (table-end n (n - 1) (omega arith)
        ∙ ap (λ m. get_elem? (upto n) (m - 1)) (sym (length-from 0 n)))
of_size-reply S C thread (gets i) n h =
    ap (row_or_refuse i n) (table-row n i)
    ∙ ap (λ m. row_or_refuse i m (get_elem? (upto n) i)) (sym (length-from 0 n))
of_size-reply S C thread (indexes x) n h =
    ap (λ x. answers (number x)) (sym (position_from-from 0 n x (omega arith) (omega (arith, h))))
