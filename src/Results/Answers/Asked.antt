-- ===== src/Results/Answers/Asked.antt =====
-- What Results answer (size, look_up, or_throw, get, first, last and index_of of Realm/ObjectStore/results.cpp).
use realm_cocoa.Base.{
  ℕ, ◌≡◌, ◌⊎◌, inl, inr, refl, ap, sym, ◌∙◌, subst, List, Option, none, some, length, get_elem?,
  empty, Bool-cases,
}
use realm_cocoa.Realm.{SharedGroup}
use realm_cocoa.Results.{
  Core, Mode, mode_empty, mode_table, mode_query, mode_table_view, found, Results, returned,
  validate_read, of_view, size, look_up, first, last, index_of, first_of, last_of, view_row,
}
use realm_cocoa.Results.Answers.{
  IsCore, contents, IsReadable, Question, sizes, firsts, lasts, gets, indexes, reply, ask, outcome,
  Same, position_from, upto, last_row,
}
use realm_cocoa.Results.Answers.Rows.{view-row, view-first, view-last}
use realm_cocoa.Results.Answers.Steps.{validate_ok, of_view_lem, Viewed}
use realm_cocoa.Results.Answers.Tables.{get-look_up, ask-empty, ask-table, of_size-reply, Asks}

module _ (S : SharedGroup) (C : Core) (laws : IsCore C) (thread : ℕ) where
  -- A question is about a row of the table.
  abbrev pub IsAsked : C.World → Option C.Table → Question → Type 0
  IsAsked w none q = Unit
  IsAsked w (some t) q = Asks q (C.table_size w t)

  abbrev pub Answered : Question → Results S C → Type 0
  Answered q r =
      (r' : Results S C) × (ask S C thread q r ≡ outcome S C (reply q (contents S C laws r)) r')
      × Same S C laws thread r r'

  abbrev HasView : Results S C → Type 0
  HasView r = (r.mode ≡ mode_query) ⊎ (r.mode ≡ mode_table_view)

  length-found :
      (r : Results S C)
      → C.count r.world r.query ≡ length (laws.rows r.world (found S C r.world r.query r.sort))
  length-found r = elim (Bool-cases (empty r.sort.column_indices)) [
    | inl b ↦ rw b (laws.count-rows r.world r.query)
    | inr b ↦ rw b (
        laws.count-rows r.world r.query
        ∙ sym (laws.length-sort r.world r.sort (C.find_all r.world r.query)))
  ]

  contents-query :
      (r : Results S C)
      → r.mode ≡ mode_query
      → contents S C laws r ≡ laws.rows r.world (found S C r.world r.query r.sort)
  contents-query r em = rw (em, contents) refl

  size-step :
      (r : Results S C)
      → r.mode ≡ mode_table_view
      → validate_read S C thread r ≡ returned tt r
      → size S C thread r ≡ of_view S C thread C.view_size r
  unfolding size
  size-step r em ok = rw ok (simp em)

  size-count :
      (r : Results S C)
      → r.mode ≡ mode_query
      → validate_read S C thread r ≡ returned tt r
      → size S C thread r ≡ returned (C.count r.world r.query) r
  unfolding size
  size-count r em ok = rw ok (simp em)

  first-step :
      (r : Results S C)
      → HasView r
      → validate_read S C thread r ≡ returned tt r
      → first S C thread r ≡ of_view S C thread (first_of S C) r
  unfolding first
  first-step r (inl em) ok = rw ok (simp em)
  first-step r (inr em) ok = rw ok (simp em)

  last-step :
      (r : Results S C)
      → HasView r
      → validate_read S C thread r ≡ returned tt r
      → last S C thread r ≡ of_view S C thread (last_of S C) r
  unfolding last
  last-step r (inl em) ok = rw ok (simp em)
  last-step r (inr em) ok = rw ok (simp em)

  index_of-step :
      (x : ℕ) (r : Results S C)
      → HasView r
      → validate_read S C thread r ≡ returned tt r
      → index_of S C thread x r ≡ of_view S C thread (λ w v. C.find_by_source_ndx w v x) r
  unfolding index_of
  index_of-step x r (inl em) ok = rw ok (simp em)
  index_of-step x r (inr em) ok = rw ok (simp em)

  look_up-step :
      (i : ℕ) (r : Results S C)
      → HasView r
      → validate_read S C thread r ≡ returned tt r
      → look_up S C thread i r ≡ of_view S C thread (view_row S C i) r
  unfolding look_up
  look_up-step i r (inl em) ok = rw ok (simp em)
  look_up-step i r (inr em) ok = rw ok (simp em)

  -- A read through the view gives what the same read of the rows does.
  through :
      {A : Type 0} (f : C.World → C.View → A) (g : List ℕ → A)
      → ((w : C.World) (v : C.View) → f w v ≡ g (laws.rows w v))
      → (r : Results S C) → HasView r
      → IsReadable S C laws thread r
      → (r' : Results S C) × (of_view S C thread f r ≡ returned (g (contents S C laws r)) r')
        × Viewed S C laws thread r r'
  through f g same r m h =
      let (r', e, v) = of_view_lem S C laws thread f r m h in
      (r', e ∙ ap (λ a. returned a r') (same r'.world r'.table_view ∙ ap g v.1), v)

  size_lem :
      (r : Results S C)
      → HasView r
      → IsReadable S C laws thread r
      → (r' : Results S C) × (size S C thread r ≡ returned (length (contents S C laws r)) r')
        × Same S C laws thread r r'
  size_lem r (inl em) h = (
    r,
    size-count r em (validate_ok S C laws thread r h)
        ∙ ap (λ n. returned n r) (length-found r ∙ ap length (sym (contents-query r em))),
    (refl, h),
  )
  size_lem r (inr em) h =
      let (r', e, v) = through C.view_size length laws.size-rows r (inr em) h in
      (r', size-step r em (validate_ok S C laws thread r h) ∙ e, v.2)

  either-Same :
      (x : Option ℕ) (r r' r'' : Results S C)
      → Same S C laws thread r r'
      → Same S C laws thread r r''
      → Same S C laws thread r (elim x [ none ↦ r'' | some _ ↦ r' ])
  either-Same none r r' r'' h k = k
  either-Same (some x) r r' r'' h k = h

  ask-view :
      (q : Question) (r : Results S C) → HasView r → IsReadable S C laws thread r → Answered q r
  ask-view sizes r m h = let (r', e, s) = size_lem r m h in (r', rw e refl, s)
  ask-view firsts r m h =
      let (r', e, v) = through (first_of S C) (λ xs. get_elem? xs 0) (view-first S C laws) r m h in
      (r', rw (first-step r m (validate_ok S C laws thread r h), e) refl, v.2)
  ask-view lasts r m h =
      let (r', e, v) = through (last_of S C) last_row (view-last S C laws) r m h in
      (r', rw (last-step r m (validate_ok S C laws thread r h), e) refl, v.2)
  ask-view (indexes x) r m h =
      let (r', e, v) =
        through (λ w v. C.find_by_source_ndx w v x) (position_from 0 x)
          (λ w v. laws.find-rows w v x) r m h in
      (r', rw (index_of-step x r m (validate_ok S C laws thread r h), e) refl, v.2)
  ask-view (gets i) r m h =
      let (r', e, v) =
        through (view_row S C i) (λ xs. get_elem? xs i) (λ w v. view-row S C laws w v i) r m h in
      let (r'', l, s) = size_lem r' (inr v.0) v.2.1 in
      let x = get_elem? (contents S C laws r) i in
      (
        elim x [ none ↦ r'' | some _ ↦ r' ],
        get-look_up S C thread i (length (contents S C laws r)) x r r' r''
            (look_up-step i r m (validate_ok S C laws thread r h) ∙ e)
            (l ∙ ap (λ xs. returned (length xs) r'') v.2.0),
        either-Same x r r' r'' v.2 (s.0 ∙ v.2.0, s.1),
      )

  contents-table :
      (r : Results S C) (t : C.Table)
      → r.mode ≡ mode_table
      → r.table ≡ some t
      → contents S C laws r ≡ upto (C.table_size r.world t)
  contents-table r t em et = rw (em, et, contents) refl

  pub mode-cases :
      (m : Mode) → (m ≡ mode_empty) ⊎ (m ≡ mode_table) ⊎ (m ≡ mode_query) ⊎ (m ≡ mode_table_view)
  mode-cases mode_empty = inl refl
  mode-cases mode_table = inr (inl refl)
  mode-cases mode_query = inr (inr (inl refl))
  mode-cases mode_table_view = inr (inr (inr refl))

  ask-table_mode :
      (q : Question) (r : Results S C)
      → r.mode ≡ mode_table
      → IsAsked r.world r.table q
      → IsReadable S C laws thread r
      → Answered q r
  ask-table_mode q r em a (inl (e, _, _)) = cc
  ask-table_mode q r em a (inr (realm, t, er, et, own, att, view)) =
      let h : IsReadable S C laws thread r = inr (realm, t, er, et, own, att, view) in
      let n = C.table_size r.world t in
      (
        r,
        ask-table S C thread q r t em et (validate_ok S C laws thread r h)
            ∙ ap (λ x. outcome S C x r)
                (of_size-reply S C thread q n (subst (λ o. IsAsked r.world o q) et a)
                  ∙ ap (reply q) (sym (contents-table r t em et))),
        (refl, h),
      )

  -- Size, row at a position, first row, last row and position of a row are those of one sequence of
  -- rows, whether Results are backed by nothing, a table, a query or a table view, on a thread that may
  -- read them: a position past the end is refused with the size, and a row of the table that is not
  -- there is not found. Afterwards the Results stand for the same rows and can be read.
  pub ask_lem :
      (q : Question) (r : Results S C)
      → IsAsked r.world r.table q
      → IsReadable S C laws thread r
      → Answered q r
  ask_lem q r a h = elim (mode-cases r.mode) [
    | inl em ↦ (
      r,
      ask-empty S C thread q r em (validate_ok S C laws thread r h)
          ∙ ap (λ xs. outcome S C (reply q xs) r) (rw (em, contents) refl),
      (refl, h),
    )
    | inr (inl em) ↦ ask-table_mode q r em a h
    | inr (inr m) ↦ ask-view q r m h
  ]
