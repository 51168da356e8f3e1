-- ===== src/Results/Answers/Steps.antt =====
-- The turn of Results into a table view (update_tableview of Realm/ObjectStore/results.cpp), and what
-- each read answers.
use realm_cocoa.Base.{
  ℕ, ◌+◌, ◌≡◌, ◌⊎◌, inl, inr, refl, ap, sym, ◌∙◌, Bool, true, false, not, ◌&&◌, Option, some, empty,
  Bool-cases, Option-cases,
}
use realm_cocoa.AsyncQuery.{AsyncQuery}
use realm_cocoa.Realm.{SharedGroup, Realm, is_in_transaction, can_deliver_notifications}
use realm_cocoa.Results.{
  Core, Mode, mode_empty, mode_table, mode_query, mode_table_view, is_table_view, Results, Call,
  returned, found, validate_read, update_tableview, of_view, ◌>>=◌, start_updates, new_async_query,
}
use realm_cocoa.Results.Answers.{IsCore, contents, IsReadable, Same}

module _ (S : SharedGroup) (C : Core) (laws : IsCore C) (thread : ℕ) where
  pub validate_ok :
      (r : Results S C) → IsReadable S C laws thread r → validate_read S C thread r ≡ returned tt r
  unfolding validate_read
  validate_ok r (inl (em, er, et)) = rw (er, et, em) refl
  validate_ok r (inr (realm, t, er, et, own, att, view)) = rw (er, et, own, att, view) refl

  -- A view of the rows that Results stood for, in step with the table.
  abbrev pub Viewed : Results S C → Results S C → Type 0
  Viewed r r' =
      (r'.mode ≡ mode_table_view)
      × (laws.rows r'.world r'.table_view ≡ contents S C laws r)
      × Same S C laws thread r r'
      × (C.sync_if_needed r'.world r'.table_view ≡ r'.table_view)

  started :
      (r : Results S C) (realm : Realm S)
      → r.realm ≡ some realm
      → (q : Option AsyncQuery) × (n : ℕ) × (start_updates S C r
          ≡ returned tt (record r { background_query = q; registered = n }))
  started r realm er = elim (Option-cases r.background_query) [
    | inr (q, e) ↦
        let unchanged : start_updates S C r ≡ returned tt r = simp (start_updates, e) in
        (r.background_query, r.registered, unchanged)
    | inl e ↦
        elim (Bool-cases (not (is_in_transaction S realm) && can_deliver_notifications S realm)) [
          | inl b ↦ (some new_async_query, r.registered + 1, simp (start_updates, e, er, b))
          | inr b ↦
              let unchanged : start_updates S C r ≡ returned tt r =
                simp (start_updates, e, er, b) in
              (r.background_query, r.registered, unchanged)
        ]
  ]

  found-synced :
      (r : Results S C)
      → C.sync_if_needed r.world (found S C r.world r.query r.sort)
        ≡ found S C r.world r.query r.sort
  found-synced r = elim (Bool-cases (empty r.sort.column_indices)) [
    | inl b ↦ rw b (laws.sync-find_all r.world r.query)
    | inr b ↦ rw b (
        laws.sync-sort r.world r.sort (C.find_all r.world r.query)
          (laws.sync-find_all r.world r.query))
  ]

  found-attached :
      (r : Results S C) → C.view_attached r.world (found S C r.world r.query r.sort) ≡ true
  found-attached r = elim (Bool-cases (empty r.sort.column_indices)) [
    | inl b ↦ rw b (laws.find_all-attached r.world r.query)
    | inr b ↦ rw b (
        laws.sort-attached r.world r.sort (C.find_all r.world r.query)
          (laws.find_all-attached r.world r.query))
  ]

  attached-not : {b : Bool} → b ≡ true → not b ≡ false
  attached-not e = rw e refl

  attached-of :
      (m : Mode) (b : Bool) → m ≡ mode_table_view → is_table_view m && not b ≡ false → b ≡ true
  attached-of m true e h = refl
  attached-of mode_table_view false e h = cc
  attached-of mode_empty false e h = cc
  attached-of mode_table false e h = cc
  attached-of mode_query false e h = cc

  in-view : (m : Mode) {b : Bool} → b ≡ true → is_table_view m && not b ≡ false
  in-view mode_table_view e = attached-not e
  in-view mode_empty e = refl
  in-view mode_table e = refl
  in-view mode_query e = refl

  update-query :
      (r : Results S C)
      → r.mode ≡ mode_query
      → IsReadable S C laws thread r
      → (r' : Results S C) × (update_tableview S C thread r ≡ returned tt r') × Viewed r r'
  unfolding update_tableview
  update-query r em (inl (e, _, _)) = cc
  update-query r em (inr (realm, t, er, et, own, att, view)) =
      let now = found S C r.world r.query r.sort in
      let same : laws.rows r.world now ≡ contents S C laws r = rw (em, contents) refl in
      (
        record r { table_view = now; mode = mode_table_view },
        rw (validate_ok r (inr (realm, t, er, et, own, att, view)), em) refl,
        (
          refl,
          same,
          (
            ap (laws.rows r.world) (found-synced r) ∙ same,
            inr (realm, t, er, et, own, att, attached-not (found-attached r)),
          ),
          found-synced r,
        ),
      )

  contents-view :
      (r : Results S C)
      → r.mode ≡ mode_table_view
      → contents S C laws r ≡ laws.rows r.world (C.sync_if_needed r.world r.table_view)
  contents-view r em = rw (em, contents) refl

  abbrev use_view : Results S C → Call S C Unit
  use_view r =
      returned tt (record r {
        has_used_table_view = true;
        table_view = C.sync_if_needed r.world r.table_view;
      })

  update-step :
      (r : Results S C)
      → r.mode ≡ mode_table_view
      → validate_read S C thread r ≡ returned tt r
      → update_tableview S C thread r ≡ ◌>>=◌ S C (start_updates S C r) (λ _ r. use_view r)
  unfolding update_tableview
  update-step r em ok = rw ok (simp em)

  update-view :
      (r : Results S C)
      → r.mode ≡ mode_table_view
      → IsReadable S C laws thread r
      → (r' : Results S C) × (update_tableview S C thread r ≡ returned tt r') × Viewed r r'
  update-view r em (inl (e, _, _)) = cc
  update-view r em (inr (realm, t, er, et, own, att, view)) =
      let synced = C.sync_if_needed r.world r.table_view in
      let (q, n, e) = started r realm er in
      let attached : C.view_attached r.world r.table_view ≡ true =
        attached-of r.mode (C.view_attached r.world r.table_view) em view in
      let r' = record r {
        table_view = synced;
        background_query = q;
        registered = n;
        has_used_table_view = true;
      } in
      (
        r',
        update-step r em (validate_ok r (inr (realm, t, er, et, own, att, view)))
            ∙ ap (λ c. ◌>>=◌ S C c (λ _ r. use_view r)) e,
        (
          em,
          sym (contents-view r em),
          (
            contents-view r' em
                ∙ ap (laws.rows r.world) (laws.sync-sync r.world r.table_view)
                ∙ sym (contents-view r em),
            inr (
              realm,
              t,
              er,
              et,
              own,
              att,
              in-view r.mode (laws.sync-attached r.world r.table_view attached),
            ),
          ),
          laws.sync-sync r.world r.table_view,
        ),
      )

  pub update_tableview_lem :
      (r : Results S C)
      → (r.mode ≡ mode_query) ⊎ (r.mode ≡ mode_table_view)
      → IsReadable S C laws thread r
      → (r' : Results S C) × (update_tableview S C thread r ≡ returned tt r') × Viewed r r'
  update_tableview_lem r (inl em) h = update-query r em h
  update_tableview_lem r (inr em) h = update-view r em h

  -- A read through the table view, in either of the modes that have one.
  pub of_view_lem :
      {A : Type 0} (f : C.World → C.View → A) (r : Results S C)
      → (r.mode ≡ mode_query) ⊎ (r.mode ≡ mode_table_view)
      → IsReadable S C laws thread r
      → (r' : Results S C) × (of_view S C thread f r ≡ returned (f r'.world r'.table_view) r')
        × Viewed r r'
  unfolding of_view
  of_view_lem f r m h = let (r', e, v) = update_tableview_lem r m h in (r', rw e refl, v)
