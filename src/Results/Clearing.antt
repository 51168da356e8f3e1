-- ===== src/Results/Clearing.antt =====
-- Results::clear of Realm/ObjectStore/results.cpp leaves nothing.
use realm_cocoa.Base.{
  ℕ, ◌≡◌, ◌⊎◌, inl, inr, refl, ap, ◌∙◌, Bool, true, false, ◌||◌, [], Option, none, some, Bool-cases,
}
use realm_cocoa.Realm.{SharedGroup}
use realm_cocoa.Results.{
  Core, Mode, mode_empty, mode_table, mode_query, mode_table_view, Results, Call, returned, threw,
  invalid_transaction, null_pointer, in_write, validate_read, validate_write, update_tableview,
}
use realm_cocoa.Results.Changes.{clear, clear_table_mode}
use realm_cocoa.Results.Answers.{IsCore, contents, IsReadable, upto}
use realm_cocoa.Results.Answers.Asked.{mode-cases}
use realm_cocoa.Results.Answers.Steps.{validate_ok, update_tableview_lem}

-- What the core library documents of its clear functions; a view that is cleared has to be in step with
-- its table.
pub record IsClearing (C : Core) (laws : IsCore C) : Type 0 where
  pub table_clear-size : (w : C.World) (t : C.Table) → C.table_size (C.table_clear w t) t ≡ 0
  pub view_clear-rows :
      (w : C.World) (v : C.View)
      → C.sync_if_needed w v ≡ v
      → laws.rows (C.view_clear w v).0 (C.sync_if_needed (C.view_clear w v).0 (C.view_clear w v).1)
        ≡ []

abbrev pub is_empty_mode : Mode → Bool
is_empty_mode mode_empty = true
is_empty_mode _ = false

module _ (S : SharedGroup) (C : Core) (laws : IsCore C) (clearing : IsClearing C laws)
    (thread : ℕ) where
  -- There is nothing to clear, or it may be written to.
  abbrev pub can_clear : Results S C → Bool
  can_clear r = is_empty_mode r.mode || in_write S C r.realm

  abbrev Empties : Results S C → Type 0
  Empties r =
      (r' : Results S C) × (clear S C thread r ≡ returned tt r') × (contents S C laws r' ≡ [])

  write_ok :
      (r : Results S C)
      → validate_read S C thread r ≡ returned tt r
      → in_write S C r.realm ≡ true
      → validate_write S C thread r ≡ returned tt r
  unfolding validate_write
  write_ok r ok w = rw ok (simp w)

  write_refused :
      (r : Results S C)
      → validate_read S C thread r ≡ returned tt r
      → in_write S C r.realm ≡ false
      → validate_write S C thread r ≡ threw invalid_transaction r
  unfolding validate_write
  write_refused r ok w = rw ok (simp w)

  clear-mode_table :
      (r : Results S C) → r.mode ≡ mode_table → clear S C thread r ≡ clear_table_mode S C thread r
  unfolding clear
  clear-mode_table r em = simp (em, clear)

  cleared-some :
      (r : Results S C) (o : Option C.Table) (t : C.Table)
      → o ≡ some t
      → (elim o as (λ _. Call S C Unit) [
        | none ↦ threw null_pointer r
        | some t ↦ returned tt (record r { world = C.table_clear r.world t })
      ])
        ≡ returned tt (record r { world = C.table_clear r.world t })
  cleared-some r none t e = cc
  cleared-some r (some u) t e =
      let same : u ≡ t = cc in
      ap (λ t. returned tt (record r { world = C.table_clear r.world t })) same

  clear_table_mode_lem :
      (r : Results S C) (t : C.Table)
      → r.table ≡ some t
      → validate_write S C thread r ≡ returned tt r
      → clear_table_mode S C thread r ≡ returned tt (record r { world = C.table_clear r.world t })
  unfolding clear_table_mode
  clear_table_mode_lem r t et ok = rw ok (cleared-some r r.table t et)

  contents-table :
      (r : Results S C) (t : C.Table)
      → r.mode ≡ mode_table
      → r.table ≡ some t
      → contents S C laws r ≡ upto (C.table_size r.world t)
  contents-table r t em et = rw (em, et, contents) refl

  contents-view :
      (r : Results S C)
      → r.mode ≡ mode_table_view
      → contents S C laws r ≡ laws.rows r.world (C.sync_if_needed r.world r.table_view)
  contents-view r em = rw (em, contents) refl

  clear-view :
      (r r' : Results S C)
      → (r.mode ≡ mode_query) ⊎ (r.mode ≡ mode_table_view)
      → validate_write S C thread r ≡ returned tt r
      → update_tableview S C thread r ≡ returned tt r'
      → clear S C thread r
        ≡ returned tt (record r' {
          world = (C.view_clear r'.world r'.table_view).0;
          table_view = (C.view_clear r'.world r'.table_view).1;
        })
  unfolding clear
  clear-view r r' (inl em) ok e = simp (em, clear) (rw ok (rw e refl))
  clear-view r r' (inr em) ok e = simp (em, clear) (rw ok (rw e refl))

  empty-mode : (m : Mode) → is_empty_mode m ≡ true → m ≡ mode_empty
  empty-mode mode_empty e = refl
  empty-mode mode_table e = cc
  empty-mode mode_query e = cc
  empty-mode mode_table_view e = cc

  clear-empty : (r : Results S C) → r.mode ≡ mode_empty → clear S C thread r ≡ returned tt r
  unfolding clear
  clear-empty r em = simp (em, clear)

  clear-write_table :
      (r : Results S C)
      → in_write S C r.realm ≡ true
      → r.mode ≡ mode_table
      → IsReadable S C laws thread r
      → Empties r
  clear-write_table r w em (inl (e, _, _)) = cc
  clear-write_table r w em (inr (realm, t, er, et, own, att, view)) =
      let h : IsReadable S C laws thread r = inr (realm, t, er, et, own, att, view) in
      let r' = record r { world = C.table_clear r.world t } in
      (
        r',
        clear-mode_table r em
            ∙ clear_table_mode_lem r t et (write_ok r (validate_ok S C laws thread r h) w),
        contents-table r' t em et ∙ ap upto (clearing.table_clear-size r.world t),
      )

  clear-write :
      (r : Results S C) → in_write S C r.realm ≡ true → IsReadable S C laws thread r → Empties r
  clear-write r w h = elim (mode-cases S C laws thread r.mode) [
    | inl em ↦ (r, clear-empty r em, rw (em, contents) refl)
    | inr (inl em) ↦ clear-write_table r w em h
    | inr (inr m) ↦
        let (r', e, v) = update_tableview_lem S C laws thread r m h in
        let cleared = C.view_clear r'.world r'.table_view in
        let r'' = record r' { world = cleared.0; table_view = cleared.1 } in
        (
          r'',
          clear-view r r' m (write_ok r (validate_ok S C laws thread r h) w) e,
          contents-view r'' v.0 ∙ clearing.view_clear-rows r'.world r'.table_view v.3,
        )
  ]

  refused-table :
      (r : Results S C)
      → validate_write S C thread r ≡ threw invalid_transaction r
      → clear_table_mode S C thread r ≡ threw invalid_transaction r
  unfolding clear_table_mode
  refused-table r refused = rw refused refl

  clear-refused :
      (r : Results S C)
      → is_empty_mode r.mode ≡ false
      → validate_write S C thread r ≡ threw invalid_transaction r
      → clear S C thread r ≡ threw invalid_transaction r
  unfolding clear
  clear-refused r m refused = elim (mode-cases S C laws thread r.mode) [
    | inl em ↦ let absurd_mode : is_empty_mode r.mode ≡ true = rw em refl in cc
    | inr (inl em) ↦ clear-mode_table r em ∙ refused-table r refused
    | inr (inr (inl em)) ↦ simp (em, clear) (rw refused refl)
    | inr (inr (inr em)) ↦ simp (em, clear) (rw refused refl)
  ]

  -- Results that may be read are cleared in a write transaction and stand for no rows afterwards, a
  -- view that is behind its table included. Outside of one, Results that are backed by a table, a query
  -- or a table view are refused and unchanged, while those backed by nothing return.
  pub clear_lem :
      (r : Results S C)
      → IsReadable S C laws thread r
      → ((can_clear r ≡ true) × Empties r)
        ⊎ ((can_clear r ≡ false) × (clear S C thread r ≡ threw invalid_transaction r))
  clear_lem r h = elim (Bool-cases (is_empty_mode r.mode)) [
    | inl m ↦ inl (
      rw m refl,
      (r, clear-empty r (empty-mode r.mode m), rw (empty-mode r.mode m, contents) refl),
    )
    | inr m ↦ elim (Bool-cases (in_write S C r.realm)) [
      | inl w ↦ inl (rw (m, w) refl, clear-write r w h)
      | inr w ↦
          inr (
            rw (m, w) refl,
            clear-refused r m (write_refused r (validate_ok S C laws thread r h) w),
          )
    ]
  ]
