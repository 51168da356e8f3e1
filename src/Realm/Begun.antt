-- ===== src/Realm/Begun.antt =====
-- The write transaction that Realm::update_schema (Realm/ObjectStore/shared_realm.cpp) begins.
use realm_cocoa.Base.{
  ◌≡◌, refl, sym, ap, ◌∙◌, subst, true, false, not, some, inl, inr, List, if◌then◌else◌,
}
use realm_cocoa.TransactLog.{accepted, rejected, schema_error, undefined}
use realm_cocoa.TransactLog as log
use realm_cocoa.TransactLog.Advance.{Event}
use realm_cocoa.Realm as realm
use realm_cocoa.Realm.{
  SharedGroup, IsSharedGroup, Realm, Call, Stage, transact_writing, transact_reading, is_writing,
  is_in_transaction, cancel_transaction, settle, read_group,
}
use realm_cocoa.Realm.Transactions.{IsWellFormed, is_ready, Stage-cases}
use realm_cocoa.ObjectStore.Tables.{Tables}
use realm_cocoa.ObjectStore.Group.{Groups}
use realm_cocoa.Realm.Update.{GroupAccess, begin_update}
use realm_cocoa.Realm.Guarded.{outside, inside}

module _ (T : Tables) (G : Groups T) (S : SharedGroup) (A : GroupAccess T G S)
    (L : IsSharedGroup S) where
  -- The shared group in the write transaction that the update begins.
  abbrev pub started : Realm S → S.State → S.State
  started r s = S.promote_to_write (if r.has_group then s else S.begin_read s)

  -- How the transaction begins.
  abbrev pub Begun : Realm S → S.State → Call S Unit → Type 0
  Begun r w (realm.returned a r') =
      (r'.shared_group ≡ some w)
      × (r'.has_group ≡ not (is_ready (S.stage w)))
      × (S.stage w ≡ transact_writing)
      × (r'.read_only ≡ r.read_only)
      × (r'.thread_id ≡ r.thread_id)
      × (r'.registered ≡ r.registered)
  Begun r w (realm.threw e r') = is_in_transaction S r' ≡ false

  settle-Begun :
      (r r1 : Realm S) (after back : S.State) (o : log.Outcome (List Event))
      → r1.has_group ≡ true
      → (r1.read_only ≡ r.read_only) × (r1.thread_id ≡ r.thread_id) × (r1.registered ≡ r.registered)
      → S.stage after ≡ transact_writing
      → S.stage back ≡ transact_reading
      → Begun r after (settle S r1 after back o)
  settle-Begun r r1 after back (accepted events) g same a f =
      (refl, g ∙ ap (λ x. not (is_ready x)) (sym a), a, same.0, same.1, same.2)
  settle-Begun r r1 after back rejected g same a f = outside T G S A L _ back refl (ap is_writing f)
  settle-Begun r r1 after back schema_error g same a f =
      outside T G S A L _ back refl (ap is_writing f)
  settle-Begun r r1 after back undefined g same a f =
      outside T G S A L _ back refl (ap is_writing f)

  pub begin_update_lem :
      (r : Realm S) (s : S.State)
      → IsWellFormed S r s
      → is_in_transaction S r ≡ false
      → Begun r (started r s) (begin_update T G S A r)
  unfolding begin_update read_group
  begin_update_lem r s wf out = elim (Stage-cases (S.stage s)) [
    | inl e ↦
        let closed : r.has_group ≡ false = wf.1 ∙ ap (λ x. not (is_ready x)) e in
        let s1 = S.begin_read s in
        let reads = L.begin_read-stage s e in
        let r1 : Realm S = record r { has_group = true; shared_group = some s1 } in
        rw (begin_update, read_group, closed, wf.0)
          (settle-Begun r r1 (S.promote_to_write s1) (S.promote_failed s1) _ refl (refl, refl, refl)
            (L.promote_to_write-stage s1 reads) (L.promote_failed-stage s1 reads))
    | inr (inl e) ↦
        let opened : r.has_group ≡ true = wf.1 ∙ ap (λ x. not (is_ready x)) e in
        let same = ap (λ g. S.promote_to_write (if g then s else S.begin_read s)) opened in
        subst (λ w. Begun r w (begin_update T G S A r)) (sym same)
          (simp (begin_update, read_group, opened, wf.0)
            (settle-Begun r r (S.promote_to_write s) (S.promote_failed s) _ opened
              (refl, refl, refl) (L.promote_to_write-stage s e) (L.promote_failed-stage s e)))
    | inr (inr e) ↦
        absurd (let in_it : is_in_transaction S r ≡ true = inside T G S A L r s wf.0 e in cc)
  ]
