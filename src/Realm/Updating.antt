-- ===== src/Realm/Updating.antt =====
-- Realm::update_schema (Realm/ObjectStore/shared_realm.cpp) as a whole.
use realm_cocoa.Base.{ℕ, ◌≡◌, none, some}
use realm_cocoa.Schema.{Schema}
use realm_cocoa.Realm as realm
use realm_cocoa.Realm.{SharedGroup, IsSharedGroup, Realm, Call, cancel_transaction}
use realm_cocoa.ObjectStore.Tables.{Tables}
use realm_cocoa.ObjectStore.Group.{Groups}
use realm_cocoa.ObjectStore.Migration as store
use realm_cocoa.ObjectStore.Migration.{Outcome}
use realm_cocoa.Realm.Update.{
  GroupAccess, SchemaRealm, Updated, updated, failed, of_store, of_realm, guarded, write_schema,
  Check, needs_write, matches, refused, begin_update, recheck,
}
use realm_cocoa.Realm.Stays.{Stays}
use realm_cocoa.Realm.Begun.{Begun}
use realm_cocoa.Realm.Finish.{Migration, Taken, Finished}

module _ (T : Tables) (G : Groups T) (S : SharedGroup) (A : GroupAccess T G S)
    (L : IsSharedGroup S) where
  abbrev State : Type 0
  State = SchemaRealm T G S A

  -- The last step of a second check that has found the file up to date.
  after_check : ℕ → State → Call S Unit → Updated T G S A
  after_check thread m c = elim c [
    | realm.returned a r ↦ updated (record m { realm = r })
    | realm.threw e r ↦ guarded T G S A thread (of_realm e) (record m { realm = r })
  ]

  after_recheck :
      ℕ → State → S.State → Schema → ℕ → Migration T G S A L → Check T G S A → Updated T G S A
  after_recheck thread m s schema version migration c = elim c [
    | needs_write ↦ write_schema T G S A thread m s schema version migration
    | refused e ↦ guarded T G S A thread (of_store e) m
    | matches m2 ↦ after_check thread m2 (cancel_transaction S thread m2.realm)
  ]

  after_begin : ℕ → State → Schema → ℕ → Migration T G S A L → Call S Unit → Updated T G S A
  after_begin thread m schema version migration c = elim c [
    | realm.threw e r ↦ failed (of_realm e) (record m { realm = r })
    | realm.returned a r ↦ elim r.shared_group [
      | none ↦ failed (of_realm realm.null_pointer) (record m { realm = r })
      | some s ↦ recheck T G S A thread (record m { realm = r }) s schema version migration
    ]
  ]

  checked_first : ℕ → State → Schema → ℕ → Migration T G S A L → Check T G S A → Updated T G S A
  checked_first thread m schema version migration c = elim c [
    | matches m' ↦ updated m'
    | refused e ↦ failed (of_store e) m
    | needs_write ↦ after_begin thread m schema version migration (begin_update T G S A m.realm)
  ]

  module _ (thread : ℕ) (m : State) (w : S.State) (schema : Schema) (version : ℕ)
      (migration : Migration T G S A L)
      (keeps : (x : S.State) (g : G.Group) → S.stage (A.with_group x g) ≡ S.stage x) where
    abbrev Ends : Updated T G S A → Type 0
    Ends = Finished T G S A L m w schema version migration

    abbrev Good : State → Type 0
    Good = Taken T G S A L m w schema version migration
