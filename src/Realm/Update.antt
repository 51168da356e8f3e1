-- ===== src/Realm/Update.antt =====
-- Realm::update_schema (Realm/ObjectStore/shared_realm.cpp): a Realm brings its file to a schema within a
-- write transaction, which is cancelled when an exception is thrown.
use realm_cocoa.Base.{ℕ, false, not, ◌&&◌, ◌||◌, List, Option, none, some, if◌then◌else◌, ◌==◌}
use realm_cocoa.Schema.{Schema, Invalid, validate}
use realm_cocoa.Realm as realm
use realm_cocoa.Realm.{
  SharedGroup, Realm, Call, is_in_transaction, read_group, settle, commit_transaction,
  cancel_transaction,
}
use realm_cocoa.TransactLog.Advance as transaction
use realm_cocoa.ObjectStore.Tables.{Tables}
use realm_cocoa.ObjectStore.Group.{Groups, get_schema_version, schema_from_group}
use realm_cocoa.ObjectStore.Migration as store
use realm_cocoa.ObjectStore.Migration.{
  Outcome, verify_schema, needs_update, update_realm_with_schema,
}

-- What is thrown. `terminated` stands for an exception out of the destructor of the guard.
pub data UpdateFailure : Type 0 where
  invalid_schema : List Invalid → UpdateFailure
  of_store : store.Failure → UpdateFailure
  of_realm : realm.Failure → UpdateFailure
  terminated : UpdateFailure

-- The group that a shared group reads or writes, and the shared group when that is changed.
pub record GroupAccess (T : Tables) (G : Groups T) (S : SharedGroup) : Type 0 where
  pub group : S.State → G.Group
  pub with_group : S.State → G.Group → S.State

module _ (T : Tables) (G : Groups T) (S : SharedGroup) (A : GroupAccess T G S) where
  -- A Realm with the schema and the version of its configuration. `published` is the schema that the
  -- coordinator was last given.
  pub record SchemaRealm : Type 0 where
    pub realm : Realm S
    pub schema : Schema
    pub schema_version : ℕ
    pub published : Option Schema

  pub data Updated : Type 0 where
    updated : SchemaRealm → Updated
    failed : UpdateFailure → SchemaRealm → Updated

  -- What needs_update() says: a write is needed, none is and the schema is taken, or it does not match.
  pub data Check : Type 0 where
    needs_write : Check
    matches : SchemaRealm → Check
    refused : store.Failure → Check

  unfoldable pub check_schema : SchemaRealm → Schema → ℕ → Check
  check_schema m schema version =
      if not m.realm.read_only
        && (not (m.schema_version == version) || needs_update m.schema schema)
      then needs_write
      else elim (verify_schema m.schema schema m.realm.read_only) [
        | store.error e ↦ refused e
        | store.ok s ↦
            matches (record m { schema = s; schema_version = version; published = some s })
      ]

  -- The guard on an exception: the transaction is cancelled if there is one.
  unfoldable pub guarded : ℕ → UpdateFailure → SchemaRealm → Updated
  guarded thread e m =
      if is_in_transaction S m.realm
      then elim (cancel_transaction S thread m.realm) [
        | realm.returned a r ↦ failed e (record m { realm = r })
        | realm.threw e' r ↦ failed terminated (record m { realm = r })
      ]
      else failed e m

  -- read_group, and transaction::begin without an error on changes of the schema.
  unfoldable pub begin_update : Realm S → Call S Unit
  begin_update r = realm.◌>>=◌ S (read_group S r) (λ _ r. elim r.shared_group [
    | none ↦ realm.threw realm.null_pointer r
    | some s ↦ settle S r (S.promote_to_write s) (S.promote_failed s) (
        transaction.begin r.binding_context (S.newer_log s)
          (not (S.version s == S.version (S.promote_to_write s))) false)
  ])

  -- The function that migrates, which is given the Realm in its write transaction, with the new schema
  -- and version, and says what it has made of the group and of the schema. What it may do besides to
  -- the Realm, such as to end the transaction, is left out, and the old Realm, which is opened anew from
  -- the file, is its own.
  abbrev pub handed :
      SchemaRealm
      → S.State
      → ℕ
      → (SchemaRealm → Outcome (G.Group × Schema))
      → G.Group
      → Schema
      → Outcome (G.Group × Schema)
  handed m s version migration group schema = migration (record m {
    realm = record m.realm { shared_group = some (A.with_group s group) };
    schema = schema;
    schema_version = version;
  })

  -- The update itself, whose changes of the group are of no account after an exception, as they are
  -- rolled back. The configuration has its old schema again then.
  unfoldable pub write_schema :
      ℕ → SchemaRealm → S.State → Schema → ℕ → (SchemaRealm → Outcome (G.Group × Schema)) → Updated
  unfolding guarded
  write_schema thread m s schema version migration =
      elim (update_realm_with_schema T G (A.group s) m.schema version schema
        (handed m s version migration)) [
          | store.error e ↦ guarded thread (of_store e) m
          | store.ok written ↦
              elim (commit_transaction S thread
                (record m.realm { shared_group = some (A.with_group s written.0) })) [
                  | realm.threw e r ↦ guarded thread (of_realm e) (record m { realm = r })
                  | realm.returned a r ↦ updated (record {
                    realm = r;
                    schema = written.1;
                    schema_version = version;
                    published = some written.1;
                  })
                ]
        ]

  -- The second check, where the file's version is not the one that was read before.
  unfoldable pub recheck :
      ℕ → SchemaRealm → S.State → Schema → ℕ → (SchemaRealm → Outcome (G.Group × Schema)) → Updated
  unfolding check_schema write_schema guarded
  recheck thread m s schema version migration =
      let current = get_schema_version T G (A.group s) in
      let m0 = record m { schema_version = current } in
      if current == m.schema_version
      then write_schema thread m s schema version migration
      else elim (schema_from_group T G (A.group s)) [
        | none ↦ guarded thread (of_store store.invalid_primary_key) m0
        | some os ↦
            let m1 = record m0 { schema = os } in
            elim (check_schema m1 schema version) [
              | needs_write ↦ write_schema thread m1 s schema version migration
              | refused e ↦ guarded thread (of_store e) m1
              | matches m2 ↦ elim (cancel_transaction S thread m2.realm) [
                | realm.returned a r ↦ updated (record m2 { realm = r })
                | realm.threw e r ↦ guarded thread (of_realm e) (record m2 { realm = r })
              ]
            ]
      ]

  unfoldable pub update_schema :
      ℕ → SchemaRealm → Schema → ℕ → (SchemaRealm → Outcome (G.Group × Schema)) → Updated
  unfolding check_schema begin_update recheck
  update_schema thread m schema version migration = elim (validate schema) [
    | some es ↦ failed (invalid_schema es) m
    | none ↦ elim (check_schema m schema version) [
      | matches m' ↦ updated m'
      | refused e ↦ failed (of_store e) m
      | needs_write ↦ elim (begin_update m.realm) [
        | realm.threw e r ↦ failed (of_realm e) (record m { realm = r })
        | realm.returned a r ↦ elim r.shared_group [
          | none ↦ failed (of_realm realm.null_pointer) (record m { realm = r })
          | some s ↦ recheck thread (record m { realm = r }) s schema version migration
        ]
      ]
    ]
  ]
