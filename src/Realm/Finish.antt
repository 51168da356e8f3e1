-- ===== src/Realm/Finish.antt =====
-- How Realm::update_schema (Realm/ObjectStore/shared_realm.cpp) may end.
use realm_cocoa.Base.{
  ℕ, ◌≡◌, refl, true, false, not, ◌&&◌, ◌||◌, none, some, ◌==◌, ◌⊎◌, inl, inr, Bool, Bool-cases,
  arith,
}
use realm_cocoa.Schema.{Schema, validate}
use realm_cocoa.Realm.{SharedGroup, IsSharedGroup}
use realm_cocoa.ObjectStore.Tables.{Tables}
use realm_cocoa.ObjectStore.Group.{Groups, get_schema_version, schema_from_group}
use realm_cocoa.ObjectStore.Migration as store
use realm_cocoa.ObjectStore.Migration.{
  Outcome, verify_schema, needs_update, update_realm_with_schema,
}
use realm_cocoa.Realm.Update.{
  GroupAccess, SchemaRealm, Updated, UpdateFailure, invalid_schema, of_store, of_realm, terminated,
  handed, Check, needs_write, matches, refused, check_schema,
}
use realm_cocoa.Realm.Guarded.{Outcome-cases, Settled, Written}

module _ (T : Tables) (G : Groups T) (S : SharedGroup) (A : GroupAccess T G S)
    (L : IsSharedGroup S) where
  abbrev State : Type 0
  State = SchemaRealm T G S A

  abbrev pub Migration : Type 0
  Migration = State → Outcome (G.Group × Schema)

  -- Whether a write is needed.
  abbrev pub must_write : State → Schema → ℕ → Bool
  must_write m schema version =
      not m.realm.read_only && (not (m.schema_version == version) || needs_update m.schema schema)

  -- The file is up to date, and the target with the columns of the file's classes is `s`.
  abbrev pub Verified : State → Schema → ℕ → Schema → Type 0
  Verified b schema version s =
      (must_write b schema version ≡ false)
      × (verify_schema b.schema schema b.realm.read_only ≡ store.ok s)

  -- What the configuration holds once the write transaction `w` has begun: the version that the file
  -- has then, with the schema of before if that is the version of before, and the file's otherwise.
  abbrev pub IsRead : State → S.State → State → Type 0
  IsRead m w b =
      (b.schema_version ≡ get_schema_version T G (A.group w))
      × (b.published ≡ m.published)
      × (((b.schema ≡ m.schema) × (b.schema_version ≡ m.schema_version))
          ⊎ (((b.schema_version == m.schema_version) ≡ false)
              × (schema_from_group T G (A.group w) ≡ some b.schema)))

  -- What a configuration holds when the update throws: that of before; or the version that the file has
  -- in the write transaction, with the schema of the file, or of before if that cannot be read; or,
  -- where the file was found up to date then, what was taken.
  abbrev pub IsBase : State → S.State → Schema → ℕ → State → Type 0
  IsBase m w schema version b =
      ((b.schema ≡ m.schema) × (b.schema_version ≡ m.schema_version) × (b.published ≡ m.published))
      ⊎ (((b.schema_version ≡ get_schema_version T G (A.group w))
            × (b.published ≡ m.published)
            × (((schema_from_group T G (A.group w) ≡ none) × (b.schema ≡ m.schema))
                ⊎ (schema_from_group T G (A.group w) ≡ some b.schema)))
          ⊎ ((b.schema_version ≡ version)
              × (b.published ≡ some b.schema)
              × (c : State) × IsRead m w c
              × Verified c schema version b.schema))

  module _ (m : State) (w : S.State) (schema : Schema) (version : ℕ) (migration : Migration) where
    -- What the Realm is given: the target, if the first check or the one in the write transaction finds
    -- the file up to date, and what the update of the file has made of the target otherwise.
    abbrev pub Taken : State → Type 0
    Taken m' =
        (Verified m schema version m'.schema × (m'.realm ≡ m.realm))
        ⊎ ((must_write m schema version ≡ true)
            × (b : State) × IsRead m w b
            × (Verified b schema version m'.schema
                ⊎ ((must_write b schema version ≡ true)
                    × Written T G S A L b w schema version migration m')))

    -- Why the store refuses: one of the two checks does, the file's schema cannot be read, or the
    -- update of the file fails.
    abbrev pub Refuses : store.Failure → Type 0
    Refuses f =
        (verify_schema m.schema schema m.realm.read_only ≡ store.error f)
        ⊎ (((schema_from_group T G (A.group w) ≡ none) × (f ≡ store.invalid_primary_key))
            ⊎ ((b : State) × IsRead m w b
                × ((verify_schema b.schema schema b.realm.read_only ≡ store.error f)
                    ⊎ (update_realm_with_schema T G (A.group w) b.schema version schema
                          (handed T G S A b w version migration)
                        ≡ store.error f))))

    -- Why the update throws; the transaction is what fails only where a write is needed.
    abbrev pub Reason : UpdateFailure → Type 0
    Reason (invalid_schema es) = validate schema ≡ some es
    Reason (of_store f) = Refuses f
    Reason (of_realm f) = must_write m schema version ≡ true
    Reason terminated = must_write m schema version ≡ true

    -- The end of an update. `w` is the write transaction that it begins.
    abbrev pub Finished : Updated T G S A → Type 0
    Finished u =
        (b : State) × IsBase m w schema version b × Settled T G S A L b version Taken Reason u

  -- What the check says.
  abbrev pub Checked : State → Schema → ℕ → Check T G S A → Type 0
  Checked m schema version needs_write = must_write m schema version ≡ true
  Checked m schema version (refused e) =
      verify_schema m.schema schema m.realm.read_only ≡ store.error e
  Checked m schema version (matches m') =
      Verified m schema version m'.schema
      × (m'.realm ≡ m.realm)
      × (m'.schema_version ≡ version)
      × (m'.published ≡ some m'.schema)

  pub check_schema_lem :
      (m : State) (schema : Schema) (version : ℕ)
      → Checked m schema version (check_schema T G S A m schema version)
  unfolding check_schema
  check_schema_lem m schema version = elim (Bool-cases (must_write m schema version)) [
    | inl h ↦ rw (check_schema, h) h
    | inr h ↦ elim (Outcome-cases (verify_schema m.schema schema m.realm.read_only)) [
      | inl (e, k) ↦ rw (check_schema, h, k) k
      | inr (s, k) ↦ rw (check_schema, h, k) ((h, k), refl, refl, refl)
    ]
  ]

  pub must_write-writable :
      (m : State) (schema : Schema) (version : ℕ)
      → must_write m schema version ≡ true
      → m.realm.read_only ≡ false
  must_write-writable m schema version h = ground arith
