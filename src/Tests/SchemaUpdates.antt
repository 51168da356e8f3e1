-- ===== src/Tests/SchemaUpdates.antt =====
-- Realm::update_schema (Realm/ObjectStore/shared_realm.cpp) over a shared group that holds a file, and
-- the file as it was committed last.
use realm_cocoa.Base.{◌≡◌, ◌≢◌, refl, true, false, [], ◌∷◌, none, some}
use realm_cocoa.Realm.{
  Stage, transact_ready, transact_reading, transact_writing, SharedGroup, IsSharedGroup,
}
use realm_cocoa.Realm.Update.{GroupAccess, SchemaRealm}
use realm_cocoa.Realm.Finish.{Migration}
use realm_cocoa.ObjectStore.Migration.{ok}
use realm_cocoa.Tests.Tables.{tables}
use realm_cocoa.Tests.Groups.{Group, groups}
use realm_cocoa.Tests.Migrations.{file, before}

abbrev FileState : Type 0
FileState = Stage × Group × Group

abbrev in_stage : FileState → Stage → FileState
in_stage s stage = (stage, s.1, s.2)

abbrev rolled_back : FileState → FileState
rolled_back s = (transact_reading, s.2, s.2)

abbrev shared_file : SharedGroup
shared_file = record {
  State = FileState;
  stage = λ s. s.0;
  version = λ s. 0;
  has_changed = λ s. false;
  begin_read = λ s. in_stage s transact_reading;
  end_read = λ s. in_stage s transact_ready;
  newer_log = λ s. none;
  advance_read = λ s. in_stage s transact_reading;
  advance_failed = λ s. in_stage s transact_reading;
  promote_to_write = λ s. in_stage s transact_writing;
  promote_failed = λ s. in_stage s transact_reading;
  commit_and_continue_as_read = λ s. (transact_reading, s.1, s.1);
  rollback_log = λ s. none;
  rollback_and_continue_as_read = rolled_back;
  rollback_failed = λ s. s;
  compact = λ s. s;
}

still_writing : (s : FileState) → s.0 ≡ transact_writing → s.0 ≢ transact_ready
still_writing s h k = cc

abbrev shared_file_laws : IsSharedGroup shared_file
shared_file_laws = record {
  begin_read-stage = λ s h. refl;
  end_read-stage = λ s. refl;
  advance_read-stage = λ s h. refl;
  advance_failed-stage = λ s h. refl;
  promote_to_write-stage = λ s h. refl;
  promote_failed-stage = λ s h. refl;
  commit-stage = λ s h. refl;
  rollback-stage = λ s h. refl;
  rollback_failed-stage = still_writing;
  compact-stage = λ s h. h;
}

abbrev access : GroupAccess tables groups shared_file
access = record { group = λ s. s.1; with_group = λ s g. (s.0, g, s.2) }

abbrev closed_file : FileState
closed_file = (transact_ready, file, file)

abbrev opened : SchemaRealm tables groups shared_file access
opened = record {
  realm = record {
    read_only = false;
    thread_id = 1;
    shared_group = some closed_file;
    has_group = false;
    binding_context = none;
    context_can_deliver = true;
    registered = true;
    commits = 0;
    events = [];
  };
  schema = before ∷ [];
  schema_version = 0;
  published = none;
}

-- Leaves the group and the schema of the Realm that it is given.
abbrev no_migration : Migration tables groups shared_file access shared_file_laws
no_migration m = ok (elim m.realm.shared_group [ none ↦ file | some s ↦ s.1 ], m.schema)
