-- ===== src/Tests/Realms.antt =====
-- Realms (Realm/ObjectStore/shared_realm.cpp) over a small shared group: a stage and a version.
use realm_cocoa.Base.{ℕ, List, refl, true, false, [], ◌∷◌, none, some, ◌+◌}
use realm_cocoa.TransactLog
use realm_cocoa.Realm.{
  Stage, transact_ready, transact_reading, transact_writing, SharedGroup, IsSharedGroup, Realm,
}
use realm_cocoa.Realm.Histories.{Made}
use realm_cocoa.Realm.Transactions.{begins, commits, invalidates, run, Follows, run-Follows}

abbrev at_stage : Stage × ℕ → Stage → Stage × ℕ
at_stage s stage = (stage, s.1)

abbrev pub group : SharedGroup
group = record {
  State = Stage × ℕ;
  stage = λ s. s.0;
  version = λ s. s.1;
  has_changed = λ s. false;
  begin_read = λ s. at_stage s transact_reading;
  end_read = λ s. at_stage s transact_ready;
  newer_log = λ s. some (TransactLog.erase_column 0 ∷ []);
  advance_read = λ s. at_stage s transact_reading;
  advance_failed = λ s. at_stage s transact_reading;
  promote_to_write = λ s. at_stage s transact_writing;
  promote_failed = λ s. at_stage s transact_reading;
  commit_and_continue_as_read = λ s. (transact_reading, s.1 + 1);
  rollback_log = λ s. none;
  rollback_and_continue_as_read = λ s. at_stage s transact_reading;
  rollback_failed = λ s. s;
  compact = λ s. s;
}

group-IsSharedGroup : IsSharedGroup group
group-IsSharedGroup = record {
  begin_read-stage = λ s h. refl;
  end_read-stage = λ s. refl;
  advance_read-stage = λ s h. refl;
  advance_failed-stage = λ s h. refl;
  promote_to_write-stage = λ s h. refl;
  promote_failed-stage = λ s h. refl;
  commit-stage = λ s h. refl;
  rollback-stage = λ s h. refl;
  rollback_failed-stage = λ s h k. cc;
  compact-stage = λ s h. h;
}

abbrev writing : Stage × ℕ
writing = (transact_writing, 5)

abbrev pub realm : Realm group
realm = record {
  read_only = false;
  thread_id = 1;
  shared_group = some writing;
  has_group = true;
  binding_context = some [];
  context_can_deliver = true;
  registered = true;
  commits = 0;
  events = [];
}

run-Follows_example : Follows group commits transact_writing (run group 1 commits realm)
run-Follows_example =
    run-Follows group group-IsSharedGroup 1 commits realm writing (refl, refl) refl refl refl

-- Another thread's calls among those of the Realm's own.
abbrev calls : List Made
calls =
    record { thread = 1; op = commits }
    ∷ record { thread = 2; op = begins }
    ∷ record { thread = 1; op = invalidates }
    ∷ []
