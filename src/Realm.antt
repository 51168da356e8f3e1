-- ===== src/Realm.antt =====
-- Realm/ObjectStore/shared_realm.cpp: the transactions of a Realm. The core library's SharedGroup is
-- an argument.
pub mod Transactions
pub mod Update
pub mod Guarded
pub mod Begun
pub mod Finish
pub mod Stays
pub mod Histories
pub mod Updating
use realm_cocoa.Base.{
  ℕ, ◌+◌, ◌≡◌, ◌≢◌, ◌++◌, Bool, true, false, not, ◌&&◌, ◌||◌, List, [], ◌∷◌, Option, none, some,
  ◌==◌, if◌then◌else◌,
}
use realm_cocoa.TransactLog.{Instr, Outcome, accepted, rejected, schema_error, undefined}
use realm_cocoa.TransactLog.Observer.{ObserverState}
use realm_cocoa.TransactLog.Advance.{Event, did_change}
use realm_cocoa.TransactLog.Advance as transaction

-- SharedGroup::TransactStage
pub data Stage : Type 0 where
  transact_ready transact_reading transact_writing : Stage

abbrev pub is_writing : Stage → Bool
is_writing transact_writing = true
is_writing _ = false

-- The operations of a SharedGroup that the source calls. The logs are those that
-- LangBindHelper hands to an observer, if it has one to hand over: up to the newest version, and back
-- to the version before the write. `promote_failed` is what a promotion leaves whose observer throws, and likewise the others.
pub record SharedGroup : Type 1 where
  pub State : Type 0
  pub stage : State → Stage
  pub version : State → ℕ
  pub has_changed : State → Bool
  pub begin_read : State → State
  pub end_read : State → State
  pub newer_log : State → Option (List Instr)
  pub advance_read : State → State
  pub advance_failed : State → State
  pub promote_to_write : State → State
  pub promote_failed : State → State
  pub commit_and_continue_as_read : State → State
  pub rollback_log : State → Option (List Instr)
  pub rollback_and_continue_as_read : State → State
  pub rollback_failed : State → State
  pub compact : State → State

-- What the core library documents of the stages. A transaction that an exception of the observer keeps
-- from moving on is still there: as a read transaction where the call was made from one, and to read
-- or to write, which is left open, where the call was a rollback.
pub record IsSharedGroup (S : SharedGroup) : Type 0 where
  pub begin_read-stage :
      (s : S.State) → S.stage s ≡ transact_ready → S.stage (S.begin_read s) ≡ transact_reading
  pub end_read-stage : (s : S.State) → S.stage (S.end_read s) ≡ transact_ready
  pub advance_read-stage :
      (s : S.State) → S.stage s ≡ transact_reading → S.stage (S.advance_read s) ≡ transact_reading
  pub advance_failed-stage :
      (s : S.State) → S.stage s ≡ transact_reading → S.stage (S.advance_failed s) ≡ transact_reading
  pub promote_to_write-stage :
      (s : S.State)
      → S.stage s ≡ transact_reading
      → S.stage (S.promote_to_write s) ≡ transact_writing
  pub promote_failed-stage :
      (s : S.State) → S.stage s ≡ transact_reading → S.stage (S.promote_failed s) ≡ transact_reading
  pub commit-stage :
      (s : S.State)
      → S.stage s ≡ transact_writing
      → S.stage (S.commit_and_continue_as_read s) ≡ transact_reading
  pub rollback-stage :
      (s : S.State)
      → S.stage s ≡ transact_writing
      → S.stage (S.rollback_and_continue_as_read s) ≡ transact_reading
  pub rollback_failed-stage :
      (s : S.State) → S.stage s ≡ transact_writing → S.stage (S.rollback_failed s) ≢ transact_ready
  pub compact-stage :
      (s : S.State) → S.stage s ≡ transact_ready → S.stage (S.compact s) ≡ transact_ready

-- The exceptions. `log_refused` is what the observer or the log parser throws. The last two are no
-- exceptions but calls through a null pointer and through a pointer to a column that is gone.
pub data Failure : Type 0 where
  read_only_realm incorrect_thread already_in_transaction not_in_transaction : Failure
  log_refused null_pointer dangling_pointer : Failure

module _ (S : SharedGroup) where
  -- `binding_context` has what get_observed_rows() of the context returns, if there is a context, and
  -- `context_can_deliver` what can_deliver_notifications() does. `commits` counts the calls of
  -- send_commit_notifications, and `registered` says whether there is a coordinator.
  pub record Realm : Type 0 where
    pub read_only : Bool
    pub thread_id : ℕ
    pub shared_group : Option S.State
    pub has_group : Bool
    pub binding_context : Option (List ObserverState)
    pub context_can_deliver : Bool
    pub registered : Bool
    pub commits : ℕ
    pub events : List Event

  -- A call that returns, or throws and leaves the Realm as it then is.
  pub data Call (A : Type 0) : Type 0 where
    returned : A → Realm → Call A
    threw : Failure → Realm → Call A

  infixl 5 ◌>>=◌
  abbrev pub ◌>>=◌ : {A B : Type 0} → Call A → (A → Realm → Call B) → Call B
  returned a r >>= f = f a r
  threw e r >>= f = threw e r

  unfoldable pub is_in_transaction : Realm → Bool
  is_in_transaction r = elim r.shared_group [ none ↦ false | some s ↦ is_writing (S.stage s) ]

  unfoldable pub read_group : Realm → Call Unit
  read_group r = if r.has_group then returned tt r else elim r.shared_group [
    | none ↦ threw null_pointer r
    | some s ↦ returned tt (record r { has_group = true; shared_group = some (S.begin_read s) })
  ]

  -- The end of a function of `transaction`, with the state of the shared group after it and the one
  -- after an exception.
  abbrev pub settle : Realm → S.State → S.State → Outcome (List Event) → Call Unit
  settle r after failed (accepted events) =
      returned tt (record r { shared_group = some after; events = r.events ++ events })
  settle r after failed undefined = threw dangling_pointer (record r { shared_group = some failed })
  settle r after failed _ = threw log_refused (record r { shared_group = some failed })

  abbrev moved : S.State → S.State → Bool
  moved s s' = not (S.version s == S.version s')

  -- transaction::begin and the like, on the shared group of a Realm
  unfoldable pub promote : Realm → Call Unit
  promote r = elim r.shared_group [
    | none ↦ threw null_pointer r
    | some s ↦
        settle r (S.promote_to_write s) (S.promote_failed s) (
          transaction.begin r.binding_context (S.newer_log s) (moved s (S.promote_to_write s)) true)
  ]

  unfoldable pub commit : Realm → Call Unit
  commit r = elim r.shared_group [
    | none ↦ threw null_pointer r
    | some s ↦ settle r (S.commit_and_continue_as_read s) s (transaction.commit r.binding_context)
  ]

  unfoldable pub rollback : Realm → Call Unit
  rollback r = elim r.shared_group [
    | none ↦ threw null_pointer r
    | some s ↦ settle r (S.rollback_and_continue_as_read s) (S.rollback_failed s) (
        transaction.cancel r.binding_context (S.rollback_log s)
          (moved s (S.rollback_and_continue_as_read s)))
  ]

  unfoldable pub advance : Realm → Call Unit
  advance r = elim r.shared_group [
    | none ↦ threw null_pointer r
    | some s ↦
        settle r (S.advance_read s) (S.advance_failed s)
          (transaction.advance r.binding_context (S.newer_log s) (moved s (S.advance_read s)))
  ]

  unfoldable pub end_read : Realm → Call Unit
  end_read r = elim r.shared_group [
    | none ↦ threw null_pointer r
    | some s ↦ returned tt (record r { has_group = false; shared_group = some (S.end_read s) })
  ]

  -- m_coordinator->send_commit_notifications()
  unfoldable pub notify_others : Realm → Call Unit
  notify_others r =
      if r.registered
      then returned tt (record r { commits = r.commits + 1 })
      else threw null_pointer r

  unfoldable pub begin_transaction : ℕ → Realm → Call Unit
  unfolding is_in_transaction read_group promote
  begin_transaction thread r =
      if r.read_only
      then threw read_only_realm r
      else if not (r.thread_id == thread)
      then threw incorrect_thread r
      else if is_in_transaction r
      then threw already_in_transaction r
      else (read_group r >>= λ _ r. promote r)

  unfoldable pub commit_transaction : ℕ → Realm → Call Unit
  unfolding is_in_transaction commit notify_others
  commit_transaction thread r =
      if r.read_only
      then threw read_only_realm r
      else if not (r.thread_id == thread)
      then threw incorrect_thread r
      else if not (is_in_transaction r)
      then threw not_in_transaction r
      else (commit r >>= λ _ r. notify_others r)

  unfoldable pub cancel_transaction : ℕ → Realm → Call Unit
  unfolding is_in_transaction rollback
  cancel_transaction thread r =
      if r.read_only
      then threw read_only_realm r
      else if not (r.thread_id == thread)
      then threw incorrect_thread r
      else if not (is_in_transaction r)
      then threw not_in_transaction r
      else rollback r

  -- The end of `invalidate`, after the write transaction.
  unfoldable pub drop_group : Realm → Call Unit
  unfolding end_read
  drop_group r = if not r.has_group then returned tt r else end_read r

  unfoldable pub invalidate : ℕ → Realm → Call Unit
  unfolding is_in_transaction cancel_transaction drop_group
  invalidate thread r =
      if not (r.thread_id == thread)
      then threw incorrect_thread r
      else if r.read_only
      then threw read_only_realm r
      else if is_in_transaction r
      then (cancel_transaction thread r >>= λ _ r. drop_group r)
      else drop_group r

  -- Without the tables that are optimised, which the transaction does not depend on.
  unfoldable pub compact : ℕ → Realm → Call Unit
  unfolding is_in_transaction read_group end_read
  compact thread r =
      if not (r.thread_id == thread)
      then threw incorrect_thread r
      else if r.read_only
      then threw read_only_realm r
      else if is_in_transaction r
      then threw already_in_transaction r
      else (read_group r >>= (λ _ r. end_read r) >>= λ _ r. elim r.shared_group [
        | none ↦ threw null_pointer r
        | some s ↦ returned tt (record r { shared_group = some (S.compact s) })
      ])

  -- Whether there were changes. The queries that the coordinator delivers then are left out.
  unfoldable pub refresh : ℕ → Realm → Call Bool
  unfolding is_in_transaction read_group advance
  refresh thread r =
      if not (r.thread_id == thread)
      then threw incorrect_thread r
      else if r.read_only
      then threw read_only_realm r
      else if is_in_transaction r
      then returned false r
      else elim r.shared_group [
        | none ↦ threw null_pointer r
        | some s ↦
            if not (S.has_changed s)
            then returned false r
            else ((if r.has_group then advance r else read_group r) >>= λ _ r. returned true r)
      ]

  unfoldable pub close : ℕ → Realm → Call Unit
  unfolding invalidate
  close thread r = invalidate thread r >>= λ _ r. returned tt (record r {
    has_group = false;
    shared_group = none;
    binding_context = none;
    registered = false;
  })

  unfoldable pub can_deliver_notifications : Realm → Bool
  can_deliver_notifications r = elim r.binding_context [
    | none ↦ not r.read_only
    | some os ↦ not r.read_only && r.context_can_deliver
  ]

  unfoldable pub verify_in_write : Realm → Call Unit
  unfolding is_in_transaction
  verify_in_write r =
      if not (is_in_transaction r) then threw not_in_transaction r else returned tt r
