-- ===== src/Realm/Guarded.antt =====
-- The write transaction of Realm::update_schema (Realm/ObjectStore/shared_realm.cpp): all or nothing.
use realm_cocoa.Base.{
  ℕ, ◌+◌, ◌≡◌, ◌≢◌, refl, ap, ◌∙◌, subst, Bool, true, false, ◌++◌, none, some, ◌==◌, ◌⊎◌, inl, inr,
}
use realm_cocoa.Schema.{Schema}
use realm_cocoa.Realm as realm
use realm_cocoa.Realm.{
  SharedGroup, IsSharedGroup, Realm, Call, Stage, transact_ready, transact_writing, is_writing,
  is_in_transaction, settle, rollback, commit, notify_others, commit_transaction,
  cancel_transaction,
}
use realm_cocoa.Realm.Transactions.{
  Edge, cancels, IsWellFormed, Follows, run-Follows, cancel_writing, cancel_failed, Stage-cases,
  commit-accepted,
}
use realm_cocoa.ObjectStore.Tables.{Tables}
use realm_cocoa.ObjectStore.Group.{Groups}
use realm_cocoa.ObjectStore.Migration as store
use realm_cocoa.ObjectStore.Migration.{Outcome, update_realm_with_schema}
use realm_cocoa.Realm.Update.{
  GroupAccess, SchemaRealm, Updated, updated, failed, UpdateFailure, invalid_schema, of_store,
  of_realm, terminated, handed, guarded, write_schema,
}

pub Outcome-cases :
    {B : Type 0} (o : Outcome B)
    → ((e : store.Failure) × (o ≡ store.error e)) ⊎ ((b : B) × (o ≡ store.ok b))
Outcome-cases (store.ok b) = inr (b, refl)
Outcome-cases (store.error e) = inl (e, refl)

pub cancel_ends : (to : Stage) → Edge cancels transact_writing none to → is_writing to ≡ false
cancel_ends _ cancel_writing = refl

pub cancel_kept :
    (e : realm.Failure) (to : Stage)
    → Edge cancels transact_writing (some e) to
    → to ≢ transact_ready
cancel_kept _ _ (cancel_failed l n) = n

-- The program goes on only after an exception that was not thrown by the destructor of the guard.
abbrev pub Over : UpdateFailure → Bool → Type 0
Over terminated writing = Unit
Over _ writing = writing ≡ false

pub over : (e : UpdateFailure) {writing : Bool} → writing ≡ false → Over e writing
over (invalid_schema es) h = h
over (of_store e) h = h
over (of_realm e) h = h
over terminated h = tt

module _ (T : Tables) (G : Groups T) (S : SharedGroup) (A : GroupAccess T G S)
    (L : IsSharedGroup S) where
  abbrev State : Type 0
  State = SchemaRealm T G S A

  -- A Realm on its own thread, open for writing and in a write transaction.
  abbrev pub IsWriting : ℕ → State → S.State → Type 0
  IsWriting thread m s =
      IsWellFormed S m.realm s
      × (S.stage s ≡ transact_writing)
      × (m.realm.read_only ≡ false)
      × ((m.realm.thread_id == thread) ≡ true)
      × (m.realm.registered ≡ true)

  -- The transaction is over; the Realm has the new version, the coordinator its schema and there is
  -- what `Good` says of the Realm, or, after an exception for which `Why` gives the reason, all is as in
  -- `m`.
  abbrev pub Settled :
      State → ℕ → (State → Type 0) → (UpdateFailure → Type 0) → Updated T G S A → Type 0
  Settled m version Good Why (updated m') =
      (is_in_transaction S m'.realm ≡ false)
      × (m'.schema_version ≡ version)
      × (m'.published ≡ some m'.schema)
      × Good m'
  Settled m version Good Why (failed e m') =
      Over e (is_in_transaction S m'.realm)
      × Why e
      × (m'.schema ≡ m.schema)
      × (m'.schema_version ≡ m.schema_version)
      × (m'.published ≡ m.published)

  pub Settled-map :
      (m : State) (version : ℕ) (Good Better : State → Type 0) (Why : UpdateFailure → Type 0)
      (u : Updated T G S A)
      → ((m' : State) → Good m' → Better m')
      → Settled m version Good Why u
      → Settled m version Better Why u
  Settled-map m version Good Better Why (updated m') f (a, v, p, g) = (a, v, p, f m' g)
  Settled-map m version Good Better Why (failed e m') f h = h

  pub outside :
      (r : Realm S) (s : S.State)
      → r.shared_group ≡ some s
      → is_writing (S.stage s) ≡ false
      → is_in_transaction S r ≡ false
  unfolding is_in_transaction
  outside r s h w = rw (is_in_transaction, h) w

  pub inside :
      (r : Realm S) (s : S.State)
      → r.shared_group ≡ some s
      → S.stage s ≡ transact_writing
      → is_in_transaction S r ≡ true
  unfolding is_in_transaction
  inside r s h w = rw (is_in_transaction, h, w) refl

  after_cancel : UpdateFailure → State → Call S Unit → Updated T G S A
  after_cancel e m c = elim c [
    | realm.returned a r ↦ failed e (record m { realm = r })
    | realm.threw e' r ↦ failed terminated (record m { realm = r })
  ]

  after_cancel_lem :
      (e : UpdateFailure) (m : State) (version : ℕ) (Good : State → Type 0)
      (Why : UpdateFailure → Type 0) (c : Call S Unit)
      → Why e
      → Why terminated
      → Follows S cancels transact_writing c
      → Settled m version Good Why (after_cancel e m c)
  unfolding after_cancel
  after_cancel_lem e m version Good Why (realm.returned a r) y t (s, wf, edge) =
      (over e (outside r s wf.0 (cancel_ends (S.stage s) edge)), y, refl, refl, refl)
  after_cancel_lem e m version Good Why (realm.threw e' r) y t (s, wf, edge) =
      (tt, t, refl, refl, refl)

  -- A Realm in a write transaction, cancelled.
  pub cancelled :
      (thread : ℕ) (m : State) (s : S.State)
      → IsWriting thread m s
      → Follows S cancels transact_writing (cancel_transaction S thread m.realm)
  cancelled thread m s (wf, w, writable, own, reg) =
      subst (λ x. Follows S cancels x (cancel_transaction S thread m.realm)) w
        (run-Follows S L thread cancels m.realm s wf writable own reg)

  pub guarded_lem :
      (thread : ℕ) (e : UpdateFailure) (m : State) (s : S.State) (version : ℕ)
      (Good : State → Type 0) (Why : UpdateFailure → Type 0)
      → Why e
      → Why terminated
      → IsWriting thread m s
      → Settled m version Good Why (guarded T G S A thread e m)
  unfolding guarded after_cancel
  guarded_lem thread e m s version Good Why y t w =
      rw (guarded, inside m.realm s w.0.0 w.1)
        (after_cancel_lem e m version Good Why (cancel_transaction S thread m.realm) y t
          (cancelled thread m s w))

  -- The guard after a cancellation that has failed, which may have left the write transaction.
  pub guarded_again :
      (thread : ℕ) (e : UpdateFailure) (m : State) (s : S.State) (version : ℕ)
      (Good : State → Type 0) (Why : UpdateFailure → Type 0)
      → Why e
      → Why terminated
      → IsWellFormed S m.realm s
      → S.stage s ≢ transact_ready
      → (m.realm.read_only ≡ false)
        × ((m.realm.thread_id == thread) ≡ true)
        × (m.realm.registered ≡ true)
      → Settled m version Good Why (guarded T G S A thread e m)
  unfolding guarded
  guarded_again thread e m s version Good Why y t wf n (writable, own, reg) =
      elim (Stage-cases (S.stage s)) [
        | inl h ↦ absurd (n h)
        | inr (inl h) ↦
            let ended = outside m.realm s wf.0 (ap is_writing h) in
            rw (guarded, ended) (over e ended, y, refl, refl, refl)
        | inr (inr h) ↦ guarded_lem thread e m s version Good Why y t (wf, h, writable, own, reg)
      ]

  -- The update of the group within the write transaction `w` has come to an end, and the transaction
  -- with that group has been committed.
  abbrev pub Written :
      State → S.State → Schema → ℕ → (State → Outcome (G.Group × Schema)) → State → Type 0
  Written m w schema version migration m' =
      (g : G.Group) × (update_realm_with_schema T G (A.group w) m.schema version schema
          (handed T G S A m w version migration)
        ≡ store.ok (g, m'.schema))
      × (m'.realm.shared_group ≡ some (S.commit_and_continue_as_read (A.with_group w g)))

  commits_to :
      (thread : ℕ) (r : Realm S) (s : S.State)
      → r.shared_group ≡ some s
      → S.stage s ≡ transact_writing
      → r.read_only ≡ false
      → (r.thread_id == thread) ≡ true
      → r.registered ≡ true
      → (r' : Realm S) × (commit_transaction S thread r ≡ realm.returned tt r')
        × (r'.shared_group ≡ some (S.commit_and_continue_as_read s))
        × (is_in_transaction S r' ≡ is_writing (S.stage (S.commit_and_continue_as_read s)))
  unfolding commit_transaction commit notify_others is_in_transaction
  commits_to thread r s h w writable own reg =
      let writes = inside r s h w in
      let (events, c) = commit-accepted r.binding_context in
      (
        record r {
          shared_group = some (S.commit_and_continue_as_read s);
          events = r.events ++ events;
          commits = r.commits + 1;
        },
        simp (commit_transaction, commit, notify_others, writable, own, writes, h, c, reg),
        refl,
        refl,
      )

  -- From within the write transaction, whatever the migration does: the update ends with the
  -- transaction over. It either returns, with the new version and the schema that the coordinator is
  -- given, which the update of the group has made, or throws, and then the schema, the version and what
  -- the coordinator has are as before.
  pub write_schema_lem :
      (thread : ℕ) (m : State) (s : S.State) (schema : Schema) (version : ℕ)
      → (migration : State → Outcome (G.Group × Schema))
      → ((x : S.State) (g : G.Group) → S.stage (A.with_group x g) ≡ S.stage x)
      → IsWriting thread m s
      → (Why : UpdateFailure → Type 0)
      → ((e : store.Failure)
          → update_realm_with_schema T G
              (A.group s)
              m.schema
              version
              schema
              (handed T G S A m s version migration)
            ≡ store.error e
          → Why (of_store e))
      → Why terminated
      → Settled m version
          (Written m s schema version migration)
          Why
          (write_schema T G S A thread m s schema version migration)
  unfolding write_schema
  write_schema_lem thread m s schema version migration keeps writing Why why t =
      elim (Outcome-cases (
        update_realm_with_schema T G (A.group s) m.schema version schema
          (handed T G S A m s version migration))) [
            | inl (e, h) ↦
                rw (write_schema, h)
                  (guarded_lem thread (of_store e) m s version
                    (Written m s schema version migration) Why (why e h) t writing)
            | inr (written, h) ↦
                let (wf, w, writable, own, reg) = writing in
                let s' = A.with_group s written.0 in
                let r : Realm S = record m.realm { shared_group = some s' } in
                let stage = keeps s written.0 ∙ w in
                let (r', done, at, out) = commits_to thread r s' refl stage writable own reg in
                let ended = out ∙ ap is_writing (L.commit-stage s' stage) in
                rw (write_schema, h) (rw done (ended, refl, refl, (written.0, h, at)))
          ]
