-- ===== src/Realm/Transactions.antt =====
-- The transactions of a Realm (Realm/ObjectStore/shared_realm.cpp) as a state machine.
use realm_cocoa.Base.{
  ℕ, ◌≡◌, ◌≢◌, refl, sym, subst, ap, ◌∙◌, Bool, true, false, not, List, [], Option, none, some,
  ◌==◌, ◌⊎◌, inl, inr, Bool-cases,
}
use realm_cocoa.TransactLog.{Outcome, accepted, rejected, schema_error, undefined}
use realm_cocoa.TransactLog.Observer.{ObserverState}
use realm_cocoa.TransactLog.Advance.{Event}
use realm_cocoa.TransactLog.Advance as transaction
use realm_cocoa.Realm.{
  Stage, transact_ready, transact_reading, transact_writing, SharedGroup, IsSharedGroup, Failure,
  already_in_transaction, not_in_transaction, log_refused, dangling_pointer, Realm, Call, returned,
  threw, ◌>>=◌, is_in_transaction, read_group, settle, promote, commit, rollback, advance, end_read,
  notify_others, begin_transaction, commit_transaction, cancel_transaction, drop_group, invalidate,
  compact, refresh,
}

pub data Op : Type 0 where
  begins commits cancels invalidates compacts refreshes : Op

-- A call from a thread; what `refresh` returns is left out.
abbrev pub run : (S : SharedGroup) → ℕ → Op → Realm S → Call S Unit
run S thread begins r = begin_transaction S thread r
run S thread commits r = commit_transaction S thread r
run S thread cancels r = cancel_transaction S thread r
run S thread invalidates r = invalidate S thread r
run S thread compacts r = compact S thread r
run S thread refreshes r = ◌>>=◌ S (refresh S thread r) (λ _ r. returned tt r)

-- What a handler of the log may throw.
pub data IsLogFailure : Failure → Type 0 where
  refused : IsLogFailure log_refused
  dangled : IsLogFailure dangling_pointer

-- The stages before and after a call, and what it throws.
pub data Edge : Op → Stage → Option Failure → Stage → Type 0 where
  begin_ready : Edge begins transact_ready none transact_writing
  begin_reading : Edge begins transact_reading none transact_writing
  begin_nested : Edge begins transact_writing (some already_in_transaction) transact_writing
  begin_ready_failed :
      {e : Failure} → IsLogFailure e → Edge begins transact_ready (some e) transact_reading
  begin_reading_failed :
      {e : Failure} → IsLogFailure e → Edge begins transact_reading (some e) transact_reading
  commit_ready : Edge commits transact_ready (some not_in_transaction) transact_ready
  commit_reading : Edge commits transact_reading (some not_in_transaction) transact_reading
  commit_writing : Edge commits transact_writing none transact_reading
  cancel_ready : Edge cancels transact_ready (some not_in_transaction) transact_ready
  cancel_reading : Edge cancels transact_reading (some not_in_transaction) transact_reading
  cancel_writing : Edge cancels transact_writing none transact_reading
  cancel_failed :
      {e : Failure} {to : Stage}
      → IsLogFailure e
      → to ≢ transact_ready
      → Edge cancels transact_writing (some e) to
  invalidate_any : {s : Stage} → Edge invalidates s none transact_ready
  invalidate_failed :
      {e : Failure} {to : Stage}
      → IsLogFailure e
      → to ≢ transact_ready
      → Edge invalidates transact_writing (some e) to
  compact_ready : Edge compacts transact_ready none transact_ready
  compact_reading : Edge compacts transact_reading none transact_ready
  compact_writing : Edge compacts transact_writing (some already_in_transaction) transact_writing
  refresh_same : {s : Stage} → Edge refreshes s none s
  refresh_started : Edge refreshes transact_ready none transact_reading
  refresh_failed :
      {e : Failure} → IsLogFailure e → Edge refreshes transact_reading (some e) transact_reading

ruleset edges = (
  begin_ready, begin_reading, begin_nested, begin_ready_failed, begin_reading_failed, commit_ready,
  commit_reading, commit_writing, cancel_ready, cancel_reading, cancel_writing, cancel_failed,
  invalidate_any, invalidate_failed, compact_ready, compact_reading, compact_writing, refresh_same,
  refresh_started, refresh_failed, refused, dangled,
)

abbrev pub is_ready : Stage → Bool
is_ready transact_ready = true
is_ready _ = false

pub commit-accepted :
    (context : Option (List ObserverState))
    → (events : List Event) × (transaction.commit context ≡ accepted events)
unfolding transaction.commit
commit-accepted none = ([], refl)
commit-accepted (some os) = (_, refl)

not_ready : (s : Stage) → s ≢ transact_ready → is_ready s ≡ false
not_ready transact_ready n = absurd (n refl)
not_ready transact_reading n = refl
not_ready transact_writing n = refl

pub Stage-cases :
    (s : Stage) → (s ≡ transact_ready) ⊎ ((s ≡ transact_reading) ⊎ (s ≡ transact_writing))
Stage-cases transact_ready = inl refl
Stage-cases transact_reading = inr (inl refl)
Stage-cases transact_writing = inr (inr refl)

module _ (S : SharedGroup) where
  -- A Realm with a shared group has a group while it is in a transaction, and then only.
  abbrev pub IsWellFormed : Realm S → S.State → Type 0
  IsWellFormed r s = (r.shared_group ≡ some s) × (r.has_group ≡ not (is_ready (S.stage s)))

  -- The Realm is well formed after a call, and the call is an edge of the diagram.
  abbrev pub Ends : Op → Stage → Realm S → Option Failure → Type 0
  Ends op from r e = (s : S.State) × IsWellFormed r s × Edge op from e (S.stage s)

  abbrev pub Follows : {A : Type 0} → Op → Stage → Call S A → Type 0
  Follows op from (returned a r) = Ends op from r none
  Follows op from (threw e r) = Ends op from r (some e)

  abbrev at : Realm S → S.State → Bool → Realm S
  at r s g = record r { shared_group = some s; has_group = g }

  -- A function of `transaction` from the stages of the shared group after it.
  settle-Follows :
      (op : Op) (from to back : Stage) (r : Realm S) (s after failed : S.State)
      (o : Outcome (List Event))
      → S.stage after ≡ to
      → S.stage failed ≡ back
      → is_ready to ≡ false
      → is_ready back ≡ false
      → Edge op from none to
      → ((e : Failure) → IsLogFailure e → Edge op from (some e) back)
      → Follows op from (settle S (at r s true) after failed o)
  settle-Follows op from to back r s after failed (accepted events) a b t k ok bad =
      (after, (refl, rw (a, t) refl), subst (λ x. Edge op from none x) (sym a) ok)
  settle-Follows op from to back r s after failed rejected a b t k ok bad = (
    failed,
    (refl, rw (b, k) refl),
    subst (λ x. Edge op from (some log_refused) x) (sym b) (bad _ refused),
  )
  settle-Follows op from to back r s after failed schema_error a b t k ok bad = (
    failed,
    (refl, rw (b, k) refl),
    subst (λ x. Edge op from (some log_refused) x) (sym b) (bad _ refused),
  )
  settle-Follows op from to back r s after failed undefined a b t k ok bad = (
    failed,
    (refl, rw (b, k) refl),
    subst (λ x. Edge op from (some dangling_pointer) x) (sym b) (bad _ dangled),
  )

  module _ (L : IsSharedGroup S) where
    promote-Follows :
        (from : Stage) (r : Realm S) (s : S.State)
        → S.stage s ≡ transact_reading
        → Edge begins from none transact_writing
        → ((e : Failure) → IsLogFailure e → Edge begins from (some e) transact_reading)
        → Follows begins from (promote S (at r s true))
    unfolding promote
    promote-Follows from r s h ok bad =
        settle-Follows begins from transact_writing transact_reading r s _ _ _
          (L.promote_to_write-stage s h) (L.promote_failed-stage s h) refl refl ok bad

    has_group-at :
        (s : S.State) (g : Bool) (st : Stage)
        → g ≡ not (is_ready (S.stage s))
        → S.stage s ≡ st
        → g ≡ not (is_ready st)
    has_group-at s g st wf e = wf ∙ ap (λ x. not (is_ready x)) e

    drop_group-Follows :
        (op : Op) (from : Stage) (r : Realm S) (s : S.State) (g : Bool)
        → g ≡ not (is_ready (S.stage s))
        → Edge op from none transact_ready
        → Follows op from (drop_group S (at r s g))
    unfolding drop_group end_read
    drop_group-Follows op from r s g wf ok = elim (Stage-cases (S.stage s)) [
      | inl e ↦ rw (has_group-at s g _ wf e) (s, (refl, rw e refl), rw e ok)
      | inr (inl e) ↦
          let to = L.end_read-stage s in
          rw (has_group-at s g _ wf e) (S.end_read s, (refl, rw to refl), rw to ok)
      | inr (inr e) ↦
          let to = L.end_read-stage s in
          rw (has_group-at s g _ wf e) (S.end_read s, (refl, rw to refl), rw to ok)
    ]

    -- A well-formed Realm, written out.
    at-IsWellFormed :
        (r : Realm S) (s : S.State) → IsWellFormed r s → at r s (not (is_ready (S.stage s))) ≡ r
    at-IsWellFormed r s h =
        ap (λ x. record r { shared_group = x; has_group = not (is_ready (S.stage s)) }) (sym h.0)
        ∙ ap (λ x. record r { has_group = x }) (sym h.1)

    invalidate-cancel :
        (e : Failure) (t : Stage)
        → Edge cancels transact_writing (some e) t
        → Edge invalidates transact_writing (some e) t
    invalidate-cancel e t (cancel_failed l n) = invalidate_failed l n

    drop_group-then :
        (c : Call S Unit)
        → Follows cancels transact_writing c
        → Follows invalidates transact_writing (◌>>=◌ S c (λ _ r. drop_group S r))
    drop_group-then (returned a r) (s, wf, edge) =
        subst (λ x. Follows invalidates transact_writing (drop_group S x)) (at-IsWellFormed r s wf)
          (drop_group-Follows invalidates transact_writing r s _ refl invalidate_any)
    drop_group-then (threw e r) (s, wf, edge) = (s, wf, invalidate-cancel e _ edge)

    returned-then :
        {A B : Type 0} (op : Op) (from : Stage) (c : Call S A) (b : B)
        → Follows op from c
        → Follows op from (◌>>=◌ S c (λ _ r. returned b r))
    returned-then op from (returned a r) b h = h
    returned-then op from (threw e r) b h = h

    module _ (thread : ℕ) (r : Realm S) (s : S.State) (g : Bool) (writable : r.read_only ≡ false)
        (own : (r.thread_id == thread) ≡ true) (wf : g ≡ not (is_ready (S.stage s))) where
      begin_transaction-Follows : Follows begins (S.stage s) (begin_transaction S thread (at r s g))
      unfolding begin_transaction is_in_transaction read_group
      begin_transaction-Follows = elim (Stage-cases (S.stage s)) [
        | inl e ↦
            rw (writable, own, e, has_group-at s g _ wf e)
              (promote-Follows transact_ready (record r { read_only = false }) (S.begin_read s)
                (L.begin_read-stage s e) begin_ready (λ e l. begin_ready_failed l))
        | inr (inl e) ↦
            rw (writable, own, e, has_group-at s g _ wf e)
              (promote-Follows transact_reading (record r { read_only = false }) s e begin_reading
                (λ e l. begin_reading_failed l))
        | inr (inr e) ↦ rw (writable, own, e) (s, (refl, wf), rw e begin_nested)
      ]

      cancel_outside :
          S.stage s ≡ transact_ready
          → Follows cancels transact_ready (cancel_transaction S thread (at r s g))
      unfolding cancel_transaction is_in_transaction
      cancel_outside e = rw (writable, own, e) (s, (refl, wf), rw e cancel_ready)

      cancel_reads :
          S.stage s ≡ transact_reading
          → Follows cancels transact_reading (cancel_transaction S thread (at r s g))
      unfolding cancel_transaction is_in_transaction
      cancel_reads e = rw (writable, own, e) (s, (refl, wf), rw e cancel_reading)

      commit_transaction-Follows :
          r.registered ≡ true → Follows commits (S.stage s) (commit_transaction S thread (at r s g))
      unfolding commit_transaction is_in_transaction commit notify_others
      commit_transaction-Follows reg = elim (Stage-cases (S.stage s)) [
        | inl e ↦ rw (writable, own, e) (s, (refl, wf), rw e commit_ready)
        | inr (inl e) ↦ rw (writable, own, e) (s, (refl, wf), rw e commit_reading)
        | inr (inr e) ↦
            let (events, c) = commit-accepted r.binding_context in
            let to = L.commit-stage s e in
            rw (writable, own, e, c, reg, has_group-at s g _ wf e)
              (S.commit_and_continue_as_read s, (refl, rw to refl), rw to commit_writing)
      ]

      cancel_transaction-Follows :
          (op : Op)
          → Edge op transact_writing none transact_reading
          → ((e : Failure) (to : Stage)
              → IsLogFailure e
              → to ≢ transact_ready
              → Edge op transact_writing (some e) to)
          → S.stage s ≡ transact_writing
          → Follows op transact_writing (cancel_transaction S thread (at r s g))
      unfolding cancel_transaction is_in_transaction rollback
      cancel_transaction-Follows op ok bad e =
          rw (writable, own, e, has_group-at s g _ wf e)
            (settle-Follows op transact_writing transact_reading _ (record r { read_only = false })
              s _ (S.rollback_failed s) _ (L.rollback-stage s e) refl refl
              (not_ready _ (L.rollback_failed-stage s e)) ok
              (λ e' l. bad e' _ l (L.rollback_failed-stage s e)))

      compact-Follows : Follows compacts (S.stage s) (compact S thread (at r s g))
      unfolding compact is_in_transaction read_group end_read
      compact-Follows = elim (Stage-cases (S.stage s)) [
        | inl e ↦
            let to = L.compact-stage _ (L.end_read-stage (S.begin_read s)) in
            rw (writable, own, e, has_group-at s g _ wf e)
              (S.compact (S.end_read (S.begin_read s)), (refl, rw to refl), rw to compact_ready)
        | inr (inl e) ↦
            let to = L.compact-stage _ (L.end_read-stage s) in
            rw (writable, own, e, has_group-at s g _ wf e)
              (S.compact (S.end_read s), (refl, rw to refl), rw to compact_reading)
        | inr (inr e) ↦ rw (writable, own, e) (s, (refl, wf), rw e compact_writing)
      ]

      invalidate-Follows : Follows invalidates (S.stage s) (invalidate S thread (at r s g))
      unfolding invalidate is_in_transaction
      invalidate-Follows = elim (Stage-cases (S.stage s)) [
        | inl e ↦
            rw (writable, own, e)
              (drop_group-Follows invalidates _ (record r { read_only = false }) s g wf
                invalidate_any)
        | inr (inl e) ↦
            rw (writable, own, e)
              (drop_group-Follows invalidates _ (record r { read_only = false }) s g wf
                invalidate_any)
        | inr (inr e) ↦
            rw (writable, own, e, has_group-at s g _ wf e)
              (drop_group-then _ (
                settle-Follows cancels transact_writing transact_reading _
                  (record r { read_only = false }) s _ (S.rollback_failed s) _
                  (L.rollback-stage s e) refl refl (not_ready _ (L.rollback_failed-stage s e))
                  cancel_writing (λ e' l. cancel_failed l (L.rollback_failed-stage s e))))
      ]

      refresh-Follows : Follows refreshes (S.stage s) (refresh S thread (at r s g))
      unfolding refresh is_in_transaction read_group advance
      refresh-Follows = elim (Stage-cases (S.stage s)) [
        | inl e ↦ elim (Bool-cases (S.has_changed s)) [
          | inl b ↦
              let to = L.begin_read-stage s e in
              rw (writable, own, e, b, has_group-at s g _ wf e)
                (S.begin_read s, (refl, rw to refl), rw to refresh_started)
          | inr b ↦ rw (writable, own, e, b) (s, (refl, wf), rw e refresh_same)
        ]
        | inr (inl e) ↦ elim (Bool-cases (S.has_changed s)) [
          | inl b ↦
              rw (writable, own, e, b, has_group-at s g _ wf e)
                (returned-then refreshes transact_reading _ true (
                  settle-Follows refreshes transact_reading transact_reading transact_reading
                    (record r { read_only = false }) s _ _ _ (L.advance_read-stage s e)
                    (L.advance_failed-stage s e) refl refl refresh_same (λ e l. refresh_failed l)))
          | inr b ↦ rw (writable, own, e, b) (s, (refl, wf), rw e refresh_same)
        ]
        | inr (inr e) ↦ rw (writable, own, e) (s, (refl, wf), rw e refresh_same)
      ]

      run-at : (op : Op) → r.registered ≡ true → Follows op (S.stage s) (run S thread op (at r s g))
      run-at begins reg = begin_transaction-Follows
      run-at commits reg = commit_transaction-Follows reg
      run-at cancels reg = elim (Stage-cases (S.stage s)) [
        | inl e ↦ rw e (cancel_outside e)
        | inr (inl e) ↦ rw e (cancel_reads e)
        | inr (inr e) ↦
            rw e
              (cancel_transaction-Follows cancels cancel_writing (λ e to l n. cancel_failed l n) e)
      ]
      run-at invalidates reg = invalidate-Follows
      run-at compacts reg = compact-Follows
      run-at refreshes reg = returned-then refreshes (S.stage s) _ tt refresh-Follows

-- On its own thread, a Realm that is open for writing is in a transaction of its shared group if and
-- only if it has a group, and it still is after each call, whether it returns or throws; and the stage
-- goes along an edge of the diagram, which also says what is thrown, and where. Where the observer of a
-- rollback throws, the Realm is left in a transaction, to read or still to write.
pub run-Follows :
    (S : SharedGroup)
    → IsSharedGroup S
    → (thread : ℕ) (op : Op) (r : Realm S) (s : S.State) → IsWellFormed S r s
    → r.read_only ≡ false
    → (r.thread_id == thread) ≡ true
    → r.registered ≡ true
    → Follows S op (S.stage s) (run S thread op r)
run-Follows S L thread op r s wf writable own reg =
    subst (λ x. Follows S op (S.stage s) (run S thread op x)) (at-IsWellFormed S L r s wf)
      (run-at S L thread r s _ writable own refl op reg)
