-- ===== src/Realm/Stays.antt =====
-- What no call changes of a Realm (Realm/ObjectStore/shared_realm.cpp).
use realm_cocoa.Base.{
  ℕ, ◌≡◌, refl, ◌∙◌, Bool, true, false, not, List, Option, none, some, ◌==◌, if◌then◌else◌,
}
use realm_cocoa.TransactLog.{Outcome, accepted, rejected, schema_error, undefined}
use realm_cocoa.TransactLog.Advance.{Event}
use realm_cocoa.Realm.{
  SharedGroup, Realm, Call, returned, threw, null_pointer, ◌>>=◌, is_in_transaction, read_group,
  settle, promote, commit, rollback, advance, end_read, notify_others, begin_transaction,
  commit_transaction, cancel_transaction, drop_group, invalidate, compact, refresh,
}
use realm_cocoa.Realm.Transactions.{
  Op, begins, commits, cancels, invalidates, compacts, refreshes, run,
}

module _ (S : SharedGroup) where
  -- The Realm after a call, whether it returns or throws.
  abbrev pub after : {A : Type 0} → Call S A → Realm S
  after (returned a r) = r
  after (threw e r) = r

  -- What no call changes.
  abbrev pub IsSame : Realm S → Realm S → Type 0
  IsSame r' r =
      (r'.read_only ≡ r.read_only) × (r'.thread_id ≡ r.thread_id) × (r'.registered ≡ r.registered)

  abbrev pub Stays : {A : Type 0} → Call S A → Realm S → Type 0
  Stays c r = IsSame (after c) r

  Stays-bind :
      {A B : Type 0} (c : Call S A) (f : A → Realm S → Call S B) (r : Realm S)
      → Stays c r
      → ((a : A) (r' : Realm S) → Stays (f a r') r')
      → Stays (◌>>=◌ S c f) r
  Stays-bind (returned a r') f r h k = let k' = k a r' in (k'.0 ∙ h.0, k'.1 ∙ h.1, k'.2 ∙ h.2)
  Stays-bind (threw e r') f r h k = h

  Stays-if :
      {A : Type 0} (b : Bool) (c d : Call S A) (r : Realm S)
      → Stays c r
      → Stays d r
      → Stays (if b then c else d) r
  Stays-if true c d r h k = h
  Stays-if false c d r h k = k

  Stays-option :
      {A X : Type 0} (o : Option X) (c : Call S A) (f : X → Call S A) (r : Realm S)
      → Stays c r
      → ((x : X) → Stays (f x) r)
      → Stays (elim o [ none ↦ c | some x ↦ f x ]) r
  Stays-option none c f r h k = h
  Stays-option (some x) c f r h k = k x

  settle-Stays :
      (r : Realm S) (s s' : S.State) (o : Outcome (List Event)) → Stays (settle S r s s' o) r
  settle-Stays r s s' (accepted events) = (refl, refl, refl)
  settle-Stays r s s' rejected = (refl, refl, refl)
  settle-Stays r s s' schema_error = (refl, refl, refl)
  settle-Stays r s s' undefined = (refl, refl, refl)

  read_group-Stays : (r : Realm S) → Stays (read_group S r) r
  unfolding read_group
  read_group-Stays r =
      Stays-if r.has_group (returned tt r) _ r (refl, refl, refl)
        (Stays-option r.shared_group (threw _ r) _ r (refl, refl, refl) (λ s. (refl, refl, refl)))

  promote-Stays : (r : Realm S) → Stays (promote S r) r
  unfolding promote
  promote-Stays r =
      Stays-option r.shared_group (threw _ r) _ r (refl, refl, refl) (λ s. settle-Stays r _ _ _)

  commit-Stays : (r : Realm S) → Stays (commit S r) r
  unfolding commit
  commit-Stays r =
      Stays-option r.shared_group (threw _ r) _ r (refl, refl, refl) (λ s. settle-Stays r _ _ _)

  rollback-Stays : (r : Realm S) → Stays (rollback S r) r
  unfolding rollback
  rollback-Stays r =
      Stays-option r.shared_group (threw _ r) _ r (refl, refl, refl) (λ s. settle-Stays r _ _ _)

  advance-Stays : (r : Realm S) → Stays (advance S r) r
  unfolding advance
  advance-Stays r =
      Stays-option r.shared_group (threw _ r) _ r (refl, refl, refl) (λ s. settle-Stays r _ _ _)

  end_read-Stays : (r : Realm S) → Stays (end_read S r) r
  unfolding end_read
  end_read-Stays r =
      Stays-option r.shared_group (threw _ r) _ r (refl, refl, refl) (λ s. (refl, refl, refl))

  notify_others-Stays : (r : Realm S) → Stays (notify_others S r) r
  unfolding notify_others
  notify_others-Stays r =
      Stays-if r.registered (returned tt _) (threw _ r) r (refl, refl, refl) (refl, refl, refl)

  drop_group-Stays : (r : Realm S) → Stays (drop_group S r) r
  unfolding drop_group
  drop_group-Stays r =
      Stays-if (not r.has_group) (returned tt r) (end_read S r) r (refl, refl, refl)
        (end_read-Stays r)

  -- Three guards in turn, each of which throws.
  guards-Stays :
      {A : Type 0} (a b c : Bool) (x y z : Call S A) (d : Call S A) (r : Realm S)
      → Stays x r
      → Stays y r
      → Stays z r
      → Stays d r
      → Stays (if a then x else if b then y else if c then z else d) r
  guards-Stays a b c x y z d r hx hy hz hd =
      Stays-if a x _ r hx (Stays-if b y _ r hy (Stays-if c z d r hz hd))

  module _ (thread : ℕ) (r : Realm S) where
    begin_transaction-Stays : Stays (begin_transaction S thread r) r
    unfolding begin_transaction
    begin_transaction-Stays =
        guards-Stays r.read_only (not (r.thread_id == thread)) (is_in_transaction S r) (threw _ r)
          (threw _ r) (threw _ r) _ r (refl, refl, refl) (refl, refl, refl) (refl, refl, refl)
          (Stays-bind (read_group S r) (λ _ r. promote S r) r (read_group-Stays r)
            (λ _ r. promote-Stays r))

    commit_transaction-Stays : Stays (commit_transaction S thread r) r
    unfolding commit_transaction
    commit_transaction-Stays =
        guards-Stays r.read_only (not (r.thread_id == thread)) (not (is_in_transaction S r))
          (threw _ r) (threw _ r) (threw _ r) _ r (refl, refl, refl) (refl, refl, refl)
          (refl, refl, refl)
          (Stays-bind (commit S r) (λ _ r. notify_others S r) r (commit-Stays r)
            (λ _ r. notify_others-Stays r))

    pub cancel_transaction-Stays : Stays (cancel_transaction S thread r) r
    unfolding cancel_transaction
    cancel_transaction-Stays =
        guards-Stays r.read_only (not (r.thread_id == thread)) (not (is_in_transaction S r))
          (threw _ r) (threw _ r) (threw _ r) (rollback S r) r (refl, refl, refl) (refl, refl, refl)
          (refl, refl, refl) (rollback-Stays r)

    invalidate-Stays : Stays (invalidate S thread r) r
    unfolding invalidate
    invalidate-Stays =
        guards-Stays (not (r.thread_id == thread)) r.read_only (is_in_transaction S r) (threw _ r)
          (threw _ r) _ (drop_group S r) r (refl, refl, refl) (refl, refl, refl)
          (Stays-bind (cancel_transaction S thread r) (λ _ r. drop_group S r) r
            cancel_transaction-Stays (λ _ r. drop_group-Stays r))
          (drop_group-Stays r)

    refresh-Stays : Stays (refresh S thread r) r
    unfolding refresh
    refresh-Stays =
        guards-Stays (not (r.thread_id == thread)) r.read_only (is_in_transaction S r) (threw _ r)
          (threw _ r) (returned false r) _ r (refl, refl, refl) (refl, refl, refl)
          (refl, refl, refl)
          (Stays-option r.shared_group (threw _ r) _ r (refl, refl, refl)
            (λ s.
              Stays-if (not (S.has_changed s)) (returned false r) _ r (refl, refl, refl)
                (Stays-bind (if r.has_group then advance S r else read_group S r)
                  (λ _ r. returned true r) r
                  (Stays-if r.has_group (advance S r) (read_group S r) r (advance-Stays r)
                    (read_group-Stays r))
                  (λ _ r. (refl, refl, refl)))))

    compact-Stays : Stays (compact S thread r) r
    unfolding compact
    compact-Stays =
        let ends : Unit → Realm S → Call S Unit = λ _ r. end_read S r in
        let compacts_it : Unit → Realm S → Call S Unit = λ _ r. elim r.shared_group [
          | none ↦ threw null_pointer r
          | some s ↦ returned tt (record r { shared_group = some (S.compact s) })
        ] in
        guards-Stays (not (r.thread_id == thread)) r.read_only (is_in_transaction S r) (threw _ r)
          (threw _ r) (threw _ r) _ r (refl, refl, refl) (refl, refl, refl) (refl, refl, refl)
          (Stays-bind (◌>>=◌ S (read_group S r) ends) compacts_it r
            (Stays-bind (read_group S r) ends r (read_group-Stays r) (λ _ r. end_read-Stays r))
            (λ _ r.
              Stays-option r.shared_group (threw _ r) _ r (refl, refl, refl)
                (λ s. (refl, refl, refl))))

    pub run-Stays : (op : Op) → Stays (run S thread op r) r
    run-Stays begins = begin_transaction-Stays
    run-Stays commits = commit_transaction-Stays
    run-Stays cancels = cancel_transaction-Stays
    run-Stays invalidates = invalidate-Stays
    run-Stays compacts = compact-Stays
    run-Stays refreshes =
        Stays-bind (refresh S thread r) (λ _ r. returned tt r) r refresh-Stays
          (λ _ r. (refl, refl, refl))
