-- ===== src/AsyncQuery/Delivery.antt =====
-- call_callbacks (Realm/ObjectStore/impl/async_query.cpp), while callbacks are added and removed.
use realm_cocoa.Base.{
  npos, ℕ, zero, suc, ◌+◌, ◌<◌, ◌≡◌, refl, inl, inr, Bool, true, false, not, ◌||◌, List, [], ◌∷◌,
  Option, none, some, if◌then◌else◌, incr, length, update_nth, empty, arith, All, Option-cases,
  subst, ap,
}
use realm_cocoa.AsyncQuery.{
  Callback, AsyncQuery, next_due, next_callback, Action, perform, Ending, finished,
  assertion_failed, out_of_fuel, next_actions, later_actions, call_callbacks,
}
use realm_cocoa.AsyncQuery.Cursor.{Next, next_due-Next, deliver}
use realm_cocoa.AsyncQuery.Steps.{
  cursor, due_in, IsConsistent, Kept, KeptIf, additions, perform-Kept,
}

length-update_nth :
    (cs : List Callback) (i : ℕ) (f : Callback → Callback) → length (update_nth cs i f) ≡ length cs
length-update_nth [] i f = refl
length-update_nth (c ∷ cs) zero f = refl
length-update_nth (c ∷ cs) (suc i) f = omega (arith, length-update_nth cs i f)

empty-update_nth :
    (cs : List Callback) (i : ℕ) (f : Callback → Callback) → empty (update_nth cs i f) ≡ empty cs
empty-update_nth [] i f = refl
empty-update_nth (c ∷ cs) zero f = refl
empty-update_nth (c ∷ cs) (suc i) f = refl

-- The state with the callback at a position about to be called.
abbrev called : AsyncQuery → ℕ → AsyncQuery
called q i = record q {
  callback_index = i;
  callbacks = update_nth q.callbacks i (deliver q.delivered_table_version);
}

abbrev found : AsyncQuery → Option ℕ
found q = next_due q.error q.delivered_table_version (cursor q) q.callbacks

found-Next :
    (q : AsyncQuery) (r : Option ℕ)
    → found q ≡ r
    → Next q.error q.delivered_table_version (cursor q) q.callbacks r
found-Next q r e =
    subst (Next q.error q.delivered_table_version (cursor q) q.callbacks) e
      (next_due-Next q.error q.delivered_table_version (cursor q) q.callbacks)

called-IsConsistent :
    (q : AsyncQuery) (i : ℕ)
    → length q.callbacks < npos
    → IsConsistent q
    → found q ≡ some i
    → IsConsistent (called q i) × (due_in (called q i) + 1 ≡ due_in q)
called-IsConsistent q i short h e =
    let n = found-Next q (some i) e in
    let l = length-update_nth q.callbacks i (deliver q.delivered_table_version) in
    let at : incr i ≡ suc i = ground (arith, n.1) in
    (
      (
        omega (arith, n.1),
        rw at (omega (arith, n.1, l)),
        rw (empty-update_nth q.callbacks i (deliver q.delivered_table_version)) h.2,
        rw at (n.2 h.3),
      ),
      rw at n.3,
    )

next_callback-none :
    (q : AsyncQuery) → found q ≡ none → next_callback q ≡ (record q { callback_index = npos }, none)
unfolding next_callback
next_callback-none q e = rw (e, next_callback) refl

next_callback-some :
    (q : AsyncQuery) (i : ℕ) → found q ≡ some i → next_callback q ≡ (called q i, some i)
unfolding next_callback
next_callback-some q i e = rw (e, next_callback) refl

abbrev cleared : AsyncQuery → AsyncQuery
cleared q = if q.error then record q { callbacks = [] } else q

call_callbacks-none :
    (fuel : ℕ) (q q' : AsyncQuery) (schedule : List (List Action))
    → next_callback q ≡ (q', none)
    → call_callbacks (suc fuel) q schedule ≡ finished (cleared q')
unfolding call_callbacks
call_callbacks-none fuel q q' schedule e =
    rw (e, call_callbacks) (ap (λ p. finished (cleared p.0)) e)

call_callbacks-some :
    (fuel : ℕ) (q q' : AsyncQuery) (i : ℕ) (schedule : List (List Action))
    → next_callback q ≡ (q', some i)
    → call_callbacks (suc fuel) q schedule ≡ elim (perform q' (next_actions schedule)) [
      | none ↦ assertion_failed
      | some q'' ↦ call_callbacks fuel q'' (later_actions schedule)
    ]
unfolding call_callbacks
call_callbacks-some fuel q q' i schedule e =
    rw (e, call_callbacks)
      (ap
        (λ p. elim (perform p.0 (next_actions schedule)) as (λ r. Ending) [
          | none ↦ assertion_failed
          | some q'' ↦ call_callbacks fuel q'' (later_actions schedule)
        ])
        e)

abbrev pub all_additions : List (List Action) → ℕ
all_additions [] = 0
all_additions (actions ∷ schedule) = additions actions + all_additions schedule

additions-schedule :
    (schedule : List (List Action))
    → additions (next_actions schedule) + all_additions (later_actions schedule)
      ≡ all_additions schedule
additions-schedule [] = omega arith
additions-schedule (actions ∷ schedule) = refl

-- The loop has come to its end and has left no callback that has not been called for the version,
-- and none at all after an error.
abbrev pub IsDelivered : Bool → ℕ → Ending → Type 0
IsDelivered error v (finished q) =
    (q.callback_index ≡ npos)
    × All (λ c. c.delivered_version ≡ v) q.callbacks
    × ((not error || empty q.callbacks) ≡ true)
IsDelivered error v assertion_failed = Unit
IsDelivered error v out_of_fuel = ⊥

cleared-IsDelivered :
    (error : Bool) (q : AsyncQuery)
    → q.error ≡ error
    → All (λ c. c.delivered_version ≡ q.delivered_table_version) q.callbacks
    → IsDelivered error q.delivered_table_version
        (finished (cleared (record q { callback_index = npos })))
cleared-IsDelivered true q e h = rw e (refl, tt, refl)
cleared-IsDelivered false q e h = rw e (refl, h, refl)

performed-IsDelivered :
    (error : Bool) (v n fuel : ℕ) (q : AsyncQuery) (r : Option AsyncQuery)
    (schedule : List (List Action))
    → ((q' : AsyncQuery) → Kept n q q' → IsDelivered error v (call_callbacks fuel q' schedule))
    → KeptIf n q r
    → IsDelivered error v
        (elim r [ none ↦ assertion_failed | some q' ↦ call_callbacks fuel q' schedule ])
performed-IsDelivered error v n fuel q none schedule rest k = tt
performed-IsDelivered error v n fuel q (some q') schedule rest k = rest q' k

-- Called with the callbacks in a consistent state, whatever the callbacks and other threads add and
-- remove meanwhile, the loop ends within one round more than there are callbacks due or added. Unless
-- an assertion on a removal fails, every callback that is left then, the added ones included, has been
-- called for the version that is delivered; after an error none is left.
pub call_callbacks_lem :
    (fuel : ℕ) (q : AsyncQuery) (schedule : List (List Action))
    → IsConsistent q
    → due_in q + all_additions schedule < fuel
    → length q.callbacks + all_additions schedule < npos
    → IsDelivered q.error q.delivered_table_version (call_callbacks fuel q schedule)
call_callbacks_lem zero q schedule h enough short = absurd (omega arith)
call_callbacks_lem (suc fuel) q schedule h enough short = elim (Option-cases (found q)) [
  | inl e ↦
      rw (call_callbacks-none fuel q _ schedule (next_callback-none q e))
        (cleared-IsDelivered q.error q refl (found-Next q none e h.3))
  | inr (i, e) ↦
      let actions = next_actions schedule in
      let later = later_actions schedule in
      let (c, left) = called-IsConsistent q i (omega arith) h e in
      let l = length-update_nth q.callbacks i (deliver q.delivered_table_version) in
      let a = additions-schedule schedule in
      rw (call_callbacks-some fuel q _ i schedule (next_callback-some q i e)) (
        performed-IsDelivered q.error q.delivered_table_version (additions actions) fuel
          (called q i) (perform (called q i) actions) later
          (λ q' k.
            subst (λ b. IsDelivered b q.delivered_table_version (call_callbacks fuel q' later)) k.3
              (subst (λ w. IsDelivered q'.error w (call_callbacks fuel q' later)) k.4
                (call_callbacks_lem fuel q' later k.0 (omega (arith, k.1, left, a, enough))
                  (omega (arith, k.2, l, a, short)))))
          (perform-Kept (called q i) actions c))
]
