-- ===== src/AsyncQuery.antt =====
-- Realm/ObjectStore/impl/async_query.cpp: the callbacks of a query, which are added and removed from
-- any thread, also while they are called. A callback's function is known by its token.
pub mod Tokens
pub mod Cursor
pub mod Steps
pub mod Delivery
use realm_cocoa.Base.{
  npos, ℕ, zero, suc, ◌+◌, ◌-◌, ◌%◌, Bool, true, false, not, ◌&&◌, ◌||◌, List, [], ◌∷◌, ◌++◌,
  Option, none, some, leb, ltb, ◌==◌, if◌then◌else◌, word, incr, decr, length, get_elem?, remove_at,
  update_nth, empty,
}

pub record Callback : Type 0 where
  pub token : ℕ
  pub delivered_version : ℕ

-- `notifications` counts the calls of send_commit_notifications.
pub record AsyncQuery : Type 0 where
  pub callbacks : List Callback
  pub callback_index : ℕ
  pub have_callbacks : Bool
  pub error : Bool
  pub delivered_table_version : ℕ
  pub notifications : ℕ

-- The loop of next_token, from the token reached.
token_from : ℕ → List Callback → ℕ
token_from token [] = token
token_from token (c ∷ cs) = token_from (if leb token c.token then incr c.token else token) cs

unfoldable pub next_token : List Callback → ℕ
unfolding token_from
next_token cs = token_from 0 cs

-- The element that add_callback appends.
unfoldable pub new_callback : List Callback → Callback
unfolding next_token
new_callback cs = record { token = next_token cs; delivered_version = word - 1 }

-- add_callback from its call of verify_thread() on: the query does not know its Realm's thread, and
-- Results::async, which calls this, tests the thread of the Realm.
unfoldable pub add_callback : AsyncQuery → AsyncQuery
unfolding new_callback
add_callback q =
    let callbacks = q.callbacks ++ new_callback q.callbacks ∷ [] in
    if q.callback_index == npos
    then record q {
      callbacks = callbacks;
      notifications = q.notifications + 1;
      have_callbacks = true;
    }
    else record q { callbacks = callbacks }

-- std::find_if, actions the position of the callback.
unfoldable pub find_token : List Callback → ℕ → Option ℕ
find_token [] token = none
find_token (c ∷ cs) token = elim (c.token == token) [
  | true ↦ some 0
  | false ↦ elim (find_token cs token) [ none ↦ none | some i ↦ some (suc i) ]
]

unfoldable pub remove_at_index : AsyncQuery → ℕ → AsyncQuery
remove_at_index q idx = record q {
  callback_index =
      if not (q.callback_index == npos) && leb idx q.callback_index
      then decr q.callback_index
      else q.callback_index;
  callbacks = remove_at q.callbacks idx;
  have_callbacks = not (empty (remove_at q.callbacks idx));
}

-- `none` where an assertion fails.
unfoldable pub remove_callback : AsyncQuery → ℕ → Option AsyncQuery
unfolding find_token remove_at_index
remove_callback q token =
    if not (q.error || ltb 0 (length q.callbacks))
    then none
    else elim (find_token q.callbacks token) [
      | none ↦ if q.error then some q else none
      | some idx ↦ some (remove_at_index q idx)
    ]

-- m_error || callback.delivered_version != m_delivered_table_version
abbrev pub is_due : Bool → ℕ → Callback → Bool
is_due error version c = error || not (c.delivered_version == version)

-- The loop of next_callback: the first position from a given one on of a callback that is due.
unfoldable pub next_due : Bool → ℕ → ℕ → List Callback → Option ℕ
next_due error version start [] = none
next_due error version zero (c ∷ cs) = elim (is_due error version c) [
  | true ↦ some 0
  | false ↦ elim (next_due error version 0 cs) [ none ↦ none | some i ↦ some (suc i) ]
]
next_due error version (suc start) (c ∷ cs) = elim (next_due error version start cs) [
  | none ↦ none
  | some i ↦ some (suc i)
]

-- next_callback; `none` where it returns no function.
unfoldable pub next_callback : AsyncQuery → AsyncQuery × Option ℕ
unfolding next_due
next_callback q =
    elim (next_due q.error q.delivered_table_version (incr q.callback_index) q.callbacks) [
      | none ↦ (record q { callback_index = npos }, none)
      | some i ↦ (
        record q {
          callback_index = i;
          callbacks =
              update_nth q.callbacks i
                (λ c. record c { delivered_version = q.delivered_table_version });
        },
        some i,
      )
    ]

-- What a callback does when it is called, or another thread before the next one is.
pub data Action : Type 0 where
  adds : Action
  removes : ℕ → Action

unfoldable pub perform : AsyncQuery → List Action → Option AsyncQuery
unfolding add_callback remove_callback
perform q [] = some q
perform q (adds ∷ actions) = perform (add_callback q) actions
perform q (removes token ∷ actions) = elim (remove_callback q token) [
  | none ↦ none
  | some q' ↦ perform q' actions
]

pub data Ending : Type 0 where
  finished : AsyncQuery → Ending
  assertion_failed out_of_fuel : Ending

abbrev pub next_actions : List (List Action) → List Action
next_actions [] = []
next_actions (actions ∷ schedule) = actions

abbrev pub later_actions : List (List Action) → List (List Action)
later_actions [] = []
later_actions (actions ∷ schedule) = schedule

-- call_callbacks, where the callbacks do what the schedule says and then nothing.
unfoldable pub call_callbacks : ℕ → AsyncQuery → List (List Action) → Ending
unfolding next_callback perform
call_callbacks zero q schedule = out_of_fuel
call_callbacks (suc fuel) q schedule = elim ((next_callback q).1) [
  | none ↦
      let q' = (next_callback q).0 in
      finished (if q'.error then record q' { callbacks = [] } else q')
  | some i ↦ elim (perform ((next_callback q).0) (next_actions schedule)) [
    | none ↦ assertion_failed
    | some q' ↦ call_callbacks fuel q' (later_actions schedule)
  ]
]
