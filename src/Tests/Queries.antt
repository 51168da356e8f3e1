-- ===== src/Tests/Queries.antt =====
-- The callbacks of a query (Realm/ObjectStore/impl/async_query.cpp) at concrete inputs.
use realm_cocoa.Base.{npos, ℕ, ◌≡◌, ◌<◌, refl, true, false, List, [], ◌∷◌, some, All, arith}
use realm_cocoa.AsyncQuery.{
  Callback, AsyncQuery, add_callback, remove_callback, next_token, Action, adds, removes, finished,
  call_callbacks,
}
use realm_cocoa.AsyncQuery.Tokens.{remove_callback-add_callback}
use realm_cocoa.AsyncQuery.Delivery.{call_callbacks_lem}

abbrev callback : ℕ → ℕ → Callback
callback token version = record { token = token; delivered_version = version }

-- Three callbacks, the second of which has been called for version 7.
abbrev idle : AsyncQuery
idle = record {
  callbacks = callback 0 6 ∷ callback 1 7 ∷ callback 2 6 ∷ [];
  callback_index = npos;
  have_callbacks = true;
  error = false;
  delivered_table_version = 7;
  notifications = 0;
}

-- The first callback removes itself and adds another.
abbrev schedule : List (List Action)
schedule = (removes 0 ∷ adds ∷ []) ∷ []

abbrev after : AsyncQuery
after = record {
  callbacks = callback 1 7 ∷ callback 2 7 ∷ callback 3 7 ∷ [];
  callback_index = npos;
  have_callbacks = true;
  error = false;
  delivered_table_version = 7;
  notifications = 1;
}

delivered : call_callbacks 4 idle schedule ≡ finished after
unfolding call_callbacks
delivered = refl

call_callbacks_lem_example :
    (after.callback_index ≡ npos)
    × All (λ c. c.delivered_version ≡ 7) after.callbacks
    × (true ≡ true)
unfolding call_callbacks
call_callbacks_lem_example =
    call_callbacks_lem 4 idle schedule (ground arith) (ground arith) (ground arith)

remove_callback-add_callback_example :
    All (λ c. c.token < next_token idle.callbacks) idle.callbacks
    × (r : AsyncQuery) × (remove_callback (add_callback idle) (next_token idle.callbacks) ≡ some r)
    × (r.callbacks ≡ idle.callbacks)
    × (r.callback_index ≡ npos)
remove_callback-add_callback_example =
    remove_callback-add_callback idle (ground arith) (ground arith)
