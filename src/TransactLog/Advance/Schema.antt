-- ===== src/TransactLog/Advance/Schema.antt =====
-- What `advance`, `begin` and `cancel` (Realm/ObjectStore/impl/transact_log_handler.cpp) let through.
use realm_cocoa.Base.{
  ℕ, ◌+◌, ◌<◌, ◌≡◌, refl, Bool, true, false, List, [], ◌∷◌, ◌++◌, Option, none, some, All, length,
  word, arith, if◌then◌else◌, ap, ◌∙◌,
}
use realm_cocoa.TransactLog.{Instr, Outcome, accepted, schema_error, parse, ◌>>=◌, >>=-eq-accepted}
use realm_cocoa.TransactLog
use realm_cocoa.TransactLog.Validator.{Validator, initial, validate_log}
use realm_cocoa.TransactLog.Validator.NewTables.{Table, olds, replay, FitsLog, validate_log_lem}
use realm_cocoa.TransactLog.Observer.{ObserverState, Observer, observe}
use realm_cocoa.TransactLog.Observer.Validated.{parse-observe-validate}
use realm_cocoa.TransactLog.Advance.{
  Event, will_change, did_change, start, only_validate, observe_log, advance, begin, cancel,
}

only_validate-accepted :
    (log : List Instr) (events events' : List Event)
    → only_validate true (some log) events ≡ accepted events'
    → (v : Validator) × (validate_log initial log ≡ accepted v)
unfolding only_validate
only_validate-accepted log events events' e =
    let (v, first, _) = >>=-eq-accepted (validate_log initial log) (λ v. accepted events) e in
    (v, first)

observe_log-accepted :
    (os : List ObserverState) (log : List Instr) (events : List Event)
    → observe_log os (some log) ≡ accepted events
    → (s : Observer) × (parse observe (start os) log ≡ accepted s)
      × (will_change s.observers s.invalidated ∷ did_change s.observers s.invalidated ∷ [] ≡ events)
unfolding observe_log
observe_log-accepted os log events e =
    let (s, first, rest) =
      >>=-eq-accepted (parse observe (start os) log)
        (λ s.
          accepted
            (will_change s.observers s.invalidated ∷ did_change s.observers s.invalidated ∷ []))
        e in
    (s, first, cc)

advance-validate_log :
    (context : Option (List ObserverState)) (log : List Instr) (moved : Bool) (events : List Event)
    → advance context (some log) moved ≡ accepted events
    → (v : Validator) × (validate_log initial log ≡ accepted v)
unfolding advance
advance-validate_log none log moved events e = only_validate-accepted log [] events e
advance-validate_log (some []) log moved events e =
    only_validate-accepted log (if moved then did_change [] [] ∷ [] else []) events e
advance-validate_log (some (o ∷ os)) log moved events e =
    let (s, first, _) = observe_log-accepted (o ∷ os) log events e in
    (s.validator, unfold validate_log in parse-observe-validate (start (o ∷ os)) s log first)

-- With or without a binding context, and whatever rows it observes, an advance that succeeds has
-- left every table that was there before it as it was.
pub advance-olds :
    (context : Option (List ObserverState)) (ts : List Table) (log : List Instr) (moved : Bool)
    (events : List Event)
    → All (λ t. t.created ≡ false) ts
    → FitsLog (record { list = ts; selected = 0 }) log
    → length ts + length log < word
    → advance context (some log) moved ≡ accepted events
    → olds (replay (record { list = ts; selected = 0 }) log).list ≡ ts
advance-olds context ts log moved events old fits w e =
    let (v, valid) = advance-validate_log context log moved events e in
    (validate_log_lem ts log v old fits w valid).0

parse-append :
    (s s' : Observer) (log rest : List Instr)
    → parse observe s log ≡ accepted s'
    → parse observe s (log ++ rest) ≡ parse observe s' rest
unfolding parse
parse-append s s' [] rest e = ap (λ u. parse observe u rest) (ground arith)
parse-append s s' (i ∷ log) rest e =
    let (t, first, after) = >>=-eq-accepted (observe s i) (λ t. parse observe t log) e in
    rw first (parse-append t s' log rest after)

-- `begin` and `cancel` without validation still throw once rows are observed: a log that erases a
-- column goes through if no row is observed, and is a schema error if one is.
pub begin-observed :
    (o : ObserverState) (os : List ObserverState) (s : Observer) (log rest : List Instr) (col : ℕ)
    (moved : Bool)
    → parse observe (start (o ∷ os)) log ≡ accepted s
    → let change = log ++ TransactLog.erase_column col ∷ rest in
      (begin (some (o ∷ os)) (some change) moved false ≡ schema_error)
      × (cancel (some (o ∷ os)) (some change) moved ≡ schema_error)
      × (begin none (some change) moved false ≡ accepted [])
      × (cancel none (some change) moved ≡ accepted [])
unfolding begin cancel
begin-observed o os s log rest col moved e =
    let all = log ++ TransactLog.erase_column col ∷ rest in
    let thrown : parse observe (start (o ∷ os)) all ≡ schema_error =
      parse-append (start (o ∷ os)) s log (TransactLog.erase_column col ∷ rest) e
      ∙ unfold parse observe in refl in
    let thrown' : observe_log (o ∷ os) (some all) ≡ schema_error =
      unfold observe_log in rw thrown refl in
    (thrown', thrown', refl, refl)
