-- ===== src/TransactLog/Advance.antt =====
-- The constructor of TransactLogObserver and `advance`, `begin`, `commit` and `cancel`
-- (Realm/ObjectStore/impl/transact_log_handler.cpp). The core library reads the log and moves the
-- transaction to another version: the instructions that it hands to the handlers, if there is a log to
-- be read, and whether the version changes, are arguments. Where there is none, as in an advance to
-- the version that is read already, it calls neither a handler nor parse_complete().
pub mod Schema
use realm_cocoa.Base.{ℕ, Bool, true, false, List, [], ◌∷◌, Option, none, some, if◌then◌else◌}
use realm_cocoa.TransactLog.{Instr, Outcome, accepted, parse, ◌>>=◌}
use realm_cocoa.TransactLog.Validator.{initial, validate_log}
use realm_cocoa.TransactLog.Observer.{ObserverState, Observer, null, observe}

-- The calls of the binding context.
pub data Event : Type 0 where
  will_change did_change : List ObserverState → List ℕ → Event

-- The members of a handler before the log is read.
abbrev pub start : List ObserverState → Observer
start os = record { validator = initial; observers = os; invalidated = []; active = null }

-- func(static_cast<TransactLogValidator&>(*this)), or func()
unfoldable pub only_validate : Bool → Option (List Instr) → List Event → Outcome (List Event)
unfolding validate_log
only_validate false log events = accepted events
only_validate true none events = accepted events
only_validate true (some log) events = do v ← validate_log initial log; accepted events

-- func(*this), with parse_complete() at the end of the log, and the report after it.
unfoldable pub observe_log : List ObserverState → Option (List Instr) → Outcome (List Event)
unfolding parse observe
observe_log os none = accepted (did_change os [] ∷ [])
observe_log os (some log) = do
  s ← parse observe (start os) log
  accepted (will_change s.observers s.invalidated ∷ did_change s.observers s.invalidated ∷ [])

-- TransactLogObserver::TransactLogObserver; the context is what get_observed_rows() returns, if there
-- is a binding context.
unfoldable pub transact_log_observer :
    Option (List ObserverState) → Option (List Instr) → Bool → Bool → Outcome (List Event)
unfolding only_validate observe_log
transact_log_observer none log moved validate = only_validate validate log []
transact_log_observer (some []) log moved validate =
    only_validate validate log (if moved then did_change [] [] ∷ [] else [])
transact_log_observer (some (o ∷ os)) log moved validate = observe_log (o ∷ os) log

unfoldable pub advance :
    Option (List ObserverState) → Option (List Instr) → Bool → Outcome (List Event)
unfolding transact_log_observer
advance context log moved = transact_log_observer context log moved true

unfoldable pub begin :
    Option (List ObserverState) → Option (List Instr) → Bool → Bool → Outcome (List Event)
unfolding transact_log_observer
begin context log moved validate = transact_log_observer context log moved validate

unfoldable pub commit : Option (List ObserverState) → Outcome (List Event)
commit none = accepted []
commit (some os) = accepted (did_change [] [] ∷ [])

unfoldable pub cancel :
    Option (List ObserverState) → Option (List Instr) → Bool → Outcome (List Event)
unfolding transact_log_observer
cancel context log moved = transact_log_observer context log moved false
