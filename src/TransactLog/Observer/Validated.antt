-- ===== src/TransactLog/Observer/Validated.antt =====
-- The observer of Realm/ObjectStore/impl/transact_log_handler.cpp checks what its base class checks.
use realm_cocoa.Base.{ℕ, ◌+◌, ◌≡◌, refl, List, [], ◌∷◌, arith, ap, sym}
use realm_cocoa.ColumnInfo.{ColumnInfo}
use realm_cocoa.TransactLog.{Instr, Outcome, accepted, parse, >>=-eq-accepted}
use realm_cocoa.TransactLog
use realm_cocoa.TransactLog.Validator.{validate}
use realm_cocoa.TransactLog.Observer.{
  ObserverState, Observer, observe, inherited, change_active, mark_dirty, select_from,
}

inherited-validate :
    (s s' : Observer) (i : Instr)
    → inherited s i ≡ accepted s'
    → validate s.validator i ≡ accepted s'.validator
unfolding inherited
inherited-validate s s' i e =
    let (v, first, same) =
      >>=-eq-accepted (validate s.validator i) (λ v. accepted (record s { validator = v })) e in
    ground (arith, first)

change_active-validator :
    (s s' : Observer) (f : ColumnInfo → ColumnInfo)
    → change_active s f ≡ accepted s'
    → s'.validator ≡ s.validator
unfolding change_active
change_active-validator s s' f e = ground arith

mark_dirty-validator : (s : Observer) (row col : ℕ) → (mark_dirty s row col).validator ≡ s.validator
unfolding mark_dirty
mark_dirty-validator s row col = ground arith

select_from-validator :
    (s : Observer) (col row : ℕ) (os : List ObserverState) (pos : ℕ)
    → (select_from s col row os pos).validator ≡ s.validator
unfolding select_from
select_from-validator s col row [] pos = refl
select_from-validator s col row (o ∷ os) pos =
    ground (arith, select_from-validator s col row os (pos + 1))

-- An instruction that the base class accepts without a change, handled without one of its state.
quiet :
    (s t s' : Observer)
    → t.validator ≡ s.validator
    → accepted t ≡ accepted s'
    → accepted s.validator ≡ accepted s'.validator
quiet s t s' v e = ground arith

pub observe-validate :
    (s s' : Observer) (i : Instr)
    → observe s i ≡ accepted s'
    → validate s.validator i ≡ accepted s'.validator
unfolding observe validate
observe-validate s s' (TransactLog.insert_group_level_table t) e = ground arith
observe-validate s s' TransactLog.insert_empty_rows e = quiet s s s' refl e
observe-validate s s' (TransactLog.erase_rows row last unordered) e = quiet s _ s' refl e
observe-validate s s' TransactLog.clear_table e = quiet s _ s' refl e
observe-validate s s' (TransactLog.select_link_list col row) e =
    quiet s _ s' (select_from-validator s col row s.observers 0) e
observe-validate s s' (TransactLog.link_list_set i) e =
    ap accepted (sym (change_active-validator s s' _ e))
observe-validate s s' (TransactLog.link_list_insert i) e =
    ap accepted (sym (change_active-validator s s' _ e))
observe-validate s s' (TransactLog.link_list_erase i) e =
    ap accepted (sym (change_active-validator s s' _ e))
observe-validate s s' (TransactLog.link_list_nullify i) e =
    ap accepted (sym (change_active-validator s s' _ e))
observe-validate s s' (TransactLog.link_list_swap i j) e =
    ap accepted (sym (change_active-validator s s' _ e))
observe-validate s s' (TransactLog.link_list_clear n) e =
    ap accepted (sym (change_active-validator s s' _ e))
observe-validate s s' (TransactLog.link_list_move from to) e =
    ap accepted (sym (change_active-validator s s' _ e))
observe-validate s s' (TransactLog.write setter col row) e =
    quiet s _ s' (mark_dirty-validator s row col) e
observe-validate s s' i e = inherited-validate s s' i e

-- A log that the observer accepts is one that the base class alone accepts, to the same end.
pub parse-observe-validate :
    (s s' : Observer) (log : List Instr)
    → parse observe s log ≡ accepted s'
    → parse validate s.validator log ≡ accepted s'.validator
unfolding parse
parse-observe-validate s s' [] e = ground arith
parse-observe-validate s s' (i ∷ log) e =
    let (t, first, rest) = >>=-eq-accepted (observe s i) (λ t. parse observe t log) e in
    rw (observe-validate s t i first) (parse-observe-validate t s' log rest)
