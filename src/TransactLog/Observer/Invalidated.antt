-- ===== src/TransactLog/Observer/Invalidated.antt =====
-- The observers' pointers in Realm/ObjectStore/impl/transact_log_handler.cpp: still observed, or
-- reported as invalidated.
use mathlib.Core.List.{Perm, perm_middle, append_assoc}
use mathlib.Core.List.Perm
use realm_cocoa.Base.{
  update_nth, ℕ, zero, suc, ◌+◌, ◌≡◌, refl, Bool, List, [], ◌∷◌, ◌++◌, Option, some, arith, map, ap,
  Bool-cases, Option-cases, inl, inr,
}
use realm_cocoa.Base.Search.{lower_bound}
use realm_cocoa.TransactLog.Validator.{validate, insert_table}
use realm_cocoa.ColumnInfo.{ColumnInfo}
use realm_cocoa.TransactLog.{Instr, Outcome, accepted, parse, >>=-eq-accepted}
use realm_cocoa.TransactLog
use realm_cocoa.TransactLog.Observer.{
  ObserverState, Observer, Active, is_row, change_column, set_changed, mark_dirty, erase_rows,
  erased, sweep, shift_observers, forget, clear_table, cleared, observe, select_from, change_active,
  inherited, after_sweep, before_row, null, dangling, points,
}

abbrev pub infos : List ObserverState → List ℕ
infos = map (λ o. o.info)

-- The pointers that the binding gave, reported or still observed.
abbrev pub accounted : Observer → List ℕ
accounted s = s.invalidated ++ infos s.observers

abbrev KeepsInfo : (ObserverState → Option ObserverState) → Type 0
KeepsInfo fate = (o o' : ObserverState) → fate o ≡ some o' → o'.info ≡ o.info

sweep-perm :
    (fate : ObserverState → Option ObserverState) (os : List ObserverState) (pos : ℕ)
    (active : Active)
    → KeepsInfo fate
    → let w = sweep fate os pos active in Perm (w.invalidated ++ infos w.observers) (infos os)
unfolding sweep
sweep-perm fate [] pos active k = Perm.refl []
sweep-perm fate (o ∷ os) pos active k = elim (Option-cases (fate o)) [
  | inl gone ↦ rw (gone, sweep) (Perm.cons o.info (sweep-perm fate os pos (forget pos active) k))
  | inr (o', kept) ↦
      let w = sweep fate os (pos + 1) active in
      rw (kept, sweep, k o o' kept)
        (Perm.trans (perm_middle w.invalidated (infos w.observers))
          (Perm.cons o.info (sweep-perm fate os (pos + 1) active k)))
]

after_sweep-perm :
    (fate : ObserverState → Option ObserverState) (s : Observer)
    → KeepsInfo fate
    → Perm (accounted (after_sweep s (sweep fate s.observers 0 s.active))) (accounted s)
after_sweep-perm fate s k =
    let w = sweep fate s.observers 0 s.active in
    rw (append_assoc s.invalidated w.invalidated (infos w.observers))
      (Perm.append (Perm.refl s.invalidated) (sweep-perm fate s.observers 0 s.active k))

erased-KeepsInfo :
    (table row last : ℕ) (unordered : Bool) → KeepsInfo (erased table row last unordered)
unfolding erased
erased-KeepsInfo table row last unordered o o' e = ground arith

cleared-KeepsInfo : (table : ℕ) → KeepsInfo (cleared table)
unfolding cleared
cleared-KeepsInfo table o o' e = ground arith

update_nth-infos :
    (os : List ObserverState) (i : ℕ) (f : ObserverState → ObserverState)
    → ((o : ObserverState) → (f o).info ≡ o.info)
    → infos (update_nth os i f) ≡ infos os
update_nth-infos [] i f e = refl
update_nth-infos (o ∷ os) zero f e = ap (λ n. n ∷ infos os) (e o)
update_nth-infos (o ∷ os) (suc i) f e = ap (◌∷◌ o.info) (update_nth-infos os i f e)

shift_observers-infos :
    (table : ℕ) (os : List ObserverState) → infos (shift_observers table os) ≡ infos os
unfolding shift_observers
shift_observers-infos table [] = refl
shift_observers-infos table (o ∷ os) = ap (◌∷◌ o.info) (shift_observers-infos table os)

-- A handler that reports nothing and keeps the pointers.
record SameInfos (s s' : Observer) : Type 0 where
  reported : s'.invalidated ≡ s.invalidated
  kept : infos s'.observers ≡ infos s.observers

mark_dirty-SameInfos : (s : Observer) (row col : ℕ) → SameInfos s (mark_dirty s row col)
unfolding mark_dirty
mark_dirty-SameInfos s row col =
    let pos = lower_bound (before_row s.current_table row) s.observers in
    record {
      reported = ground arith;
      kept =
          ground
            (arith, update_nth-infos s.observers pos (change_column col set_changed) (λ o. refl));
    }

select_from-SameInfos :
    (s : Observer) (col row : ℕ) (os : List ObserverState) (pos : ℕ)
    → SameInfos s (select_from s col row os pos)
unfolding select_from
select_from-SameInfos s col row [] pos = record { reported = refl; kept = refl }
select_from-SameInfos s col row (o ∷ os) pos = elim (Bool-cases (is_row s.current_table row o)) [
  | inl here ↦
      rw (here, select_from)
        (record {
          reported = refl;
          kept = update_nth-infos s.observers pos (change_column col (λ c. c)) (λ o. refl);
        })
  | inr on ↦ rw (on, select_from) (select_from-SameInfos s col row os (pos + 1))
]

change_active-SameInfos :
    (s s' : Observer) (f : ColumnInfo → ColumnInfo)
    → change_active s f ≡ accepted s'
    → SameInfos s s'
unfolding change_active
change_active-SameInfos s s' f e = go s.active refl
  where
    at_column : ℕ → ObserverState → ObserverState
    at_column col o = record o { changes = update_nth o.changes col f }

    go : (a : Active) → s.active ≡ a → SameInfos s s'
    go null h =
        let same : s ≡ s' = ground arith in rw (← same) (record { reported = refl; kept = refl })
    go dangling h = absurd (ground arith)
    go (points pos col) h =
        let same : record s { observers = update_nth s.observers pos (at_column col) } ≡ s' =
          ground arith in
        rw (← same) (record {
          reported = refl;
          kept = update_nth-infos s.observers pos (at_column col) (λ o. refl);
        })

SameInfos-perm : (s s' : Observer) → SameInfos s s' → Perm (accounted s') (accounted s)
SameInfos-perm s s' h = rw (h.reported, h.kept) (Perm.refl (accounted s))

inherited-SameInfos : (s s' : Observer) (i : Instr) → inherited s i ≡ accepted s' → SameInfos s s'
unfolding inherited
inherited-SameInfos s s' i e =
    let (v, _, same) =
      >>=-eq-accepted (validate s.validator i) (λ v. accepted (record s { validator = v })) e in
    let same' : record s { validator = v } ≡ s' = cc in
    rw (← same') (record { reported = refl; kept = refl })

accepted-perm :
    (s t s' : Observer)
    → accepted t ≡ accepted s'
    → Perm (accounted t) (accounted s)
    → Perm (accounted s') (accounted s)
accepted-perm s t s' e p = let same : t ≡ s' = cc in rw (← same) p

pub observe-perm :
    (s s' : Observer) (i : Instr) → observe s i ≡ accepted s' → Perm (accounted s') (accounted s)
unfolding observe
observe-perm s s' (TransactLog.insert_group_level_table table) e =
    let t = record s {
      validator = insert_table s.validator table;
      observers = shift_observers table s.observers;
    } in
    accepted-perm s t s' e (
      SameInfos-perm s t
        (record { reported = refl; kept = shift_observers-infos table s.observers }))
observe-perm s s' TransactLog.insert_empty_rows e = accepted-perm s s s' e (Perm.refl (accounted s))
observe-perm s s' (TransactLog.erase_rows row last unordered) e =
    let fate = erased s.current_table row last unordered in
    accepted-perm s (erase_rows s row last unordered) s' e (
      unfold erase_rows in
      after_sweep-perm fate s (erased-KeepsInfo s.current_table row last unordered))
observe-perm s s' TransactLog.clear_table e = accepted-perm s (clear_table s) s' e (
    unfold clear_table in
    after_sweep-perm (cleared s.current_table) s (cleared-KeepsInfo s.current_table))
observe-perm s s' (TransactLog.select_link_list col row) e =
    accepted-perm s (select_from s col row s.observers 0) s' e
      (SameInfos-perm s _ (select_from-SameInfos s col row s.observers 0))
observe-perm s s' (TransactLog.link_list_set i) e =
    SameInfos-perm s s' (change_active-SameInfos s s' _ e)
observe-perm s s' (TransactLog.link_list_insert i) e =
    SameInfos-perm s s' (change_active-SameInfos s s' _ e)
observe-perm s s' (TransactLog.link_list_erase i) e =
    SameInfos-perm s s' (change_active-SameInfos s s' _ e)
observe-perm s s' (TransactLog.link_list_nullify i) e =
    SameInfos-perm s s' (change_active-SameInfos s s' _ e)
observe-perm s s' (TransactLog.link_list_swap i j) e =
    SameInfos-perm s s' (change_active-SameInfos s s' _ e)
observe-perm s s' (TransactLog.link_list_clear n) e =
    SameInfos-perm s s' (change_active-SameInfos s s' _ e)
observe-perm s s' (TransactLog.link_list_move from to) e =
    SameInfos-perm s s' (change_active-SameInfos s s' _ e)
observe-perm s s' (TransactLog.write setter col row) e =
    accepted-perm s (mark_dirty s row col) s' e
      (SameInfos-perm s _ (mark_dirty-SameInfos s row col))
observe-perm s s' i e = SameInfos-perm s s' (inherited-SameInfos s s' i e)

-- Whatever the log holds, while it is accepted every pointer of an observer that the binding gave is
-- either still observed or reported as invalidated, and as often as it was given.
pub parse-observe-perm :
    (s s' : Observer) (log : List Instr)
    → parse observe s log ≡ accepted s'
    → Perm (accounted s') (accounted s)
unfolding parse
parse-observe-perm s s' [] e = accepted-perm s s s' e (Perm.refl (accounted s))
parse-observe-perm s s' (i ∷ log) e =
    let (t, first, rest) = >>=-eq-accepted (observe s i) (λ t. parse observe t log) e in
    Perm.trans (parse-observe-perm t s' log rest) (observe-perm s t i first)
