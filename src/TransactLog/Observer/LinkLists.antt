-- ===== src/TransactLog/Observer/LinkLists.antt =====
-- `select_link_list` and the link list handlers after it
-- (Realm/ObjectStore/impl/transact_log_handler.cpp).
use realm_cocoa.Base.{
  update_nth, ℕ, zero, suc, ◌+◌, ◌≡◌, refl, List, [], ◌∷◌, arith, Bool, true, false, ap, ◌∙◌, sym,
  Bool-cases, inl, inr, ◌⊎◌, All,
}
use mathlib.Core.Path.{fun_ext}
use native.Mathlib.Nat.{add-zero}
use realm_cocoa.ColumnInfo
use realm_cocoa.ColumnInfo.{ColumnInfo, set_kind, insert_kind, remove_kind}
use realm_cocoa.TransactLog.{Instr, Outcome, accepted, parse, ◌>>=◌}
use realm_cocoa.TransactLog
use realm_cocoa.TransactLog.Observer.{
  ObserverState, Observer, null, points, is_row, change_column, get_change, change_active,
  select_from, observe,
}

-- The handlers of the active link list, and what each does to its column.
abbrev pub IsLinkOp : Instr → Type 0
IsLinkOp (TransactLog.link_list_set i) = Unit {0}
IsLinkOp (TransactLog.link_list_insert i) = Unit {0}
IsLinkOp (TransactLog.link_list_erase i) = Unit {0}
IsLinkOp (TransactLog.link_list_nullify i) = Unit {0}
IsLinkOp (TransactLog.link_list_swap i j) = Unit {0}
IsLinkOp (TransactLog.link_list_clear n) = Unit {0}
IsLinkOp (TransactLog.link_list_move from to) = Unit {0}
IsLinkOp _ = ⊥

abbrev pub effect : Instr → ColumnInfo → ColumnInfo
effect (TransactLog.link_list_set i) = ColumnInfo.append_link_list_change set_kind i
effect (TransactLog.link_list_insert i) = ColumnInfo.append_link_list_change insert_kind i
effect (TransactLog.link_list_erase i) = ColumnInfo.append_link_list_change remove_kind i
effect (TransactLog.link_list_nullify i) = ColumnInfo.append_link_list_change remove_kind i
effect (TransactLog.link_list_swap i j) = ColumnInfo.link_list_swap i j
effect (TransactLog.link_list_clear n) = ColumnInfo.link_list_clear n
effect (TransactLog.link_list_move from to) = ColumnInfo.link_list_move from to
effect _ = λ c. c

abbrev pub effects : List Instr → ColumnInfo → ColumnInfo
effects [] c = c
effects (i ∷ is) c = effects is (effect i c)

-- A change of the first observer of a row.
abbrev pub update_first :
    (ObserverState → Bool)
    → (ObserverState → ObserverState)
    → List ObserverState
    → List ObserverState
update_first p f [] = []
update_first p f (o ∷ os) = elim (p o) [ true ↦ f o ∷ os | false ↦ o ∷ update_first p f os ]

observe-change_active :
    (s : Observer) (i : Instr) → IsLinkOp i → observe s i ≡ change_active s (effect i)
unfolding observe
observe-change_active s (TransactLog.link_list_set i) h = refl
observe-change_active s (TransactLog.link_list_insert i) h = refl
observe-change_active s (TransactLog.link_list_erase i) h = refl
observe-change_active s (TransactLog.link_list_nullify i) h = refl
observe-change_active s (TransactLog.link_list_swap i j) h = refl
observe-change_active s (TransactLog.link_list_clear n) h = refl
observe-change_active s (TransactLog.link_list_move from to) h = refl
observe-change_active s _ h = absurd h

update_nth-update_nth {ℓ} :
    {A : Type ℓ} (xs : List A) (i : ℕ) (f g : A → A)
    → update_nth (update_nth xs i f) i g ≡ update_nth xs i (λ x. g (f x))
update_nth-update_nth [] i f g = refl
update_nth-update_nth (x ∷ xs) zero f g = refl
update_nth-update_nth (x ∷ xs) (suc i) f g = ap (◌∷◌ x) (update_nth-update_nth xs i f g)

update_nth-id {ℓ} : {A : Type ℓ} (xs : List A) (i : ℕ) → update_nth xs i (λ x. x) ≡ xs
update_nth-id [] i = refl
update_nth-id (x ∷ xs) zero = refl
update_nth-id (x ∷ xs) (suc i) = ap (◌∷◌ x) (update_nth-id xs i)

abbrev on_column : ℕ → (ColumnInfo → ColumnInfo) → ObserverState → ObserverState
on_column col f o = record o { changes = update_nth o.changes col f }

on_column-on_column :
    (os : List ObserverState) (pos col : ℕ) (f g : ColumnInfo → ColumnInfo)
    → update_nth (update_nth os pos (on_column col f)) pos (on_column col g)
      ≡ update_nth os pos (on_column col (λ c. g (f c)))
on_column-on_column os pos col f g =
    update_nth-update_nth os pos (on_column col f) (on_column col g)
    ∙ ap (update_nth os pos) (
        fun_ext λ o. ap (λ cs. record o { changes = cs }) (update_nth-update_nth o.changes col f g))

on_column-id :
    (os : List ObserverState) (pos col : ℕ) → update_nth os pos (on_column col (λ c. c)) ≡ os
on_column-id os pos col =
    ap (update_nth os pos)
      (fun_ext λ o. ap (λ cs. record o { changes = cs }) (update_nth-id o.changes col))
    ∙ update_nth-id os pos

change_active-points :
    (s : Observer) (pos col : ℕ) (f : ColumnInfo → ColumnInfo)
    → s.active ≡ points pos col
    → change_active s f
      ≡ accepted (record s { observers = update_nth s.observers pos (on_column col f) })
unfolding change_active
change_active-points s pos col f a = ground arith

parse-points :
    (s : Observer) (pos col : ℕ) (ops : List Instr)
    → s.active ≡ points pos col
    → All IsLinkOp ops
    → parse observe s ops
      ≡ accepted (record s { observers = update_nth s.observers pos (on_column col (effects ops)) })
unfolding parse
parse-points s pos col [] a h =
    ap (λ os. accepted (record s { observers = os })) (sym (on_column-id s.observers pos col))
parse-points s pos col (i ∷ ops) a h =
    let t = record s { observers = update_nth s.observers pos (on_column col (effect i)) } in
    let step : change_active s (effect i) ≡ accepted t =
      change_active-points s pos col (effect i) a in
    rw (observe-change_active s i h.0, step)
      (parse-points t pos col ops a h.1
        ∙ ap (λ os. accepted (record s { observers = os }))
            (on_column-on_column s.observers pos col (effect i) (effects ops)))

parse-null :
    (s : Observer) (ops : List Instr)
    → s.active ≡ null
    → All IsLinkOp ops
    → parse observe s ops ≡ accepted s
unfolding parse
parse-null s [] a h = refl
parse-null s (i ∷ ops) a h =
    let still : change_active s (effect i) ≡ accepted s = unfold change_active in rw a refl in
    rw (observe-change_active s i h.0, still) (parse-null s ops a h.1)

-- What `select_link_list` leaves: a pointer to the column of the first observer of the row, whose
-- columns it has grown, or none.
abbrev Selected : Observer → ℕ → ℕ → List ObserverState → ℕ → Observer → Type 0
Selected s col row os pos t =
    ((t.active ≡ null)
      × (t.observers ≡ s.observers)
      × ((f : ObserverState → ObserverState) → update_first (is_row s.current_table row) f os ≡ os))
    ⊎ ((d : ℕ) × (t.active ≡ points (pos + d) col)
        × (t.observers ≡ update_nth s.observers (pos + d) (change_column col (λ c. c)))
        × ((f : ObserverState → ObserverState)
            → update_first (is_row s.current_table row) f os ≡ update_nth os d f))

select_from-Selected :
    (s : Observer) (col row : ℕ) (os : List ObserverState) (pos : ℕ)
    → Selected s col row os pos (select_from s col row os pos)
unfolding select_from
select_from-Selected s col row [] pos = inl (refl, refl, λ f. refl)
select_from-Selected s col row (o ∷ os) pos = elim (Bool-cases (is_row s.current_table row o)) [
  | inl here ↦
      rw (here, select_from) (inr (0, rw add-zero, rw add-zero, λ f. rw (here, update_first)))
  | inr on ↦
      rw (on, select_from)
        (elim (select_from-Selected s col row os (pos + 1)) [
          | inl (a, same, e) ↦ inl (a, same, λ f. rw (on, update_first) (ap (◌∷◌ o) (e f)))
          | inr (d, a, same, e) ↦
              let at : pos + suc d ≡ pos + 1 + d = omega arith in
              inr (suc d, rw at a, rw at same, λ f. rw (on, update_first) (ap (◌∷◌ o) (e f)))
        ])
]

select_from-invalidated :
    (s : Observer) (col row : ℕ) (os : List ObserverState) (pos : ℕ)
    → (select_from s col row os pos).invalidated ≡ s.invalidated
unfolding select_from
select_from-invalidated s col row [] pos = refl
select_from-invalidated s col row (o ∷ os) pos =
    ground (arith, select_from-invalidated s col row os (pos + 1))

-- The changes go to the column that the selection has grown the vector to.
on_column-grown :
    (os : List ObserverState) (pos col : ℕ) (f : ColumnInfo → ColumnInfo)
    → update_nth (update_nth os pos (change_column col (λ c. c))) pos (on_column col f)
      ≡ update_nth os pos (change_column col f)
on_column-grown os pos col f =
    update_nth-update_nth os pos (change_column col (λ c. c)) (on_column col f)
    ∙ ap (update_nth os pos) (
        fun_ext λ o.
          ap (λ cs. record o { changes = cs })
            (update_nth-update_nth (get_change o.changes col) col (λ c. c) f))

-- A run of link list handlers after `select_link_list` never meets a dangling pointer: it is
-- accepted, and applies its changes in turn to the selected column of the first observer of the row,
-- if the row has one. No other observer and no other column of that one is touched.
pub select_link_list_lem :
    (s : Observer) (col row : ℕ) (ops : List Instr)
    → All IsLinkOp ops
    → (t : Observer) × (parse observe s (TransactLog.select_link_list col row ∷ ops) ≡ accepted t)
      × (t.observers
          ≡ update_first (is_row s.current_table row) (change_column col (effects ops)) s.observers)
      × (t.invalidated ≡ s.invalidated)
unfolding parse observe
select_link_list_lem s col row ops h =
    let t = select_from s col row s.observers 0 in
    let silent = select_from-invalidated s col row s.observers 0 in
    elim (select_from-Selected s col row s.observers 0) [
      | inl (a, same, e) ↦ (t, parse-null t ops a h, same ∙ sym (e _), silent)
      | inr (d, a, same, e) ↦
          let at : 0 + d ≡ d = omega arith in
          (
            record t { observers = update_nth t.observers d (on_column col (effects ops)) },
            parse-points t d col ops (rw at at a) h,
            rw same (rw at (on_column-grown s.observers d col (effects ops) ∙ sym (e _))),
            silent,
          )
    ]
