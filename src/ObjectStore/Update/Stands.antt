-- ===== src/ObjectStore/Update/Stands.antt =====
-- The numbers that ObjectStore::create_tables (Realm/ObjectStore/object_store.cpp) gives to properties
-- are those of columns of theirs.
use realm_cocoa.Base.{
  ℕ, ◌+◌, ◌≡◌, refl, sym, ap, ◌∙◌, subst, inl, inr, Bool, true, false, List, [], ◌∷◌, ◌++◌, none,
  some, if◌then◌else◌, length, length-append, get_elem?, Str, str_eq, Bool-cases, Option-cases,
  empty, arith, All, All-map, npos, ◌∙◌,
}
use realm_cocoa.Base.Splits.{append_assoc, get_elem?-before, get_elem?-behind}
use realm_cocoa.Schema.{Property}
use realm_cocoa.ObjectStore.{first_named}
use realm_cocoa.ObjectStore.Tables.{Tables, IsTables, Column}
use realm_cocoa.ObjectStore.Update.{at_column, old_column}
use realm_cocoa.ObjectStore.Update.Fates.{fate, is_removed, IsColumnOf}
use realm_cocoa.ObjectStore.Update.Remove.{kept_columns, survivors}
use realm_cocoa.ObjectStore.Update.Add.{
  fits, fresh, numbered, additions, numbered-new, numbered-kept, additions-new, additions-kept,
}
use realm_cocoa.ObjectStore.Update.Places.{fresh-IsColumnOf, old_column-here, old_column-other}

-- A property stands at the column whose number it has: it has its name, type and link.
abbrev pub Stands : {V : Type 0} → List (Column V) → Property → Type 0
Stands cols t = (col : Column _) × (get_elem? cols t.table_column ≡ some col) × IsColumnOf t col

module _ (T : Tables) (L : IsTables T) where
  abbrev Col : Type 0
  Col = Column T.Value

  Stands-append :
      (xs ys : List Col) (ts : List Property) → All (Stands xs) ts → All (Stands (xs ++ ys)) ts
  Stands-append xs ys ts h =
      All-map {P = Stands xs} {Q = Stands (xs ++ ys)} ts
        (λ t s. (s.0, get_elem?-before xs ys t.table_column s.0 s.1, s.2)) h

  pub numbered_lem :
      (tables : Str → Bool) (target current : List Property) (size : ℕ) (pre : List Col)
      → (ts : List Property)
      → ((t : Property) (k : ℕ)
          → fits tables t ≡ true
          → first_named target t.name ≡ some t
          → old_column current t ≡ some k
          → Stands pre (at_column t k))
      → All (λ t. fits tables t ≡ true) ts
      → All (λ t. first_named target t.name ≡ some t) ts
      → All (Stands (pre ++ additions T L size current ts)) (numbered (length pre) current ts)
  numbered_lem tables target current size pre [] h f n = tt
  numbered_lem tables target current size pre (t ∷ ts) h f n =
      elim (Option-cases (old_column current t)) [
        | inl e ↦
            let x = fresh T L size t in
            let more = pre ++ x ∷ [] in
            let h' : (t : Property) (k : ℕ)
                → fits tables t ≡ true
                → first_named target t.name ≡ some t
                → old_column current t ≡ some k
                → Stands more (at_column t k) =
              λ t' k f' n' e'.
                let s = h t' k f' n' e' in (s.0, get_elem?-before pre (x ∷ []) k s.0 s.1, s.2) in
            let rest = numbered_lem tables target current size more ts h' f.1 n.1 in
            let adds = additions T L size current ts in
            let here : Stands (pre ++ x ∷ adds) (at_column t (length pre)) = (
              x,
              get_elem?-behind pre (x ∷ adds) (length pre) 0 (omega arith),
              fresh-IsColumnOf T L tables size t f.0,
            ) in
            rw (additions-new T L size current t ts e, numbered-new (length pre) current t ts e)
              (
                here,
                subst (λ m. All (Stands (pre ++ x ∷ adds)) (numbered m current ts))
                    (length-append pre (x ∷ []))
                    (subst (λ xs. All (Stands xs) (numbered (length more) current ts))
                      (append_assoc pre (x ∷ []) adds) rest),
              )
        | inr (k, e) ↦
            let rest = numbered_lem tables target current size pre ts h f.1 n.1 in
            let s = h t k f.0 n.0 e in
            let adds = additions T L size current ts in
            rw
              (
                additions-kept T L size current t ts k e,
                numbered-kept (length pre) current t ts k e,
              )
              ((s.0, get_elem?-before pre adds k s.0 s.1, s.2), rest)
      ]

  -- With no column that stays, no property has kept one.
  pub bare-old_column :
      (k : ℕ) (cs target : List Property) (cols : List Col) (t : Property)
      → length cols ≡ length cs
      → empty (survivors T L target cs cols) ≡ true
      → old_column (kept_columns k target cs) t ≡ none
  unfolding old_column
  bare-old_column k [] target cols t l h = refl
  bare-old_column k (c ∷ cs) target [] t l h = absurd (omega arith)
  bare-old_column k (c ∷ cs) target (col ∷ cols) t l h =
      elim (Bool-cases (is_removed (fate target c))) [
        | inr b ↦
            let rest = survivors T L target cs cols in
            absurd (let h' = ap (λ y. empty (if y then rest else col ∷ rest)) (sym b) ∙ h in cc)
        | inl b ↦
            let rest = survivors T L target cs cols in
            let h' = ap (λ y. empty (if y then rest else col ∷ rest)) (sym b) ∙ h in
            let others = kept_columns k target cs in
            elim (Bool-cases (str_eq c.name t.name)) [
              | inl e ↦ rw b (old_column-here (at_column c npos) others t e)
              | inr e ↦ rw b (
                  old_column-other (at_column c npos) others t e
                  ∙ bare-old_column k cs target cols t (omega arith) h')
            ]
      ]

  pub survivors-fates :
      (a b cs : List Property) (cols : List Col)
      → ((c : Property) → fate a c ≡ fate b c)
      → survivors T L a cs cols ≡ survivors T L b cs cols
  survivors-fates a b [] cols h = refl
  survivors-fates a b (c ∷ cs) [] h = refl
  survivors-fates a b (c ∷ cs) (col ∷ cols) h =
      let ih = survivors-fates a b cs cols h in
      rw (h c) (ap (λ xs. if is_removed (fate b c) then xs else col ∷ xs) ih)

pub kept_columns-fates :
    (k : ℕ) (a b cs : List Property)
    → ((c : Property) → fate a c ≡ fate b c)
    → kept_columns k a cs ≡ kept_columns k b cs
kept_columns-fates k a b [] h = refl
kept_columns-fates k a b (c ∷ cs) h =
    let gone = ap (◌∷◌ (at_column c npos)) (kept_columns-fates k a b cs h) in
    let here = ap (◌∷◌ (at_column c k)) (kept_columns-fates (k + 1) a b cs h) in
    rw (h c) (go (is_removed (fate b c)) gone here)
  where
    go :
        (y : Bool) {p q r s : List Property}
        → p ≡ q
        → r ≡ s
        → (if y then p else r) ≡ (if y then q else s)
    go true g h = g
    go false g h = h
