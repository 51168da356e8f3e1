-- ===== src/ObjectStore/Verify.antt =====
-- ObjectStore::verify_object_schema (Realm/ObjectStore/object_store.cpp).
use realm_cocoa.Base.{
  ℕ, ◌≡◌, refl, ◌↔◌, inl, inr, Bool, true, false, not, List, [], ◌∷◌, ◌++◌, map, none, some,
  if◌then◌else◌, Str, str_eq, All, Bool-cases, Option-cases, arith, subst, sym, ap, ◌∙◌,
}
use realm_cocoa.Schema.{Property, ObjectSchema}
use realm_cocoa.ObjectStore.{
  Mismatch, changed_key, missing_property, mismatched_properties, property_has_changed, first_named,
  set_column, with_error, align, extra_properties, verify_object_schema,
}

-- Whether the first of the properties that has the name of `c` is the same, its column aside.
abbrev pub matches : List Property → Property → Bool
matches [] c = false
matches (p ∷ ps) c =
    let rest = matches ps c in if str_eq p.name c.name then not (property_has_changed c p) else rest

abbrev pub has_name : List Property → Str → Bool
has_name [] name = false
has_name (p ∷ ps) name = let rest = has_name ps name in if str_eq p.name name then true else rest

changed-column :
    (c p : Property) (column : ℕ)
    → property_has_changed c (record p { table_column = column }) ≡ property_has_changed c p
unfolding property_has_changed
changed-column c p column = refl

matches-set_column :
    (ps : List Property) (name : Str) (column : ℕ) (c : Property)
    → matches (set_column ps name column) c ≡ matches ps c
matches-set_column [] name column c = refl
matches-set_column (p ∷ ps) name column c = elim (Bool-cases (str_eq p.name name)) [
  | inl e ↦ rw (e, changed-column c p column) refl
  | inr e ↦ rw (e, matches-set_column ps name column c) refl
]

All-matches :
    (ps qs cs : List Property)
    → ((c : Property) → matches ps c ≡ matches qs c)
    → All (λ c. matches ps c ≡ true) cs
    → All (λ c. matches qs c ≡ true) cs
All-matches ps qs [] same h = tt
All-matches ps qs (c ∷ cs) same h = (sym (same c) ∙ h.0, All-matches ps qs cs same h.1)

first_named-none :
    (ps : List Property) (c : Property) → first_named ps c.name ≡ none → matches ps c ≡ false
first_named-none [] c h = refl
first_named-none (p ∷ ps) c h = ground (arith, first_named-none ps c)

pub first_named-some :
    (ps : List Property) (c t : Property)
    → first_named ps c.name ≡ some t
    → matches ps c ≡ not (property_has_changed c t)
first_named-some [] c t h = cc
first_named-some (p ∷ ps) c t h = elim (Bool-cases (str_eq p.name c.name)) [
  | inl e ↦
      let h' : some p ≡ some t =
        subst (λ b. (if b then some p else first_named ps c.name) ≡ some t) e h in
      let same : p ≡ t = cc in rw e (ap (λ x. not (property_has_changed c x)) same)
  | inr e ↦
      let h' = subst (λ b. (if b then some p else first_named ps c.name) ≡ some t) e h in
      rw e (first_named-some ps c t h')
]

pub align-missing :
    (name : Str) (c : Property) (cs target : List Property)
    → first_named target c.name ≡ none
    → align name (c ∷ cs) target ≡ with_error (missing_property name c) (align name cs target)
unfolding align
align-missing name c cs target e = rw (e, align) refl

pub align-found :
    (name : Str) (c : Property) (cs target : List Property) (t : Property)
    → first_named target c.name ≡ some t
    → align name (c ∷ cs) target ≡ (
        if property_has_changed c t
        then with_error (mismatched_properties name c t) (align name cs target)
        else align name cs (set_column target c.name c.table_column))
unfolding align
align-found name c cs target t e = elim (Bool-cases (property_has_changed c t)) [
  | inl b ↦ rw (e, b, align) refl
  | inr b ↦ rw (e, b, align) refl
]

pub align-errors :
    (name : Str) (cs target : List Property)
    → ((align name cs target).errors ≡ []) ↔ All (λ c. matches target c ≡ true) cs
align-errors name [] target = unfold align in (λ h. tt, λ h. refl)
align-errors name (c ∷ cs) target = elim (Option-cases (first_named target c.name)) [
  | inl e ↦
      let m = first_named-none target c e in
      rw (align-missing name c cs target e, m) (λ h. cc, λ h. let f = h.0 in cc)
  | inr (t, e) ↦
      let m = first_named-some target c t e in
      elim (Bool-cases (property_has_changed c t)) [
        | inl b ↦ rw (align-found name c cs target t e, b, m, b) (λ h. cc, λ h. let f = h.0 in cc)
        | inr b ↦
            let moved = set_column target c.name c.table_column in
            let same = matches-set_column target c.name c.table_column in
            let ih = align-errors name cs moved in
            rw (align-found name c cs target t e, b, m, b)
              (
                λ h. (refl, All-matches moved target cs same (ih.0 h)),
                λ h. ih.1 (All-matches target moved cs (λ c'. sym (same c')) h.1),
              )
      ]
]

abbrev pub names : List Property → List Str
names ps = map (λ p. p.name) ps

names-set_column :
    (ps : List Property) (name : Str) (column : ℕ) → names (set_column ps name column) ≡ names ps
names-set_column [] name column = refl
names-set_column (p ∷ ps) name column = elim (Bool-cases (str_eq p.name name)) [
  | inl e ↦ rw e refl
  | inr e ↦ rw e (ap (◌∷◌ p.name) (names-set_column ps name column))
]

names-align :
    (name : Str) (cs target : List Property)
    → names (align name cs target).properties ≡ names target
names-align name [] target = unfold align in refl
names-align name (c ∷ cs) target = elim (Option-cases (first_named target c.name)) [
  | inl e ↦ rw (align-missing name c cs target e) (names-align name cs target)
  | inr (t, e) ↦ elim (Bool-cases (property_has_changed c t)) [
    | inl b ↦ rw (align-found name c cs target t e, b) (names-align name cs target)
    | inr b ↦
        rw (align-found name c cs target t e, b)
          (names-align name cs (set_column target c.name c.table_column)
            ∙ names-set_column target c.name c.table_column)
  ]
]

first_named-has_name-none :
    (table : List Property) (name : Str)
    → first_named table name ≡ none
    → has_name table name ≡ false
first_named-has_name-none [] name e = refl
first_named-has_name-none (p ∷ ps) name e = ground (arith, first_named-has_name-none ps name)

first_named-has_name-some :
    (table : List Property) (name : Str) (t : Property)
    → first_named table name ≡ some t
    → has_name table name ≡ true
first_named-has_name-some [] name t e = cc
first_named-has_name-some (p ∷ ps) name t e = ground (arith, first_named-has_name-some ps name t)

extra_properties-errors :
    (name : Str) (table ps : List Property)
    → (extra_properties name table ps ≡ []) ↔ All (λ n. has_name table n ≡ true) (names ps)
unfolding extra_properties
extra_properties-errors name table [] = (λ h. tt, λ h. refl)
extra_properties-errors name table (p ∷ ps) = elim (Option-cases (first_named table p.name)) [
  | inl e ↦
      rw (e, extra_properties, first_named-has_name-none table p.name e)
        (λ h. cc, λ h. let f = h.0 in cc)
  | inr (t, e) ↦
      let ih = extra_properties-errors name table ps in
      rw (e, extra_properties, first_named-has_name-some table p.name t e)
        (λ h. (refl, ih.0 h), λ h. ih.1 h.1)
]

append_nil : (xs ys : List Mismatch) → ((xs ++ ys) ≡ []) ↔ ((xs ≡ []) × (ys ≡ []))
append_nil [] ys = (λ e. (refl, e), λ h. h.1)
append_nil (x ∷ xs) ys = (λ e. cc, λ h. let e = h.0 in cc)

changed_key-errors :
    (table target : ObjectSchema)
    → (changed_key table target ≡ []) ↔ (str_eq table.primary_key target.primary_key ≡ true)
changed_key-errors table target = elim (Bool-cases (str_eq table.primary_key target.primary_key)) [
  | inl e ↦ rw e (λ h. refl, λ h. refl)
  | inr e ↦ rw e (λ h. cc, λ h. cc)
]

-- The comparison finds no fault if and only if the first property of the target that has the name of
-- one of the table's is the same up to its column, for each of the table's, the primary keys are the
-- same, and every property of the target has the name of one of the table's.
pub verify_object_schema-matches :
    (table target : ObjectSchema)
    → ((verify_object_schema table target).errors ≡ []) ↔ (
        All (λ c. matches target.properties c ≡ true) table.properties
        × (str_eq table.primary_key target.primary_key ≡ true)
        × All (λ n. has_name table.properties n ≡ true) (names target.properties))
unfolding verify_object_schema
verify_object_schema-matches table target =
    let a = align table.name table.properties target.properties in
    let same = align-errors table.name table.properties target.properties in
    let extra = extra_properties-errors table.name table.properties a.properties in
    let kept = names-align table.name table.properties target.properties in
    let others = extra_properties table.name table.properties a.properties in
    let split = append_nil a.errors (changed_key table target ++ others) in
    let split' = append_nil (changed_key table target) others in
    let key = changed_key-errors table target in
    (
      λ h.
          let (first, rest) = split.0 h in
          let (k, last) = split'.0 rest in
          (
            same.0 first,
            key.0 k,
            subst (All (λ n. has_name table.properties n ≡ true)) kept (extra.0 last),
          ),
      λ h. split.1 (
        same.1 h.0,
        split'.1 (
          key.1 h.1,
          extra.1 (subst (All (λ n. has_name table.properties n ≡ true)) (sym kept) h.2),
        ),
      ),
    )
