-- ===== src/ObjectStore/Update/Places.antt =====
-- Where the properties of a class stand after ObjectStore::create_tables
-- (Realm/ObjectStore/object_store.cpp): each at a column of its own name, type and link.
use realm_cocoa.Base.{
  ℕ, ◌+◌, ◌≡◌, refl, sym, ap, ◌∙◌, inl, inr, Bool, true, false, ◌||◌, List, [], ◌∷◌, ◌++◌, none,
  some, if◌then◌else◌, length, length-append, get_elem?, Str, str_eq, str_eq_self, str_eq-swap,
  str_eq→eq, Bool-cases, empty, ◌==◌, arith, All, npos,
}
use realm_cocoa.Base.Splits.{empty→nil, append_assoc, get_elem?-behind}
use realm_cocoa.Schema.{Property, PropertyType, same_type, type_object}
use realm_cocoa.ObjectStore.{differs, first_named, property_has_changed}
use realm_cocoa.ObjectStore.Columns.{IsDistinct}
use realm_cocoa.ObjectStore.Verify.{has_name}
use realm_cocoa.ObjectStore.Tables.{Tables, IsTables, Column}
use realm_cocoa.ObjectStore.Update.{
  is_link, at_column, old_column, property_can_be_migrated_to_nullable,
}
use realm_cocoa.ObjectStore.Update.Fates.{
  removed, unchanged, fate, fate_of, is_removed, same_type→eq, IsColumnOf, Alike,
}
use realm_cocoa.ObjectStore.Update.Optional.{
  optional, adapted, adapt_all, migrated, is_adapted, not_adapted,
}
use realm_cocoa.ObjectStore.Update.Remove.{kept_columns, survivors}
use realm_cocoa.ObjectStore.Update.Add.{fits, fresh}

-- The first property of a name is the only one.
named-behind :
    (p : Property) (ps qs : List Property)
    → has_name qs p.name ≡ false
    → All (λ t. first_named ps t.name ≡ some t) qs
    → All (λ t. first_named (p ∷ ps) t.name ≡ some t) qs
named-behind p ps [] h k = tt
named-behind p ps (q ∷ qs) h k =
    let e : str_eq q.name p.name ≡ false = ground arith in
    let h' : has_name qs p.name ≡ false = ground arith in
    let e' : str_eq p.name q.name ≡ false = str_eq-swap p.name q.name ∙ e in
    (rw e' k.0, named-behind p ps qs h' k.1)

pub first_named-IsDistinct :
    (ps : List Property) → IsDistinct ps → All (λ t. first_named ps t.name ≡ some t) ps
first_named-IsDistinct [] d = tt
first_named-IsDistinct (p ∷ ps) d =
    (rw (str_eq_self p.name) refl, named-behind p ps ps d.0 (first_named-IsDistinct ps d.1))

pub old_column-here :
    (c : Property) (cs : List Property) (t : Property)
    → str_eq c.name t.name ≡ true
    → old_column (c ∷ cs) t ≡ (if c.table_column == npos then none else some c.table_column)
unfolding old_column
old_column-here c cs t e = elim (Bool-cases (c.table_column == npos)) [
  | inl h ↦ rw (e, old_column, h) refl
  | inr h ↦ rw (e, old_column, h) refl
]

pub old_column-other :
    (c : Property) (cs : List Property) (t : Property)
    → str_eq c.name t.name ≡ false
    → old_column (c ∷ cs) t ≡ old_column cs t
unfolding old_column
old_column-other c cs t e = rw (e, old_column) refl

differs→eq : (a b : Bool) → differs a b ≡ false → a ≡ b
differs→eq a b h = ground arith

or_true : (b : Bool) → (b || true) ≡ true
or_true true = refl
or_true false = refl

or_false : (b : Bool) → (b || false) ≡ b
or_false true = refl
or_false false = refl

no_object : (k : PropertyType) → is_link k ≡ false → same_type k type_object ≡ false
unfolding is_link
no_object k h = ground arith

not_changed :
    (c t : Property)
    → property_can_be_migrated_to_nullable c t ≡ false
    → is_removed (fate_of c t) ≡ false
    → property_has_changed c t ≡ false
unfolding fate_of
not_changed c t m h = elim (Bool-cases (property_has_changed c t)) [
  | inr e ↦ e
  | inl e ↦ let h' : is_removed (if true then removed else unchanged) ≡ false = ground arith in cc
]

module _ (T : Tables) (L : IsTables T) where
  abbrev Col : Type 0
  Col = Column T.Value

  pub fresh-IsColumnOf :
      (tables : Str → Bool) (size : ℕ) (t : Property)
      → fits tables t ≡ true
      → IsColumnOf t (fresh T L size t)
  fresh-IsColumnOf tables size t h = elim (Bool-cases (is_link t.kind)) [
    | inl e ↦
        let d : differs t.is_nullable (same_type t.kind type_object) ≡ false = ground arith in
        rw e (refl, refl, refl, sym (differs→eq t.is_nullable (same_type t.kind type_object) d))
    | inr e ↦
        let d : empty t.object_type ≡ true = ground arith in
        let o = no_object t.kind e in
        rw e (refl, refl, (empty→nil t.object_type d), rw o (or_false t.is_nullable))
  ]

  unchanged-IsColumnOf :
      (c t : Property) (col : Col)
      → IsColumnOf c col
      → property_has_changed c t ≡ false
      → IsColumnOf t col
  unfolding property_has_changed
  unchanged-IsColumnOf c t col r h =
      let a : same_type c.kind t.kind ≡ true = ground arith in
      let b : str_eq c.name t.name ≡ true = ground arith in
      let d : str_eq c.object_type t.object_type ≡ true = ground arith in
      let e : differs c.is_nullable t.is_nullable ≡ false = ground arith in
      (
        r.0 ∙ str_eq→eq c.name t.name b,
        r.1 ∙ same_type→eq c.kind t.kind a,
        r.2 ∙ str_eq→eq c.object_type t.object_type d,
        r.3 ∙ differs→eq c.is_nullable t.is_nullable e,
      )

  optional-IsColumnOf :
      (tables : Str → Bool) (c t : Property) (col : Col)
      → IsColumnOf c col
      → fits tables t ≡ true
      → property_can_be_migrated_to_nullable c t ≡ true
      → IsColumnOf t (optional T L col)
  optional-IsColumnOf tables c t col r f m =
      let (kinds, required, nullable, names) = migrated c t m in
      let kind : col.kind ≡ t.kind = r.1 ∙ kinds in
      elim (Bool-cases (is_link t.kind)) [
        | inl e ↦
            let d : differs t.is_nullable (same_type t.kind type_object) ≡ false = ground arith in
            let o : true ≡ same_type t.kind type_object =
              sym nullable ∙ differs→eq t.is_nullable (same_type t.kind type_object) d in
            let is_object = ap (λ k. same_type k type_object) kind ∙ sym o in
            let all : (col.is_nullable || true) ≡ false =
              ap (λ b. col.is_nullable || b) (sym is_object) ∙ r.3 ∙ required in
            absurd (let never = or_true col.is_nullable in cc)
        | inr e ↦
            let d : empty t.object_type ≡ true = ground arith in
            let e' = ap is_link kind ∙ e in
            (r.0 ∙ sym names, kind, rw e' (empty→nil t.object_type d), sym nullable)
      ]

  -- The class of a table stands at its columns, of which the first is number `k`; a property of the
  -- target that takes the column of the first of its name stands there.
  pub adapted-IsColumnOf :
      (tables : Str → Bool) (target : List Property) (c t : Property) (col : Col)
      → IsColumnOf c col
      → fits tables t ≡ true
      → first_named target t.name ≡ some t
      → str_eq c.name t.name ≡ true
      → is_removed (fate target c) ≡ false
      → IsColumnOf t (adapted T L (fate target c) col)
  adapted-IsColumnOf tables target c t col r f first same kept =
      let first' : first_named target c.name ≡ some t =
        ap (first_named target) (str_eq→eq c.name t.name same) ∙ first in
      let step : fate target c ≡ fate_of c t = rw (first', fate) refl in
      elim (Bool-cases (property_can_be_migrated_to_nullable c t)) [
        | inl m ↦ rw (step, is_adapted T L c t col m) (optional-IsColumnOf tables c t col r f m)
        | inr m ↦
            rw (step, not_adapted T L c t col m)
              (unchanged-IsColumnOf c t col r (not_changed c t m (sym (ap is_removed step) ∙ kept)))
      ]

  -- The columns that stay, at the numbers that their properties keep.
  pub old_column_lem :
      (tables : Str → Bool) (pre cols : List Col) (cs target : List Property) (t : Property) (k : ℕ)
      → Alike cols cs
      → fits tables t ≡ true
      → first_named target t.name ≡ some t
      → old_column (kept_columns (length pre) target cs) t ≡ some k
      → (col : Col) × (get_elem? (pre ++ survivors T L target cs (adapt_all T L target cs cols)) k
          ≡ some col)
        × IsColumnOf t col
  unfolding old_column
  old_column_lem tables pre cols [] target t k r f first h = cc
  old_column_lem tables pre [] (c ∷ cs) target t k r f first h = cc
  old_column_lem tables pre (col ∷ cols) (c ∷ cs) target t k r f first h =
      let n = length pre in
      let x = adapted T L (fate target c) col in
      let rest = survivors T L target cs (adapt_all T L target cs cols) in
      elim (Bool-cases (is_removed (fate target c))) [
        | inl b ↦
            let others = kept_columns n target cs in
            let gone : kept_columns n target (c ∷ cs) ≡ at_column c npos ∷ others = rw b refl in
            let h' = ap (λ ps. old_column ps t) (sym gone) ∙ h in
            elim (Bool-cases (str_eq c.name t.name)) [
              | inl e ↦ absurd (let none_here = old_column-here (at_column c npos) others t e in cc)
              | inr e ↦
                  let h'' = sym (old_column-other (at_column c npos) others t e) ∙ h' in
                  rw b (old_column_lem tables pre cols cs target t k r.1 f first h'')
            ]
        | inr b ↦
            let others = kept_columns (n + 1) target cs in
            let here : kept_columns n target (c ∷ cs) ≡ at_column c n ∷ others = rw b refl in
            let h' = ap (λ ps. old_column ps t) (sym here) ∙ h in
            elim (Bool-cases (str_eq c.name t.name)) [
              | inl e ↦
                  let there = sym (old_column-here (at_column c n) others t e) ∙ h' in
                  elim (Bool-cases (n == npos)) [
                    | inl far ↦
                        absurd
                          (let never = ap (λ y. if y then none else some n) (sym far) ∙ there in cc)
                    | inr near ↦
                        let same = ap (λ y. if y then none else some n) (sym near) ∙ there in
                        let number : k ≡ n = cc in
                        rw (b, number)
                          (
                            x,
                            get_elem?-behind pre (x ∷ rest) n 0 (omega arith),
                            adapted-IsColumnOf tables target c t col r.0 f first e b,
                          )
                  ]
              | inr e ↦
                  let h'' = sym (old_column-other (at_column c n) others t e) ∙ h' in
                  let grown = sym (length-append pre (x ∷ [])) in
                  let h3 = ap (λ m. old_column (kept_columns m target cs) t) (sym grown) ∙ h'' in
                  let (found, at, is) =
                    old_column_lem tables (pre ++ x ∷ []) cols cs target t k r.1 f first h3 in
                  rw b (
                    found,
                    ap (λ xs. get_elem? xs k) (sym (append_assoc pre (x ∷ []) rest)) ∙ at,
                    is,
                  )
            ]
      ]
