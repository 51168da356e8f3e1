-- ===== src/ObjectStore/Update/Verified.antt =====
-- ObjectStore::create_tables and ObjectStore::verify_object_schema (Realm/ObjectStore/object_store.cpp)
-- together: a table that the one has brought to its class passes the other.
use realm_cocoa.Base.{
  ℕ, zero, suc, ◌+◌, ◌≡◌, refl, sym, ap, ◌∙◌, subst, inl, inr, Bool, true, List, [], ◌∷◌, ◌++◌,
  some, if◌then◌else◌, length, length-append, get_elem?, Str, str_eq, str_eq_self, str_eq→eq,
  Bool-cases, Option-cases, arith, All, All-map, All-append, npos, ◌<◌,
}
use realm_cocoa.Base.Splits.{get_elem?-behind, append_assoc}
use realm_cocoa.Schema.{Property}
use realm_cocoa.ObjectStore.{first_named, verify_object_schema}
use realm_cocoa.ObjectStore.Columns.{IsDistinct}
use realm_cocoa.ObjectStore.Verify.{verify_object_schema-matches}
use realm_cocoa.ObjectStore.Tables.{Tables, IsTables, Column}
use realm_cocoa.ObjectStore.Update.{
  old_column, property_at, properties_from, table_properties, update_columns,
}
use realm_cocoa.ObjectStore.Update.Fates.{
  fate, is_removed, uncolumned, IsColumnOf, Reads, Alike, Reads-Alike,
}
use realm_cocoa.ObjectStore.Update.Optional.{adapt_all, adapted}
use realm_cocoa.ObjectStore.Update.Remove.{survivors, kept_columns}
use realm_cocoa.ObjectStore.Update.Add.{fits, fresh, additions, additions-new, additions-kept}
use realm_cocoa.ObjectStore.Update.Places.{
  fresh-IsColumnOf, adapted-IsColumnOf, first_named-IsDistinct,
}
use realm_cocoa.ObjectStore.Update.Partners.{
  Partner, Partner-uncolumned, Partner-first_named, All-matches, All-has_name,
}
use realm_cocoa.ObjectStore.Update.Result.{update_columns_lem, staying}

module _ (T : Tables) (L : IsTables T) where
  abbrev Col : Type 0
  Col = Column T.Value

  property_at_lem :
      (t : T.Table) (i : ℕ) (col : Col)
      → get_elem? (L.columns t) i ≡ some col
      → IsColumnOf (property_at T t i) col
  unfolding property_at
  property_at_lem t i col h =
      let (name, kind, indexed, nullable, target) = L.reads t i col h in
      (sym name, sym kind, rw (kind, target) refl, rw (kind, nullable) refl)

  properties_from_lem :
      (t : T.Table) (pre rest : List Col) (left : ℕ)
      → L.columns t ≡ pre ++ rest
      → length rest ≡ left
      → Reads (length pre) rest (properties_from T t (length pre) left)
  unfolding properties_from property_at
  properties_from_lem t pre [] zero h l = tt
  properties_from_lem t pre [] (suc left) h l = absurd (omega arith)
  properties_from_lem t pre (col ∷ rest) zero h l = absurd (omega arith)
  properties_from_lem t pre (col ∷ rest) (suc left) h l =
      let at =
        ap (λ cs. get_elem? cs (length pre)) h
        ∙ get_elem?-behind pre (col ∷ rest) (length pre) 0 (omega arith) in
      let h' = h ∙ sym (append_assoc pre (col ∷ []) rest) in
      let next = properties_from_lem t (pre ++ col ∷ []) rest left h' (omega arith) in
      (
        property_at_lem t (length pre) col at,
        refl,
        subst (λ k. Reads k rest (properties_from T t k left)) (length-append pre (col ∷ [])) next,
      )

  -- The class that is read from a table has its columns.
  pub table_properties_lem : (t : T.Table) → Reads 0 (L.columns t) (table_properties T t)
  unfolding table_properties
  table_properties_lem t =
      properties_from_lem t [] (L.columns t) (T.get_column_count t) refl (sym (L.count t))

  first_named-fits :
      (tables : Str → Bool) (ts : List Property) (n : Str) (t : Property)
      → All (λ p. fits tables p ≡ true) ts
      → first_named ts n ≡ some t
      → (fits tables t ≡ true) × (t.name ≡ n)
  first_named-fits tables [] n t f h = cc
  first_named-fits tables (p ∷ ps) n t f h = elim (Bool-cases (str_eq p.name n)) [
    | inl e ↦
        let h' = ap (λ b. if b then some p else first_named ps n) (sym e) ∙ h in
        let same : p ≡ t = cc in
        subst (λ q. (fits tables q ≡ true) × (q.name ≡ n)) same (f.0, str_eq→eq p.name n e)
    | inr e ↦
        let h' = ap (λ b. if b then some p else first_named ps n) (sym e) ∙ h in
        first_named-fits tables ps n t f.1 h'
  ]

  -- A column that stays is one of the property that it stays for.
  staying-Partner :
      (tables : Str → Bool) (target cs : List Property) (cols : List Col)
      → Alike cols cs
      → All (λ p. fits tables p ≡ true) target
      → All (Partner target) (survivors T L target cs (adapt_all T L target cs cols))
  staying-Partner tables target [] [] a f = tt
  staying-Partner tables target [] (col ∷ cols) a f = cc
  staying-Partner tables target (c ∷ cs) [] a f = cc
  staying-Partner tables target (c ∷ cs) (col ∷ cols) a f =
      let rest = staying-Partner tables target cs cols a.1 f in
      elim (Bool-cases (is_removed (fate target c))) [
        | inl b ↦ rw b rest
        | inr b ↦ elim (Option-cases (first_named target c.name)) [
          | inl e ↦ absurd (let gone : is_removed (fate target c) ≡ true = rw (e, fate) refl in cc)
          | inr (t, e) ↦
              let (fit, named) = first_named-fits tables target c.name t f e in
              let first = ap (first_named target) named ∙ e in
              let same : str_eq c.name t.name ≡ true =
                ap (str_eq c.name) named ∙ str_eq_self c.name in
              let is = adapted-IsColumnOf T L tables target c t col a.0 fit first same b in
              let x = adapted T L (fate target c) col in
              let found = ap (first_named target) (is.0 ∙ named) ∙ e in
              rw b (Partner-first_named target x t found is, rest)
        ]
      ]

  additions-Partner :
      (tables : Str → Bool) (size : ℕ) (current target ts : List Property)
      → All (λ p. fits tables p ≡ true) ts
      → All (λ t. first_named target t.name ≡ some t) ts
      → All (Partner target) (additions T L size current ts)
  additions-Partner tables size current target [] f n = tt
  additions-Partner tables size current target (t ∷ ts) f n =
      let rest = additions-Partner tables size current target ts f.1 n.1 in
      elim (Option-cases (old_column current t)) [
        | inl e ↦
            let x = fresh T L size t in
            rw (additions-new T L size current t ts e)
              (Partner-first_named target x t n.0 (fresh-IsColumnOf T L tables size t f.0), rest)
        | inr (k, e) ↦ rw (additions-kept T L size current t ts k e) rest
      ]

  All-Partner :
      (ts us : List Property) (cols : List Col)
      → uncolumned ts ≡ uncolumned us
      → All (Partner us) cols
      → All (Partner ts) cols
  All-Partner ts us cols h a =
      All-map {P = Partner us} {Q = Partner ts} cols
        (λ col p.
          subst (λ X. X)
            (sym (Partner-uncolumned us col)
              ∙ ap (λ xs. Partner xs col) (sym h)
              ∙ Partner-uncolumned ts col)
            p)
        a

  -- A table that the second pass has brought to a class with a primary key passes the comparison with
  -- that class, at the columns that the pass has given to its properties.
  pub update_columns-verified :
      (tables : Str → Bool) (t : T.Table) (name key : Str) (current target : List Property)
      → Reads 0 (L.columns t) current
      → IsDistinct target
      → All (λ p. fits tables p ≡ true) target
      → length current + length target + 1 < npos
      → (r : T.Table × List Property) × (update_columns T tables t current target ≡ some r)
        × ((verify_object_schema
              (record { name = name; properties = table_properties T r.0; primary_key = key })
              (record { name = name; properties = r.1; primary_key = key })).errors
            ≡ [])
  update_columns-verified tables t name key current target h d f w =
      let (r, found, columns, kept, stands) =
        update_columns_lem T L tables t current target h d f w in
      let cols = L.columns t in
      let places = kept_columns 0 target current in
      let (alike, long) = Reads-Alike 0 cols current h in
      let (alike', long') =
        Reads-Alike 0 (L.columns r.0) (table_properties T r.0) (table_properties_lem r.0) in
      let partners =
        All-append (Partner target) (staying T L cols current target)
          (additions T L (T.size t) places target)
          (staying-Partner tables target current cols alike f)
          (additions-Partner tables (T.size t) places target target f
            (first_named-IsDistinct target d)) in
      let partners' =
        All-Partner r.1 target (L.columns r.0) kept
          (subst (All (Partner target)) (sym columns) partners) in
      (
        r,
        found,
        (verify_object_schema-matches _ _).1 (
          All-matches r.1 (L.columns r.0) (table_properties T r.0) alike' partners',
          str_eq_self key,
          All-has_name (L.columns r.0) (table_properties T r.0) r.1 alike' stands,
        ),
      )
