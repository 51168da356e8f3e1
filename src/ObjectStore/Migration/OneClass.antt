-- ===== src/ObjectStore/Migration/OneClass.antt =====
-- The second pass of ObjectStore::create_tables (Realm/ObjectStore/object_store.cpp) for one class: its
-- table, its primary key and the class that is read back.
use realm_cocoa.Base.{
  ℕ, zero, suc, ◌+◌, ◌≡◌, refl, sym, ap, ◌∙◌, subst, inl, inr, true, false, List, [], ◌∷◌, none,
  some, if◌then◌else◌, length, Str, str_eq, str_eq_self, str_eq→eq, empty, Bool-cases, Option-cases,
  All, npos, ◌<◌,
}
use realm_cocoa.Base.Splits.{empty→nil}
use realm_cocoa.Schema.{
  Property, ObjectSchema, property_for_name, mark_primary, set_primary_key_property,
}
use realm_cocoa.ObjectStore.{verify_object_schema}
use realm_cocoa.ObjectStore.Columns.{IsDistinct}
use realm_cocoa.ObjectStore.Tables.{Tables, IsTables, Column, table_name_for_object_type}
use realm_cocoa.ObjectStore.Update.{table_properties}
use realm_cocoa.ObjectStore.Update.Fates.{Reads}
use realm_cocoa.ObjectStore.Update.Add.{fits}
use realm_cocoa.ObjectStore.Update.Verified.{update_columns-verified, table_properties_lem}
use realm_cocoa.ObjectStore.Group.{
  Groups, primary_key_table_name, get_primary_key_for_object, set_primary_key,
  set_primary_key_for_object, table_for_object_type, object_schema,
}
use realm_cocoa.ObjectStore.Group.KeyRows.{IsMap}
use realm_cocoa.ObjectStore.Group.PrimaryKeys.{
  IsGroups, get_primary_key_for_object_lem, set_primary_key_for_object_lem,
}
use realm_cocoa.ObjectStore.Migration.{
  ok, or_else, missing_table, has_table, update_primary_key, update_table,
}

Reads-mark_primary :
    {V : Type 0} (k : ℕ) (cols : List (Column V)) (ps : List Property) (i : ℕ)
    → Reads k cols ps
    → Reads k cols (mark_primary ps i)
Reads-mark_primary k [] [] i r = tt
Reads-mark_primary k [] (p ∷ ps) i r = cc
Reads-mark_primary k (c ∷ cols) [] i r = cc
Reads-mark_primary k (c ∷ cols) (p ∷ ps) zero r = r
Reads-mark_primary k (c ∷ cols) (p ∷ ps) (suc i) r =
    (r.0, r.1, Reads-mark_primary (k + 1) cols ps i r.2)

marked :
    {V : Type 0} (cols : List (Column V)) (o o' : ObjectSchema)
    → set_primary_key_property o ≡ some o'
    → Reads 0 cols o.properties
    → Reads 0 cols o'.properties × (o.primary_key ≡ o'.primary_key)
unfolding set_primary_key_property
marked cols o o' h r = elim (Bool-cases (empty o.primary_key)) [
  | inl e ↦
      let step : set_primary_key_property o ≡ some o = rw (set_primary_key_property, e) refl in
      let h' = sym step ∙ h in
      let same : o ≡ o' = cc in
      (subst (λ x. Reads 0 cols x.properties) same r, ap (λ x. x.primary_key) same)
  | inr e ↦ elim (Option-cases (property_for_name o.properties o.primary_key)) [
    | inl n ↦ absurd (
        let step : set_primary_key_property o ≡ none = rw (set_primary_key_property, e, n) refl in
        cc)
    | inr (i, n) ↦
        let new : ObjectSchema = record o { properties = mark_primary o.properties i } in
        let step : set_primary_key_property o ≡ some new =
          rw (set_primary_key_property, e, n) refl in
        let h' = sym step ∙ h in
        let same : new ≡ o' = cc in
        (
          subst (λ x. Reads 0 cols x.properties) same (Reads-mark_primary 0 cols o.properties i r),
          ap (λ x. x.primary_key) same,
        )
  ]
]

-- The names of the tables of the classes are not that of the table of the primary keys.
other_name : (name : Str) → str_eq (table_name_for_object_type name) primary_key_table_name ≡ false
other_name name = refl

other_name' : (name : Str) → str_eq primary_key_table_name (table_name_for_object_type name) ≡ false
other_name' name = refl

module _ (T : Tables) (L : IsTables T) (G : Groups T) (K : IsGroups T G) where
  -- The class has the key and still has its table.
  abbrev Keyed : G.Group → Str → Str → T.Table → Type 0
  Keyed g name key t =
      (get_primary_key_for_object T G g name ≡ key) × (table_for_object_type T G g name ≡ some t)

  set_own :
      (g : G.Group) (name key : Str) (t keys : T.Table)
      → G.get_table g primary_key_table_name ≡ some keys
      → IsMap (K.rows keys)
      → table_for_object_type T G g name ≡ some t
      → (g' : G.Group) × (or_else missing_table (set_primary_key_for_object T G g name key) ≡ ok g')
        × Keyed g' name key t
  unfolding table_for_object_type
  set_own g name key t keys h m table =
      let (g', done, put, got) = set_primary_key_for_object_lem T G K g keys name key name h m in
      let other = get_primary_key_for_object T G g name in
      let got' = got ∙ ap (λ b. if b then key else other) (str_eq_self name) in
      let class = table_name_for_object_type name in
      let kept = K.keeps g primary_key_table_name class (set_primary_key T G keys name key) refl in
      (
        g',
        ap (or_else missing_table) done,
        (got', ap (λ x. G.get_table x class) put ∙ kept ∙ table),
      )

  -- The key that the class gets, where the table of the keys holds each class once.
  update_primary_key_lem :
      (g : G.Group) (current target : ObjectSchema) (t keys : T.Table)
      → G.get_table g primary_key_table_name ≡ some keys
      → IsMap (K.rows keys)
      → get_primary_key_for_object T G g target.name ≡ current.primary_key
      → table_for_object_type T G g target.name ≡ some t
      → (g' : G.Group) × (update_primary_key T G g current target ≡ ok g')
        × Keyed g' target.name target.primary_key t
  unfolding update_primary_key
  update_primary_key_lem g current target t keys h m key table =
      elim (Bool-cases (empty target.primary_key)) [
        | inl e ↦
            let none_now = empty→nil target.primary_key e in
            elim (Bool-cases (empty current.primary_key)) [
              | inl d ↦
                  let none_before = empty→nil current.primary_key d in
                  rw (update_primary_key, e, d) (g, refl, (key ∙ sym none_before ∙ none_now, table))
              | inr d ↦
                  let (g', done, (got, kept)) = set_own g target.name [] t keys h m table in
                  rw (update_primary_key, e, d) (g', done, (got ∙ none_now, kept))
            ]
        | inr e ↦ elim (Bool-cases (str_eq current.primary_key target.primary_key)) [
          | inl d ↦
              rw (update_primary_key, e, d)
                (g, refl, (key ∙ str_eq→eq current.primary_key target.primary_key d, table))
          | inr d ↦
              let (g', done, (got, kept)) =
                set_own g target.name target.primary_key t keys h m table in
              rw (update_primary_key, e, d) (g', done, (got, kept))
        ]
      ]

  read_class :
      (g : G.Group) (t : T.Table) (current : ObjectSchema) (name : Str)
      → table_for_object_type T G g name ≡ some t
      → object_schema T G g name ≡ some current
      → Reads 0 (L.columns t) current.properties
        × (get_primary_key_for_object T G g name ≡ current.primary_key)
  unfolding object_schema
  read_class g t current name h o =
      let read : ObjectSchema = record {
        name = name;
        properties = table_properties T t;
        primary_key = get_primary_key_for_object T G g name;
      } in
      let step : object_schema T G g name ≡ set_primary_key_property read =
        rw (object_schema, h) refl in
      marked (L.columns t) read current (sym step ∙ o) (table_properties_lem T L t)

  -- Where a class has a table, whose class can be read and whose table of primary keys holds each class
  -- once, and every property links to a class with a table and is nullable as its type wants it: the
  -- second pass for the class ends without an exception. The class then has its primary key, and the
  -- class read from its table passes the comparison with the target, at the columns that the target's
  -- properties have been given.
  pub update_table_lem :
      (g : G.Group) (t keys : T.Table) (current target : ObjectSchema)
      → table_for_object_type T G g target.name ≡ some t
      → object_schema T G g target.name ≡ some current
      → G.get_table g primary_key_table_name ≡ some keys
      → IsMap (K.rows keys)
      → IsDistinct target.properties
      → All (λ p. fits (has_table T G g) p ≡ true) target.properties
      → length current.properties + length target.properties + 1 < npos
      → (r : G.Group × ObjectSchema) × (t' : T.Table) × (update_table T G g target ≡ ok r)
        × (table_for_object_type T G r.0 target.name ≡ some t')
        × (get_primary_key_for_object T G r.0 target.name ≡ target.primary_key)
        × ((verify_object_schema
              (record {
                name = target.name;
                properties = table_properties T t';
                primary_key = get_primary_key_for_object T G r.0 target.name;
              })
              r.1).errors
            ≡ [])
  unfolding update_table table_for_object_type
  update_table_lem g t keys current target h o k m d f w =
      let (reads, key) = read_class g t current target.name h o in
      let tables = has_table T G g in
      let (r, updated, fine) =
        update_columns-verified T L tables t target.name target.primary_key current.properties
          target.properties reads d f w in
      let name = table_name_for_object_type target.name in
      let g1 = G.put_table g name r.0 in
      let there = K.puts g name r.0 in
      let keys' = K.keeps g name primary_key_table_name r.0 refl ∙ k in
      let read = get_primary_key_for_object_lem T G K in
      let before = read g1 keys target.name keys' ∙ sym (read g keys target.name k) ∙ key in
      let (g2, done, (got, kept)) =
        update_primary_key_lem g1 current target r.0 keys keys' m before there in
      (
        (g2, record target { properties = r.1 }),
        r.0,
        rw (update_table, h, o, updated, done) refl,
        kept,
        got,
        rw got fine,
      )
