-- ===== src/ObjectStore/Update/Optional.antt =====
-- The columns that change from required to optional (ObjectStore::create_tables,
-- Realm/ObjectStore/object_store.cpp).
use realm_cocoa.Base.{
  ℕ, zero, suc, ◌+◌, ◌≡◌, refl, sym, ap, ◌∙◌, subst, inl, inr, true, false, List, [], ◌∷◌, ◌++◌,
  if◌then◌else◌, length, length-append, get_elem?, remove_at, insert_nth, str_eq, str_eq→eq,
  Bool-cases, Option-cases, arith,
}
use realm_cocoa.Base.Splits.{
  insert_nth-behind, remove_at-behind, get_elem?-behind, get_elem?-All, append_assoc,
}
use realm_cocoa.Schema.{Property, same_type}
use realm_cocoa.ObjectStore.{property_has_changed, first_named, set_column}
use realm_cocoa.ObjectStore.Tables.{Tables, IsTables, Column, new_column, repeat}
use realm_cocoa.ObjectStore.Update.{
  is_copied, property_can_be_migrated_to_nullable, at_column, copy_property_values,
  change_to_optional, make_optional,
}
use realm_cocoa.ObjectStore.Update.Copy.{copy_rows_lem}
use realm_cocoa.ObjectStore.Update.Fates.{
  Fate, removed, unchanged, made_optional, fate, fate_of, fate-set_column, same_type→eq, uncolumned,
  uncolumned-set_column, IsColumnOf, Reads,
}

length-repeat : {A : Type 0} (n : ℕ) (a : A) → length (repeat n a) ≡ n
length-repeat zero a = refl
length-repeat (suc n) a = omega (arith, length-repeat n a)

pub migrated :
    (c t : Property)
    → property_can_be_migrated_to_nullable c t ≡ true
    → (c.kind ≡ t.kind) × (c.is_nullable ≡ false) × (t.is_nullable ≡ true) × (t.name ≡ c.name)
unfolding property_can_be_migrated_to_nullable
migrated c t h =
    let a : same_type c.kind t.kind ≡ true = ground arith in
    let b : c.is_nullable ≡ false = ground arith in
    let d : t.is_nullable ≡ true = ground arith in
    let e : str_eq t.name c.name ≡ true = ground arith in
    (same_type→eq c.kind t.kind a, b, d, str_eq→eq t.name c.name e)

module _ (T : Tables) (L : IsTables T) where
  abbrev pub Col : Type 0
  Col = Column T.Value

  -- A column made optional keeps its values where its type is one that is copied.
  abbrev pub optional : Col → Col
  optional c = new_column c.kind c.name true [] (
      if is_copied c.kind then c.values else repeat (length c.values) (L.default_value c.kind true))

  abbrev pub adapted : Fate → Col → Col
  adapted removed c = c
  adapted unchanged c = c
  adapted made_optional c = optional c

  abbrev pub adapt_all : List Property → List Property → List Col → List Col
  adapt_all target [] cols = cols
  adapt_all target (c ∷ cs) [] = []
  adapt_all target (c ∷ cs) (col ∷ cols) = adapted (fate target c) col ∷ adapt_all target cs cols

  copied :
      (t : T.Table) (pre post : List Col) (col : Col) (source destination : Property) (d : T.Value)
      → destination.kind ≡ col.kind
      → source.table_column ≡ length pre + 1
      → destination.table_column ≡ length pre
      → L.columns t ≡ pre ++ new_column col.kind col.name true [] (repeat (T.size t) d) ∷ col ∷ post
      → length col.values ≡ T.size t
      → let t' = copy_property_values T source destination t in
        (L.columns t'
          ≡ pre
            ++ new_column col.kind col.name true []
                (if is_copied col.kind then col.values else repeat (length col.values) d)
              ∷ col
              ∷ post)
        × (T.size t' ≡ T.size t)
  unfolding copy_property_values
  copied t pre post col source destination d kind from to h full =
      let new = new_column col.kind col.name true [] (repeat (T.size t) d) in
      elim (Bool-cases (is_copied col.kind)) [
        | inl e ↦
            rw (kind, from, to, e)
              (copy_rows_lem T L (T.size t) t pre post col new [] (repeat (T.size t) d) col.values
                refl h (length-repeat (T.size t) d) full)
        | inr e ↦ rw (kind, e, full) (h, refl)
      ]

  change_to_optional_lem :
      (t : T.Table) (pre post : List Col) (col : Col) (c p : Property)
      → L.columns t ≡ pre ++ col ∷ post
      → IsColumnOf c col
      → c.table_column ≡ length pre
      → property_can_be_migrated_to_nullable c p ≡ true
      → let t' = change_to_optional T t c p in
        (L.columns t' ≡ pre ++ optional col ∷ post) × (T.size t' ≡ T.size t)
  unfolding change_to_optional
  change_to_optional_lem t pre post col c p h r k m =
      let (kinds, required, nullable, names) = migrated c p m in
      let kind : p.kind ≡ col.kind = sym kinds ∙ sym r.1 in
      let name : p.name ≡ col.name = names ∙ sym r.0 in
      let column = c.table_column in
      let start = T.insert_column t column p.kind p.name p.is_nullable in
      let value = L.default_value p.kind p.is_nullable in
      let new = new_column p.kind p.name p.is_nullable [] (repeat (T.size t) value) in
      let default = L.default_value col.kind true in
      let new' = new_column col.kind col.name true [] (repeat (T.size start) default) in
      let long : length (L.columns t) ≡ length pre + length (col ∷ post) =
        ap length h ∙ length-append pre (col ∷ post) in
      let (inserted, kept) = L.inserted t column p.kind p.name p.is_nullable (omega arith) in
      let defaults : value ≡ default = cc in
      let same : new ≡ new' = cc in
      let at_start : L.columns start ≡ pre ++ new' ∷ col ∷ post =
        inserted
        ∙ ap (λ cs. insert_nth cs column new) h
        ∙ insert_nth-behind pre (col ∷ post) column 0 new (omega arith)
        ∙ ap (λ x. pre ++ x ∷ col ∷ post) same in
      let full =
        get_elem?-All (λ x. length x.values ≡ T.size t) (L.columns t) column col (L.filled t)
          (ap (λ cs. get_elem? cs column) h
            ∙ get_elem?-behind pre (col ∷ post) column 0 (omega arith)) in
      let source = at_column c (column + 1) in
      let destination = at_column p column in
      let (copies, kept') =
        copied start pre post col source destination default kind (omega arith) k at_start
          (full ∙ sym kept) in
      let middle = copy_property_values T source destination start in
      let long' : length (L.columns middle) ≡ length pre + length (optional col ∷ col ∷ post) =
        ap length copies ∙ length-append pre (optional col ∷ col ∷ post) in
      let (last, kept'') = L.removed middle (column + 1) (omega arith) in
      (
        last
            ∙ ap (λ cs. remove_at cs (column + 1)) copies
            ∙ remove_at-behind pre (optional col ∷ col ∷ post) (column + 1) 1 (omega arith),
        kept'' (omega arith) ∙ kept' ∙ kept,
      )

  adapt_all-fates :
      (a b cs : List Property) (cols : List Col)
      → ((c : Property) → fate a c ≡ fate b c)
      → adapt_all a cs cols ≡ adapt_all b cs cols
  adapt_all-fates a b [] cols h = refl
  adapt_all-fates a b (c ∷ cs) [] h = refl
  adapt_all-fates a b (c ∷ cs) (col ∷ cols) h =
      let ih = adapt_all-fates a b cs cols h in
      ap (λ f. adapted f col ∷ adapt_all a cs cols) (h c) ∙ ap (◌∷◌ (adapted (fate b c) col)) ih

  pub not_adapted :
      (c p : Property) (col : Col)
      → property_can_be_migrated_to_nullable c p ≡ false
      → adapted (fate_of c p) col ≡ col
  unfolding fate_of
  not_adapted c p col m = elim (Bool-cases (property_has_changed c p)) [
    | inl h ↦ rw (m, h) refl
    | inr h ↦ rw (m, h) refl
  ]

  pub is_adapted :
      (c p : Property) (col : Col)
      → property_can_be_migrated_to_nullable c p ≡ true
      → adapted (fate_of c p) col ≡ optional col
  unfolding fate_of
  is_adapted c p col m = rw m refl

  -- What the first loop makes of a table and of a class.
  abbrev pub Adapts :
      List Col
      → List Property
      → List Col
      → T.Table
      → List Property
      → T.Table × List Property
      → Type 0
  Adapts pre cs cols t target r =
      (L.columns r.0 ≡ pre ++ adapt_all target cs cols)
      × (T.size r.0 ≡ T.size t)
      × ((c : Property) → fate r.1 c ≡ fate target c)
      × (uncolumned r.1 ≡ uncolumned target)

  -- The first loop, over a table that starts with columns that are done.
  pub make_optional_lem :
      (t : T.Table) (pre cols : List Col) (cs target : List Property)
      → L.columns t ≡ pre ++ cols
      → Reads (length pre) cols cs
      → Adapts pre cs cols t target (make_optional T t cs target)
  unfolding make_optional
  make_optional_lem t pre cols [] target h r = (h, refl, λ c. refl, refl)
  make_optional_lem t pre [] (c ∷ cs) target h r = cc
  make_optional_lem t pre (col ∷ cols) (c ∷ cs) target h r =
      let step : (x : Col) (t' : T.Table)
          → L.columns t' ≡ pre ++ x ∷ cols
          → (target' : List Property)
          → Adapts (pre ++ x ∷ []) cs cols t' target' (make_optional T t' cs target') =
        λ x t' h' target'.
          make_optional_lem t' (pre ++ x ∷ []) cols cs target'
            (h' ∙ sym (append_assoc pre (x ∷ []) cols))
            (subst (λ k. Reads k cols cs) (sym (length-append pre (x ∷ []))) r.2) in
      let skip : Adapts (pre ++ col ∷ []) cs cols t target (make_optional T t cs target) =
        step col t h target in
      let kept = append_assoc pre (col ∷ []) (adapt_all target cs cols) in
      elim (Option-cases (first_named target c.name)) [
        | inl e ↦ rw (e, make_optional, fate) (skip.0 ∙ kept, skip.1, skip.2, skip.3)
        | inr (p, e) ↦ elim (Bool-cases (property_can_be_migrated_to_nullable c p)) [
          | inl m ↦
              let (changed, size) = change_to_optional_lem t pre cols col c p h r.0 r.1 m in
              let t' = change_to_optional T t c p in
              let target' = set_column target c.name c.table_column in
              let same = fate-set_column target c.name c.table_column in
              let go = step (optional col) t' changed target' in
              let there =
                go.0
                ∙ append_assoc pre (optional col ∷ []) (adapt_all target' cs cols)
                ∙ ap (λ xs. pre ++ optional col ∷ xs)
                    (adapt_all-fates target' target cs cols same) in
              rw (e, m, make_optional, fate)
                (rw (is_adapted c p col m) (
                  there,
                  go.1 ∙ size,
                  λ x. go.2 x ∙ same x,
                  go.3 ∙ uncolumned-set_column target c.name c.table_column,
                ))
          | inr m ↦
              rw (e, m, make_optional, fate)
                (rw (not_adapted c p col m) (skip.0 ∙ kept, skip.1, skip.2, skip.3))
        ]
      ]
