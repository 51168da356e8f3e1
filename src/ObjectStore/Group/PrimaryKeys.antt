-- ===== src/ObjectStore/Group/PrimaryKeys.antt =====
-- ObjectStore::get_primary_key_for_object and set_primary_key_for_object
-- (Realm/ObjectStore/object_store.cpp): the table of the primary keys as a map from class to property.
use realm_cocoa.Base.{
  ℕ, ◌≡◌, refl, sym, ap, ◌∙◌, inl, inr, false, List, [], ◌∷◌, ◌++◌, some, if◌then◌else◌, length,
  length-append, get_elem?, get_elem?-inside, remove_at, update_nth, Str, str_eq, Option-cases,
  arith, ◌<◌,
}
use realm_cocoa.Base.Splits.{update_nth-behind}
use realm_cocoa.ObjectStore.Tables.{Tables}
use realm_cocoa.ObjectStore.Group.{
  Groups, primary_key_table_name, get_primary_key_for_object, row_for_object, set_primary_key,
  set_primary_key_for_object,
}
use realm_cocoa.ObjectStore.Group.KeyRows.{
  KeyRow, row_of, key_of, key_set, IsMap, row_of-found, row_of-missing, key_of-update_nth,
  key_of-append, key_of-remove_at, key_set-missing,
}

-- What the core library documents of a table with two columns of strings, and of the group.
pub record IsGroups (T : Tables) (G : Groups T) : Type 0 where
  pub rows : T.Table → List KeyRow
  pub finds : (t : T.Table) (name : Str) → G.find_first_string t 0 name ≡ row_of (rows t) name
  pub gets :
      (t : T.Table) (i : ℕ) (r : KeyRow) → get_elem? (rows t) i ≡ some r → G.get_string t 1 i ≡ r.1
  pub sets_class :
      (t : T.Table) (i : ℕ) (s : Str)
      → i < length (rows t)
      → rows (G.set_string t 0 i s) ≡ update_nth (rows t) i (λ r. (s, r.1))
  pub sets_key :
      (t : T.Table) (i : ℕ) (s : Str)
      → i < length (rows t)
      → rows (G.set_string t 1 i s) ≡ update_nth (rows t) i (λ r. (r.0, s))
  pub adds :
      (t : T.Table)
      → (rows (G.add_empty_row t).0 ≡ rows t ++ ([], []) ∷ [])
        × ((G.add_empty_row t).1 ≡ length (rows t))
  pub removes :
      (t : T.Table) (i : ℕ) → i < length (rows t) → rows (G.remove_row t i) ≡ remove_at (rows t) i
  pub puts :
      (g : G.Group) (name : Str) (t : T.Table) → G.get_table (G.put_table g name t) name ≡ some t
  pub keeps :
      (g : G.Group) (name other : Str) (t : T.Table)
      → str_eq name other ≡ false
      → G.get_table (G.put_table g name t) other ≡ G.get_table g other

module _ (T : Tables) (G : Groups T) (L : IsGroups T G) where
  pub get_primary_key_for_object_lem :
      (g : G.Group) (t : T.Table) (name : Str)
      → G.get_table g primary_key_table_name ≡ some t
      → get_primary_key_for_object T G g name ≡ key_of (L.rows t) name
  unfolding get_primary_key_for_object
  get_primary_key_for_object_lem g t name h = elim (Option-cases (row_of (L.rows t) name)) [
    | inl e ↦
        let e' = L.finds t name ∙ e in
        rw (get_primary_key_for_object, h, e') (sym (row_of-missing (L.rows t) name e))
    | inr (i, e) ↦
        let e' = L.finds t name ∙ e in
        let (r, at, key) = row_of-found (L.rows t) name i e in
        rw (get_primary_key_for_object, h, e') (L.gets t i r at ∙ sym key)
  ]

  -- A new row at the end.
  row_added :
      (t : T.Table) (name key : Str)
      → let (added, row) = G.add_empty_row t in
        L.rows (G.set_string (G.set_string added 0 row name) 1 row key)
        ≡ L.rows t ++ (name, key) ∷ []
  row_added t name key =
      let (added, row) = G.add_empty_row t in
      let named = G.set_string added 0 row name in
      let old = L.rows t in
      let (more, at) = L.adds t in
      let grown = length-append old ((name, key) ∷ []) in
      let long = ap length more ∙ length-append old (([], []) ∷ []) in
      let class =
        L.sets_class added row name (omega arith)
        ∙ ap (λ rs. update_nth rs row (λ r. (name, r.1))) more
        ∙ update_nth-behind old (([], []) ∷ []) row 0 (λ r. (name, r.1)) (omega arith) in
      let long' = ap length class ∙ length-append old ((name, []) ∷ []) in
      L.sets_key named row key (omega arith)
      ∙ ap (λ rs. update_nth rs row (λ r. (r.0, key))) class
      ∙ update_nth-behind old ((name, []) ∷ []) row 0 (λ r. (r.0, key)) (omega arith)

  key_removed :
      (t : T.Table) (name other : Str)
      → IsMap (L.rows t)
      → key_of (L.rows (set_primary_key T G t name [])) other ≡ key_set (L.rows t) name [] other
  unfolding set_primary_key
  key_removed t name other m = elim (Option-cases (row_of (L.rows t) name)) [
    | inl e ↦ rw (set_primary_key, L.finds t name ∙ e) (key_set-missing (L.rows t) name other e)
    | inr (i, e) ↦
        let (r, at, key) = row_of-found (L.rows t) name i e in
        let gone = L.removes t i (get_elem?-inside (L.rows t) i at) in
        rw (set_primary_key, L.finds t name ∙ e)
          (ap (λ rs. key_of rs other) gone ∙ key_of-remove_at (L.rows t) name other i m e)
  ]

  set_primary_key_lem :
      (t : T.Table) (name key other : Str)
      → IsMap (L.rows t)
      → key_of (L.rows (set_primary_key T G t name key)) other ≡ key_set (L.rows t) name key other
  unfolding set_primary_key row_for_object
  set_primary_key_lem t name [] other m = key_removed t name other m
  set_primary_key_lem t name (k ∷ ks) other m =
      let key = k ∷ ks in
      elim (Option-cases (row_of (L.rows t) name)) [
        | inl e ↦
            rw (set_primary_key, row_for_object, L.finds t name ∙ e)
              (ap (λ rs. key_of rs other) (row_added t name key)
                ∙ key_of-append (L.rows t) name key other e)
        | inr (i, e) ↦
            let (r, at, old) = row_of-found (L.rows t) name i e in
            let there = L.sets_key t i key (get_elem?-inside (L.rows t) i at) in
            rw (set_primary_key, row_for_object, L.finds t name ∙ e)
              (ap (λ rs. key_of rs other) there ∙ key_of-update_nth (L.rows t) name key other i e)
      ]

  -- In a file whose table of primary keys holds each class once, to set the key of a class, or to remove
  -- it with an empty one, gives that key to the class, and every other class keeps its own.
  pub set_primary_key_for_object_lem :
      (g : G.Group) (t : T.Table) (name key other : Str)
      → G.get_table g primary_key_table_name ≡ some t
      → IsMap (L.rows t)
      → (g' : G.Group) × (set_primary_key_for_object T G g name key ≡ some g')
        × (g' ≡ G.put_table g primary_key_table_name (set_primary_key T G t name key))
        × (get_primary_key_for_object T G g' other
            ≡ (if str_eq name other then key else get_primary_key_for_object T G g other))
  unfolding set_primary_key_for_object
  set_primary_key_for_object_lem g t name key other h m =
      let t' = set_primary_key T G t name key in
      let g' = G.put_table g primary_key_table_name t' in
      let before = get_primary_key_for_object_lem g t other h in
      let after = get_primary_key_for_object_lem g' t' other (L.puts g primary_key_table_name t') in
      rw (set_primary_key_for_object, h)
        (
          g',
          refl,
          refl,
          after
              ∙ set_primary_key_lem t name key other m
              ∙ ap (λ k. if str_eq name other then key else k) (sym before),
        )
