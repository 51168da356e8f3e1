-- ===== src/ObjectStore/Columns.antt =====
-- The columns that ObjectStore::verify_object_schema (Realm/ObjectStore/object_store.cpp) gives to the
-- properties of the target.
use realm_cocoa.Base.{
  ℕ, ◌≡◌, refl, inl, inr, true, false, List, [], ◌∷◌, map, if◌then◌else◌, Str, str_eq, str_eq→eq,
  str_eq-swap, Bool-cases, Option-cases, arith, subst, sym, ap, ◌∙◌,
}
use realm_cocoa.Schema.{Property, ObjectSchema}
use realm_cocoa.ObjectStore.{
  mismatched_properties, property_has_changed, first_named, set_column, with_error, align,
  verify_object_schema,
}
use realm_cocoa.ObjectStore.Verify.{
  has_name, align-missing, align-found, align-errors, verify_object_schema-matches,
}

-- No two properties have the same name.
abbrev pub IsDistinct : List Property → Type 0
IsDistinct [] = Unit
IsDistinct (p ∷ ps) = (has_name ps p.name ≡ false) × IsDistinct ps

-- The property with the column of the first of `cs` that has its name, if one has.
abbrev pub aligned_to : List Property → Property → Property
aligned_to [] p = p
aligned_to (c ∷ cs) p =
    let rest = aligned_to cs p in
    if str_eq c.name p.name then record p { table_column = c.table_column } else rest

aligned_to-other :
    (cs : List Property) (p : Property) → has_name cs p.name ≡ false → aligned_to cs p ≡ p
aligned_to-other [] p h = refl
aligned_to-other (c ∷ cs) p h = ground (arith, aligned_to-other cs p)

-- Properties of other names do not see `c`.
map-aligned_to-skip :
    (c : Property) (cs ps : List Property)
    → has_name ps c.name ≡ false
    → map (aligned_to cs) ps ≡ map (aligned_to (c ∷ cs)) ps
map-aligned_to-skip c cs [] h = refl
map-aligned_to-skip c cs (p ∷ ps) h = elim (Bool-cases (str_eq p.name c.name)) [
  | inl e ↦ absurd (ground arith)
  | inr e ↦
      let e' : str_eq c.name p.name ≡ false = str_eq-swap c.name p.name ∙ e in
      let h' : has_name ps c.name ≡ false = ground arith in
      rw e' (ap (◌∷◌ (aligned_to cs p)) (map-aligned_to-skip c cs ps h'))
]

map-set_column :
    (c : Property) (cs ps : List Property)
    → has_name cs c.name ≡ false
    → IsDistinct ps
    → map (aligned_to cs) (set_column ps c.name c.table_column) ≡ map (aligned_to (c ∷ cs)) ps
map-set_column c cs [] h d = refl
map-set_column c cs (p ∷ ps) h d = elim (Bool-cases (str_eq p.name c.name)) [
  | inl e ↦
      let e' : str_eq c.name p.name ≡ true = str_eq-swap c.name p.name ∙ e in
      let same : p.name ≡ c.name = str_eq→eq p.name c.name e in
      let moved : Property = record p { table_column = c.table_column } in
      let others = map-aligned_to-skip c cs ps (subst (λ n. has_name ps n ≡ false) same d.0) in
      let unnamed = subst (λ n. has_name cs n ≡ false) (sym same) h in
      rw (e, e', aligned_to-other cs moved unnamed) (ap (◌∷◌ moved) others)
  | inr e ↦
      let e' : str_eq c.name p.name ≡ false = str_eq-swap c.name p.name ∙ e in
      rw (e, e') (ap (◌∷◌ (aligned_to cs p)) (map-set_column c cs ps h d.1))
]

has_name-set_column :
    (ps : List Property) (name : Str) (column : ℕ) (n : Str)
    → has_name (set_column ps name column) n ≡ has_name ps n
has_name-set_column [] name column n = refl
has_name-set_column (p ∷ ps) name column n = elim (Bool-cases (str_eq p.name name)) [
  | inl e ↦ rw e refl
  | inr e ↦ rw (e, has_name-set_column ps name column n) refl
]

IsDistinct-set_column :
    (ps : List Property) (name : Str) (column : ℕ)
    → IsDistinct ps
    → IsDistinct (set_column ps name column)
IsDistinct-set_column [] name column d = tt
IsDistinct-set_column (p ∷ ps) name column d = elim (Bool-cases (str_eq p.name name)) [
  | inl e ↦ rw e d
  | inr e ↦
      rw e
        (has_name-set_column ps name column p.name ∙ d.0, IsDistinct-set_column ps name column d.1)
]

map-id : (ps : List Property) → map (aligned_to []) ps ≡ ps
map-id [] = refl
map-id (p ∷ ps) = ap (◌∷◌ p) (map-id ps)

align-columns :
    (name : Str) (cs target : List Property)
    → IsDistinct cs
    → IsDistinct target
    → (align name cs target).errors ≡ []
    → (align name cs target).properties ≡ map (aligned_to cs) target
align-columns name [] target d t h = unfold align in sym (map-id target)
align-columns name (c ∷ cs) target d t h = elim (Option-cases (first_named target c.name)) [
  | inl e ↦ let h' = subst (λ a. a.errors ≡ []) (align-missing name c cs target e) h in cc
  | inr (p, e) ↦
      let found = align-found name c cs target p e in
      elim (Bool-cases (property_has_changed c p)) [
        | inl b ↦
            let go =
              found
              ∙ ap
                  (λ x.
                    if x
                    then with_error (mismatched_properties name c p) (align name cs target)
                    else align name cs (set_column target c.name c.table_column))
                  b in
            let h' = subst (λ a. a.errors ≡ []) go h in cc
        | inr b ↦
            let moved = set_column target c.name c.table_column in
            let go =
              found
              ∙ ap
                  (λ x.
                    if x
                    then with_error (mismatched_properties name c p) (align name cs target)
                    else align name cs moved)
                  b in
            ap (λ a. a.properties) go
            ∙ align-columns name cs moved d.1 (IsDistinct-set_column target c.name c.table_column t)
                (subst (λ a. a.errors ≡ []) go h)
            ∙ map-set_column c cs target d.0 t
      ]
]

-- Where neither class has two properties of one name and the comparison finds no fault, each property
-- of the target has taken the column of the table's property of its name, and nothing else has
-- changed.
pub verify_object_schema-columns :
    (table target : ObjectSchema)
    → IsDistinct table.properties
    → IsDistinct target.properties
    → (verify_object_schema table target).errors ≡ []
    → (verify_object_schema table target).properties
      ≡ map (aligned_to table.properties) target.properties
unfolding verify_object_schema
verify_object_schema-columns table target d t h =
    align-columns table.name table.properties target.properties d t (
      (align-errors table.name table.properties target.properties).1
        ((verify_object_schema-matches table target).0 h).0)
