-- ===== src/ObjectStore/Migration/Schemas.antt =====
-- ObjectStore::verify_schema (Realm/ObjectStore/object_store.cpp): the classes of a target against those of
-- a file.
use realm_cocoa.Base.{
  ◌≡◌, refl, ◌↔◌, ◌⊎◌, inl, inr, Bool, true, false, List, [], ◌∷◌, none, some, if◌then◌else◌,
  get_elem?, All, Option-cases,
}
use realm_cocoa.Schema.{ObjectSchema, Schema, find}
use realm_cocoa.ObjectStore.{Mismatch, verify_object_schema}
use realm_cocoa.ObjectStore.Migration.{
  SchemaFault, ok, error, no_table, schema_mismatch, faults_of, compare_schemas, verify_schema,
}

-- The file's class of the name passes the comparison, or there is none and none is needed.
abbrev pub Passes : Schema → Bool → ObjectSchema → Type 0
Passes actual allow_missing_tables o = elim (get_elem? actual (find actual o.name)) [
  | none ↦ allow_missing_tables ≡ true
  | some table ↦ (verify_object_schema table o).errors ≡ []
]

List-cases : {A : Type 0} (xs : List A) → (xs ≡ []) ⊎ ((x : A) × (ys : List A) × (xs ≡ x ∷ ys))
List-cases [] = inl refl
List-cases (x ∷ xs) = inr (x, xs, refl)

faults_of-nil :
    (es : List Mismatch) (rest : List SchemaFault)
    → (faults_of es rest ≡ []) ↔ ((es ≡ []) × (rest ≡ []))
faults_of-nil [] rest = (λ h. (refl, h), λ h. h.1)
faults_of-nil (e ∷ es) rest = (λ h. cc, λ h. let f = h.0 in cc)

compare_schemas-faults :
    (actual : Schema) (allow_missing_tables : Bool) (target : Schema)
    → ((compare_schemas actual allow_missing_tables target).0 ≡ [])
      ↔ All (Passes actual allow_missing_tables) target
unfolding compare_schemas
compare_schemas-faults actual allow [] = (λ h. tt, λ h. refl)
compare_schemas-faults actual allow (o ∷ os) =
    let ih = compare_schemas-faults actual allow os in
    elim (Option-cases (get_elem? actual (find actual o.name))) [
      | inl e ↦ rw (compare_schemas, Passes, e) (without allow ih)
      | inr (table, e) ↦
          let both =
            faults_of-nil (verify_object_schema table o).errors
              (compare_schemas actual allow os).0 in
          rw (compare_schemas, Passes, e)
            (λ h. let k = both.0 h in (k.0, ih.0 k.1), λ h. both.1 (h.0, ih.1 h.1))
    ]
  where
    without :
        (b : Bool) {X : Type 0} {fs : List SchemaFault}
        → (fs ≡ []) ↔ X
        → ((if b then fs else no_table o.name ∷ fs) ≡ []) ↔ ((b ≡ true) × X)
    without true h = (λ e. (refl, h.0 e), λ k. h.1 k.1)
    without false h = (λ e. cc, λ k. let f = k.0 in cc)

-- verify_schema throws nothing if and only if each class of the target passes the comparison with the
-- file's class of its name, or has none and is allowed to be missing.
pub verify_schema_lem :
    (actual target : Schema) (allow_missing_tables : Bool)
    → ((s : Schema) × (verify_schema actual target allow_missing_tables ≡ ok s))
      ↔ All (Passes actual allow_missing_tables) target
unfolding verify_schema
verify_schema_lem actual target allow =
    let same = compare_schemas-faults actual allow target in
    let (faults, aligned) = compare_schemas actual allow target in
    elim (List-cases faults) [
      | inl e ↦ (λ h. same.0 e, λ h. (aligned, rw (verify_schema, e) refl))
      | inr (f, fs, e) ↦ (
        λ h. absurd (
            let stops : verify_schema actual target allow ≡ error (schema_mismatch (f ∷ fs)) =
              rw (verify_schema, e) refl in
            let goes = h.1 in cc),
        λ h. absurd (let none_found = same.1 h in cc),
      )
    ]
