-- ===== src/Schema/PrimaryKey.antt =====
-- The constructor of ObjectSchema (Realm/ObjectStore/object_schema.cpp), which marks the primary key.
use realm_cocoa.Base.{
  ℕ, suc, ◌≡◌, refl, ap, inl, inr, Bool, true, false, List, [], ◌∷◌, Option, none, some,
  if◌then◌else◌, any, Bool-cases, arith, Str, empty, str_eq,
}
use realm_cocoa.Schema.{
  Property, ObjectSchema, property_for_name, mark_primary, set_primary_key_property,
}
use realm_cocoa.Schema.Consistency.{primaries}

-- The properties with the first one of a name made the primary key; the rest is as it was.
abbrev pub with_primary : Str → List Property → List Property
with_primary key [] = []
with_primary key (p ∷ ps) =
    let rest = with_primary key ps in
    if str_eq p.name key then record p { is_primary = true } ∷ ps else p ∷ rest

abbrev pub has_property : Str → List Property → Bool
has_property key ps = any (λ p. str_eq p.name key) ps

-- What the constructor is to give.
abbrev pub constructed : ObjectSchema → Option ObjectSchema
constructed o =
    if empty o.primary_key
    then some o
    else if has_property o.primary_key o.properties
    then some (record o { properties = with_primary o.primary_key o.properties })
    else none

abbrev Looked : Str → List Property → Option ℕ → Type 0
Looked key ps none = has_property key ps ≡ false
Looked key ps (some i) = (has_property key ps ≡ true) × (mark_primary ps i ≡ with_primary key ps)

Looked-step :
    (key : Str) (p : Property) (ps : List Property) (b : Bool) (r : Option ℕ)
    → str_eq p.name key ≡ b
    → Looked key ps r
    → Looked key
        (p ∷ ps)
        (elim b [ true ↦ some 0 | false ↦ elim r [ none ↦ none | some i ↦ some (suc i) ] ])
Looked-step key p ps true r e h = rw e (refl, refl)
Looked-step key p ps false none e h = rw (e, h) refl
Looked-step key p ps false (some i) e h = rw (e, h.0) (refl, ap (◌∷◌ p) h.1)

property_for_name-Looked :
    (key : Str) (ps : List Property) → Looked key ps (property_for_name ps key)
unfolding property_for_name
property_for_name-Looked key [] = refl
property_for_name-Looked key (p ∷ ps) =
    Looked-step key p ps (str_eq p.name key) (property_for_name ps key) refl
      (property_for_name-Looked key ps)

Looked-constructed :
    (o : ObjectSchema) (r : Option ℕ)
    → Looked o.primary_key o.properties r
    → (if empty o.primary_key then some o else elim r [
      | none ↦ none
      | some i ↦ some (record o { properties = mark_primary o.properties i })
    ])
      ≡ constructed o
Looked-constructed o none h = rw h refl
Looked-constructed o (some i) h = rw (h.0, h.1) refl

primaries-with_primary :
    (key : Str) (ps : List Property)
    → primaries ps ≡ 0
    → primaries (with_primary key ps) ≡ (if has_property key ps then 1 else 0)
primaries-with_primary key [] h = refl
primaries-with_primary key (p ∷ ps) h = elim (Bool-cases (str_eq p.name key)) [
  | inl e ↦ rw e (ground arith)
  | inr e ↦ rw e (ground (arith, primaries-with_primary key ps))
]

-- The constructor leaves properties none of which is primary alone if there is no primary key. With
-- one it makes the first property of that name primary and no other, so that there is exactly one,
-- and throws if and only if no property has the name.
pub set_primary_key_property_lem :
    (o : ObjectSchema)
    → primaries o.properties ≡ 0
    → (set_primary_key_property o ≡ constructed o)
      × (primaries (with_primary o.primary_key o.properties)
          ≡ (if has_property o.primary_key o.properties then 1 else 0))
unfolding set_primary_key_property
set_primary_key_property_lem o h = (
  Looked-constructed o (property_for_name o.properties o.primary_key)
      (property_for_name-Looked o.primary_key o.properties),
  primaries-with_primary o.primary_key o.properties h,
)
