-- ===== src/Schema.antt =====
-- Realm/ObjectStore/schema.cpp, object_schema.cpp and property.hpp: the classes of a Realm and their
-- properties, looked up by name, and the check of their consistency.
pub mod Find
pub mod Consistency
pub mod PrimaryKey
use realm_cocoa.Base.{
  ℕ, Bool, true, false, not, ◌&&◌, ◌||◌, List, [], ◌∷◌, ◌++◌, Option, none, some, ◌==◌,
  if◌then◌else◌, length, get_elem?, Str, empty, str_less, str_eq,
}
use realm_cocoa.Base.Search.{lower_bound}

pub data PropertyType : Type 0 where
  type_int type_bool type_float type_double type_string type_data : PropertyType
  type_any type_date type_object type_array : PropertyType

-- The values of the enumeration.
abbrev pub code : PropertyType → ℕ
code type_int = 0
code type_bool = 1
code type_float = 9
code type_double = 10
code type_string = 2
code type_data = 4
code type_any = 6
code type_date = 7
code type_object = 12
code type_array = 13

abbrev pub same_type : PropertyType → PropertyType → Bool
same_type a b = code a == code b

pub record Property : Type 0 where
  pub name : Str
  pub kind : PropertyType
  pub object_type : Str
  pub is_primary : Bool
  pub is_indexed : Bool
  pub is_nullable : Bool
  pub table_column : ℕ

unfoldable pub is_indexable : Property → Bool
is_indexable p =
    same_type p.kind type_int
    || same_type p.kind type_bool
    || same_type p.kind type_string
    || same_type p.kind type_date

unfoldable pub requires_index : Property → Bool
requires_index p = p.is_primary || p.is_indexed

pub record ObjectSchema : Type 0 where
  pub name : Str
  pub properties : List Property
  pub primary_key : Str

-- compare_by_name
abbrev pub compare_by_name : ObjectSchema → ObjectSchema → Bool
compare_by_name lft rgt = str_less lft.name rgt.name

abbrev pub Schema : Type 0
Schema = List ObjectSchema

-- std::sort by name, as a sort by insertion. Which of two classes of one name comes first is left
-- open by the source.
abbrev pub insert_by_name : ObjectSchema → Schema → Schema
insert_by_name o [] = o ∷ []
insert_by_name o (x ∷ xs) =
    let rest = insert_by_name o xs in if compare_by_name x o then x ∷ rest else o ∷ x ∷ xs

-- The constructor.
unfoldable pub schema : List ObjectSchema → Schema
schema [] = []
schema (o ∷ os) = insert_by_name o (schema os)

-- The position of the class of a name; the length stands for end().
unfoldable pub find : Schema → Str → ℕ
unfolding lower_bound
find s name =
    let it = lower_bound (λ o. str_less o.name name) s in
    elim (get_elem? s it) [ none ↦ it | some o ↦ if not (str_eq o.name name) then length s else it ]

-- The exceptions that `validate` collects.
pub data Invalid : Type 0 where
  missing_object_type invalid_nullability not_indexable : Str → Property → Invalid
  duplicate_primary_keys : Str → Invalid

-- exceptions.emplace_back, under its condition
abbrev pub report : Bool → Invalid → List Invalid
report b e = if b then e ∷ [] else []

unfoldable pub links_nowhere : Schema → Property → Bool
unfolding find
links_nowhere s p = not (empty p.object_type) && find s p.object_type == length s

unfoldable pub wrong_nullability : Property → Bool
wrong_nullability p =
    if p.is_nullable
    then same_type p.kind type_array || same_type p.kind type_any
    else same_type p.kind type_object

-- The inner loop; `primary` says whether a primary key was seen.
unfoldable pub check_properties : Schema → Str → Bool → List Property → List Invalid
unfolding links_nowhere wrong_nullability is_indexable
check_properties s name primary [] = []
check_properties s name primary (p ∷ ps) =
    report (links_nowhere s p) (missing_object_type name p)
    ++ report (wrong_nullability p) (invalid_nullability name p)
    ++ report (p.is_primary && primary) (duplicate_primary_keys name)
    ++ report (p.is_indexed && not (is_indexable p)) (not_indexable name p)
    ++ check_properties s name (primary || p.is_primary) ps

unfoldable pub check_objects : Schema → List ObjectSchema → List Invalid
unfolding check_properties
check_objects s [] = []
check_objects s (o ∷ os) = check_properties s o.name false o.properties ++ check_objects s os

-- What `validate` throws, if it throws.
unfoldable pub validate : Schema → Option (List Invalid)
unfolding check_objects
validate s = elim (check_objects s s) [ [] ↦ none | e ∷ es ↦ some (e ∷ es) ]

-- property_for_name, as the position of the property.
unfoldable pub property_for_name : List Property → Str → Option ℕ
property_for_name [] name = none
property_for_name (p ∷ ps) name = elim (str_eq p.name name) [
  | true ↦ some 0
  | false ↦ elim (property_for_name ps name) [ none ↦ none | some i ↦ some (ℕ.suc i) ]
]

-- primary_key_prop->is_primary = true
abbrev pub mark_primary : List Property → ℕ → List Property
mark_primary [] i = []
mark_primary (p ∷ ps) ℕ.zero = record p { is_primary = true } ∷ ps
mark_primary (p ∷ ps) (ℕ.suc i) = p ∷ mark_primary ps i

-- set_primary_key_property; `none` for an InvalidPrimaryKeyException.
unfoldable pub set_primary_key_property : ObjectSchema → Option ObjectSchema
unfolding property_for_name
set_primary_key_property o =
    if empty o.primary_key then some o else elim (property_for_name o.properties o.primary_key) [
      | none ↦ none
      | some i ↦ some (record o { properties = mark_primary o.properties i })
    ]
