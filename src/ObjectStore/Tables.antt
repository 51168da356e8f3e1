-- ===== src/ObjectStore/Tables.antt =====
-- The tables of the core library, as Realm/ObjectStore/object_store.cpp and object_schema.cpp use them:
-- an interface, and what the two files rely on.
use realm_cocoa.Base.{
  ℕ, ◌≤◌, ◌<◌, ◌≡◌, Bool, false, List, [], ◌∷◌, ◌++◌, some, ◌==◌, if◌then◌else◌, length, get_elem?,
  insert_nth, remove_at, update_nth, set, All, Str,
}
use realm_cocoa.Schema.{PropertyType}

-- class_
abbrev pub table_prefix : Str
table_prefix = 99 ∷ 108 ∷ 97 ∷ 115 ∷ 115 ∷ 95 ∷ []

abbrev pub table_name_for_object_type : Str → Str
table_name_for_object_type object_type = table_prefix ++ object_type

-- What is behind the prefix, or the null string where the name does not begin with it.
abbrev pub behind : Str → Str → Str
behind [] name = name
behind (c ∷ cs) [] = []
behind (c ∷ cs) (x ∷ xs) = let rest = behind cs xs in if c == x then rest else []

abbrev pub object_type_for_table_name : Str → Str
object_type_for_table_name name = behind table_prefix name

-- The operations of a Table. A type of columns stands for the one of properties, as the source casts
-- the one to the other; a link target is given by its name. `get_value` and `set_value` are the
-- getter and the setter of a type: get_int, set_int and so on.
pub record Tables : Type 1 where
  pub Table : Type 0
  pub Value : Type 0
  pub get_column_count : Table → ℕ
  pub get_column_name : Table → ℕ → Str
  pub get_column_type : Table → ℕ → PropertyType
  pub has_search_index : Table → ℕ → Bool
  pub is_nullable : Table → ℕ → Bool
  pub get_link_target : Table → ℕ → Str
  pub size : Table → ℕ
  pub insert_column : Table → ℕ → PropertyType → Str → Bool → Table
  pub add_column : Table → PropertyType → Str → Bool → Table × ℕ
  pub add_column_link : Table → PropertyType → Str → Str → Table × ℕ
  pub remove_column : Table → ℕ → Table
  pub get_value : PropertyType → Table → ℕ → ℕ → Value
  pub set_value : PropertyType → Table → ℕ → ℕ → Value → Table

-- A column of a table with its values, one for each row.
pub record Column (V : Type 0) : Type 0 where
  pub name : Str
  pub kind : PropertyType
  pub is_nullable : Bool
  pub link_target : Str
  pub is_indexed : Bool
  pub values : List V

abbrev pub repeat {ℓ} : {A : Type ℓ} → ℕ → A → List A
repeat ℕ.zero a = []
repeat (ℕ.suc n) a = a ∷ repeat n a

abbrev pub new_column : {V : Type 0} → PropertyType → Str → Bool → Str → List V → Column V
new_column k n b target vs = record {
  name = n;
  kind = k;
  is_nullable = b;
  link_target = target;
  is_indexed = false;
  values = vs;
}

abbrev pub with_values : {V : Type 0} → Column V → List V → Column V
with_values c vs = record c { values = vs }

-- What the core library documents of its tables: a table is a sequence of columns with as many values
-- each as it has rows, and keeps its rows unless its only column is removed. A new column stands where
-- it is inserted, or last, and holds the default value of its type.
pub record IsTables (T : Tables) : Type 0 where
  pub columns : T.Table → List (Column T.Value)
  pub default_value : PropertyType → Bool → T.Value
  pub count : (t : T.Table) → T.get_column_count t ≡ length (columns t)
  pub reads :
      (t : T.Table) (i : ℕ) (c : Column T.Value)
      → get_elem? (columns t) i ≡ some c
      → (T.get_column_name t i ≡ c.name)
        × (T.get_column_type t i ≡ c.kind)
        × (T.has_search_index t i ≡ c.is_indexed)
        × (T.is_nullable t i ≡ c.is_nullable)
        × (T.get_link_target t i ≡ c.link_target)
  pub filled : (t : T.Table) → All (λ c. length c.values ≡ T.size t) (columns t)
  pub inserted :
      (t : T.Table) (i : ℕ) (k : PropertyType) (n : Str) (b : Bool)
      → i ≤ length (columns t)
      → (columns (T.insert_column t i k n b)
          ≡ insert_nth (columns t) i (new_column k n b [] (repeat (T.size t) (default_value k b))))
        × (T.size (T.insert_column t i k n b) ≡ T.size t)
  pub added :
      (t : T.Table) (k : PropertyType) (n : Str) (b : Bool)
      → (columns (T.add_column t k n b).0
          ≡ columns t ++ new_column k n b [] (repeat (T.size t) (default_value k b)) ∷ [])
        × ((T.add_column t k n b).1 ≡ length (columns t))
        × (T.size (T.add_column t k n b).0 ≡ T.size t)
  pub linked :
      (t : T.Table) (k : PropertyType) (n target : Str)
      → (columns (T.add_column_link t k n target).0
          ≡ columns t
            ++ new_column k n false target (repeat (T.size t) (default_value k false)) ∷ [])
        × ((T.add_column_link t k n target).1 ≡ length (columns t))
        × (T.size (T.add_column_link t k n target).0 ≡ T.size t)
  pub removed :
      (t : T.Table) (i : ℕ)
      → i < length (columns t)
      → (columns (T.remove_column t i) ≡ remove_at (columns t) i)
        × (1 < length (columns t) → T.size (T.remove_column t i) ≡ T.size t)
  pub gets :
      (t : T.Table) (i row : ℕ) (c : Column T.Value) (v : T.Value)
      → get_elem? (columns t) i ≡ some c
      → get_elem? c.values row ≡ some v
      → T.get_value c.kind t i row ≡ v
  pub sets :
      (t : T.Table) (i row : ℕ) (c : Column T.Value) (v : T.Value)
      → get_elem? (columns t) i ≡ some c
      → row < T.size t
      → (columns (T.set_value c.kind t i row v)
          ≡ update_nth (columns t) i (λ x. with_values x (set x.values row v)))
        × (T.size (T.set_value c.kind t i row v) ≡ T.size t)
