-- ===== src/Tests/Tables.antt =====
-- Tables whose columns give a number for each row.
use realm_cocoa.Base.{
  ℕ, zero, suc, ◌≡◌, refl, ap, ◌∙◌, Bool, false, List, [], ◌∷◌, ◌++◌, map, none, some,
  if◌then◌else◌, length, get_elem?, insert_nth, remove_at, update_nth, set, All, Str, ◌==◌, arith,
  ◌<◌, ◌≤◌,
}
use realm_cocoa.Schema.{PropertyType, type_int}
use realm_cocoa.ObjectStore.Tables.{Tables, IsTables, Column, new_column, repeat, with_values}

abbrev pub tabulate : ℕ → (ℕ → ℕ) → List ℕ
tabulate zero f = []
tabulate (suc n) f = f 0 ∷ tabulate n (λ i. f (suc i))

length-tabulate : (n : ℕ) (f : ℕ → ℕ) → length (tabulate n f) ≡ n
length-tabulate zero f = refl
length-tabulate (suc n) f = omega (arith, length-tabulate n (λ i. f (suc i)))

tabulate-ext : (n : ℕ) (f g : ℕ → ℕ) → ((i : ℕ) → f i ≡ g i) → tabulate n f ≡ tabulate n g
tabulate-ext zero f g h = refl
tabulate-ext (suc n) f g h =
    ap (λ x. x ∷ tabulate n (λ i. f (suc i))) (h 0)
    ∙ ap (◌∷◌ (g 0)) (tabulate-ext n (λ i. f (suc i)) (λ i. g (suc i)) (λ i. h (suc i)))

repeat-tabulate : (n d : ℕ) → tabulate n (λ i. d) ≡ repeat n d
repeat-tabulate zero d = refl
repeat-tabulate (suc n) d = ap (◌∷◌ d) (repeat-tabulate n d)

get_elem?-tabulate : (n : ℕ) (f : ℕ → ℕ) (i v : ℕ) → get_elem? (tabulate n f) i ≡ some v → f i ≡ v
get_elem?-tabulate zero f i v h = cc
get_elem?-tabulate (suc n) f zero v h = cc
get_elem?-tabulate (suc n) f (suc i) v h = get_elem?-tabulate n (λ j. f (suc j)) i v h

abbrev pub written : (ℕ → ℕ) → ℕ → ℕ → ℕ → ℕ
written f row v i = if i == row then v else f i

set-tabulate :
    (n : ℕ) (f : ℕ → ℕ) (row v : ℕ)
    → row < n
    → tabulate n (written f row v) ≡ set (tabulate n f) row v
set-tabulate zero f row v h = absurd (omega arith)
set-tabulate (suc n) f zero v h =
    ap (◌∷◌ v) (tabulate-ext n (λ i. written f 0 v (suc i)) (λ i. f (suc i)) (λ i. ground arith))
set-tabulate (suc n) f (suc row) v h =
    let kept : written f (suc row) v 0 ≡ f 0 = ground arith in
    ap (λ x. x ∷ tabulate n (λ i. written f (suc row) v (suc i))) kept
    ∙ ap (◌∷◌ (f 0)) (
        tabulate-ext n (λ i. written f (suc row) v (suc i)) (written (λ i. f (suc i)) row v)
          (λ i. ground arith)
        ∙ set-tabulate n (λ i. f (suc i)) row v (omega arith))

pub record Cells : Type 0 where
  pub name : Str
  pub kind : PropertyType
  pub is_nullable : Bool
  pub link_target : Str
  pub is_indexed : Bool
  pub cell : ℕ → ℕ

abbrev pub shown : ℕ → Cells → Column ℕ
shown n c = record {
  name = c.name;
  kind = c.kind;
  is_nullable = c.is_nullable;
  link_target = c.link_target;
  is_indexed = c.is_indexed;
  values = tabulate n c.cell;
}

-- With the rows of a table of primary keys.
pub record Table : Type 0 where
  pub cells : List Cells
  pub size : ℕ
  pub keys : List (Str × Str)

module _ {A B : Type 0} (f : A → B) where
  map-insert_nth :
      (xs : List A) (i : ℕ) (a : A)
      → i ≤ length (map f xs)
      → map f (insert_nth xs i a) ≡ insert_nth (map f xs) i (f a)
  map-insert_nth xs zero a h = refl
  map-insert_nth [] (suc i) a h = absurd (omega arith)
  map-insert_nth (x ∷ xs) (suc i) a h = ap (◌∷◌ (f x)) (map-insert_nth xs i a (omega arith))

  pub map-remove_at : (xs : List A) (i : ℕ) → map f (remove_at xs i) ≡ remove_at (map f xs) i
  map-remove_at [] i = refl
  map-remove_at (x ∷ xs) zero = refl
  map-remove_at (x ∷ xs) (suc i) = ap (◌∷◌ (f x)) (map-remove_at xs i)

  map-append : (xs : List A) (a : A) → map f (xs ++ a ∷ []) ≡ map f xs ++ f a ∷ []
  map-append [] a = refl
  map-append (x ∷ xs) a = ap (◌∷◌ (f x)) (map-append xs a)

  map-update_nth :
      (g : A → A) (h : B → B) (xs : List A) (i : ℕ)
      → ((a : A) → f (g a) ≡ h (f a))
      → map f (update_nth xs i g) ≡ update_nth (map f xs) i h
  map-update_nth g h [] i e = refl
  map-update_nth g h (x ∷ xs) zero e = ap (λ b. b ∷ map f xs) (e x)
  map-update_nth g h (x ∷ xs) (suc i) e = ap (◌∷◌ (f x)) (map-update_nth g h xs i e)

  get_elem?-map :
      (xs : List A) (i : ℕ) (b : B)
      → get_elem? (map f xs) i ≡ some b
      → (a : A) × (get_elem? xs i ≡ some a) × (f a ≡ b)
  get_elem?-map [] i b h = cc
  get_elem?-map (x ∷ xs) zero b h = (x, refl, (let e : f x ≡ b = cc in e))
  get_elem?-map (x ∷ xs) (suc i) b h = get_elem?-map xs i b h

  pub length-map : (xs : List A) → length xs ≡ length (map f xs)
  length-map [] = refl
  length-map (x ∷ xs) = omega (arith, length-map xs)

abbrev pub at_cell : {A : Type 0} → Table → ℕ → A → (Cells → A) → A
at_cell t i none_there f = elim (get_elem? t.cells i) [ none ↦ none_there | some c ↦ f c ]

abbrev pub made : PropertyType → Str → Bool → Str → Cells
made k n b target = record {
  name = n;
  kind = k;
  is_nullable = b;
  link_target = target;
  is_indexed = false;
  cell = λ row. 0;
}

abbrev pub extended : Table → PropertyType → Str → Bool → Str → Table × ℕ
extended t k n b target = (record t { cells = t.cells ++ made k n b target ∷ [] }, length t.cells)

abbrev pub tables : Tables
tables = record {
  Table = Table;
  Value = ℕ;
  get_column_count = λ t. length t.cells;
  get_column_name = λ t i. at_cell t i [] (λ c. c.name);
  get_column_type = λ t i. at_cell t i type_int (λ c. c.kind);
  has_search_index = λ t i. at_cell t i false (λ c. c.is_indexed);
  is_nullable = λ t i. at_cell t i false (λ c. c.is_nullable);
  get_link_target = λ t i. at_cell t i [] (λ c. c.link_target);
  size = λ t. t.size;
  insert_column = λ t i k n b. record t { cells = insert_nth t.cells i (made k n b []) };
  add_column = λ t k n b. extended t k n b [];
  add_column_link = λ t k n target. extended t k n false target;
  remove_column = λ t i. record t { cells = remove_at t.cells i };
  get_value = λ k t i row. at_cell t i 0 (λ c. c.cell row);
  set_value = λ k t i row v. record t {
    cells = update_nth t.cells i (λ c. record c { cell = written c.cell row v });
  };
}

abbrev pub columns_of : Table → List (Column ℕ)
columns_of t = map (shown t.size) t.cells

pub filled : (n : ℕ) (cs : List Cells) → All (λ c. length c.values ≡ n) (map (shown n) cs)
filled n [] = tt
filled n (c ∷ cs) = (length-tabulate n c.cell, filled n cs)

shown_new :
    (n : ℕ) (k : PropertyType) (name : Str) (b : Bool) (target : Str)
    → shown n (made k name b target) ≡ new_column k name b target (repeat n 0)
shown_new n k name b target = ap (new_column k name b target) (repeat-tabulate n 0)

at_shown :
    (t : Table) (i : ℕ) (c : Column ℕ)
    → get_elem? (columns_of t) i ≡ some c
    → (x : Cells) × (get_elem? t.cells i ≡ some x) × (shown t.size x ≡ c)
at_shown t i c h = get_elem?-map (shown t.size) t.cells i c h

pub extended_columns :
    (t : Table) (k : PropertyType) (n : Str) (b : Bool) (target : Str)
    → columns_of (extended t k n b target).0
      ≡ columns_of t ++ new_column k n b target (repeat t.size 0) ∷ []
extended_columns t k n b target =
    map-append (shown t.size) t.cells (made k n b target)
    ∙ ap (λ c. columns_of t ++ c ∷ []) (shown_new t.size k n b target)

pub tables-inserted :
    (t : Table) (i : ℕ) (k : PropertyType) (n : Str) (b : Bool)
    → i ≤ length (columns_of t)
    → columns_of (record t { cells = insert_nth t.cells i (made k n b []) })
      ≡ insert_nth (columns_of t) i (new_column k n b [] (repeat t.size 0))
tables-inserted t i k n b h =
    map-insert_nth (shown t.size) t.cells i (made k n b []) h
    ∙ ap (insert_nth (columns_of t) i) (shown_new t.size k n b [])

pub tables-reads :
    (t : Table) (i : ℕ) (c : Column ℕ)
    → get_elem? (columns_of t) i ≡ some c
    → (at_cell t i [] (λ x. x.name) ≡ c.name)
      × (at_cell t i type_int (λ x. x.kind) ≡ c.kind)
      × (at_cell t i false (λ x. x.is_indexed) ≡ c.is_indexed)
      × (at_cell t i false (λ x. x.is_nullable) ≡ c.is_nullable)
      × (at_cell t i [] (λ x. x.link_target) ≡ c.link_target)
tables-reads t i c h =
    let (x, at, same) = at_shown t i c h in
    rw (at_cell, at)
      (
        ap (λ y. y.name) same,
        ap (λ y. y.kind) same,
        ap (λ y. y.is_indexed) same,
        ap (λ y. y.is_nullable) same,
        ap (λ y. y.link_target) same,
      )

pub tables-gets :
    (t : Table) (i row : ℕ) (c : Column ℕ) (v : ℕ)
    → get_elem? (columns_of t) i ≡ some c
    → get_elem? c.values row ≡ some v
    → at_cell t i 0 (λ x. x.cell row) ≡ v
tables-gets t i row c v h k =
    let (x, at, same) = at_shown t i c h in
    rw (at_cell, at)
      (get_elem?-tabulate t.size x.cell row v (ap (λ y. get_elem? y.values row) same ∙ k))

pub tables-sets :
    (t : Table) (i row : ℕ) (v : ℕ)
    → row < t.size
    → columns_of
        (record t { cells = update_nth t.cells i (λ c. record c { cell = written c.cell row v }) })
      ≡ update_nth (columns_of t) i (λ x. with_values x (set x.values row v))
tables-sets t i row v h =
    map-update_nth (shown t.size) (λ c. record c { cell = written c.cell row v })
      (λ x. with_values x (set x.values row v)) t.cells i
      (λ c. ap (with_values (shown t.size c)) (set-tabulate t.size c.cell row v h))

abbrev pub table_laws : IsTables tables
table_laws = record {
  columns = columns_of;
  default_value = λ k b. 0;
  count = λ t. length-map (shown t.size) t.cells;
  reads = tables-reads;
  filled = λ t. filled t.size t.cells;
  inserted = λ t i k n b h. (tables-inserted t i k n b h, refl);
  added = λ t k n b. (extended_columns t k n b [], length-map (shown t.size) t.cells, refl);
  linked = λ t k n target.
      (extended_columns t k n false target, length-map (shown t.size) t.cells, refl);
  removed = λ t i h. (map-remove_at (shown t.size) t.cells i, λ more. refl);
  gets = tables-gets;
  sets = λ t i row c v h k. (tables-sets t i row v k, refl);
}
