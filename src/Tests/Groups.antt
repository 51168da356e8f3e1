-- ===== src/Tests/Groups.antt =====
-- Groups as association lists of tables, where a table also lists the rows of the primary keys.
use realm_cocoa.Base.{
  ℕ, zero, suc, ◌≡◌, refl, ap, ◌∙◌, inl, inr, true, false, List, [], ◌∷◌, ◌++◌, map, Option, none,
  some, if◌then◌else◌, length, get_elem?, remove_at, update_nth, Str, str_eq, str_eq_self,
  str_eq→eq, Bool-cases,
}
use realm_cocoa.ObjectStore.Group.{Groups}
use realm_cocoa.ObjectStore.Group.KeyRows.{KeyRow, row_of}
use realm_cocoa.ObjectStore.Group.PrimaryKeys.{IsGroups}
use realm_cocoa.Tests.Tables.{Table, tables}

abbrev pub Group : Type 0
Group = List (Str × Table)

abbrev pub find_in : Group → Str → Option Table
find_in [] name = none
find_in (e ∷ es) name = let rest = find_in es name in if str_eq e.0 name then some e.1 else rest

abbrev pub put : Group → Str → Table → Group
put [] name t = (name, t) ∷ []
put (e ∷ es) name t =
    let rest = put es name t in if str_eq e.0 name then (e.0, t) ∷ es else e ∷ rest

abbrev pub erase : Group → Str → Group
erase [] name = []
erase (e ∷ es) name = let rest = erase es name in if str_eq e.0 name then rest else e ∷ rest

abbrev pub key_at : Table → ℕ → Str
key_at t i = elim (get_elem? t.keys i) [ none ↦ [] | some r ↦ r.1 ]

abbrev pub no_cells : Table
no_cells = record { cells = []; size = 0; keys = [] }

abbrev pub with_keys : Table → List KeyRow → Table
with_keys t rs = record t { keys = rs }

abbrev pub set_at : Table → ℕ → ℕ → Str → Table
set_at t zero i s = with_keys t (update_nth t.keys i (λ r. (s, r.1)))
set_at t (suc column) i s = with_keys t (update_nth t.keys i (λ r. (r.0, s)))

abbrev pub groups : Groups tables
groups = record {
  Group = Group;
  get_table = find_in;
  put_table = put;
  get_or_add_table = λ g name. elim (find_in g name) [
    | some t ↦ (g, t, false)
    | none ↦ (put g name no_cells, no_cells, true)
  ];
  remove_table = erase;
  table_names = λ g. map (λ e. e.0) g;
  add_search_index =
      λ t i. some (record t { cells = update_nth t.cells i (λ c. record c { is_indexed = true }) });
  remove_search_index =
      λ t i. record t { cells = update_nth t.cells i (λ c. record c { is_indexed = false }) };
  distinct_size = λ t i. t.size;
  find_first_string = λ t i s. row_of t.keys s;
  get_string = λ t column i. key_at t i;
  set_string = set_at;
  get_int = λ t column row. 0;
  set_int = λ t column row v. t;
  add_empty_row = λ t. (with_keys t (t.keys ++ ([], []) ∷ []), length t.keys);
  remove_row = λ t i. with_keys t (remove_at t.keys i);
}

pub find_in-put : (g : Group) (name : Str) (t : Table) → find_in (put g name t) name ≡ some t
find_in-put [] name t = rw (str_eq_self name) refl
find_in-put (e ∷ es) name t = elim (Bool-cases (str_eq e.0 name)) [
  | inl h ↦ rw (h, h) refl
  | inr h ↦ rw (h, h) (find_in-put es name t)
]

pub find_in-put_other :
    (g : Group) (name other : Str) (t : Table)
    → str_eq name other ≡ false
    → find_in (put g name t) other ≡ find_in g other
find_in-put_other [] name other t h = rw h refl
find_in-put_other (e ∷ es) name other t h = elim (Bool-cases (str_eq e.0 name)) [
  | inl k ↦
      let h' : str_eq e.0 other ≡ false = ap (λ n. str_eq n other) (str_eq→eq e.0 name k) ∙ h in
      rw (k, h') refl
  | inr k ↦
      let ih = find_in-put_other es name other t h in
      rw k (ap (λ o. if str_eq e.0 other then some e.1 else o) ih)
]

pub key_at_lem : (t : Table) (i : ℕ) (r : KeyRow) → get_elem? t.keys i ≡ some r → key_at t i ≡ r.1
key_at_lem t i r h = rw (key_at, h) refl

abbrev pub group_laws : IsGroups tables groups
group_laws = record {
  rows = λ t. t.keys;
  finds = λ t name. refl;
  gets = key_at_lem;
  sets_class = λ t i s h. refl;
  sets_key = λ t i s h. refl;
  adds = λ t. (refl, refl);
  removes = λ t i h. refl;
  puts = find_in-put;
  keeps = find_in-put_other;
}
