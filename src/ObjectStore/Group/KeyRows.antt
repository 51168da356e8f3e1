-- ===== src/ObjectStore/Group/KeyRows.antt =====
-- The rows of the table of the primary keys (Realm/ObjectStore/object_store.cpp) as a map from class to
-- property.
use realm_cocoa.Base.{
  ℕ, suc, ◌≡◌, refl, sym, ap, ◌∙◌, inl, inr, true, false, List, [], ◌∷◌, ◌++◌, Option, none, some,
  if◌then◌else◌, get_elem?, remove_at, update_nth, Str, str_eq, str_eq-swap, str_eq→eq, Bool-cases,
}

-- A row: a class and the name of its primary key.
abbrev pub KeyRow : Type 0
KeyRow = Str × Str

abbrev pub behind_row : Option ℕ → Option ℕ
behind_row none = none
behind_row (some i) = some (suc i)

-- The first row of a class.
abbrev pub row_of : List KeyRow → Str → Option ℕ
row_of [] name = none
row_of (r ∷ rs) name =
    let rest = behind_row (row_of rs name) in if str_eq r.0 name then some 0 else rest

abbrev pub key_of : List KeyRow → Str → Str
key_of [] name = []
key_of (r ∷ rs) name = let rest = key_of rs name in if str_eq r.0 name then r.1 else rest

-- No class has two rows.
abbrev pub IsMap : List KeyRow → Type 0
IsMap [] = Unit
IsMap (r ∷ rs) = (row_of rs r.0 ≡ none) × IsMap rs

-- A class that the first row is not of is found behind it.
row_of-behind :
    (r : KeyRow) (rs : List KeyRow) (name : Str)
    → str_eq r.0 name ≡ false
    → row_of (r ∷ rs) name ≡ behind_row (row_of rs name)
row_of-behind r rs name e = rw e refl

row_of-here :
    (r : KeyRow) (rs : List KeyRow) (name : Str)
    → str_eq r.0 name ≡ true
    → row_of (r ∷ rs) name ≡ some 0
row_of-here r rs name e = rw e refl

behind_row-some :
    (o : Option ℕ) (i : ℕ) → behind_row o ≡ some i → (j : ℕ) × (i ≡ suc j) × (o ≡ some j)
behind_row-some none i h = cc
behind_row-some (some j) i h = (j, (let e : i ≡ suc j = cc in e), refl)

behind_row-none : (o : Option ℕ) → behind_row o ≡ none → o ≡ none
behind_row-none none h = refl
behind_row-none (some j) h = cc

pub row_of-missing : (rs : List KeyRow) (name : Str) → row_of rs name ≡ none → key_of rs name ≡ []
row_of-missing [] name h = refl
row_of-missing (r ∷ rs) name h = elim (Bool-cases (str_eq r.0 name)) [
  | inl e ↦ absurd (let here = row_of-here r rs name e in cc)
  | inr e ↦
      let h' = behind_row-none (row_of rs name) (sym (row_of-behind r rs name e) ∙ h) in
      rw e (row_of-missing rs name h')
]

pub row_of-found :
    (rs : List KeyRow) (name : Str) (i : ℕ)
    → row_of rs name ≡ some i
    → (r : KeyRow) × (get_elem? rs i ≡ some r) × (key_of rs name ≡ r.1)
row_of-found [] name i h = cc
row_of-found (r ∷ rs) name i h = elim (Bool-cases (str_eq r.0 name)) [
  | inl e ↦
      let here = row_of-here r rs name e in let first : i ≡ 0 = cc in rw (e, first) (r, refl, refl)
  | inr e ↦
      let (j, later, h') =
        behind_row-some (row_of rs name) i (sym (row_of-behind r rs name e) ∙ h) in
      rw (e, later) (row_of-found rs name j h')
]

-- What a class's key is after one was set.
abbrev pub key_set : List KeyRow → Str → Str → Str → Str
key_set rs name key other = if str_eq name other then key else key_of rs other

-- A row of another class goes before.
other_row :
    (a name other x y z key : Str)
    → str_eq a name ≡ false
    → z ≡ (if str_eq name other then key else y)
    → (if str_eq a other then x else z)
      ≡ (if str_eq name other then key else (if str_eq a other then x else y))
other_row a name other x y z key e h = elim (Bool-cases (str_eq a other)) [
  | inl d ↦
      let same : a ≡ other = str_eq→eq a other d in
      let e' : str_eq name other ≡ false = ap (str_eq name) (sym same) ∙ str_eq-swap name a ∙ e in
      rw (d, e') refl
  | inr d ↦ rw d h
]

-- The row of the class itself, with another key.
own_row :
    (a name other x y key : Str)
    → a ≡ name
    → (if str_eq a other then key else y)
      ≡ (if str_eq name other then key else (if str_eq a other then x else y))
own_row a name other x y key same =
    let e : str_eq name other ≡ str_eq a other = ap (λ n. str_eq n other) (sym same) in
    elim (Bool-cases (str_eq a other)) [ inl d ↦ rw (e, d) refl | inr d ↦ rw (e, d) refl ]

pub key_of-update_nth :
    (rs : List KeyRow) (name key other : Str) (i : ℕ)
    → row_of rs name ≡ some i
    → key_of (update_nth rs i (λ r. (r.0, key))) other ≡ key_set rs name key other
key_of-update_nth [] name key other i h = cc
key_of-update_nth (r ∷ rs) name key other i h = elim (Bool-cases (str_eq r.0 name)) [
  | inl e ↦
      let here = row_of-here r rs name e in
      let first : i ≡ 0 = cc in
      let same : r.0 ≡ name = str_eq→eq r.0 name e in
      rw first (own_row r.0 name other r.1 (key_of rs other) key same)
  | inr e ↦
      let (j, later, h') =
        behind_row-some (row_of rs name) i (sym (row_of-behind r rs name e) ∙ h) in
      let ih = key_of-update_nth rs name key other j h' in
      rw later (
        other_row r.0 name other r.1 (key_of rs other)
          (key_of (update_nth rs j (λ x. (x.0, key))) other) key e ih)
]

pub key_of-append :
    (rs : List KeyRow) (name key other : Str)
    → row_of rs name ≡ none
    → key_of (rs ++ (name, key) ∷ []) other ≡ key_set rs name key other
key_of-append [] name key other h = refl
key_of-append (r ∷ rs) name key other h = elim (Bool-cases (str_eq r.0 name)) [
  | inl e ↦ absurd (let here = row_of-here r rs name e in cc)
  | inr e ↦
      let h' = behind_row-none (row_of rs name) (sym (row_of-behind r rs name e) ∙ h) in
      let ih = key_of-append rs name key other h' in
      other_row r.0 name other r.1 (key_of rs other) (key_of (rs ++ (name, key) ∷ []) other) key e
        ih
]

pub key_of-remove_at :
    (rs : List KeyRow) (name other : Str) (i : ℕ)
    → IsMap rs
    → row_of rs name ≡ some i
    → key_of (remove_at rs i) other ≡ key_set rs name [] other
key_of-remove_at [] name other i m h = cc
key_of-remove_at (r ∷ rs) name other i m h = elim (Bool-cases (str_eq r.0 name)) [
  | inl e ↦
      let here = row_of-here r rs name e in
      let first : i ≡ 0 = cc in
      let same : r.0 ≡ name = str_eq→eq r.0 name e in
      let gone : key_of rs other ≡ (if str_eq r.0 other then [] else key_of rs other) =
        elim (Bool-cases (str_eq r.0 other)) [
          | inl d ↦
              let missing = row_of-missing rs r.0 m.0 in
              rw d (ap (key_of rs) (sym (str_eq→eq r.0 other d)) ∙ missing)
          | inr d ↦ rw d refl
        ] in
      rw first (gone ∙ own_row r.0 name other r.1 (key_of rs other) [] same)
  | inr e ↦
      let (j, later, h') =
        behind_row-some (row_of rs name) i (sym (row_of-behind r rs name e) ∙ h) in
      let ih = key_of-remove_at rs name other j m.1 h' in
      rw later
        (other_row r.0 name other r.1 (key_of rs other) (key_of (remove_at rs j) other) [] e ih)
]

pub key_set-missing :
    (rs : List KeyRow) (name other : Str)
    → row_of rs name ≡ none
    → key_of rs other ≡ key_set rs name [] other
key_set-missing rs name other h = elim (Bool-cases (str_eq name other)) [
  | inl e ↦ rw e (ap (key_of rs) (sym (str_eq→eq name other e)) ∙ row_of-missing rs name h)
  | inr e ↦ rw e refl
]
