-- ===== src/ObjectStore/Update/Partners.antt =====
-- Columns and the properties of a class that they are of, as ObjectStore::verify_object_schema
-- (Realm/ObjectStore/object_store.cpp) compares them by name.
use realm_cocoa.Base.{
  ℕ, zero, suc, ◌≡◌, refl, sym, ap, ◌∙◌, subst, inl, inr, Bool, true, false, List, [], ◌∷◌, some,
  if◌then◌else◌, get_elem?, str_eq, str_eq_self, Bool-cases, arith, All,
}
use realm_cocoa.Schema.{Property, same_type}
use realm_cocoa.ObjectStore.{first_named, property_has_changed, differs}
use realm_cocoa.ObjectStore.Verify.{matches, has_name, names}
use realm_cocoa.ObjectStore.Tables.{Column}
use realm_cocoa.ObjectStore.Update.Fates.{uncolumned, IsColumnOf, Alike}
use realm_cocoa.ObjectStore.Update.Stands.{Stands}

-- The first property of the column's name is one that the column is of.
abbrev pub Partner : {V : Type 0} → List Property → Column V → Type 0
Partner [] col = [] ≡ col.name ∷ []
Partner (p ∷ ps) col = if str_eq p.name col.name then IsColumnOf p col else Partner ps col

pub Partner-uncolumned :
    {V : Type 0} (ts : List Property) (col : Column V)
    → Partner (uncolumned ts) col ≡ Partner ts col
Partner-uncolumned [] col = refl
Partner-uncolumned (p ∷ ps) col =
    ap (λ X. if str_eq p.name col.name then IsColumnOf p col else X) (Partner-uncolumned ps col)

pub Partner-first_named :
    {V : Type 0} (ts : List Property) (col : Column V) (t : Property)
    → first_named ts col.name ≡ some t
    → IsColumnOf t col
    → Partner ts col
Partner-first_named [] col t h r = cc
Partner-first_named (p ∷ ps) col t h r = elim (Bool-cases (str_eq p.name col.name)) [
  | inl e ↦
      let h' = ap (λ b. if b then some p else first_named ps col.name) (sym e) ∙ h in
      let same : t ≡ p = cc in rw e (subst (λ q. IsColumnOf q col) same r)
  | inr e ↦
      let h' = ap (λ b. if b then some p else first_named ps col.name) (sym e) ∙ h in
      rw e (Partner-first_named ps col t h' r)
]

differs_self : (b : Bool) → differs b b ≡ false
differs_self true = refl
differs_self false = refl

unchanged_self : (c : Property) → property_has_changed c c ≡ false
unfolding property_has_changed
unchanged_self c =
    let k : same_type c.kind c.kind ≡ true = ground arith in
    rw (k, str_eq_self c.name, str_eq_self c.object_type) (differs_self c.is_nullable)

unchanged :
    {V : Type 0} (c t : Property) (col : Column V)
    → IsColumnOf c col
    → IsColumnOf t col
    → property_has_changed c t ≡ false
unfolding property_has_changed
unchanged c t col r s =
    let k : same_type c.kind t.kind ≡ true =
      ap (λ x. same_type x t.kind) (sym r.1 ∙ s.1) ∙ ground arith in
    let n : str_eq c.name t.name ≡ true =
      ap (λ x. str_eq x t.name) (sym r.0 ∙ s.0) ∙ str_eq_self t.name in
    let o : str_eq c.object_type t.object_type ≡ true =
      ap (λ x. str_eq x t.object_type) (sym r.2 ∙ s.2) ∙ str_eq_self t.object_type in
    let b : differs c.is_nullable t.is_nullable ≡ false =
      ap (λ x. differs x t.is_nullable) (sym r.3 ∙ s.3) ∙ differs_self t.is_nullable in
    rw (k, n, o, b) refl

matches-Partner :
    {V : Type 0} (ts : List Property) (col : Column V) (c : Property)
    → IsColumnOf c col
    → Partner ts col
    → matches ts c ≡ true
matches-Partner [] col c r h = cc
matches-Partner (p ∷ ps) col c r h = elim (Bool-cases (str_eq p.name c.name)) [
  | inl e ↦
      let e' = ap (str_eq p.name) r.0 ∙ e in
      let h' = subst (λ b. if b then IsColumnOf p col else Partner ps col) e' h in
      rw (e, unchanged c p col r h') refl
  | inr e ↦
      let e' = ap (str_eq p.name) r.0 ∙ e in
      let h' = subst (λ b. if b then IsColumnOf p col else Partner ps col) e' h in
      rw e (matches-Partner ps col c r h')
]

pub All-matches :
    {V : Type 0} (ts : List Property) (cols : List (Column V)) (cs : List Property)
    → Alike cols cs
    → All (Partner ts) cols
    → All (λ c. matches ts c ≡ true) cs
All-matches ts [] [] a h = tt
All-matches ts [] (c ∷ cs) a h = cc
All-matches ts (col ∷ cols) [] a h = cc
All-matches ts (col ∷ cols) (c ∷ cs) a h =
    (matches-Partner ts col c a.0 h.0, All-matches ts cols cs a.1 h.1)

-- A column's property is among those that are read.
has_name-Stands :
    {V : Type 0} (cols : List (Column V)) (cs : List Property) (i : ℕ) (col : Column V)
    → Alike cols cs
    → get_elem? cols i ≡ some col
    → has_name cs col.name ≡ true
has_name-Stands [] cs i col a h = cc
has_name-Stands (x ∷ cols) [] i col a h = cc
has_name-Stands (x ∷ cols) (c ∷ cs) zero col a h =
    let same : x ≡ col = cc in
    let e : str_eq c.name col.name ≡ true =
      ap (λ y. str_eq y col.name) (sym a.0.0 ∙ ap (λ y. y.name) same) ∙ str_eq_self col.name in
    rw e refl
has_name-Stands (x ∷ cols) (c ∷ cs) (suc i) col a h =
    let later = has_name-Stands cols cs i col a.1 h in
    elim (Bool-cases (str_eq c.name col.name)) [ inl e ↦ rw e refl | inr e ↦ rw e later ]

pub All-has_name :
    {V : Type 0} (cols : List (Column V)) (cs ts : List Property)
    → Alike cols cs
    → All (Stands cols) ts
    → All (λ n. has_name cs n ≡ true) (names ts)
All-has_name cols cs [] a h = tt
All-has_name cols cs (t ∷ ts) a h =
    let (col, at, is) = h.0 in
    (
      subst (λ n. has_name cs n ≡ true) is.0 (has_name-Stands cols cs t.table_column col a at),
      All-has_name cols cs ts a h.1,
    )
