-- ===== src/ObjectStore/Update/Add.antt =====
-- The columns that are added (ObjectStore::create_tables, Realm/ObjectStore/object_store.cpp).
use realm_cocoa.Base.{
  ℕ, ◌+◌, ◌≡◌, refl, sym, ap, ◌∙◌, inl, inr, Bool, true, false, not, ◌&&◌, List, [], ◌∷◌, ◌++◌,
  none, some, if◌then◌else◌, length, length-append, Str, Bool-cases, Option-cases, empty, arith,
  All, map, word, decr, ◌<◌,
}
use realm_cocoa.Base.Splits.{append_assoc, append_nil}
use realm_cocoa.Schema.{Property, same_type, type_object}
use realm_cocoa.ObjectStore.{differs}
use realm_cocoa.ObjectStore.Tables.{
  Tables, IsTables, Column, new_column, repeat, table_name_for_object_type,
}
use realm_cocoa.ObjectStore.Update.{is_link, at_column, old_column, add_property, add_missing}
use realm_cocoa.ObjectStore.Update.Fates.{uncolumned}

-- A link goes to a class that has a table, and is nullable if it is one to an object; what is no link
-- has no class it goes to.
abbrev pub fits : (Str → Bool) → Property → Bool
fits tables p =
    if is_link p.kind
    then tables (table_name_for_object_type p.object_type)
      && not (differs p.is_nullable (same_type p.kind type_object))
    else empty p.object_type

-- The properties with the columns that they get, new ones from number `n` on.
abbrev pub numbered : ℕ → List Property → List Property → List Property
numbered n current [] = []
numbered n current (t ∷ ts) = elim (old_column current t) [
  | none ↦ at_column t n ∷ numbered (n + 1) current ts
  | some k ↦ at_column t k ∷ numbered n current ts
]

old_column-at_column :
    (current : List Property) (t : Property) (i : ℕ)
    → old_column current (at_column t i) ≡ old_column current t
unfolding old_column
old_column-at_column current t i = refl

pub numbered-new :
    (n : ℕ) (current : List Property) (t : Property) (ts : List Property)
    → old_column current t ≡ none
    → numbered n current (t ∷ ts) ≡ at_column t n ∷ numbered (n + 1) current ts
numbered-new n current t ts e = rw (e, numbered) refl

pub numbered-kept :
    (n : ℕ) (current : List Property) (t : Property) (ts : List Property) (k : ℕ)
    → old_column current t ≡ some k
    → numbered n current (t ∷ ts) ≡ at_column t k ∷ numbered n current ts
numbered-kept n current t ts k e = rw (e, numbered) refl

module _ (T : Tables) (L : IsTables T) where
  abbrev Col : Type 0
  Col = Column T.Value

  abbrev pub fresh : ℕ → Property → Col
  fresh size t =
      let nullable = if is_link t.kind then false else t.is_nullable in
      let target = if is_link t.kind then table_name_for_object_type t.object_type else [] in
      new_column t.kind t.name nullable target (repeat size (L.default_value t.kind nullable))

  abbrev pub additions : ℕ → List Property → List Property → List Col
  additions size current [] = []
  additions size current (t ∷ ts) = elim (old_column current t) [
    | none ↦ fresh size t ∷ additions size current ts
    | some k ↦ additions size current ts
  ]

  add_property_lem :
      (tables : Str → Bool) (table : T.Table) (t : Property)
      → fits tables t ≡ true
      → (r : T.Table × ℕ) × (add_property T tables table t ≡ some r)
        × (L.columns r.0 ≡ L.columns table ++ fresh (T.size table) t ∷ [])
        × (r.1 ≡ length (L.columns table))
        × (T.size r.0 ≡ T.size table)
  unfolding add_property
  add_property_lem tables table t h =
      let name = table_name_for_object_type t.object_type in
      elim (Bool-cases (is_link t.kind)) [
        | inl e ↦
            let there : tables name ≡ true = ground arith in
            let (a, b, c) = L.linked table t.kind t.name name in
            rw (e, there) (T.add_column_link table t.kind t.name name, refl, a, b, c)
        | inr e ↦
            let (a, b, c) = L.added table t.kind t.name t.is_nullable in
            rw e (T.add_column table t.kind t.name t.is_nullable, refl, a, b, c)
      ]

  pub additions-new :
      (size : ℕ) (current : List Property) (t : Property) (ts : List Property)
      → old_column current t ≡ none
      → additions size current (t ∷ ts) ≡ fresh size t ∷ additions size current ts
  additions-new size current t ts e = rw (e, additions) refl

  pub additions-kept :
      (size : ℕ) (current : List Property) (t : Property) (ts : List Property) (k : ℕ)
      → old_column current t ≡ some k
      → additions size current (t ∷ ts) ≡ additions size current ts
  additions-kept size current t ts k e = rw (e, additions) refl

  abbrev pub Adds : ℕ → List Col → List Property → List Property → T.Table × List Property → Type 0
  Adds size base current ts r =
      (L.columns r.0 ≡ base ++ additions size current ts)
      × (T.size r.0 ≡ size)
      × (r.1 ≡ numbered (length base) current ts)

  pub add_missing_lem :
      (tables : Str → Bool) (current : List Property) (table : T.Table) (base : List Col)
      → (ts : List Property) (size : ℕ) → L.columns table ≡ base
      → T.size table ≡ size
      → All (λ t. fits tables t ≡ true) ts
      → (r : T.Table × List Property) × (add_missing T tables current table ts ≡ some r)
        × Adds size base current ts r
  unfolding add_missing
  add_missing_lem tables current table base [] size h s f =
      ((table, []), refl, (h ∙ sym (append_nil base), s, refl))
  add_missing_lem tables current table base (t ∷ ts) size h s f =
      elim (Option-cases (old_column current t)) [
        | inr (k, e) ↦
            let (r, found, (a, b, c)) = add_missing_lem tables current table base ts size h s f.1 in
            rw (e, add_missing, found)
              (
                (r.0, at_column t k ∷ r.1),
                refl,
                (
                  a ∙ ap (λ xs. base ++ xs) (sym (additions-kept size current t ts k e)),
                  b,
                  ap (◌∷◌ (at_column t k)) c ∙ sym (numbered-kept (length base) current t ts k e),
                ),
              )
        | inl e ↦
            let (g, grown, a, b, c) = add_property_lem tables table t f.0 in
            let more = base ++ fresh size t ∷ [] in
            let a' : L.columns g.0 ≡ more =
              a
              ∙ ap (λ n. L.columns table ++ fresh n t ∷ []) s
              ∙ ap (λ xs. xs ++ fresh size t ∷ []) h in
            let (r, found, (a'', b'', c'')) =
              add_missing_lem tables current g.0 more ts size a' (c ∙ s) f.1 in
            let column : g.1 ≡ length base = b ∙ ap length h in
            let next = length-append base (fresh size t ∷ []) in
            rw (e, add_missing, grown, found)
              (
                (r.0, at_column t g.1 ∷ r.1),
                refl,
                (
                  a''
                      ∙ append_assoc base (fresh size t ∷ []) (additions size current ts)
                      ∙ ap (λ xs. base ++ xs) (sym (additions-new size current t ts e)),
                  b'',
                  ap (λ n. at_column t n ∷ r.1) column
                      ∙ ap (◌∷◌ (at_column t (length base)))
                          (c'' ∙ ap (λ n. numbered n current ts) next)
                      ∙ sym (numbered-new (length base) current t ts e),
                ),
              )
      ]

  -- The columns that properties have beforehand do not count.
  pub additions-uncolumned :
      (size : ℕ) (current ts : List Property)
      → additions size current (uncolumned ts) ≡ additions size current ts
  additions-uncolumned size current [] = refl
  additions-uncolumned size current (t ∷ ts) =
      let ih = additions-uncolumned size current ts in
      let us = uncolumned ts in
      let same = old_column-at_column current t 0 in
      elim (Option-cases (old_column current t)) [
        | inl e ↦
            additions-new size current (at_column t 0) us (same ∙ e)
            ∙ ap (◌∷◌ (fresh size t)) ih
            ∙ sym (additions-new size current t ts e)
        | inr (k, e) ↦
            additions-kept size current (at_column t 0) us k (same ∙ e)
            ∙ ih
            ∙ sym (additions-kept size current t ts k e)
      ]

pub numbered-uncolumned :
    (n : ℕ) (current ts : List Property)
    → numbered n current (uncolumned ts) ≡ numbered n current ts
numbered-uncolumned n current [] = refl
numbered-uncolumned n current (t ∷ ts) =
    let same = old_column-at_column current t 0 in
    elim (Option-cases (old_column current t)) [
      | inl e ↦
          numbered-new n current (at_column t 0) (uncolumned ts) (same ∙ e)
          ∙ ap (◌∷◌ (at_column t n)) (numbered-uncolumned (n + 1) current ts)
          ∙ sym (numbered-new n current t ts e)
      | inr (k, e) ↦
          numbered-kept n current (at_column t 0) (uncolumned ts) k (same ∙ e)
          ∙ ap (◌∷◌ (at_column t k)) (numbered-uncolumned n current ts)
          ∙ sym (numbered-kept n current t ts k e)
    ]

pub uncolumned-numbered :
    (n : ℕ) (current ts : List Property) → uncolumned (numbered n current ts) ≡ uncolumned ts
uncolumned-numbered n current [] = refl
uncolumned-numbered n current (t ∷ ts) = elim (Option-cases (old_column current t)) [
  | inl e ↦
      ap uncolumned (numbered-new n current t ts e)
      ∙ ap (◌∷◌ (at_column t 0)) (uncolumned-numbered (n + 1) current ts)
  | inr (k, e) ↦
      ap uncolumned (numbered-kept n current t ts k e)
      ∙ ap (◌∷◌ (at_column t 0)) (uncolumned-numbered n current ts)
]

abbrev pub moved_down : List Property → List Property
moved_down ts = map (λ t. at_column t (decr t.table_column)) ts

-- With the placeholder gone, and no column left that was there before it, all numbers go down.
pub numbered-decr :
    (n : ℕ) (current ts : List Property)
    → ((t : Property) → old_column current t ≡ none)
    → n + length ts + 1 < word
    → moved_down (numbered (n + 1) current ts) ≡ numbered n current ts
numbered-decr n current [] h w = refl
numbered-decr n current (t ∷ ts) h w =
    let down : decr (n + 1) ≡ n = omega arith in
    let ih = numbered-decr (n + 1) current ts h (omega arith) in
    ap moved_down (numbered-new (n + 1) current t ts (h t))
    ∙ ap (λ k. at_column t k ∷ moved_down (numbered (n + 1 + 1) current ts)) down
    ∙ ap (◌∷◌ (at_column t n)) ih
    ∙ sym (numbered-new n current t ts (h t))
