-- ===== src/ObjectStore/Update/Result.antt =====
-- What the second pass of ObjectStore::create_tables (Realm/ObjectStore/object_store.cpp) makes of one
-- table.
use realm_cocoa.Base.{
  ℕ, ◌+◌, ◌≡◌, refl, sym, ap, ◌∙◌, subst, inl, inr, Bool, true, false, List, [], ◌∷◌, ◌++◌, some,
  none, Option, if◌then◌else◌, length, Str, Bool-cases, empty, arith, All, npos, ◌<◌, remove_at,
}
use realm_cocoa.Base.Splits.{empty→nil}
use realm_cocoa.Schema.{Property}
use realm_cocoa.ObjectStore.Columns.{IsDistinct}
use realm_cocoa.ObjectStore.Tables.{Tables, IsTables, Column}
use realm_cocoa.ObjectStore.Update.{
  old_column, make_optional, remove_extra, add_missing, remove_placeholder, update_columns,
}
use realm_cocoa.ObjectStore.Update.Fates.{uncolumned, Reads, Reads-Alike}
use realm_cocoa.ObjectStore.Update.Optional.{adapt_all, make_optional_lem}
use realm_cocoa.ObjectStore.Update.Remove.{
  kept_columns, survivors, is_bare, placeholder_column, remove_extra_lem, IsNumbered,
}
use realm_cocoa.ObjectStore.Update.Add.{
  fits, numbered, additions, moved_down, additions-uncolumned, numbered-uncolumned,
  uncolumned-numbered, numbered-decr, add_missing_lem,
}
use realm_cocoa.ObjectStore.Update.Places.{old_column_lem, first_named-IsDistinct}
use realm_cocoa.ObjectStore.Update.Stands.{
  Stands, numbered_lem, bare-old_column, survivors-fates, kept_columns-fates,
}

Reads-IsNumbered :
    {V : Type 0} (k : ℕ) (cols : List (Column V)) (cs : List Property)
    → Reads k cols cs
    → IsNumbered k cs
Reads-IsNumbered k [] [] r = tt
Reads-IsNumbered k [] (p ∷ ps) r = cc
Reads-IsNumbered k (c ∷ cs) [] r = cc
Reads-IsNumbered k (c ∷ cols) (p ∷ ps) r = (r.1, Reads-IsNumbered (k + 1) cols ps r.2)

All-uncolumned-fits :
    (tables : Str → Bool) (ts : List Property)
    → All (λ t. fits tables t ≡ true) ts
    → All (λ t. fits tables t ≡ true) (uncolumned ts)
All-uncolumned-fits tables [] h = tt
All-uncolumned-fits tables (t ∷ ts) h = (h.0, All-uncolumned-fits tables ts h.1)

All-fits-uncolumned :
    (tables : Str → Bool) (ts : List Property)
    → All (λ t. fits tables t ≡ true) (uncolumned ts)
    → All (λ t. fits tables t ≡ true) ts
All-fits-uncolumned tables [] h = tt
All-fits-uncolumned tables (t ∷ ts) h = (h.0, All-fits-uncolumned tables ts h.1)

length-uncolumned : (ts : List Property) → length (uncolumned ts) ≡ length ts
length-uncolumned [] = refl
length-uncolumned (t ∷ ts) = omega (arith, length-uncolumned ts)

numbered-same :
    (n : ℕ) (a b ts us : List Property)
    → a ≡ b
    → uncolumned ts ≡ uncolumned us
    → numbered n a ts ≡ numbered n b us
numbered-same n a b ts us h k =
    ap (λ ps. numbered n ps ts) h
    ∙ sym (numbered-uncolumned n b ts)
    ∙ ap (numbered n b) k
    ∙ numbered-uncolumned n b us

module _ (T : Tables) (L : IsTables T) where
  abbrev Col : Type 0
  Col = Column T.Value

  length-adapt_all :
      (target cs : List Property) (cols : List Col)
      → length cols ≡ length cs
      → length (adapt_all T L target cs cols) ≡ length cs
  length-adapt_all target [] cols h = h
  length-adapt_all target (c ∷ cs) [] h = absurd (omega arith)
  length-adapt_all target (c ∷ cs) (col ∷ cols) h =
      omega (arith, length-adapt_all target cs cols (omega arith))

  -- The columns that stay, made optional where the target says so.
  abbrev pub staying : List Col → List Property → List Property → List Col
  staying cols current target = survivors T L target current (adapt_all T L target current cols)

  -- Those, then a new one for each property of the target that has none of them.
  abbrev pub new_columns : ℕ → List Col → List Property → List Property → List Col
  new_columns size cols current target =
      staying cols current target ++ additions T L size (kept_columns 0 target current) target

  -- The last two loops, from a table that holds the columns that stay, or the placeholder if none do.
  added :
      (tables : Str → Bool) (t : T.Table) (cols : List Col) (cs target ts : List Property)
      (size : ℕ)
      → length cols ≡ length cs
      → let left = survivors T L target cs cols in
        let current = kept_columns 0 target cs in
        L.columns t ≡ (if is_bare T L left cs then placeholder_column T L size ∷ [] else left)
        → T.size t ≡ size
        → All (λ p. fits tables p ≡ true) ts
        → length ts + 1 < npos
        → (r : T.Table × List Property) × (add_missing T tables current t ts ≡ some r)
          × (L.columns (remove_placeholder T (is_bare T L left cs) r).0
              ≡ left ++ additions T L size current ts)
          × ((remove_placeholder T (is_bare T L left cs) r).1 ≡ numbered (length left) current ts)
  unfolding remove_placeholder
  added tables t cols cs target ts size l h s f w =
      let left = survivors T L target cs cols in
      let current = kept_columns 0 target cs in
      let adds = additions T L size current ts in
      let start = placeholder_column T L size ∷ [] in
      elim (Bool-cases (is_bare T L left cs)) [
        | inr b ↦
            let h' = h ∙ ap (λ y. if y then start else left) b in
            let (r, found, (a, kept, n)) =
              add_missing_lem T L tables current t left ts size h' s f in
            (r, found, rw b a, rw b n)
        | inl b ↦
            let h' = h ∙ ap (λ y. if y then start else left) b in
            let (r, found, (a, kept, n)) =
              add_missing_lem T L tables current t start ts size h' s f in
            let none_left : empty left ≡ true = ground arith in
            let nothing : [] ≡ left = empty→nil left none_left in
            let long = ap length a in
            let (gone, kept') = L.removed r.0 0 (omega arith) in
            let columns = gone ∙ ap (λ xs. remove_at xs 0) a ∙ ap (λ xs. xs ++ adds) nothing in
            let never : (p : Property) → old_column current p ≡ none =
              λ p. bare-old_column T L 0 cs target cols p l none_left in
            let numbers =
              ap moved_down n
              ∙ numbered-decr 0 current ts never (omega arith)
              ∙ ap (λ xs. numbered (length xs) current ts) nothing in
            (r, found, rw b columns, rw b numbers)
      ]

  additions-same :
      (m n : ℕ) (a b ts us : List Property)
      → a ≡ b
      → m ≡ n
      → uncolumned ts ≡ uncolumned us
      → additions T L m a ts ≡ additions T L n b us
  additions-same m n a b ts us h e k =
      ap (λ ps. additions T L m ps ts) h
      ∙ ap (λ x. additions T L x b ts) e
      ∙ sym (additions-uncolumned T L n b ts)
      ∙ ap (additions T L n b) k
      ∙ additions-uncolumned T L n b us

  abbrev plainly : Option (T.Table × List Property) → Bool → Option (T.Table × List Property)
  plainly o bare = elim o [ none ↦ none | some r ↦ some (remove_placeholder T bare r) ]

  -- The loops, one after the other.
  composed :
      (tables : Str → Bool) (t : T.Table) (current target : List Property)
      → let (t1, target1) = make_optional T t current target in
        let removed = remove_extra T target1 (length current) 0 false t1 current in
        (places : List Property) (bare : Bool) (r : T.Table × List Property)
        → removed.1 ≡ places
        → removed.2 ≡ bare
        → add_missing T tables places removed.0 target1 ≡ some r
        → update_columns T tables t current target ≡ some (remove_placeholder T bare r)
  unfolding update_columns
  composed tables t current target places bare r k b found =
      let (t1, target1) = make_optional T t current target in
      let removed = remove_extra T target1 (length current) 0 false t1 current in
      let found' = ap (λ ps. add_missing T tables ps removed.0 target1) k ∙ found in
      ap (λ y. plainly (add_missing T tables removed.1 removed.0 target1) y) b
      ∙ ap (λ o. plainly o bare) found'

  -- The second pass for one table, whose columns the class `current` has read: it ends without a
  -- failed assertion.
  pub update_columns_lem :
      (tables : Str → Bool) (t : T.Table) (current target : List Property)
      → Reads 0 (L.columns t) current
      → IsDistinct target
      → All (λ p. fits tables p ≡ true) target
      → length current + length target + 1 < npos
      → (r : T.Table × List Property) × (update_columns T tables t current target ≡ some r)
        × (L.columns r.0 ≡ new_columns (T.size t) (L.columns t) current target)
        × (uncolumned r.1 ≡ uncolumned target)
        × All (Stands (L.columns r.0)) r.1
  unfolding update_columns
  update_columns_lem tables t current target r d f w =
      let cols = L.columns t in
      let size = length current in
      let (alike, long) = Reads-Alike 0 cols current r in
      let (t1, target1) = make_optional T t current target in
      let (a, s, same, kept) = make_optional_lem T L t [] cols current target refl r in
      let cols1 = adapt_all T L target current cols in
      let long1 = length-adapt_all target current cols long in
      let numbers = Reads-IsNumbered 0 cols current r in
      let (a2, s2, k2, b2) =
        remove_extra_lem T L t1 size 0 [] cols1 current target1 a long1 numbers (omega arith)
          (omega arith) in
      let f1 = All-fits-uncolumned tables target1 (
        subst (All (λ p. fits tables p ≡ true)) (sym kept) (All-uncolumned-fits tables target f)) in
      let short : length target1 ≡ length target =
        sym (length-uncolumned target1) ∙ ap length kept ∙ length-uncolumned target in
      let t2 = (remove_extra T target1 size 0 false t1 current).0 in
      let (r3, found, columns, numbered3) =
        added tables t2 cols1 current target1 target1 (T.size t1) long1 a2 s2 f1 (omega arith) in
      let left = staying cols current target in
      let places = kept_columns 0 target current in
      let stay = survivors-fates T L target1 target current cols1 same in
      let place = kept_columns-fates 0 target1 target current same in
      let size1 = T.size t1 in
      let grown =
        additions-same size1 (T.size t) (kept_columns 0 target1 current) places target1 target place
          s kept in
      let counted =
        ap (λ xs. numbered (length xs) (kept_columns 0 target1 current) target1) stay
        ∙ numbered-same (length left) (kept_columns 0 target1 current) places target1 target place
            kept in
      let columns' =
        columns
        ∙ ap (λ xs. xs ++ additions T L (T.size t1) (kept_columns 0 target1 current) target1) stay
        ∙ ap (λ xs. left ++ xs) grown in
      let numbers' = numbered3 ∙ counted in
      let stands =
        numbered_lem T L tables target places (T.size t) left target
          (λ p k fit first old.
            old_column_lem T L tables [] cols current target p k alike fit first old)
          f (first_named-IsDistinct target d) in
      (
        remove_placeholder T (is_bare T L (survivors T L target1 current cols1) current) r3,
        composed tables t current target (kept_columns 0 target1 current)
            (is_bare T L (survivors T L target1 current cols1) current) r3 k2 b2 found,
        columns',
        ap uncolumned numbers' ∙ uncolumned-numbered (length left) places target,
        subst (All (Stands _)) (sym numbers') (
            subst (λ xs. All (Stands xs) (numbered (length left) places target)) (sym columns')
              stands),
      )
