-- ===== src/ObjectStore/Update/Remove.antt =====
-- The columns that are removed (ObjectStore::create_tables, Realm/ObjectStore/object_store.cpp).
use realm_cocoa.Base.{
  ℕ, ◌+◌, ◌≡◌, refl, sym, ap, ◌∙◌, subst, inl, inr, Bool, true, false, not, ◌&&◌, List, [], ◌∷◌,
  ◌++◌, if◌then◌else◌, length, length-append, remove_at, Bool-cases, ◌==◌, empty, arith, ◌<◌, npos,
  word, decr,
}
use realm_cocoa.Base.Splits.{remove_at-behind, append_assoc}
use realm_cocoa.Schema.{type_bool, Property}
use realm_cocoa.ObjectStore.Tables.{Tables, IsTables, Column, new_column, repeat}
use realm_cocoa.ObjectStore.Update.{is_extra, at_column, minus, placeholder, remove_extra}
use realm_cocoa.ObjectStore.Update.Fates.{fate, is_removed, is_extra-fate, fate-at_column}

-- The current properties with the columns that they keep, from number `k` on.
abbrev pub kept_columns : ℕ → List Property → List Property → List Property
kept_columns k target [] = []
kept_columns k target (c ∷ cs) =
    let here = at_column c k ∷ kept_columns (k + 1) target cs in
    let gone = at_column c npos ∷ kept_columns k target cs in
    if is_removed (fate target c) then gone else here

-- The properties have the numbers from `k` on as their columns.
abbrev pub IsNumbered : ℕ → List Property → Type 0
IsNumbered k [] = Unit
IsNumbered k (c ∷ cs) = (c.table_column ≡ k) × IsNumbered (k + 1) cs

module _ (T : Tables) (L : IsTables T) where
  abbrev Col : Type 0
  Col = Column T.Value

  abbrev pub survivors : List Property → List Property → List Col → List Col
  survivors target [] cols = cols
  survivors target (c ∷ cs) [] = []
  survivors target (c ∷ cs) (col ∷ cols) =
      let rest = survivors target cs cols in if is_removed (fate target c) then rest else col ∷ rest

  -- The placeholder, in a table with a number of rows.
  abbrev pub placeholder_column : ℕ → Col
  placeholder_column size =
      new_column type_bool placeholder false [] (repeat size (L.default_value type_bool false))

  -- Whether all of a table's columns are gone, of which there were some.
  abbrev pub is_bare : List Col → List Property → Bool
  is_bare left cs = not (empty cs) && empty left

  abbrev pub Removes :
      List Col
      → List Property
      → List Property
      → T.Table
      → ℕ
      → T.Table × List Property × Bool
      → Type 0
  Removes left target cs t k r =
      (L.columns r.0 ≡ (if is_bare left cs then placeholder_column (T.size t) ∷ [] else left))
      × (T.size r.0 ≡ T.size t)
      × (r.1 ≡ kept_columns k target cs)
      × (r.2 ≡ is_bare left cs)

  not_empty : (xs ys : List Col) (x : Col) → empty (xs ++ x ∷ ys) ≡ false
  not_empty [] ys x = refl
  not_empty (z ∷ xs) ys x = refl

  not_bare : (xs ys : List Col) (x : Col) (cs : List Property) → is_bare (xs ++ x ∷ ys) cs ≡ false
  not_bare xs ys x [] = refl
  not_bare xs ys x (c ∷ cs) = not_empty xs ys x

  bare-rest :
      (xs ys : List Col) (c : Property) (cs : List Property)
      → 0 < length xs + length cs
      → is_bare (xs ++ ys) cs ≡ is_bare (xs ++ ys) (c ∷ cs)
  bare-rest [] ys c [] h = absurd (omega arith)
  bare-rest (x ∷ xs) ys c [] h = refl
  bare-rest xs ys c (d ∷ cs) h = refl

  -- The last of the columns is removed behind the placeholder.
  remove_last :
      (t : T.Table) (pre cols : List Col) (col : Col) (n : ℕ)
      → L.columns t ≡ pre ++ col ∷ cols
      → n ≡ length pre
      → length pre + length cols ≡ 0
      → let t' = T.remove_column (T.add_column t type_bool placeholder false).0 n in
        (L.columns t' ≡ placeholder_column (T.size t) ∷ []) × (T.size t' ≡ T.size t)
  remove_last t (p ∷ pre) cols col n h k e = absurd (omega arith)
  remove_last t [] (x ∷ cols) col n h k e = absurd (omega arith)
  remove_last t [] [] col n h k e =
      let (added, last, size) = L.added t type_bool placeholder false in
      let t' = (T.add_column t type_bool placeholder false).0 in
      let two : L.columns t' ≡ col ∷ placeholder_column (T.size t) ∷ [] =
        added ∙ ap (λ xs. xs ++ placeholder_column (T.size t) ∷ []) h in
      let long : length (L.columns t') ≡ 2 = ap length two in
      let (gone, size') = L.removed t' n (omega arith) in
      (
        gone
            ∙ ap (λ xs. remove_at xs n) two
            ∙ ap (remove_at (col ∷ placeholder_column (T.size t) ∷ [])) k,
        size' (omega arith) ∙ size,
      )

  -- One that is not the last.
  remove_other :
      (t : T.Table) (pre cols : List Col) (col : Col) (n : ℕ)
      → L.columns t ≡ pre ++ col ∷ cols
      → n ≡ length pre
      → 0 < length pre + length cols
      → (L.columns (T.remove_column t n) ≡ pre ++ cols) × (T.size (T.remove_column t n) ≡ T.size t)
  remove_other t pre cols col n h k e =
      let long : length (L.columns t) ≡ length pre + length (col ∷ cols) =
        ap length h ∙ length-append pre (col ∷ cols) in
      let (gone, size) = L.removed t n (omega arith) in
      (
        gone ∙ ap (λ xs. remove_at xs n) h ∙ remove_at-behind pre (col ∷ cols) n 0 (omega arith),
        size (omega arith),
      )

  is_extra-at_column :
      (target : List Property) (c : Property) (n : ℕ)
      → is_extra target (at_column c n) ≡ is_removed (fate target c)
  is_extra-at_column target c n =
      is_extra-fate target (at_column c n) ∙ ap is_removed (fate-at_column target c n)

  -- The round of the loop that removes the only column that is left.
  remove_extra-last :
      (t : T.Table) (size deleted : ℕ) (pre cols : List Col) (col : Col) (c : Property)
      → (cs target : List Property) → L.columns t ≡ pre ++ col ∷ cols
      → length cols ≡ length cs
      → length pre + length cs ≡ 0
      → minus c.table_column deleted ≡ length pre
      → is_removed (fate target c) ≡ true
      → (deleted == decr size) ≡ true
      → Removes
          (pre ++ survivors target (c ∷ cs) (col ∷ cols))
          target
          (c ∷ cs)
          t
          (length pre)
          (remove_extra T target size deleted false t (c ∷ cs))
  unfolding remove_extra
  remove_extra-last t size deleted [] [] col c [] target h l e i b last =
      let (gone, kept) = remove_last t [] [] col (minus c.table_column deleted) h i refl in
      let x = is_extra-at_column target c (minus c.table_column deleted) ∙ b in
      rw (x, b, last, remove_extra) (gone, kept, refl, refl)
  remove_extra-last t size deleted (p ∷ pre) cols col c cs target h l e i b last =
      absurd (omega arith)
  remove_extra-last t size deleted [] cols col c (d ∷ cs) target h l e i b last =
      absurd (omega arith)
  remove_extra-last t size deleted [] (y ∷ cols) col c [] target h l e i b last =
      absurd (omega arith)

  -- The loop, over a table that starts with columns that stay.
  pub remove_extra_lem :
      (t : T.Table) (size deleted : ℕ) (pre cols : List Col) (cs target : List Property)
      → L.columns t ≡ pre ++ cols
      → length cols ≡ length cs
      → IsNumbered (length pre + deleted) cs
      → deleted + length pre + length cs ≡ size
      → size < word
      → Removes
          (pre ++ survivors target cs cols)
          target
          cs
          t
          (length pre)
          (remove_extra T target size deleted false t cs)
  unfolding remove_extra
  remove_extra_lem t size deleted pre [] [] target h l n e w = (h, refl, refl, refl)
  remove_extra_lem t size deleted pre (col ∷ cols) [] target h l n e w = absurd (omega arith)
  remove_extra_lem t size deleted pre [] (c ∷ cs) target h l n e w = absurd (omega arith)
  remove_extra_lem t size deleted pre (col ∷ cols) (c ∷ cs) target h l n e w =
      let n0 = n.0 in
      let column = minus c.table_column deleted in
      let i : column ≡ length pre = omega arith in
      let same = is_extra-at_column target c column in
      let rest = survivors target cs cols in
      let grown : length (pre ++ col ∷ []) ≡ length pre + 1 = length-append pre (col ∷ []) in
      elim (Bool-cases (is_removed (fate target c))) [
        | inr b ↦
            let (a, s, k, f) =
              remove_extra_lem t size deleted (pre ++ col ∷ []) cols cs target
                (h ∙ sym (append_assoc pre (col ∷ []) cols)) (omega arith)
                (subst (λ m. IsNumbered m cs) (omega arith) n.1) (omega arith) w in
            let split = append_assoc pre (col ∷ []) rest in
            let left = pre ++ col ∷ rest in
            let bare = not_bare pre rest col cs in
            let r = (remove_extra T target size deleted false t cs).1 in
            rw (same, b, remove_extra, not_empty pre rest col)
              (
                a
                    ∙ ap (λ xs. if is_bare xs cs then placeholder_column (T.size t) ∷ [] else xs)
                        split
                    ∙ ap (λ x. if x then placeholder_column (T.size t) ∷ [] else left) bare,
                s,
                ap (λ m. at_column c m ∷ r) i
                    ∙ ap (◌∷◌ (at_column c (length pre)))
                        (k ∙ ap (λ m. kept_columns m target cs) grown),
                f ∙ ap (λ xs. is_bare xs cs) split ∙ bare,
              )
        | inl b ↦ elim (Bool-cases (deleted == decr size)) [
          | inl last ↦
              remove_extra-last t size deleted pre cols col c cs target h (omega arith)
                (ground arith) i b last
          | inr more ↦
              let (gone, kept) = remove_other t pre cols col column h i (ground arith) in
              let (a, s, k, f) =
                remove_extra_lem (T.remove_column t column) size (deleted + 1) pre cols cs target
                  gone (omega arith) (subst (λ m. IsNumbered m cs) (omega arith) n.1) (omega arith)
                  w in
              let left = pre ++ rest in
              let bare = bare-rest pre rest c cs (ground arith) in
              rw (same, b, more, remove_extra)
                (
                  a
                      ∙ ap (λ m. if is_bare left cs then placeholder_column m ∷ [] else left) kept
                      ∙ ap (λ x. if x then placeholder_column (T.size t) ∷ [] else left) bare,
                  s ∙ kept,
                  ap (◌∷◌ (at_column c npos)) k,
                  f ∙ bare,
                )
        ]
      ]
