-- ===== src/ObjectStore/Update/Copy.antt =====
-- copy_property_values (Realm/ObjectStore/object_store.cpp): the rows of one column in another.
use realm_cocoa.Base.{
  ℕ, zero, suc, ◌<◌, ◌+◌, ◌≡◌, refl, sym, ap, ◌∙◌, subst, List, [], ◌∷◌, ◌++◌, length, get_elem?,
  update_nth, set, some, arith, length-append,
}
use realm_cocoa.Base.Splits.{
  update_nth-behind, set-behind, get_elem?-behind, append_assoc, get_elem?-All,
}
use realm_cocoa.ObjectStore.Tables.{Tables, IsTables, Column, with_values}
use realm_cocoa.ObjectStore.Update.{copy_rows}

module _ (T : Tables) (L : IsTables T) where
  abbrev Col : Type 0
  Col = Column T.Value

  -- One round of the loop, where `xs` are the values copied already.
  copy_row :
      (t : T.Table) (pre post : List Col) (old new : Col) (xs ys zs : List T.Value) (y z : T.Value)
      → new.kind ≡ old.kind
      → L.columns t ≡ pre ++ with_values new (xs ++ y ∷ ys) ∷ with_values old (xs ++ z ∷ zs) ∷ post
      → let i = length pre in
        let row = length xs in
        let t' = T.set_value old.kind t i row (T.get_value old.kind t (i + 1) row) in
        (L.columns t'
          ≡ pre ++ with_values new (xs ++ z ∷ ys) ∷ with_values old (xs ++ z ∷ zs) ∷ post)
        × (T.size t' ≡ T.size t)
  copy_row t pre post old new xs ys zs y z same h =
      let i = length pre in
      let row = length xs in
      let a = with_values new (xs ++ y ∷ ys) in
      let b = with_values old (xs ++ z ∷ zs) in
      let f : Col → Col = λ x. with_values x (set x.values row z) in
      let at_new : get_elem? (L.columns t) i ≡ some a =
        ap (λ cs. get_elem? cs i) h ∙ get_elem?-behind pre (a ∷ b ∷ post) i 0 (omega arith) in
      let at_old : get_elem? (L.columns t) (i + 1) ≡ some b =
        ap (λ cs. get_elem? cs (i + 1)) h
        ∙ get_elem?-behind pre (a ∷ b ∷ post) (i + 1) 1 (omega arith) in
      let value =
        L.gets t (i + 1) row b z at_old (get_elem?-behind xs (z ∷ zs) row 0 (omega arith)) in
      let full =
        get_elem?-All (λ c. length c.values ≡ T.size t) (L.columns t) i a (L.filled t) at_new in
      let inside : row < T.size t = omega (arith, full, length-append xs (y ∷ ys)) in
      let (written, kept) = L.sets t i row a z at_new inside in
      let there =
        ap (λ cs. update_nth cs i f) h
        ∙ update_nth-behind pre (a ∷ b ∷ post) i 0 f (omega arith)
        ∙ ap (λ vs. pre ++ with_values new vs ∷ b ∷ post)
            (set-behind xs (y ∷ ys) row 0 z (omega arith)) in
      let result = pre ++ with_values new (xs ++ z ∷ ys) ∷ with_values old (xs ++ z ∷ zs) ∷ post in
      subst
        (λ v.
          (L.columns (T.set_value old.kind t i row v) ≡ result)
          × (T.size (T.set_value old.kind t i row v) ≡ T.size t))
        (sym value)
        (subst
          (λ k.
            (L.columns (T.set_value k t i row z) ≡ result)
            × (T.size (T.set_value k t i row z) ≡ T.size t))
          same (written ∙ there, kept))

  pub copy_rows_lem :
      (left : ℕ) (t : T.Table) (pre post : List Col) (old new : Col) (xs ys zs : List T.Value)
      → new.kind ≡ old.kind
      → L.columns t ≡ pre ++ with_values new (xs ++ ys) ∷ with_values old (xs ++ zs) ∷ post
      → length ys ≡ left
      → length zs ≡ left
      → let i = length pre in
        let t' = copy_rows T old.kind (i + 1) i (length xs) left t in
        (L.columns t' ≡ pre ++ with_values new (xs ++ zs) ∷ with_values old (xs ++ zs) ∷ post)
        × (T.size t' ≡ T.size t)
  unfolding copy_rows
  copy_rows_lem zero t pre post old new xs [] [] same h e e' = (h, refl)
  copy_rows_lem zero t pre post old new xs (y ∷ ys) zs same h e e' = absurd (omega arith)
  copy_rows_lem zero t pre post old new xs [] (z ∷ zs) same h e e' = absurd (omega arith)
  copy_rows_lem (suc left) t pre post old new xs [] zs same h e e' = absurd (omega arith)
  copy_rows_lem (suc left) t pre post old new xs (y ∷ ys) [] same h e e' = absurd (omega arith)
  copy_rows_lem (suc left) t pre post old new xs (y ∷ ys) (z ∷ zs) same h e e' =
      let (written, kept) = copy_row t pre post old new xs ys zs y z same h in
      let row = length xs in
      let i = length pre in
      let t' = T.set_value old.kind t i row (T.get_value old.kind t (i + 1) row) in
      let split = append_assoc xs (z ∷ []) in
      let long : length (xs ++ z ∷ []) ≡ row + 1 = length-append xs (z ∷ []) in
      let h' =
        written
        ∙ ap (λ us. pre ++ with_values new us ∷ with_values old (xs ++ z ∷ zs) ∷ post)
            (sym (split ys))
        ∙ ap (λ us. pre ++ with_values new ((xs ++ z ∷ []) ++ ys) ∷ with_values old us ∷ post)
            (sym (split zs)) in
      let (copied, kept') =
        copy_rows_lem left t' pre post old new (xs ++ z ∷ []) ys zs same h' (omega arith)
          (omega arith) in
      rw (sym long) (rw (sym (split zs)) copied, kept' ∙ kept)
