-- ===== src/Coordinator/Run.antt =====
-- A run of the asynchronous queries (run_async_queries of
-- Realm/ObjectStore/impl/realm_coordinator.cpp).
use mathlib.Core.List.{Perm}
use mathlib.Core.List.Perm
use realm_cocoa.Base.{
  ℕ, ◌≡◌, ◌≤◌, ◌⊎◌, inl, inr, refl, ap, ◌∙◌, sym, subst, Bool, true, false, ◌&&◌, List, [], ◌∷◌,
  ◌++◌, Option, none, some, empty, All, All-map, All-append, arith,
}
use realm_cocoa.Coordinator.{
  HelperGroup, Query, main, Coordinator, swap_remove, sort_by_version, clean_up_dead_queries,
  open_helper_shared_group, move_new_queries_to_main, advance_helper_shared_group_to_latest,
  run_opened, run_cleaned, run_async_queries,
}
use realm_cocoa.Coordinator.Import.{
  IsHelperGroup, IsAt, ids, import_all-reads, sort_by_version-Rising, sort_by_version-perm,
  transfer-main,
}
use realm_cocoa.Coordinator.SwapRemove.{alive, swap_remove_lem}
use realm_cocoa.Coordinator.Pinned.{
  Idle, Held, Waiting, Running, Pinned, Pinned-later, at, clean_up-Pinned,
}

ids-append : (xs ys : List Query) → ids (xs ++ ys) ≡ ids xs ++ ids ys
ids-append [] ys = refl
ids-append (x ∷ xs) ys = ap (◌∷◌ x.id) (ids-append xs ys)

nonempty :
    (xs ys : List Query) {i : ℕ} {is : List ℕ} → Perm (ids ys) (i ∷ is) → empty (xs ++ ys) ≡ false
nonempty [] [] p = let e = Perm.nil-eq p in cc
nonempty [] (y ∷ ys) p = refl
nonempty (x ∷ xs) ys p = refl

left-nonempty : (qs : List Query) → empty qs && true ≡ false → empty qs ≡ false
left-nonempty [] e = cc
left-nonempty (q ∷ qs) e = refl

append-none : (xs : List ℕ) → xs ≡ xs ++ []
append-none [] = refl
append-none (x ∷ xs) = ap (◌∷◌ x) (append-none xs)

-- What a run gives: no assertion has failed, the invariant holds, no new query is left, and the
-- queries are those of a list.
abbrev pub Ran : (G : HelperGroup) → ℕ → List ℕ → Option (Coordinator G) → Type 0
Ran G n all result =
    (c : Coordinator G) × (result ≡ some c)
    × Pinned G n c
    × (c.new_queries ≡ [])
    × Perm (ids c.queries) all

module _ (G : HelperGroup) (laws : IsHelperGroup G) (opened : Option G.State) (n : ℕ) where
  -- Queries that run, or none, for a group that reads.
  abbrev Reads : G.State → List Query → Type 0
  Reads g qs = (v : ℕ) × (G.current g ≡ some v) × (v ≤ n) × All (IsAt main) qs

  first-opened :
      (new : List Query) (a sg : Option G.State)
      → Idle G sg
      → (open_helper_shared_group G sg n (at G [] new none a false) ≡ at G [] new none a true)
        ⊎ ((g : G.State) × (open_helper_shared_group G sg n (at G [] new none a false)
              ≡ at G [] new (some g) a false)
            × Reads g [])
  unfolding open_helper_shared_group
  first-opened new a none i = inl refl
  first-opened new a (some g) i =
      inr (G.begin_read g n, refl, (n, laws.begin_read-current g n i, omega arith, tt))

  opened-cases :
      (qs new : List Query) (r a : Option G.State)
      → Idle G opened
      → Held G (Running G n) qs r
      → (open_helper_shared_group G opened n (at G qs new r a false) ≡ at G qs new none a true)
        ⊎ ((g : G.State) × (open_helper_shared_group G opened n (at G qs new r a false)
              ≡ at G qs new (some g) a false)
            × Reads g qs)
  unfolding open_helper_shared_group
  opened-cases (q ∷ qs) new none a i (_, _, e, _, _) = cc
  opened-cases [] new none a i h = first-opened new a opened i
  opened-cases [] new (some g) a i h =
      inr (G.begin_read g n, refl, (n, laws.begin_read-current g n h, omega arith, tt))
  opened-cases (q ∷ qs) new (some g) a i (g', v, e, c, m) =
      let reads : G.current g ≡ some v = cc in
      inr (g, refl, (v, reads, m.0.0, All-map (q ∷ qs) (λ y t. t.1) m))

  reads-Held :
      (qs : List Query) (g : G.State)
      → empty qs ≡ false
      → G.current g ≡ some n
      → All (IsAt main) qs
      → Held G (Running G n) qs (some g)
  reads-Held [] g e c m = cc
  reads-Held (q ∷ qs) g e c m = (g, n, refl, c, All-map (q ∷ qs) (λ y t. (omega arith, t)) m)

  import_lem :
      (qs new : List Query) (x : Query) (g : G.State) (a : Option G.State)
      → Reads g qs
      → Held G (Waiting G n) (x ∷ new) a
      → Ran G n
          (ids qs ++ ids (x ∷ new))
          (advance_helper_shared_group_to_latest G n (at G qs (x ∷ new) (some g) a false))
  unfolding advance_helper_shared_group_to_latest move_new_queries_to_main
  import_lem qs new x g none r (_, _, e, _, _) = cc
  import_lem qs new x g (some a) (u, reads, l, m) (a0, v, e, c, w) =
      let waiting : G.current a ≡ some v = cc in
      let (a1, qs1, v1, e1, c1, l1, p1, i1) =
        import_all-reads G laws a v n (sort_by_version (x ∷ new)) waiting
          (sort_by_version-Rising v n (x ∷ new) (omega (arith, w.0)) w) in
      let (a2, e2, c2) = laws.advance_read-current a1 v1 n c1 l1 in
      let (g3, e3, c3) = laws.advance_read-current g u n reads l in
      let (qs2, e4, m2, i2) = transfer-main qs1 p1 in
      let kept : Perm (ids qs2) (ids (x ∷ new)) =
        subst (λ is. Perm is (ids (x ∷ new))) (sym (i2 ∙ i1))
          (Perm.map (λ q. q.id) (sort_by_version-perm (x ∷ new))) in
      (
        at G (qs ++ qs2) [] (some g3) (some (G.end_read a2)) false,
        rw (e1, e2, c2, e3, e4) refl,
        inr (
          laws.end_read-current a2,
          reads-Held (qs ++ qs2) g3 (nonempty qs qs2 kept) c3 (All-append (IsAt main) qs qs2 m m2),
        ),
        refl,
        subst (λ is. Perm is (ids qs ++ ids (x ∷ new))) (sym (ids-append qs qs2))
            (Perm.append_left (ids qs) kept),
      )

  advance_lem :
      (qs new : List Query) (g : G.State) (a : Option G.State)
      → empty qs && empty new ≡ false
      → Reads g qs
      → Held G (Waiting G n) new a
      → Ran G n
          (ids qs ++ ids new)
          (advance_helper_shared_group_to_latest G n (at G qs new (some g) a false))
  unfolding advance_helper_shared_group_to_latest
  advance_lem qs [] g a e (u, reads, l, m) w =
      let (g3, e3, c3) = laws.advance_read-current g u n reads l in
      (
        at G qs [] (some g3) a false,
        rw e3 refl,
        inr (w, reads-Held qs g3 (left-nonempty qs e) c3 m),
        refl,
        subst (Perm (ids qs)) (append-none (ids qs)) (Perm.refl (ids qs)),
      )
  advance_lem qs (x ∷ new) g a e r w = import_lem qs new x g a r w

  move_lem :
      (qs new : List Query) (r a : Option G.State)
      → Ran G n (ids qs ++ ids new) (some (move_new_queries_to_main G (at G qs new r a true)))
  unfolding move_new_queries_to_main
  move_lem qs new r a = (
    at G (qs ++ new) [] r a true,
    refl,
    inl refl,
    refl,
    subst (Perm (ids (qs ++ new))) (ids-append qs new) (Perm.refl (ids (qs ++ new))),
  )

  run_ready :
      (qs new : List Query) (r a : Option G.State) (b : Bool)
      → empty qs && empty new ≡ false
      → Idle G opened
      → Pinned G n (at G qs new r a b)
      → Ran G n (ids qs ++ ids new) (run_cleaned G opened n (at G qs new r a b))
  unfolding run_cleaned run_opened
  run_ready qs new r a true e i p = rw e (move_lem qs new r a)
  run_ready qs new r a false e i (inl f) = cc
  run_ready qs new r a false e i (inr (w, h)) = elim (opened-cases qs new r a i h) [
    | inl o ↦ rw e (
        subst (λ c. Ran G n (ids qs ++ ids new) (run_opened G n c)) (sym o)
          (move_lem qs new none a))
    | inr (g, o, reads) ↦ rw e (
        subst (λ c. Ran G n (ids qs ++ ids new) (run_opened G n c)) (sym o)
          (advance_lem qs new g a e reads w))
  ]

  run_cleaned-at :
      (qs new : List Query) (r a : Option G.State) (b : Bool)
      → Idle G opened
      → Pinned G n (at G qs new r a b)
      → Ran G n (ids qs ++ ids new) (run_cleaned G opened n (at G qs new r a b))
  unfolding run_cleaned
  run_cleaned-at [] [] r a b i p = (at G [] [] r a b, refl, p, refl, Perm.refl [])
  run_cleaned-at [] (x ∷ new) r a b i p = run_ready [] (x ∷ new) r a b refl i p
  run_cleaned-at (q ∷ qs) new r a b i p = run_ready (q ∷ qs) new r a b refl i p

swept-ids : (qs : List Query) → Perm (ids (swap_remove qs)) (ids (alive qs))
swept-ids qs = Perm.map (λ q. q.id) (swap_remove_lem qs).1

-- A run of the queries, from a state that agrees with the invariant, never fails: no assertion does,
-- no read transaction is moved back, and the invariant holds again. It leaves no new query, and the
-- queries are then the live ones of the old and of the new queries, each as often as it was there.
pub run_async_queries_lem :
    (G : HelperGroup) (laws : IsHelperGroup G) (opened : Option G.State) (before now : ℕ)
    (c : Coordinator G)
    → Idle G opened
    → before ≤ now
    → Pinned G before c
    → Ran G now
        (ids (alive c.queries) ++ ids (alive c.new_queries))
        (run_async_queries G opened now c)
unfolding run_async_queries clean_up_dead_queries
run_async_queries_lem G laws opened before now c i l p =
    let (c', e, p', n, k) =
      run_cleaned-at G laws opened now (swap_remove c.queries) (swap_remove c.new_queries)
        (clean_up_dead_queries G c).query_sg (clean_up_dead_queries G c).advancer_sg c.async_error i
        (clean_up-Pinned G laws now c (Pinned-later G before now c l p)) in
    (c', e, p', n, Perm.trans k (Perm.append (swept-ids c.queries) (swept-ids c.new_queries)))
