-- ===== src/Coordinator/Pinned.antt =====
-- What a coordinator's helper groups read (pin_version, register_query and clean_up_dead_queries of
-- Realm/ObjectStore/impl/realm_coordinator.cpp).
use realm_cocoa.Base.{
  ℕ, suc, ◌≡◌, ◌≤◌, ◌⊎◌, inl, inr, refl, sym, subst, Bool, true, false, ◌&&◌, List, [], ◌∷◌, map,
  Option, none, some, ltb, length, empty, All, All-map, All-append, Bool-cases, ltb→lt, lt→ltb,
  arith,
}
use realm_cocoa.Coordinator.{
  HelperGroup, Query, handed_over, main, Coordinator, pin_version, register_query, swap_remove,
  did_remove, end_read_if, clean_up_dead_queries, prepare_handover, with_version,
  finish_async_queries,
}
use realm_cocoa.Coordinator.Import.{IsHelperGroup, IsAt, Waits}
use realm_cocoa.Coordinator.SwapRemove.Kept.{swap_remove-All}

module _ (G : HelperGroup) where
  -- No read transaction.
  abbrev pub Idle : Option G.State → Type 0
  Idle none = Unit
  Idle (some g) = G.current g ≡ none

  -- A group reads if and only if there are queries for it, and at a version that suits them.
  abbrev pub Held : (ℕ → Query → Type 0) → List Query → Option G.State → Type 0
  Held P [] sg = Idle sg
  Held P (q ∷ qs) sg =
      (g : G.State) × (v : ℕ) × (sg ≡ some g) × (G.current g ≡ some v) × All (P v) (q ∷ qs)

  -- The new queries wait for the advancer, which is behind them all.
  abbrev pub Waiting : ℕ → ℕ → Query → Type 0
  Waiting n v q = Waits v n q

  abbrev pub Running : ℕ → ℕ → Query → Type 0
  Running n v q = (v ≤ n) × IsAt main q

  -- `n` is the newest version.
  abbrev pub Pinned : ℕ → Coordinator G → Type 0
  Pinned n c =
      (c.async_error ≡ true)
      ⊎ (Held (Waiting n) c.new_queries c.advancer_sg × Held (Running n) c.queries c.query_sg)

  abbrev pub at : List Query → List Query → Option G.State → Option G.State → Bool → Coordinator G
  at qs new r a b = record {
    queries = qs;
    new_queries = new;
    query_sg = r;
    advancer_sg = a;
    async_error = b;
  }

  Held-map :
      {P Q : ℕ → Query → Type 0} (qs : List Query) (sg : Option G.State)
      → ((v : ℕ) (q : Query) → P v q → Q v q)
      → Held P qs sg
      → Held Q qs sg
  Held-map [] sg f h = h
  Held-map (q ∷ qs) sg f (g, v, e, c, a) = (g, v, e, c, All-map (q ∷ qs) (f v) a)

  pub Pinned-later : (n m : ℕ) (c : Coordinator G) → n ≤ m → Pinned n c → Pinned m c
  Pinned-later n m c l (inl e) = inl e
  Pinned-later n m c l (inr (w, r)) = inr (
    Held-map c.new_queries c.advancer_sg (λ v q h. (h.0, omega (arith, h.1, l), h.2)) w,
    Held-map c.queries c.query_sg (λ v q h. (omega (arith, h.0, l), h.1)) r,
  )

module _ (G : HelperGroup) (laws : IsHelperGroup G) where
  register-at :
      (opened : Option G.State) (n : ℕ) (q : Query) (qs new : List Query) (r a : Option G.State)
      (b : Bool)
      → Idle G opened
      → q.version ≤ n
      → IsAt handed_over q
      → Pinned G n (at G qs new r a b)
      → Pinned G n (register_query G opened q (at G qs new r a b))
  unfolding register_query pin_version
  register-at opened n q qs new r a true i l p h = inl refl
  register-at none n q qs new r none false i l p h = inl refl
  register-at (some g) n q qs [] r none false i l p (inl e) = cc
  register-at (some g) n q qs [] r none false i l p (inr (w, u)) = inr (
    (
      G.begin_read_at g q.version,
      q.version,
      refl,
      laws.begin_read_at-current g q.version i,
      ((omega arith, l, p), tt),
    ),
    u,
  )
  register-at (some g) n q qs (x ∷ xs) r none false i l p (inl e) = cc
  register-at (some g) n q qs (x ∷ xs) r none false i l p (inr ((_, _, e, _, _), u)) = cc
  register-at opened n q qs [] r (some g) false i l p (inl e) = cc
  register-at opened n q qs [] r (some g) false i l p (inr (w, u)) = inr (
    (
      G.begin_read_at g q.version,
      q.version,
      refl,
      laws.begin_read_at-current g q.version w,
      ((omega arith, l, p), tt),
    ),
    u,
  )
  register-at opened n q qs (x ∷ xs) r (some g) false i l p (inl e) = cc
  register-at opened n q qs (x ∷ xs) r (some g) false i l p (inr ((g', v, e, c, w), u)) =
      let reads : G.current g ≡ some v = cc in
      elim (Bool-cases (ltb q.version v)) [
        | inl b ↦
            rw (reads, b)
              (inr (
                (
                  G.begin_read_at (G.end_read g) q.version,
                  q.version,
                  refl,
                  laws.begin_read_at-current (G.end_read g) q.version (laws.end_read-current g),
                  All-append (Waits q.version n) (x ∷ xs) (q ∷ [])
                      (All-map (x ∷ xs)
                        (λ y t. (omega (arith, t.0, ltb→lt q.version v b), t.1, t.2)) w)
                      ((omega arith, l, p), tt),
                ),
                u,
              ))
        | inr b ↦
            rw (reads, b)
              (inr (
                (
                  g,
                  v,
                  refl,
                  reads,
                  All-append (Waits v n) (x ∷ xs) (q ∷ []) w
                      ((ground (arith, lt→ltb q.version v), l, p), tt),
                ),
                u,
              ))
      ]

  -- The state of a group after a clean-up that has left some queries.
  sweep-left :
      (P : ℕ → Query → Type 0) (b : Bool) (left : List Query) (g : G.State) (v : ℕ)
      → (empty left ≡ true → b ≡ true)
      → G.current g ≡ some v
      → All (P v) left
      → Held G P left (end_read_if G (b && empty left) (some g))
  sweep-left P true [] g v f c a = laws.end_read-current g
  sweep-left P false [] g v f c a = let absurd_b = f refl in cc
  sweep-left P true (q ∷ qs) g v f c a = (g, v, refl, c, a)
  sweep-left P false (q ∷ qs) g v f c a = (g, v, refl, c, a)

  emptied : (left : List Query) (n : ℕ) → empty left ≡ true → ltb (length left) (suc n) ≡ true
  emptied [] n h = lt→ltb 0 (suc n) (omega arith)
  emptied (q ∷ qs) n h = cc

  sweep-empty :
      (P : ℕ → Query → Type 0) (sg : Option G.State)
      → Held G P [] sg
      → Held G P (swap_remove []) (end_read_if G (did_remove [] && empty (swap_remove [])) sg)
  unfolding swap_remove
  sweep-empty P none h = tt
  sweep-empty P (some g) h = h

  sweep-Held :
      (P : ℕ → Query → Type 0) (qs : List Query) (sg : Option G.State)
      → Held G P qs sg
      → Held G P (swap_remove qs) (end_read_if G (did_remove qs && empty (swap_remove qs)) sg)
  sweep-Held P [] sg h = sweep-empty P sg h
  sweep-Held P (q ∷ qs) sg (g, v, e, c, a) =
      subst
        (λ s.
          Held G P (swap_remove (q ∷ qs))
            (end_read_if G (did_remove (q ∷ qs) && empty (swap_remove (q ∷ qs))) s))
        (sym e)
        (sweep-left P (did_remove (q ∷ qs)) (swap_remove (q ∷ qs)) g v
          (emptied (swap_remove (q ∷ qs)) (length qs)) c (swap_remove-All (P v) (q ∷ qs) a))

  pub clean_up-Pinned :
      (n : ℕ) (c : Coordinator G) → Pinned G n c → Pinned G n (clean_up_dead_queries G c)
  unfolding clean_up_dead_queries
  clean_up-Pinned n c (inl e) = inl e
  clean_up-Pinned n c (inr (w, r)) = inr (
    sweep-Held (Waiting G n) c.new_queries c.advancer_sg w,
    sweep-Held (Running G n) c.queries c.query_sg r,
  )

  pub register_query-Pinned :
      (opened : Option G.State) (n : ℕ) (q : Query) (c : Coordinator G)
      → Idle G opened
      → q.version ≤ n
      → IsAt handed_over q
      → Pinned G n c
      → Pinned G n (register_query G opened q c)
  register_query-Pinned opened n q c =
      register-at opened n q c.queries c.new_queries c.query_sg c.advancer_sg c.async_error

  with_version-All :
      (n v version : ℕ) (qs : List Query)
      → All (Running G n v) qs
      → All (Running G n v) (map (with_version version) qs)
  with_version-All n v version [] h = tt
  with_version-All n v version (q ∷ qs) h = (h.0, with_version-All n v version qs h.1)

  handed-Held :
      (n : ℕ) (qs : List Query) (sg : Option G.State)
      → Held G (Running G n) qs sg
      → Held G (Running G n) (prepare_handover G sg qs) sg
  handed-Held n [] none h = tt
  handed-Held n [] (some g) h =
      let nothing : prepare_handover G (some g) [] ≡ [] = rw (h, prepare_handover) refl in
      subst (λ qs. Held G (Running G n) qs (some g)) (sym nothing) h
  handed-Held n (q ∷ qs) none (g, v, e, c, a) = cc
  handed-Held n (q ∷ qs) (some g') (g, v, e, c, a) =
      let reads : G.current g' ≡ some v = cc in
      let handed : prepare_handover G (some g') (q ∷ qs) ≡ map (with_version v) (q ∷ qs) =
        rw (reads, prepare_handover) refl in
      subst (λ qs. Held G (Running G n) qs (some g')) (sym handed)
        (g', v, refl, reads, with_version-All n v v (q ∷ qs) a)

  pub finish-Pinned :
      (n : ℕ) (c : Coordinator G) → Pinned G n c → Pinned G n (finish_async_queries G c)
  unfolding finish_async_queries
  finish-Pinned n c (inl e) =
      clean_up-Pinned n (record c { queries = prepare_handover G c.query_sg c.queries }) (inl e)
  finish-Pinned n c (inr (w, r)) =
      clean_up-Pinned n (record c { queries = prepare_handover G c.query_sg c.queries })
        (inr (w, handed-Held n c.queries c.query_sg r))
