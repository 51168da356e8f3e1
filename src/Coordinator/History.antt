-- ===== src/Coordinator/History.antt =====
-- What happens to the queries of a file, in any order (Realm/ObjectStore/impl/realm_coordinator.cpp).
use realm_cocoa.Base.{◌≡◌, ◌≤◌, refl, ℕ, List, [], ◌∷◌, Option, some}
use realm_cocoa.Coordinator.{
  HelperGroup, Query, handed_over, Coordinator, register_query, run_async_queries,
  finish_async_queries, ◌>>=◌,
}
use realm_cocoa.Coordinator.Import.{IsHelperGroup, IsAt}
use realm_cocoa.Coordinator.Pinned.{
  Idle, Pinned, Pinned-later, register_query-Pinned, finish-Pinned,
}
use realm_cocoa.Coordinator.Run.{run_async_queries_lem}

module _ (G : HelperGroup) where
  -- A critical section of the coordinator's query mutex.
  pub data Section : Type 0 where
    registers : Option G.State → Query → Section
    runs : Option G.State → Section
    finishes : Section

  -- At the file's newest version.
  abbrev pub enter : ℕ → Section → Coordinator G → Option (Coordinator G)
  enter newest (registers opened q) c = some (register_query G opened q c)
  enter newest (runs opened) c = run_async_queries G opened newest c
  enter newest finishes c = some (finish_async_queries G c)

  unfoldable pub enter_all : List (ℕ × Section) → Coordinator G → Option (Coordinator G)
  enter_all [] c = some c
  enter_all (s ∷ ss) c = do c' ← enter s.0 s.1 c; enter_all ss c'

  -- A helper group that has just been opened reads nothing, and a query that is registered is handed
  -- over from a version of the file.
  abbrev pub Fits : ℕ → Section → Type 0
  Fits newest (registers opened q) = Idle G opened × (q.version ≤ newest) × IsAt handed_over q
  Fits newest (runs opened) = Idle G opened
  Fits newest finishes = Unit

  -- The newest version of a file never goes back.
  abbrev pub Happens : ℕ → List (ℕ × Section) → Type 0
  Happens n [] = Unit
  Happens n (s ∷ ss) = (n ≤ s.0) × Fits s.0 s.1 × Happens s.0 ss

module _ (G : HelperGroup) (laws : IsHelperGroup G) where
  enter-Pinned :
      (n m : ℕ) (s : Section G) (c : Coordinator G)
      → n ≤ m
      → Fits G m s
      → Pinned G n c
      → (c' : Coordinator G) × (enter G m s c ≡ some c') × Pinned G m c'
  enter-Pinned n m (registers opened q) c l f p = (
    register_query G opened q c,
    refl,
    register_query-Pinned G laws opened m q c f.0 f.1 f.2 (Pinned-later G n m c l p),
  )
  enter-Pinned n m (runs opened) c l f p =
      let (c', e, p', _, _) = run_async_queries_lem G laws opened n m c f l p in (c', e, p')
  enter-Pinned n m finishes c l f p =
      (finish_async_queries G c, refl, finish-Pinned G laws m c (Pinned-later G n m c l p))

  -- Whatever is registered, run and finished in whatever order, at versions of the file that never go
  -- back: no assertion fails, no read transaction is moved back, and afterwards either an error has
  -- been kept or each helper group reads if and only if it has queries, the one that imports at a
  -- version not above that of any query that waits for it.
  pub enter_all-Pinned :
      (n : ℕ) (ss : List (ℕ × Section G)) (c : Coordinator G)
      → Happens G n ss
      → Pinned G n c
      → (c' : Coordinator G) × (m : ℕ) × (enter_all G ss c ≡ some c') × Pinned G m c'
  unfolding enter_all
  enter_all-Pinned n [] c h p = (c, n, refl, p)
  enter_all-Pinned n (s ∷ ss) c h p =
      let (c1, e, p1) = enter-Pinned n s.0 s.1 c h.0 h.1 p in
      let (c2, m, e2, p2) = enter_all-Pinned s.0 ss c1 h.2 p1 in (c2, m, rw (e, e2) refl, p2)
