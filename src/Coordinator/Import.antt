-- ===== src/Coordinator/Import.antt =====
-- The import of the new queries (advance_helper_shared_group_to_latest of
-- Realm/ObjectStore/impl/realm_coordinator.cpp).
use mathlib.Core.List.{Perm}
use mathlib.Core.List.Perm
use realm_cocoa.Base.{
  ℕ, ◌≤◌, ◌≡◌, refl, ap, Bool-cases, List, [], ◌∷◌, map, none, some, ltb, All, lt→ltb, ltb→lt,
  arith, inl, inr,
}
use realm_cocoa.Coordinator.{
  HelperGroup, Query, Place, handed_over, advancer, main, insert_by_version, sort_by_version,
  transfer, import_all,
}

-- What the core library documents of a shared group's reads.
pub record IsHelperGroup (G : HelperGroup) : Type 0 where
  pub begin_read-current :
      (g : G.State) (n : ℕ) → G.current g ≡ none → G.current (G.begin_read g n) ≡ some n
  pub begin_read_at-current :
      (g : G.State) (v : ℕ) → G.current g ≡ none → G.current (G.begin_read_at g v) ≡ some v
  pub end_read-current : (g : G.State) → G.current (G.end_read g) ≡ none
  pub advance_read-current :
      (g : G.State) (u v : ℕ)
      → G.current g ≡ some u
      → u ≤ v
      → (g' : G.State) × (G.advance_read g v ≡ some g') × (G.current g' ≡ some v)

abbrev pub IsAt : Place → Query → Type 0
IsAt p q = q.place ≡ p

-- A query that waits to be imported, at a version between two others.
abbrev pub Waits : ℕ → ℕ → Query → Type 0
Waits low high q = (low ≤ q.version) × (q.version ≤ high) × IsAt handed_over q

abbrev pub ids : List Query → List ℕ
ids qs = map (λ q. q.id) qs

-- Queries that wait, each at a version not below the one before.
abbrev pub Rising : ℕ → ℕ → List Query → Type 0
Rising low high [] = low ≤ high
Rising low high (q ∷ qs) = (low ≤ q.version) × IsAt handed_over q × Rising q.version high qs

insert_by_version-Rising :
    (low high : ℕ) (q : Query) (xs : List Query)
    → Waits low high q
    → Rising low high xs
    → Rising low high (insert_by_version q xs)
insert_by_version-Rising low high q [] w r = (w.0, w.2, w.1)
insert_by_version-Rising low high q (x ∷ xs) w r = elim (Bool-cases (ltb x.version q.version)) [
  | inl b ↦ rw b (
    r.0,
    r.1,
    insert_by_version-Rising x.version high q xs
        (omega (arith, ltb→lt x.version q.version b), w.1, w.2) r.2,
  )
  | inr b ↦ rw b (w.0, w.2, (ground (arith, lt→ltb x.version q.version), r.1, r.2))
]

pub sort_by_version-Rising :
    (low high : ℕ) (qs : List Query)
    → low ≤ high
    → All (Waits low high) qs
    → Rising low high (sort_by_version qs)
unfolding sort_by_version
sort_by_version-Rising low high [] l h = l
sort_by_version-Rising low high (q ∷ qs) l h =
    insert_by_version-Rising low high q (sort_by_version qs) h.0
      (sort_by_version-Rising low high qs l h.1)

insert_by_version-perm : (q : Query) (xs : List Query) → Perm (insert_by_version q xs) (q ∷ xs)
insert_by_version-perm q [] = Perm.refl (q ∷ [])
insert_by_version-perm q (x ∷ xs) = elim (Bool-cases (ltb x.version q.version)) [
  | inl b ↦ rw b (Perm.trans (Perm.cons x (insert_by_version-perm q xs)) (Perm.swap q x xs))
  | inr b ↦ rw b (Perm.refl (q ∷ x ∷ xs))
]

pub sort_by_version-perm : (qs : List Query) → Perm (sort_by_version qs) qs
unfolding sort_by_version
sort_by_version-perm [] = Perm.refl []
sort_by_version-perm (q ∷ qs) =
    Perm.trans (insert_by_version-perm q (sort_by_version qs))
      (Perm.cons q (sort_by_version-perm qs))

pub transfer-main :
    (qs : List Query)
    → All (IsAt advancer) qs
    → (qs' : List Query) × (transfer qs ≡ some qs') × All (IsAt main) qs' × (ids qs' ≡ ids qs)
unfolding transfer
transfer-main [] h = ([], refl, tt, refl)
transfer-main (q ∷ qs) h =
    let (qs', e, m, i) = transfer-main qs h.1 in
    (record q { place = main } ∷ qs', rw (h.0, e) refl, (refl, m), ap (◌∷◌ q.id) i)

module _ (G : HelperGroup) (laws : IsHelperGroup G) where
  pub import_all-reads :
      (g : G.State) (low high : ℕ) (qs : List Query)
      → G.current g ≡ some low
      → Rising low high qs
      → (g' : G.State) × (qs' : List Query) × (v : ℕ) × (import_all G g qs ≡ some (g', qs'))
        × (G.current g' ≡ some v)
        × (v ≤ high)
        × All (IsAt advancer) qs'
        × (ids qs' ≡ ids qs)
  unfolding import_all
  import_all-reads g low high [] c r = (g, [], low, refl, c, r, tt, refl)
  import_all-reads g low high (q ∷ qs) c r =
      let (g1, a, c1) = laws.advance_read-current g low q.version c r.0 in
      let (g', qs', v, e, c', l, p, i) = import_all-reads g1 q.version high qs c1 r.2 in
      (
        g',
        record q { place = advancer } ∷ qs',
        v,
        rw (a, r.1, e) refl,
        c',
        l,
        (refl, p),
        ap (◌∷◌ q.id) i,
      )
