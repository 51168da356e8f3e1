-- ===== src/Coordinator/SwapRemove/Kept.antt =====
-- What every query of a list has, those have that swap_remove leaves
-- (Realm/ObjectStore/impl/realm_coordinator.cpp).
use realm_cocoa.Base.{
  ℕ, zero, suc, ◌+◌, ◌≡◌, subst, List, [], ◌∷◌, some, ltb, length, get_elem?, set, All, inl, inr,
  Bool-cases, Option-cases,
}
use realm_cocoa.Coordinator.{Query, back, pop_back, remove_swapping, swap_remove_from, swap_remove}
use realm_cocoa.Coordinator.SwapRemove.{round-alive, round-dead}

-- What holds of every query still does when some are removed.
module _ {κ} (P : Query → Type κ) where
  back-All : (y : Query) (ys : List Query) → P y → All P ys → P (back y ys)
  back-All y [] p h = p
  back-All y (z ∷ zs) p h = back-All z zs h.0 h.1

  pop_back-All : (xs : List Query) → All P xs → All P (pop_back xs)
  pop_back-All [] h = tt
  pop_back-All (x ∷ []) h = tt
  pop_back-All (x ∷ y ∷ ys) h = (h.0, pop_back-All (y ∷ ys) h.1)

  set-All : (xs : List Query) (i : ℕ) (v : Query) → P v → All P xs → All P (set xs i v)
  set-All [] i v p h = tt
  set-All (x ∷ xs) zero v p h = (p, h.1)
  set-All (x ∷ xs) (suc i) v p h = (h.0, set-All xs i v p h.1)

  get_elem?-All : (xs : List Query) (i : ℕ) (q : Query) → get_elem? xs i ≡ some q → All P xs → P q
  get_elem?-All [] i q e h = cc
  get_elem?-All (x ∷ xs) zero q e h = let e' : x ≡ q = cc in subst P e' h.0
  get_elem?-All (x ∷ xs) (suc i) q e h = get_elem?-All xs i q e h.1

  remove_swapping-All :
      (q : Query) (xs : List Query) (i : ℕ) → P q → All P xs → All P (remove_swapping q xs i)
  remove_swapping-All q xs i p h = elim (Bool-cases (ltb (i + 1) (length xs))) [
    | inl b ↦
        rw b (pop_back-All (set xs i (back q xs)) (set-All xs i (back q xs) (back-All q xs p h) h))
    | inr b ↦ rw b (pop_back-All xs h)
  ]

  swap_remove_from-All :
      (rounds i : ℕ) (xs : List Query) → All P xs → All P (swap_remove_from rounds i xs)
  unfolding swap_remove_from
  swap_remove_from-All zero i xs h = h
  swap_remove_from-All (suc rounds) i xs h = elim (Option-cases (get_elem? xs i)) [
    | inl e ↦ rw (e, swap_remove_from) h
    | inr (q, e) ↦ elim (Bool-cases q.is_alive) [
      | inl a ↦ rw (round-alive rounds i xs e a) (swap_remove_from-All rounds (i + 1) xs h)
      | inr a ↦ rw (round-dead rounds i xs e a) (
          swap_remove_from-All rounds i (remove_swapping q xs i)
            (remove_swapping-All q xs i (get_elem?-All xs i q e h) h))
    ]
  ]

  pub swap_remove-All : (xs : List Query) → All P xs → All P (swap_remove xs)
  unfolding swap_remove
  swap_remove-All xs h = swap_remove_from-All (length xs) 0 xs h
