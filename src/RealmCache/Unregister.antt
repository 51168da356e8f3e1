-- ===== src/RealmCache/Unregister.antt =====
-- unregister_realm of Realm/ObjectStore/impl/realm_coordinator.cpp.
use realm_cocoa.Base.{
  ℕ, zero, suc, ◌+◌, ◌≡◌, refl, ap, subst, ◌∙◌, inl, inr, Bool, true, false, ◌||◌, List, [], ◌∷◌,
  ◌++◌, none, some, ◌==◌, if◌then◌else◌, ltb, lt→ltb, length, length-append, get_elem?, All,
  Option-cases, arith,
}
use realm_cocoa.Coordinator.{back, pop_back, remove_swapping}
use realm_cocoa.RealmCache.{CachedRealm}

-- Whether an entry is taken out: that of the Realm, and those of destroyed ones.
abbrev pub is_leaving : ℕ → CachedRealm → Bool
is_leaving key x = x.is_expired || x.realm_key == key

-- The loop of unregister_realm, by rounds.
unfoldable pub unregister_from : ℕ → ℕ → ℕ → List CachedRealm → List CachedRealm
unregister_from zero key i xs = xs
unregister_from (suc rounds) key i xs = elim (get_elem? xs i) [
  | none ↦ xs
  | some x ↦
      unregister_from rounds key (i + 1) (if is_leaving key x then remove_swapping x xs i else xs)
]

unfoldable pub unregister_realm : ℕ → List CachedRealm → List CachedRealm
unregister_realm key xs = unregister_from (length xs) key 0 xs

abbrev pub Stays : ℕ → CachedRealm → Type 0
Stays key x = is_leaving key x ≡ false

Stays-at :
    (key : ℕ) (xs : List CachedRealm) (i : ℕ) (x : CachedRealm)
    → All (Stays key) xs
    → get_elem? xs i ≡ some x
    → Stays key x
Stays-at key [] i x h e = cc
Stays-at key (y ∷ ys) zero x h e = let same : y ≡ x = cc in subst (Stays key) same h.0
Stays-at key (y ∷ ys) (suc i) x h e = Stays-at key ys i x h.1 e

unregister_from-Stays :
    (rounds key i : ℕ) (x : CachedRealm) (xs : List CachedRealm)
    → All (Stays key) xs
    → unregister_from rounds key (suc i) (x ∷ xs) ≡ x ∷ xs
unfolding unregister_from
unregister_from-Stays zero key i x xs h = refl
unregister_from-Stays (suc rounds) key i x xs h = elim (Option-cases (get_elem? xs i)) [
  | inl e ↦ simp (unregister_from, e)
  | inr (y, e) ↦
      let next : suc i + 1 ≡ suc (suc i) = omega arith in
      simp (unregister_from, e, Stays-at key xs i y h e, next)
        (unregister_from-Stays rounds key (suc i) x xs h)
]

back-last : (y x : CachedRealm) (xs : List CachedRealm) → back y (xs ++ x ∷ []) ≡ x
back-last y x [] = refl
back-last y x (z ∷ zs) = back-last z x zs

pop_back-last : (y x : CachedRealm) (xs : List CachedRealm) → pop_back (y ∷ (xs ++ x ∷ [])) ≡ y ∷ xs
pop_back-last y x [] = refl
pop_back-last y x (z ∷ zs) = ap (◌∷◌ y) (pop_back-last z x zs)

first-removed :
    (gone x : CachedRealm) (xs : List CachedRealm)
    → remove_swapping gone (gone ∷ (xs ++ x ∷ [])) 0 ≡ x ∷ xs
first-removed gone x xs =
    let more : ltb 1 (suc (length (xs ++ x ∷ []))) ≡ true =
      lt→ltb 1 (suc (length (xs ++ x ∷ []))) (omega (arith, length-append xs (x ∷ []))) in
    rw (more, back-last gone x xs) (pop_back-last x x xs)

gone_leaves : (key : ℕ) (gone : CachedRealm) → gone.is_expired ≡ true → is_leaving key gone ≡ true
gone_leaves key gone e = rw e refl

unregister_from-step :
    (rounds key i : ℕ) (x : CachedRealm) (xs : List CachedRealm)
    → get_elem? xs i ≡ some x
    → is_leaving key x ≡ true
    → unregister_from (suc rounds) key i xs
      ≡ unregister_from rounds key (i + 1) (remove_swapping x xs i)
unfolding unregister_from
unregister_from-step rounds key i x xs e l = simp (unregister_from, e, l)

-- When the first entry is that of a destroyed Realm, no entry between leaves and the Realm that is
-- unregistered has the last entry, that entry is put in the place of the first without a look at it,
-- and the Realm stays registered.
pub unregister_realm_misses :
    (gone x : CachedRealm) (xs : List CachedRealm)
    → gone.is_expired ≡ true
    → All (Stays x.realm_key) xs
    → unregister_realm x.realm_key (gone ∷ (xs ++ x ∷ [])) ≡ x ∷ xs
unfolding unregister_realm
unregister_realm_misses gone x xs e h =
    let left = gone_leaves x.realm_key gone e in
    let all = gone ∷ (xs ++ x ∷ []) in
    let rounds = length (xs ++ x ∷ []) in
    unregister_from-step rounds x.realm_key 0 gone all refl left
    ∙ ap (unregister_from rounds x.realm_key 1) (first-removed gone x xs)
    ∙ unregister_from-Stays rounds x.realm_key 0 x xs h
