-- ===== src/Base/Search.antt =====
-- std::lower_bound, as both standard libraries implement it: halving by the length that is left.
use Prim.Native.Nat.{ℕ, zero, suc, ◌+◌, ◌-◌, ◌/◌, ◌≤◌, ◌<◌}
use mathlib.Core.Path.{◌≡◌, refl}
use mathlib.Core.Bool.{Bool, true, false}
use mathlib.Core.List.{List, [], ◌∷◌}
use mathlib.Core.Logic.{inl, inr}
use mathlib.Core.Option.{none, some}
use native.Mathlib.Omega.{arith}
use native.Mathlib.Decide.{dec_lt}
use realm_cocoa.Base.Lists.{length, get_elem?, All}
use realm_cocoa.Base.Tests.{◌==◌, if◌then◌else◌, Bool-cases}

module _ {ℓ} {A : Type ℓ} (less : A → Bool) where
  -- Whether the element at a position passes the test of the search.
  abbrev pub less_at : List A → ℕ → Bool
  less_at xs i = elim (get_elem? xs i) [ none ↦ false | some x ↦ less x ]

  search_loop : ℕ → List A → ℕ → ℕ → ℕ
  search_loop zero xs first len = first
  search_loop (suc fuel) xs first len =
      let half = len / 2 in
      let upper = search_loop fuel xs (first + half + 1) (len - (half + 1)) in
      let lower = search_loop fuel xs first half in
      if len == 0 then first else if less_at xs (first + half) then upper else lower

  unfoldable pub lower_bound : List A → ℕ
  unfolding search_loop
  lower_bound xs = search_loop (length xs + 1) xs 0 (length xs)

  -- The elements that pass the test are those before the position.
  pub record IsPartition (xs : List A) (p : ℕ) : Type 0 where
    pub within : p ≤ length xs
    pub before : (i : ℕ) → i < p → less_at xs i ≡ true
    pub after : (i : ℕ) → p ≤ i → less_at xs i ≡ false

  search_loop_lem :
      (fuel : ℕ) (xs : List A) (first len p : ℕ)
      → IsPartition xs p
      → len < fuel
      → first ≤ p
      → p ≤ first + len
      → search_loop fuel xs first len ≡ p
  unfolding search_loop
  search_loop_lem zero xs first len p h f lo hi = absurd (omega arith)
  search_loop_lem (suc fuel) xs first len p h f lo hi = elim (Bool-cases (len == 0)) [
    | inl done ↦ rw done (ground arith)
    | inr more ↦ elim (dec_lt (first + len / 2) p) [
      | yes below ↦
          rw (more, h.before (first + len / 2) below)
            (search_loop_lem fuel xs (first + len / 2 + 1) (len - (len / 2 + 1)) p h (ground arith)
              (omega arith) (ground arith))
      | no above ↦
          rw (more, h.after (first + len / 2) (omega arith))
            (search_loop_lem fuel xs first (len / 2) p h (ground arith) lo (omega arith))
    ]
  ]

  -- On a partitioned vector the search ends, within its fuel, at the partition point.
  pub lower_bound_lem : (xs : List A) (p : ℕ) → IsPartition xs p → lower_bound xs ≡ p
  unfolding lower_bound
  lower_bound_lem xs p h =
      search_loop_lem (length xs + 1) xs 0 (length xs) p h (omega arith) (omega arith)
        (omega (arith, h.within))

  -- How many elements pass, where those that pass come first.
  abbrev pub point : List A → ℕ
  point [] = 0
  point (x ∷ xs) = if less x then suc (point xs) else 0

  -- No element passes behind one that does not.
  abbrev pub IsMonotone : List A → Type ℓ
  IsMonotone [] = Unit
  IsMonotone (x ∷ xs) = (less x ≡ false → All (λ y. less y ≡ false) xs) × IsMonotone xs

  none_pass : (xs : List A) (i : ℕ) → All (λ y. less y ≡ false) xs → less_at xs i ≡ false
  none_pass [] i h = refl
  none_pass (x ∷ xs) zero h = h.0
  none_pass (x ∷ xs) (suc i) h = none_pass xs i h.1

  pub point-within : (xs : List A) → point xs ≤ length xs
  point-within [] = omega arith
  point-within (x ∷ xs) = ground (arith, point-within xs)

  point-before : (xs : List A) (i : ℕ) → i < point xs → less_at xs i ≡ true
  point-before [] i h = elim h [ ]
  point-before (x ∷ xs) zero h = ground arith
  point-before (x ∷ xs) (suc i) h = ground (arith, point-before xs i)

  point-after : (xs : List A) (i : ℕ) → IsMonotone xs → point xs ≤ i → less_at xs i ≡ false
  point-after [] i m h = refl
  point-after (x ∷ xs) zero m h = ground arith
  point-after (x ∷ xs) (suc i) m h = elim (Bool-cases (less x)) [
    | inl e ↦ point-after xs i m.1 (let e' : point (x ∷ xs) ≡ suc (point xs) = rw e in omega arith)
    | inr e ↦ none_pass xs i (m.0 e)
  ]

  pub lower_bound-point : (xs : List A) → IsMonotone xs → lower_bound xs ≡ point xs
  lower_bound-point xs m = lower_bound_lem xs (point xs) (record {
    within = point-within xs;
    before = point-before xs;
    after = λ i h. point-after xs i m h;
  })
