-- ===== src/IndexSet/Ranges.antt =====
-- The ranges of Realm/ObjectStore/index_set.hpp, the set that they stand for, and when they are
-- well formed: in order, not empty and not overlapping.
use realm_cocoa.Base.{
  ℕ, ◌≤◌, ◌<◌, ◌≡◌, refl, Bool, false, ◌&&◌, ◌||◌, List, [], ◌∷◌, arith, ltb, leb, rev_append, any,
}

-- std::pair<size_t, size_t>: the indices from `first` up to `second`, that excluded.
pub record Range : Type 0 where
  pub first : ℕ
  pub second : ℕ

abbrev pub IndexSet : Type 0
IndexSet = List Range

abbrev pub holds : ℕ → Range → Bool
holds j r = leb r.first j && ltb j r.second

-- Whether the index is in the set.
abbrev pub covers : IndexSet → ℕ → Bool
covers s j = any (holds j) s

-- The ranges ascend within [lo, hi].
abbrev pub Ascends : ℕ → ℕ → List Range → Type 0
Ascends lo hi [] = lo ≤ hi
Ascends lo hi (r ∷ rs) = (lo ≤ r.first) × (r.first < r.second) × Ascends r.second hi rs

-- The same of the ranges before an iterator, which stand nearest first.
abbrev pub Descends : ℕ → ℕ → List Range → Type 0
Descends lo hi [] = lo ≤ hi
Descends lo hi (p ∷ ps) = (p.second ≤ hi) × (p.first < p.second) × Descends lo p.first ps

pub Ascends-le : (lo hi : ℕ) (rs : List Range) → Ascends lo hi rs → lo ≤ hi
Ascends-le lo hi [] h = h
Ascends-le lo hi (r ∷ rs) h = omega (arith, Ascends-le r.second hi rs h.2)

pub Descends-le : (lo hi : ℕ) (ps : List Range) → Descends lo hi ps → lo ≤ hi
Descends-le lo hi [] h = h
Descends-le lo hi (p ∷ ps) h = omega (arith, Descends-le lo p.first ps h.2)

pub Ascends-mono :
    (lo lo' hi hi' : ℕ) (rs : List Range)
    → lo' ≤ lo
    → hi ≤ hi'
    → Ascends lo hi rs
    → Ascends lo' hi' rs
Ascends-mono lo lo' hi hi' [] p q h = omega arith
Ascends-mono lo lo' hi hi' (r ∷ rs) p q h =
    (omega arith, h.1, Ascends-mono r.second r.second hi hi' rs (omega arith) q h.2)

pub Descends-mono :
    (lo hi hi' : ℕ) (ps : List Range) → hi ≤ hi' → Descends lo hi ps → Descends lo hi' ps
Descends-mono lo hi hi' [] q h = omega arith
Descends-mono lo hi hi' (p ∷ ps) q h = (omega arith, h.1, h.2)

pub rev_append-Ascends :
    (lo m hi : ℕ) (ps rs : List Range)
    → Descends lo m ps
    → Ascends m hi rs
    → Ascends lo hi (rev_append ps rs)
rev_append-Ascends lo m hi [] rs d a = Ascends-mono m lo hi hi rs d (omega arith) a
rev_append-Ascends lo m hi (p ∷ ps) rs d a =
    rev_append-Ascends lo p.first hi ps (p ∷ rs) d.2
      (omega arith, d.1, Ascends-mono m p.second hi hi rs d.0 (omega arith) a)

pub covers-rev_append :
    (ps rs : List Range) (j : ℕ) → covers (rev_append ps rs) j ≡ (covers ps j || covers rs j)
covers-rev_append [] rs j = refl
covers-rev_append (p ∷ ps) rs j = ground (arith, covers-rev_append ps (p ∷ rs) j)

-- Nothing outside the bounds is in the set.
pub not-covers-above :
    (lo hi j : ℕ) (rs : List Range) → Ascends lo hi rs → hi ≤ j → covers rs j ≡ false
not-covers-above lo hi j [] h q = refl
not-covers-above lo hi j (r ∷ rs) h q =
    ground (arith, not-covers-above r.second hi j rs h.2 q, Ascends-le r.second hi rs h.2)

pub not-covers-below :
    (lo hi j : ℕ) (rs : List Range) → Ascends lo hi rs → j < lo → covers rs j ≡ false
not-covers-below lo hi j [] h q = refl
not-covers-below lo hi j (r ∷ rs) h q = ground (arith, not-covers-below r.second hi j rs h.2)

pub not-covers-Descends :
    (lo hi j : ℕ) (ps : List Range) → Descends lo hi ps → hi ≤ j → covers ps j ≡ false
not-covers-Descends lo hi j [] h q = refl
not-covers-Descends lo hi j (p ∷ ps) h q = ground (arith, not-covers-Descends lo p.first j ps h.2)
