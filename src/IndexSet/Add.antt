-- ===== src/IndexSet/Add.antt =====
-- `IndexSet::add` and `do_add` insert one index into the set.
use realm_cocoa.Base.{
  ℕ, ◌+◌, ◌≤◌, ◌<◌, ◌≡◌, refl, ◌||◌, List, [], ◌∷◌, arith, ltb, ◌==◌, word, Bool-cases, ltb→lt, inl,
  inr,
}
use realm_cocoa.IndexSet.Ranges.{
  Range, IndexSet, covers, Ascends, Descends, Descends-mono, Descends-le, rev_append-Ascends,
  covers-rev_append,
}
use realm_cocoa.IndexSet.{find, find_from, do_add, add}

-- The range at an iterator reaches past the index, and starts after the range before it ends.
abbrev pub Past : ℕ → List Range → Type 0
Past index [] = Unit {0}
Past index (r ∷ rs) = index < r.second

abbrev pub Gap : List Range → List Range → Type 0
Gap [] rs = Unit {0}
Gap (p ∷ ps) [] = Unit {0}
Gap (p ∷ ps) (r ∷ rs) = p.second ≤ r.first

-- A position that splits well-formed ranges at the index.
pub record Splits (lo hi index : ℕ) (before rest : List Range) : Type 0 where
  pub below : Descends lo index before
  pub above : Past index rest
  pub apart : Gap before rest
  pub start : Ascends lo hi rest

module _ (lo hi index : ℕ) (h : index < hi) (w : hi < word) where
  pub do_add-covers :
      (before rest : List Range) (j : ℕ)
      → Splits lo hi index before rest
      → covers (do_add (record { before = before; rest = rest }) index) j
        ≡ ((j == index) || covers before j || covers rest j)
  unfolding do_add
  do_add-covers [] [] j s = ground arith
  do_add-covers [] (r ∷ rs) j s = ground arith
  do_add-covers (p ∷ ps) [] j s = ground (
    arith,
    covers-rev_append ps (record p { second = index + 1 } ∷ []) j,
    covers-rev_append ps (p ∷ record { first = index; second = index + 1 } ∷ []) j,
  )
  do_add-covers (p ∷ ps) (r ∷ rs) j s = ground (
    arith,
    covers-rev_append ps (p ∷ r ∷ rs) j,
    covers-rev_append ps (record p { second = index + 1 } ∷ r ∷ rs) j,
    covers-rev_append ps (p ∷ record r { first = index } ∷ rs) j,
    covers-rev_append ps (p ∷ record { first = index; second = index + 1 } ∷ r ∷ rs) j,
  )

  pub do_add-Ascends :
      (before rest : List Range)
      → Splits lo hi index before rest
      → Ascends lo hi (do_add (record { before = before; rest = rest }) index)
  unfolding do_add
  do_add-Ascends [] [] s = ground (arith, s.below)
  do_add-Ascends [] (r ∷ rs) s = ground (arith, s.below, s.start)
  do_add-Ascends (p ∷ ps) [] s = ground (
    arith,
    rev_append-Ascends lo p.first hi ps (record p { second = index + 1 } ∷ []) s.below.2,
    rev_append-Ascends lo p.first hi ps (p ∷ record { first = index; second = index + 1 } ∷ [])
        s.below.2,
  )
  do_add-Ascends (p ∷ ps) (r ∷ rs) s = ground (
    arith,
    rev_append-Ascends lo p.first hi ps (p ∷ r ∷ rs) s.below.2,
    rev_append-Ascends lo p.first hi ps (record p { second = index + 1 } ∷ r ∷ rs) s.below.2,
    rev_append-Ascends lo p.first hi ps (p ∷ record r { first = index } ∷ rs) s.below.2,
    rev_append-Ascends lo p.first hi ps (p ∷ record { first = index; second = index + 1 } ∷ r ∷ rs)
        s.below.2,
  )

-- A split at an index, from ranges that meet at a bound.
pub Splits-at :
    (lo m hi index : ℕ) (before rest : List Range)
    → Descends lo m before
    → m ≤ index
    → Ascends m hi rest
    → Past index rest
    → Splits lo hi index before rest
Splits-at lo m hi index [] [] d le a past = omega arith
Splits-at lo m hi index [] (r ∷ rs) d le a past = record {
  below = omega arith;
  above = past;
  apart = tt;
  start = (omega arith, a.1, a.2);
}
Splits-at lo m hi index (p ∷ ps) [] d le a past = record {
  below = Descends-mono lo m index (p ∷ ps) le d;
  above = tt;
  apart = tt;
  start = omega (arith, Descends-le lo m (p ∷ ps) d);
}
Splits-at lo m hi index (p ∷ ps) (r ∷ rs) d le a past = record {
  below = Descends-mono lo m index (p ∷ ps) le d;
  above = past;
  apart = omega arith;
  start = (omega (arith, Descends-le lo m (p ∷ ps) d), a.1, a.2);
}

-- `find` stops at the first range that reaches past the index.
find_from-Splits :
    (lo m hi index : ℕ) (before rest : List Range)
    → Descends lo m before
    → m ≤ index
    → Ascends m hi rest
    → let it = find_from before rest index in Splits lo hi index it.before it.rest
unfolding find_from
find_from-Splits lo m hi index before [] d le a = Splits-at lo m hi index before [] d le a tt
find_from-Splits lo m hi index before (r ∷ rest) d le a = elim (Bool-cases (ltb index r.second)) [
  | inl here ↦ rw here (Splits-at lo m hi index before (r ∷ rest) d le a (ltb→lt _ _ here))
  | inr on ↦ rw on (
      find_from-Splits lo r.second hi index (r ∷ before) rest
        (omega arith, a.1, Descends-mono lo m r.first before a.0 d) (ground arith) a.2)
]

pub find-Splits :
    (lo hi index : ℕ) (s : IndexSet)
    → lo ≤ index
    → Ascends lo hi s
    → Splits lo hi index (find s index).before (find s index).rest
unfolding find
find-Splits lo hi index s le a = find_from-Splits lo lo hi index [] s (omega arith) le a

find_from-covers :
    (before rest : List Range) (index j : ℕ)
    → let it = find_from before rest index in
      (covers it.before j || covers it.rest j) ≡ (covers before j || covers rest j)
unfolding find_from
find_from-covers before [] index j = refl
find_from-covers before (r ∷ rest) index j =
    ground (arith, find_from-covers (r ∷ before) rest index j)

pub find-covers :
    (s : IndexSet) (index j : ℕ)
    → (covers (find s index).before j || covers (find s index).rest j) ≡ covers s j
unfolding find
find-covers s index j = find_from-covers [] s index j

module _ (hi index : ℕ) (s : IndexSet) (a : Ascends 0 hi s) (h : index < hi) (w : hi < word) where
  -- `add` keeps the ranges well formed within a bound above the index, and adds the index and
  -- nothing else to the set.
  pub add_lem :
      Ascends 0 hi (add s index) × ((j : ℕ) → covers (add s index) j ≡ ((j == index) || covers s j))
  unfolding add
  add_lem =
      let split = find-Splits 0 hi index s (omega arith) a in
      let it = find s index in
      (
        do_add-Ascends 0 hi index h w it.before it.rest split,
        λ j.
            ground (
              arith,
              do_add-covers 0 hi index h w it.before it.rest j split,
              find-covers s index j,
            ),
      )
