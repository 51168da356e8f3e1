-- ===== src/IndexSet/InsertAt.antt =====
-- `IndexSet::insert_at` makes room at an index and adds it.
use realm_cocoa.Base.{
  ℕ, ◌+◌, ◌-◌, ◌≤◌, ◌<◌, ◌≡◌, false, ◌||◌, List, [], ◌∷◌, arith, ltb, ◌==◌, if◌then◌else◌, word,
}
use realm_cocoa.IndexSet.Ranges.{
  Range, IndexSet, covers, Ascends, Ascends-le, not-covers-below, not-covers-Descends,
}
use realm_cocoa.IndexSet.{find, shift_from, shift_tail, insert_at}
use realm_cocoa.IndexSet.Add.{
  Splits, Past, Gap, find-Splits, find-covers, do_add-Ascends, do_add-covers,
}

shift_tail-Ascends :
    (lo hi : ℕ) (rs : List Range)
    → hi + 1 < word
    → Ascends lo hi rs
    → Ascends (lo + 1) (hi + 1) (shift_tail rs)
unfolding shift_tail
shift_tail-Ascends lo hi [] w a = omega arith
shift_tail-Ascends lo hi (r ∷ rs) w a =
    ground (arith, Ascends-le r.second hi rs a.2, shift_tail-Ascends r.second hi rs w a.2)

shift_tail-covers :
    (lo hi j : ℕ) (rs : List Range)
    → hi + 1 < word
    → Ascends lo hi rs
    → covers (shift_tail rs) j ≡ (if j == 0 then false else covers rs (j - 1))
unfolding shift_tail
shift_tail-covers lo hi j [] w a = ground arith
shift_tail-covers lo hi j (r ∷ rs) w a =
    ground (arith, Ascends-le r.second hi rs a.2, shift_tail-covers r.second hi j rs w a.2)

module _ (lo hi index : ℕ) (w : hi + 1 < word) where
  shift_from-Ascends :
      (rs : List Range)
      → lo ≤ index
      → Past index rs
      → Ascends lo hi rs
      → Ascends lo (hi + 1) (shift_from rs index)
  unfolding shift_from
  shift_from-Ascends [] le past a = omega arith
  shift_from-Ascends (r ∷ rs) le past a =
      ground (arith, Ascends-le r.second hi rs a.2, shift_tail-Ascends r.second hi rs w a.2)

  shift_from-Past :
      (rs : List Range) → Past index rs → Ascends lo hi rs → Past index (shift_from rs index)
  unfolding shift_from
  shift_from-Past [] past a = tt
  shift_from-Past (r ∷ rs) past a = ground (arith, Ascends-le r.second hi rs a.2)

  shift_from-Gap :
      (ps rs : List Range) → Gap ps rs → Ascends lo hi rs → Gap ps (shift_from rs index)
  unfolding shift_from
  shift_from-Gap [] rs g a = tt
  shift_from-Gap (p ∷ ps) [] g a = tt
  shift_from-Gap (p ∷ ps) (r ∷ rs) g a = ground (arith, Ascends-le r.second hi rs a.2)

  -- What lies before the index stays, and what lies from it on moves up by one.
  shift_from-covers :
      (rs : List Range) (j : ℕ)
      → Past index rs
      → Ascends lo hi rs
      → ((j == index) || covers (shift_from rs index) j)
        ≡ ((j == index) || (if ltb j index then covers rs j else covers rs (j - 1)))
  unfolding shift_from
  shift_from-covers [] j past a = ground arith
  shift_from-covers (r ∷ rs) j past a = ground (
    arith,
    Ascends-le r.second hi rs a.2,
    shift_tail-covers r.second hi j rs w a.2,
    not-covers-below r.second hi j rs a.2,
    not-covers-below r.second hi (j - 1) rs a.2,
  )

module _ (hi index : ℕ) (s : IndexSet) (a : Ascends 0 hi s) (h : index ≤ hi)
    (w : hi + 1 < word) where
  -- `insert_at` keeps the ranges well formed; the index joins the set, the indices below it are as
  -- they were, and those from it on have moved up by one.
  pub insert_at_lem :
      Ascends 0 (hi + 1) (insert_at s index)
      × ((j : ℕ)
          → covers (insert_at s index) j
            ≡ ((j == index) || (if ltb j index then covers s j else covers s (j - 1))))
  unfolding insert_at
  insert_at_lem = (
    do_add-Ascends 0 (hi + 1) index (omega arith) w before (shift_from rest index) shifted,
    λ j. ground (
      arith,
      do_add-covers 0 (hi + 1) index (omega arith) w before (shift_from rest index) j shifted,
      shift_from-covers 0 hi index w rest j split.above split.start,
      find-covers s index j,
      find-covers s index (j - 1),
      not-covers-Descends 0 index j before split.below,
      not-covers-Descends 0 index (j - 1) before split.below,
    ),
  )
    where
      before : List Range
      before = (find s index).before

      rest : List Range
      rest = (find s index).rest

      split : Splits 0 hi index before rest
      split = find-Splits 0 hi index s (omega arith) a

      shifted : Splits 0 (hi + 1) index before (shift_from rest index)
      shifted = record {
        below = split.below;
        above = shift_from-Past 0 hi index w rest split.above split.start;
        apart = shift_from-Gap 0 hi index w before rest split.apart split.start;
        start = shift_from-Ascends 0 hi index w rest (omega arith) split.above split.start;
      }
