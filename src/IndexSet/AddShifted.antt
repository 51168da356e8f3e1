-- ===== src/IndexSet/AddShifted.antt =====
-- `IndexSet::add_shifted` adds the index that an element had before the indices of the set were
-- taken out.
use realm_cocoa.Base.{
  ℕ, zero, suc, ◌+◌, ◌-◌, ◌≤◌, ◌<◌, ◌≡◌, refl, false, ◌||◌, List, [], ◌∷◌, arith, leb, ◌==◌,
  if◌then◌else◌, word, Bool-cases, leb→le, ◌⊎◌, inl, inr, min, ◌%◌,
}
use native.Mathlib.Decide.{dec_lt}
use realm_cocoa.IndexSet.Ranges.{
  Range, IndexSet, Ascends-le, covers, Ascends, Descends, Descends-mono, not-covers-below,
  not-covers-Descends,
}
use realm_cocoa.IndexSet.{Shifted, shifted, shift_past, add_shifted}
use realm_cocoa.IndexSet.Add.{Splits, Splits-at, do_add-Ascends, do_add-covers}

-- How many indices are in the ranges, and how many of those lie below a bound.
abbrev pub total : List Range → ℕ
total [] = 0
total (r ∷ rs) = (r.second - r.first) + total rs

abbrev part : Range → ℕ → ℕ
part r n = min r.second n - min r.first n

overlap : List Range → ℕ → ℕ
overlap [] n = 0
overlap (r ∷ rs) n = part r n + overlap rs n

-- How many indices below a bound are not in the set.
abbrev pub absent : IndexSet → ℕ → ℕ
absent s zero = 0
absent s (suc n) = (if covers s n then 0 else 1) + absent s n

part-suc_in : (r : Range) (n : ℕ) → r.first ≤ n → n < r.second → part r (suc n) ≡ suc (part r n)
part-suc_in r n h k = omega arith

part-suc_out :
    (r : Range) (n : ℕ)
    → r.first < r.second
    → (n < r.first) ⊎ (r.second ≤ n)
    → part r (suc n) ≡ part r n
part-suc_out r n h (inl k) = omega arith
part-suc_out r n h (inr k) = omega arith

overlap-suc :
    (lo hi n : ℕ) (rs : List Range)
    → Ascends lo hi rs
    → overlap rs (suc n) ≡ (if covers rs n then 1 else 0) + overlap rs n
unfolding overlap
overlap-suc lo hi n [] a = omega arith
overlap-suc lo hi n (r ∷ rs) a = elim (dec_lt n r.first) [
  | yes before ↦ ground (
    arith,
    overlap-suc r.second hi n rs a.2,
    part-suc_out r n a.1 (inl before),
    not-covers-below r.second hi n rs a.2,
  )
  | no from ↦ elim (dec_lt n r.second) [
    | yes inside ↦ ground (
      arith,
      overlap-suc r.second hi n rs a.2,
      part-suc_in r n (omega arith) inside,
      not-covers-below r.second hi n rs a.2,
    )
    | no past ↦
        ground (arith, overlap-suc r.second hi n rs a.2, part-suc_out r n a.1 (inr (omega arith)))
  ]
]

overlap-zero : (rs : List Range) → overlap rs 0 ≡ 0
unfolding overlap
overlap-zero [] = refl
overlap-zero (r ∷ rs) = omega (arith, overlap-zero rs)

absent-overlap : (lo hi n : ℕ) (rs : List Range) → Ascends lo hi rs → absent rs n + overlap rs n ≡ n
absent-overlap lo hi zero rs a = omega (arith, overlap-zero rs)
absent-overlap lo hi (suc n) rs a =
    ground (arith, absent-overlap lo hi n rs a, overlap-suc lo hi n rs a)

overlap_below : (lo hi n : ℕ) (rs : List Range) → Ascends lo hi rs → n ≤ lo → overlap rs n ≡ 0
unfolding overlap
overlap_below lo hi n [] a h = refl
overlap_below lo hi n (r ∷ rs) a h = omega (arith, overlap_below r.second hi n rs a.2 (omega arith))

overlap-total : (lo hi : ℕ) (rs : List Range) → Ascends lo hi rs → overlap rs hi ≡ total rs
unfolding overlap
overlap-total lo hi [] a = refl
overlap-total lo hi (r ∷ rs) a =
    omega (arith, Ascends-le r.second hi rs a.2, overlap-total r.second hi rs a.2)

-- Below the bound of the ranges an index is in the set or it is not.
pub absent-total : (hi : ℕ) (s : IndexSet) → Ascends 0 hi s → absent s hi + total s ≡ hi
absent-total hi s a = omega (arith, absent-overlap 0 hi hi s a, overlap-total 0 hi s a)

-- What the loop of `add_shifted` reaches from a position: the index there, past the ranges before it.
record Reached (hi i : ℕ) (before rest : List Range) (s : Shifted) : Type 0 where
  split : Splits 0 hi s.index s.it.before s.it.rest
  moved : s.index ≡ i + overlap rest s.index
  bound : s.index ≤ i + total rest
  grows : i ≤ s.index
  free : covers s.it.rest s.index ≡ false
  same : (j : ℕ) → (covers s.it.before j || covers s.it.rest j) ≡ (covers before j || covers rest j)

Reached-past :
    (hi i : ℕ) (before rest : List Range) (r : Range) (s : Shifted)
    → r.first ≤ i
    → r.first < r.second
    → Reached hi (i + (r.second - r.first)) (r ∷ before) rest s
    → Reached hi i before (r ∷ rest) s
unfolding overlap
Reached-past hi i before rest r s le lt h = record {
  split = h.split;
  moved = omega (arith, h.moved, h.grows);
  bound = omega (arith, h.bound);
  grows = omega (arith, h.grows);
  free = h.free;
  same = λ j. ground (arith, h.same j);
}

Reached-stop :
    (m hi i : ℕ) (before rest : List Range) (r : Range)
    → Descends 0 m before
    → m ≤ i
    → Ascends m hi (r ∷ rest)
    → i < r.first
    → Reached hi i before
        (r ∷ rest)
        (record { it = record { before = before; rest = r ∷ rest }; index = i })
unfolding overlap
Reached-stop m hi i before rest r d le a lt = record {
  split = Splits-at 0 m hi i before (r ∷ rest) d le a (omega arith);
  moved = omega (arith, overlap_below r.second hi i rest a.2 (omega arith));
  bound = omega arith;
  grows = omega arith;
  free = ground (arith, not-covers-below r.second hi i rest a.2);
  same = λ j. refl;
}

shift_past-Reached :
    (m hi i : ℕ) (before rest : List Range)
    → Descends 0 m before
    → m ≤ i
    → Ascends m hi rest
    → i + total rest < word
    → Reached hi i before rest (shift_past before rest i)
unfolding shift_past overlap
shift_past-Reached m hi i before [] d le a w = record {
  split = Splits-at 0 m hi i before [] d le a tt;
  moved = omega arith;
  bound = omega arith;
  grows = omega arith;
  free = refl;
  same = λ j. refl;
}
shift_past-Reached m hi i before (r ∷ rest) d le a w = elim (Bool-cases (leb r.first i)) [
  | inl past ↦
      let here : r.first ≤ i = leb→le _ _ past in
      let i' : ℕ = i + (r.second - r.first) in
      let exact : i' % word ≡ i' = omega arith in
      rw (past, exact)
        (Reached-past hi i before rest r (shift_past (r ∷ before) rest i') here a.1 (
          shift_past-Reached r.second hi i' (r ∷ before) rest
            (omega arith, a.1, Descends-mono 0 m r.first before a.0 d) (omega arith) a.2
            (omega arith)))
  | inr stop ↦ rw stop (Reached-stop m hi i before rest r d le a (ground arith))
]

module _ (hi index : ℕ) (s : IndexSet) (a : Ascends 0 hi s) (h : index + total s < hi)
    (w : hi < word) where
  shifted-Reached : Reached hi index [] s (shifted s index)
  unfolding shifted
  shifted-Reached = shift_past-Reached 0 hi index [] s (omega arith) (omega arith) a (omega arith)

  -- `add_shifted` keeps the ranges well formed, and adds the one index that was not in the set and
  -- has `index` others not in the set below it: its position once the set's indices are taken out.
  pub add_shifted_lem :
      let k = (shifted s index).index in
      (covers s k ≡ false)
      × (absent s k ≡ index)
      × (k ≤ index + total s)
      × Ascends 0 hi (add_shifted s index)
      × ((j : ℕ) → covers (add_shifted s index) j ≡ ((j == k) || covers s j))
  unfolding add_shifted
  add_shifted_lem = (
    ground
        (arith, reached.same k, reached.free, not-covers-Descends 0 k k before reached.split.below),
    omega (arith, absent-overlap 0 hi k s a, reached.moved),
    reached.bound,
    do_add-Ascends 0 hi k (omega (arith, reached.bound)) w before rest reached.split,
    λ j. ground (
      arith,
      do_add-covers 0 hi k (omega (arith, reached.bound)) w before rest j reached.split,
      reached.same j,
    ),
  )
    where
      k : ℕ
      k = (shifted s index).index

      before : List Range
      before = (shifted s index).it.before

      rest : List Range
      rest = (shifted s index).it.rest

      reached : Reached hi index [] s (shifted s index)
      reached = shifted-Reached
