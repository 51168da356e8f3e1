-- ===== src/Tests/Coordinators.antt =====
-- The queries of a file (Realm/ObjectStore/impl/realm_coordinator.cpp) with a helper group that is the
-- version it reads.
use realm_cocoa.Base.{
  ℕ, ◌≡◌, ◌≤◌, refl, Bool, true, false, List, [], ◌∷◌, ◌++◌, Option, none, some, leb, if◌then◌else◌,
  inr, arith,
}
use realm_cocoa.Coordinator.{
  HelperGroup, Query, handed_over, main, Coordinator, swap_remove, run_async_queries, fresh,
}
use realm_cocoa.Coordinator.Import.{IsHelperGroup, ids}
use realm_cocoa.Coordinator.SwapRemove.{IsSwept, alive, swap_remove_lem}
use realm_cocoa.Coordinator.Pinned.{Pinned}
use realm_cocoa.Coordinator.Run.{Ran, run_async_queries_lem}
use realm_cocoa.Coordinator.History.{
  Section, registers, runs, finishes, enter_all, enter_all-Pinned,
}

abbrev read_on : Option ℕ → ℕ → Option (Option ℕ)
read_on none v = none
read_on (some u) v = if leb u v then some (some v) else none

abbrev helper : HelperGroup
helper = record {
  State = Option ℕ;
  current = λ g. g;
  begin_read = λ g n. some n;
  begin_read_at = λ g v. some v;
  end_read = λ g. none;
  advance_read = λ g v. read_on g v;
}

read_on_forwards :
    (g : Option ℕ) (u v : ℕ)
    → g ≡ some u
    → u ≤ v
    → (g' : Option ℕ) × (read_on g v ≡ some g') × (g' ≡ some v)
read_on_forwards none u v e l = cc
read_on_forwards (some w) u v e l =
    let w-u : w ≡ u = cc in
    let forwards : leb w v ≡ true = ground (arith, w-u) in (some v, rw forwards refl, refl)

helper-IsHelperGroup : IsHelperGroup helper
helper-IsHelperGroup = record {
  begin_read-current = λ g n h. refl;
  begin_read_at-current = λ g v h. refl;
  end_read-current = λ g. refl;
  advance_read-current = read_on_forwards;
}

abbrev query : ℕ → ℕ → Bool → Query
query id version is_alive = record {
  id = id;
  version = version;
  is_alive = is_alive;
  place = handed_over;
}

abbrev four : List Query
four = query 1 4 false ∷ query 2 3 true ∷ query 3 4 false ∷ query 4 5 true ∷ []

swept_four : swap_remove four ≡ query 4 5 true ∷ query 2 3 true ∷ []
unfolding swap_remove
swept_four = refl

swap_remove_lem_example : IsSwept four (swap_remove four)
swap_remove_lem_example = swap_remove_lem four

abbrev busy : Coordinator helper
busy = record {
  queries = record (query 1 4 false) { place = main } ∷ [];
  new_queries = query 2 5 true ∷ query 3 4 true ∷ [];
  query_sg = some (some 4);
  advancer_sg = some (some 4);
  async_error = false;
}

busy-Pinned : Pinned helper 6 busy
busy-Pinned = inr (
  (
    some 4,
    4,
    refl,
    refl,
    ((omega arith, omega arith, refl), ((omega arith, omega arith, refl), tt)),
  ),
  (some 4, 4, refl, refl, ((omega arith, refl), tt)),
)

run_async_queries_lem_example :
    Ran helper 7
      (ids (alive busy.queries) ++ ids (alive busy.new_queries))
      (run_async_queries helper none 7 busy)
run_async_queries_lem_example =
    run_async_queries_lem helper helper-IsHelperGroup none 6 7 busy tt (omega arith) busy-Pinned

abbrev sections : List (ℕ × Section helper)
sections =
    (6, registers (some none) (query 1 6 true))
    ∷ (7, registers none (query 2 5 true))
    ∷ (8, runs (some none))
    ∷ (8, finishes)
    ∷ []

enter_all-Pinned_example :
    (c : Coordinator helper) × (m : ℕ) × (enter_all helper sections (fresh helper) ≡ some c)
    × Pinned helper m c
enter_all-Pinned_example =
    enter_all-Pinned helper helper-IsHelperGroup 0 sections (fresh helper)
      (
        omega arith,
        (refl, omega arith, refl),
        (omega arith, (tt, omega arith, refl), (omega arith, refl, (omega arith, tt, tt))),
      )
      (inr (tt, tt))
