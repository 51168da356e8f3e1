-- ===== src/Tests/AllResults.antt =====
-- Results (Realm/ObjectStore/results.cpp) over a file that is the values of one table's only column,
-- with a query for the values from a bound on.
use realm_cocoa.Base.{
  ℕ, zero, suc, ◌≡◌, ◌<◌, refl, ◌+◌, true, false, List, [], ◌∷◌, none, some, leb, length, get_elem?,
  if◌then◌else◌, inr, ◌⊎◌, arith,
}
use realm_cocoa.Results.{Core, type_int, mode_query, Results, threw, returned, invalid_transaction}
use realm_cocoa.Results.Answers.{IsCore, contents, position_from, gets, sizes}
use realm_cocoa.Results.Answers.Asked.{Answered, ask_lem}
use realm_cocoa.Results.Changes.{clear, set_table_view}
use realm_cocoa.Results.Clearing.{IsClearing, can_clear, clear_lem}
use realm_cocoa.Results.Uses.{asks, clears, watches, apply_all, never_resumed}
use realm_cocoa.Tests.Realms.{group, realm}

abbrev nth : List ℕ → ℕ → ℕ
nth [] i = 0
nth (x ∷ xs) zero = x
nth (x ∷ xs) (suc i) = nth xs i

abbrev rows_from : ℕ → ℕ → List ℕ → List ℕ
rows_from bound i [] = []
rows_from bound i (x ∷ xs) =
    let rest = rows_from bound (i + 1) xs in if leb bound x then i ∷ rest else rest

abbrev core : Core
core = record {
  World = List ℕ;
  Table = ℕ;
  Query = ℕ;
  View = List ℕ;
  Value = ℕ;
  table_number = λ t. t;
  table_attached = λ w t. true;
  table_size = λ w t. length w;
  table_clear = λ w t. [];
  column_count = λ w t. 1;
  column_type = λ w t column. type_int;
  aggregate_table = λ w t agg column. 0;
  query_table = λ q. 3;
  where_query = λ t. 0;
  and_query = λ p q. q;
  count = λ w q. length (rows_from q 0 w);
  find_all = λ w q. rows_from q 0 w;
  sort = λ w order v. v;
  view_attached = λ w v. true;
  view_size = λ w v. length v;
  view_get = λ w v i. nth v i;
  find_by_source_ndx = λ w v row. position_from 0 row v;
  sync_if_needed = λ w v. v;
  view_query = λ v. 0;
  view_clear = λ w v. ([], []);
  aggregate_view = λ w v agg column. 0;
}

get_elem?-nth : (xs : List ℕ) (i : ℕ) → i < length xs → get_elem? xs i ≡ some (nth xs i)
get_elem?-nth [] i h = elim h [ ]
get_elem?-nth (x ∷ xs) zero h = refl
get_elem?-nth (x ∷ xs) (suc i) h = get_elem?-nth xs i (omega arith)

abbrev core_laws : IsCore core
core_laws = record {
  rows = λ w v. v;
  size-rows = λ w v. refl;
  get-rows = λ w v i h. get_elem?-nth v i h;
  find-rows = λ w v row. refl;
  count-rows = λ w q. refl;
  length-sort = λ w order v. refl;
  find_all-attached = λ w q. refl;
  sort-attached = λ w order v h. refl;
  sync-attached = λ w v h. refl;
  sync-sync = λ w v. refl;
  sync-find_all = λ w q. refl;
  sync-sort = λ w order v h. refl;
}

core-IsClearing : IsClearing core core_laws
core-IsClearing = record { table_clear-size = λ w t. refl; view_clear-rows = λ w v h. refl }

-- The rows with a value of at least 5, which are the first and the last.
abbrev high : Results group core
high = record {
  realm = some realm;
  world = 7 ∷ 2 ∷ 5 ∷ [];
  query = 5;
  table_view = [];
  table = some 3;
  sort = record { column_indices = []; ascending = [] };
  mode = mode_query;
  background_query = none;
  has_used_table_view = false;
  wants_background_updates = true;
  registered = 0;
}

ask_lem_example : Answered group core core_laws 1 (gets 1) high
ask_lem_example =
    ask_lem group core core_laws 1 (gets 1) high tt (inr (realm, 3, refl, refl, refl, refl, refl))

never_resumed_example :
    (apply_all group core 1 (asks sizes ∷ watches ∷ clears ∷ []) (
      set_table_view group core
        (2 ∷ [])
        (set_table_view group core (0 ∷ []) high))).wants_background_updates
    ≡ false
never_resumed_example =
    never_resumed group core 1 (0 ∷ []) (2 ∷ []) (asks sizes ∷ watches ∷ clears ∷ []) high

clear_lem_example :
    ((can_clear group core core_laws core-IsClearing 1 high ≡ true)
      × ((r : Results group core) × (clear group core 1 high ≡ returned tt r)
          × (contents group core core_laws r ≡ [])))
    ⊎ ((can_clear group core core_laws core-IsClearing 1 high ≡ false)
        × (clear group core 1 high ≡ threw invalid_transaction high))
clear_lem_example =
    clear_lem group core core_laws core-IsClearing 1 high
      (inr (realm, 3, refl, refl, refl, refl, refl))
