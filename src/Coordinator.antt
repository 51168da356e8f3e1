-- ===== src/Coordinator.antt =====
-- Realm/ObjectStore/impl/realm_coordinator.cpp: the asynchronous queries of a file and the two shared
-- groups that run them. The core library's SharedGroup is an argument; a version is its number.
pub mod SwapRemove
pub mod Import
pub mod Pinned
pub mod Run
pub mod History
use realm_cocoa.Base.{
  ℕ, zero, suc, ◌+◌, ◌≡◌, ◌≤◌, Bool, true, false, not, ◌&&◌, List, [], ◌∷◌, ◌++◌, map, Option, none,
  some, ltb, leb, ◌==◌, if◌then◌else◌, length, get_elem?, set, empty,
}

-- The operations of a helper's shared group. `current` is the version of the read transaction, if
-- there is one. `begin_read` is given the newest version, which is the one it reads. `advance_read` is
-- LangBindHelper's, `none` where it throws.
pub record HelperGroup : Type 1 where
  pub State : Type 0
  pub current : State → Option ℕ
  pub begin_read : State → ℕ → State
  pub begin_read_at : State → ℕ → State
  pub end_read : State → State
  pub advance_read : State → ℕ → Option State

-- What an AsyncQuery is attached to.
pub data Place : Type 0 where
  handed_over advancer main : Place

pub record Query : Type 0 where
  pub id : ℕ
  pub version : ℕ
  pub is_alive : Bool
  pub place : Place

module _ (G : HelperGroup) where
  pub record Coordinator : Type 0 where
    pub queries : List Query
    pub new_queries : List Query
    pub query_sg : Option G.State
    pub advancer_sg : Option G.State
    pub async_error : Bool

  -- `opened` is what Realm::open_with_config makes, `none` where it throws or the read cannot begin.
  unfoldable pub pin_version : Option G.State → ℕ → Coordinator → Coordinator
  pin_version opened version c = if c.async_error then c else elim c.advancer_sg [
    | none ↦ elim opened [
      | none ↦ record c { async_error = true }
      | some g ↦ record c { advancer_sg = some (G.begin_read_at g version) }
    ]
    | some g ↦ elim c.new_queries [
      | [] ↦ record c { advancer_sg = some (G.begin_read_at g version) }
      | _ ∷ _ ↦ elim (G.current g) [
        | none ↦ c
        | some current ↦
            if ltb version current
            then record c { advancer_sg = some (G.begin_read_at (G.end_read g) version) }
            else c
      ]
    ]
  ]

  unfoldable pub register_query : Option G.State → Query → Coordinator → Coordinator
  unfolding pin_version
  register_query opened q c =
      let c' = pin_version opened q.version c in
      record c' { new_queries = c'.new_queries ++ q ∷ [] }

-- container.back()
abbrev pub back {ℓ} : {A : Type ℓ} → A → List A → A
back q [] = q
back q (x ∷ xs) = back x xs

abbrev pub pop_back {ℓ} : {A : Type ℓ} → List A → List A
pop_back [] = []
pop_back (x ∷ []) = []
pop_back (x ∷ y ∷ ys) = x ∷ pop_back (y ∷ ys)

-- if (container.size() > i + 1) container[i] = container.back(); container.pop_back()
abbrev pub remove_swapping {ℓ} : {A : Type ℓ} → A → List A → ℕ → List A
remove_swapping q xs i = pop_back (if ltb (i + 1) (length xs) then set xs i (back q xs) else xs)

-- The loop of swap_remove, by rounds.
unfoldable pub swap_remove_from : ℕ → ℕ → List Query → List Query
swap_remove_from zero i xs = xs
swap_remove_from (suc rounds) i xs = elim (get_elem? xs i) [
  | none ↦ xs
  | some q ↦
      let next = swap_remove_from rounds (i + 1) xs in
      let again = swap_remove_from rounds i (remove_swapping q xs i) in
      if q.is_alive then next else again
]

unfoldable pub swap_remove : List Query → List Query
unfolding swap_remove_from
swap_remove xs = swap_remove_from (length xs) 0 xs

-- Whether swap_remove has removed something.
abbrev pub did_remove : List Query → Bool
did_remove xs = ltb (length (swap_remove xs)) (length xs)

-- std::sort by version; the order among equal versions is left open by the source.
abbrev pub insert_by_version : Query → List Query → List Query
insert_by_version q [] = q ∷ []
insert_by_version q (x ∷ xs) =
    let rest = insert_by_version q xs in if ltb x.version q.version then x ∷ rest else q ∷ x ∷ xs

unfoldable pub sort_by_version : List Query → List Query
sort_by_version [] = []
sort_by_version (q ∷ qs) = insert_by_version q (sort_by_version qs)

-- attach_to and detatch, `none` where an assertion fails.
abbrev pub attach_to : Place → Query → Option Query
attach_to place q = elim q.place [ handed_over ↦ some (record q { place = place }) | _ ↦ none ]

abbrev pub detatch : Query → Option Query
detatch q = elim q.place [ handed_over ↦ none | _ ↦ some (record q { place = handed_over }) ]

infixl 5 ◌>>=◌
abbrev pub ◌>>=◌ {ℓ κ} : {A : Type ℓ} {B : Type κ} → Option A → (A → Option B) → Option B
none >>= f = none
some a >>= f = f a

-- The loop that moves the new queries over to the main shared group.
unfoldable pub transfer : List Query → Option (List Query)
transfer [] = some []
transfer (q ∷ qs) = do q' ← detatch q; q'' ← attach_to main q'; qs' ← transfer qs; some (q'' ∷ qs')

abbrev pub with_version : ℕ → Query → Query
with_version version q = record q { version = version }

module _ (G : HelperGroup) where
  abbrev pub end_read_if : Bool → Option G.State → Option G.State
  end_read_if b none = none
  end_read_if b (some g) = if b then some (G.end_read g) else some g

  -- release_query() is called on queries that are not alive, whose Results and Realm unregister() has
  -- reset, which is what it asserts.
  unfoldable pub clean_up_dead_queries : Coordinator G → Coordinator G
  unfolding swap_remove
  clean_up_dead_queries c = record c {
    queries = swap_remove c.queries;
    new_queries = swap_remove c.new_queries;
    query_sg = end_read_if (did_remove c.queries && empty (swap_remove c.queries)) c.query_sg;
    advancer_sg =
        end_read_if (did_remove c.new_queries && empty (swap_remove c.new_queries)) c.advancer_sg;
  }

  unfoldable pub open_helper_shared_group : Option G.State → ℕ → Coordinator G → Coordinator G
  open_helper_shared_group opened newest c = elim c.query_sg [
    | none ↦ elim opened [
      | none ↦ record c { async_error = true }
      | some g ↦ record c { query_sg = some (G.begin_read g newest) }
    ]
    | some g ↦ elim c.queries [
      | [] ↦ record c { query_sg = some (G.begin_read g newest) }
      | _ ∷ _ ↦ c
    ]
  ]

  unfoldable pub move_new_queries_to_main : Coordinator G → Coordinator G
  move_new_queries_to_main c = record c { queries = c.queries ++ c.new_queries; new_queries = [] }

  -- The loop that imports the new queries to the advancer.
  unfoldable pub import_all : G.State → List Query → Option (G.State × List Query)
  import_all g [] = some (g, [])
  import_all g (q ∷ qs) = do
    g' ← G.advance_read g q.version
    q' ← attach_to advancer q
    r ← import_all g' qs
    some (r.0, q' ∷ r.1)

  -- `newest` is the newest version; `none` where an assertion fails or the core library throws.
  unfoldable pub advance_helper_shared_group_to_latest : ℕ → Coordinator G → Option (Coordinator G)
  unfolding sort_by_version transfer move_new_queries_to_main import_all
  advance_helper_shared_group_to_latest newest c = elim c.query_sg [
    | none ↦ none
    | some g ↦ elim c.new_queries [
      | [] ↦ do g' ← G.advance_read g newest; some (record c { query_sg = some g' })
      | _ ∷ _ ↦ elim c.advancer_sg [
        | none ↦ none
        | some a ↦ do
          imported ← import_all a (sort_by_version c.new_queries)
          a' ← G.advance_read imported.0 newest
          version ← G.current a'
          g' ← G.advance_read g version
          moved ← transfer imported.1
          some (
              move_new_queries_to_main (record c {
                new_queries = moved;
                query_sg = some g';
                advancer_sg = some (G.end_read a');
              }))
      ]
    ]
  ]

  -- prepare_handover of every query, as far as the coordinator sees it: the version. The table view and
  -- the assertion on it are the core library's and left out, and a query is among `queries` only after
  -- an error or with the shared group that it is attached to.
  abbrev pub prepare_handover : Option G.State → List Query → List Query
  prepare_handover none qs = qs
  prepare_handover (some g) qs = elim (G.current g) [
    | none ↦ qs
    | some version ↦ map (with_version version) qs
  ]

  -- run_async_queries from its test of m_async_error to the release of the lock.
  unfoldable pub run_opened : ℕ → Coordinator G → Option (Coordinator G)
  unfolding move_new_queries_to_main advance_helper_shared_group_to_latest
  run_opened newest c =
      if c.async_error
      then some (move_new_queries_to_main c)
      else advance_helper_shared_group_to_latest newest c

  unfoldable pub run_cleaned : Option G.State → ℕ → Coordinator G → Option (Coordinator G)
  unfolding open_helper_shared_group run_opened
  run_cleaned opened newest c =
      if empty c.queries && empty c.new_queries
      then some c
      else run_opened newest (if c.async_error then c else open_helper_shared_group opened newest c)

  unfoldable pub run_async_queries : Option G.State → ℕ → Coordinator G → Option (Coordinator G)
  unfolding clean_up_dead_queries run_cleaned
  run_async_queries opened newest c = run_cleaned opened newest (clean_up_dead_queries c)

  -- run_async_queries from the second acquisition of the lock on.
  unfoldable pub finish_async_queries : Coordinator G → Coordinator G
  unfolding clean_up_dead_queries
  finish_async_queries c =
      clean_up_dead_queries (record c { queries = prepare_handover c.query_sg c.queries })

  -- A coordinator before its first query.
  abbrev pub fresh : Coordinator G
  fresh = record {
    queries = [];
    new_queries = [];
    query_sg = none;
    advancer_sg = none;
    async_error = false;
  }
