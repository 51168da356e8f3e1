-- ===== src/Realm/Histories.antt =====
-- Any sequence of calls of a Realm (Realm/ObjectStore/shared_realm.cpp), from any threads.
use realm_cocoa.Base.{ℕ, ◌≡◌, List, [], ◌∷◌, ◌==◌, if◌then◌else◌}
use realm_cocoa.Realm.{SharedGroup, Realm}
use realm_cocoa.Realm.Transactions.{Op, run, IsWellFormed}
use realm_cocoa.Realm.Stays.{after, IsSame}

-- A call and the thread that it is made from.
pub record Made : Type 0 where
  pub thread : ℕ
  pub op : Op

-- The calls that are made from a thread.
abbrev pub made_from : ℕ → List Made → List Made
made_from thread [] = []
made_from thread (c ∷ cs) =
    let rest = made_from thread cs in if thread == c.thread then c ∷ rest else rest

module _ (S : SharedGroup) where
  -- The Realm after a sequence of calls, whether they return or throw.
  unfoldable pub run_all : List Made → Realm S → Realm S
  run_all [] r = r
  run_all (c ∷ cs) r = run_all cs (after S (run S c.thread c.op r))

  -- What a history leaves: a Realm that is well formed and has the same settings, and that the calls
  -- from its own thread alone would have left as well.
  abbrev pub Leaves : List Made → Realm S → Type 0
  Leaves cs r =
      ((s : S.State) × IsWellFormed S (run_all cs r) s)
      × IsSame S (run_all cs r) r
      × (run_all cs r ≡ run_all (made_from r.thread_id cs) r)
