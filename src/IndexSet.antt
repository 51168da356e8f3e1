-- ===== src/IndexSet.antt =====
-- Realm/ObjectStore/index_set.cpp and index_set.hpp: a set of indices kept as a vector of ranges.
-- An iterator is the pair of the ranges before it, nearest first, and those from it on.
pub mod Ranges
pub mod Add
pub mod InsertAt
pub mod AddShifted
use realm_cocoa.Base.{
  ℕ, ◌+◌, ◌-◌, ◌%◌, Bool, true, false, ◌&&◌, List, [], ◌∷◌, ltb, leb, ◌==◌, if◌then◌else◌, word,
  incr, decr, length, rev_append,
}
use Ranges.{Range, IndexSet}

pub record Iterator : Type 0 where
  pub before : List Range
  pub rest : List Range

-- The vector that an iterator points into.
abbrev pub ranges : Iterator → IndexSet
ranges it = rev_append it.before it.rest

find_from : List Range → List Range → ℕ → Iterator
find_from before [] index = record { before = before; rest = [] }
find_from before (r ∷ rest) index =
    if ltb index r.second
    then record { before = before; rest = r ∷ rest }
    else find_from (r ∷ before) rest index

unfoldable pub find : IndexSet → ℕ → Iterator
unfolding find_from
find set index = find_from [] set index

-- Whether the element that a list begins with passes a test; there may be none.
abbrev pub at_head : List Range → (Range → Bool) → Bool
at_head [] test = false
at_head (r ∷ rest) test = test r

-- An assignment to the element that a list begins with.
abbrev pub set_head : List Range → (Range → Range) → List Range
set_head [] f = []
set_head (r ∷ rest) f = f r ∷ rest

abbrev pub drop_head : List Range → List Range
drop_head [] = []
drop_head (r ∷ rest) = rest

-- (it - 1)->second = it->second; m_ranges.erase(it)
abbrev pub join : List Range → List Range → IndexSet
join before [] = rev_append before []
join before (r ∷ rest) = rev_append (set_head before (λ p. record p { second = r.second })) rest

-- (it - 1)->second == it->first, where both exist
abbrev pub touches : List Range → List Range → Bool
touches before [] = false
touches before (r ∷ rest) = at_head before (λ p. p.second == r.first)

unfoldable pub do_add : Iterator → ℕ → IndexSet
do_add it index =
    if at_head it.rest (λ r. leb r.first index && ltb index r.second)
    then ranges it
    else if at_head it.before (λ p. p.second == index)
    then rev_append (set_head it.before (λ p. record p { second = incr p.second })) it.rest
    else if touches it.before it.rest
    then join it.before it.rest
    else if at_head it.rest (λ r. r.first == incr index)
    then rev_append it.before (set_head it.rest (λ r. record r { first = decr r.first }))
    else rev_append it.before (record { first = index; second = incr index } ∷ it.rest)

unfoldable pub add : IndexSet → ℕ → IndexSet
unfolding find do_add
add set index = do_add (find set index) index

-- void IndexSet::set(size_t len)
unfoldable pub set : ℕ → IndexSet
set len = if len == 0 then [] else record { first = 0; second = len } ∷ []

-- size() counts the ranges.
unfoldable pub size : IndexSet → ℕ
size s = length s

shift_tail : List Range → List Range
shift_tail [] = []
shift_tail (r ∷ rest) = record { first = incr r.first; second = incr r.second } ∷ shift_tail rest

shift_from : List Range → ℕ → List Range
unfolding shift_tail
shift_from [] index = []
shift_from (r ∷ rest) index =
    record { first = if leb index r.first then incr r.first else r.first; second = incr r.second }
    ∷ shift_tail rest

unfoldable pub insert_at : IndexSet → ℕ → IndexSet
unfolding find shift_from do_add
insert_at set index =
    let pos = find set index in do_add (record pos { rest = shift_from pos.rest index }) index

-- The iterator and the index at the end of the loop of `add_shifted`.
pub record Shifted : Type 0 where
  pub it : Iterator
  pub index : ℕ

shift_past : List Range → List Range → ℕ → Shifted
shift_past before [] index = record { it = record { before = before; rest = [] }; index = index }
shift_past before (r ∷ rest) index =
    if leb r.first index
    then shift_past (r ∷ before) rest ((index + (r.second - r.first)) % word)
    else record { it = record { before = before; rest = r ∷ rest }; index = index }

unfoldable pub shifted : IndexSet → ℕ → Shifted
unfolding shift_past
shifted set index = shift_past [] set index

unfoldable pub add_shifted : IndexSet → ℕ → IndexSet
unfolding shifted do_add
add_shifted set index = let s = shifted set index in do_add s.it s.index
