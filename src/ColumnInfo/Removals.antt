-- ===== src/ColumnInfo/Removals.antt =====
-- The indices of a column whose link list has only had elements removed
-- (Realm/ObjectStore/impl/transact_log_handler.cpp) are positions in the list as it was.
use realm_cocoa.Base.{
  ℕ, zero, suc, ◌+◌, ◌-◌, ◌≤◌, ◌<◌, ◌≡◌, inl, inr, refl, false, ◌||◌, List, [], ◌∷◌, ◌++◌, arith,
  ◌==◌, if◌then◌else◌, word, length, length-append, remove_at, remove_at-append, remove_at-last,
  length-remove_at, ap, subst, sym, ◌∙◌, Bool-cases,
}
use native.Mathlib.Decide.{ℕ_discrete}
use realm_cocoa.IndexSet.Ranges.{IndexSet, covers, Ascends}
use realm_cocoa.IndexSet
use realm_cocoa.IndexSet.{shifted}
use realm_cocoa.IndexSet.Add.{add_lem}
use realm_cocoa.IndexSet.AddShifted.{absent, total, absent-total, add_shifted_lem}
use realm_cocoa.ColumnInfo.{ColumnInfo, none_kind, remove_kind, fresh, append_link_list_change}

-- The positions below a bound that are not in the set, in order.
abbrev pub remaining : IndexSet → ℕ → List ℕ
remaining s zero = []
remaining s (suc n) = remaining s n ++ (if covers s n then [] else n ∷ [])

pub length-remaining : (s : IndexSet) (n : ℕ) → length (remaining s n) ≡ absent s n
length-remaining s zero = refl
length-remaining s (suc n) = elim (Bool-cases (covers s n)) [
  | inl e ↦ rw e (omega (arith, length-append {0} (remaining s n) [], length-remaining s n))
  | inr e ↦ rw e (omega (arith, length-append {0} (remaining s n) (n ∷ []), length-remaining s n))
]

absent-lt : (s : IndexSet) (k n : ℕ) → k < n → covers s k ≡ false → absent s k < absent s n
absent-lt s k zero h e = absurd (omega arith)
absent-lt s k (suc n) h e = elim (ℕ_discrete k n) [
  | yes here ↦ rw (← here, e) (omega arith)
  | no on ↦ omega (arith, absent-lt s k n (omega arith) e)
]

absent-le : (s : IndexSet) (n : ℕ) → absent s n ≤ n
absent-le s zero = omega arith
absent-le s (suc n) = ground (arith, absent-le s n)

-- Only the index `k` differs.
abbrev Adds : ℕ → IndexSet → IndexSet → Type 0
Adds k s s' = (j : ℕ) → covers s' j ≡ ((j == k) || covers s j)

remaining_below : (s s' : IndexSet) (k n : ℕ) → Adds k s s' → n ≤ k → remaining s' n ≡ remaining s n
remaining_below s s' k zero e h = refl
remaining_below s s' k (suc n) e h = ground (arith, e n, remaining_below s s' k n e (omega arith))

-- Adding an index to the set takes its position out of the list of those that remain.
remaining-remove_at :
    (s s' : IndexSet) (k n : ℕ)
    → Adds k s s'
    → covers s k ≡ false
    → k < n
    → remaining s' n ≡ remove_at (remaining s n) (absent s k)
remaining-remove_at s s' k zero e f h = absurd (omega arith)
remaining-remove_at s s' k (suc n) e f h = elim (ℕ_discrete k n) [
  | yes here ↦
      rw (← here, e k, f, remaining_below s s' k k e (omega arith))
        (ground (arith, remove_at-last (remaining s k) k (absent s k), length-remaining s k))
  | no on ↦
      let k_lt : k < n = omega arith in
      ground (
        arith,
        e n,
        remaining-remove_at s s' k n e f k_lt,
        length-remaining s n,
        absent-lt s k n k_lt f,
        remove_at-append (remaining s n) (n ∷ []) (absent s k),
        remove_at-append (remaining s n) [] (absent s k),
      )
]

absent-empty : (n : ℕ) → absent [] n ≡ n
absent-empty zero = refl
absent-empty (suc n) = omega (arith, absent-empty n)

-- A column that has seen removals at most, from a list that had `n` elements.
pub data IsRemoval (n : ℕ) (o : ColumnInfo) : Type 0 where
  untouched : o.kind ≡ none_kind → o.indices ≡ [] → IsRemoval n o
  removed : o.kind ≡ remove_kind → Ascends 0 n o.indices → IsRemoval n o

module _ (n : ℕ) (w : n < word) where
  pub remaining-link_list_erase :
      (o : ColumnInfo) (i : ℕ)
      → IsRemoval n o
      → i < length (remaining o.indices n)
      → let o' = append_link_list_change remove_kind i o in
        IsRemoval n o' × (remaining o'.indices n ≡ remove_at (remaining o.indices n) i)
  unfolding append_link_list_change
  remaining-link_list_erase o i (untouched k e) h =
      let i_lt : i < n =
        omega (arith, ap (λ s. length (remaining s n)) e, length-remaining [] n, absent-empty n) in
      let (asc, added) = add_lem n i [] (omega arith) i_lt w in
      rw (k, append_link_list_change, e)
        (
          removed refl asc,
          remaining-remove_at [] (IndexSet.add [] i) i n added refl i_lt
              ∙ ap (remove_at (remaining [] n)) (absent-empty i),
        )
  remaining-link_list_erase o i (removed k a) h =
      let s = o.indices in
      let room : i + total s < n = omega (arith, absent-total n s a, length-remaining s n) in
      let (free, rank, bound, asc, added) = add_shifted_lem n i s a room w in
      rw (k, append_link_list_change)
        (
          removed refl asc,
          remaining-remove_at s (IndexSet.add_shifted s i) (shifted s i).index n added free
                (omega arith)
              ∙ ap (remove_at (remaining s n)) rank,
        )

-- A run of `link_list_erase` or `link_list_nullify` handlers.
abbrev pub erase_each : List ℕ → ColumnInfo → ColumnInfo
erase_each [] o = o
erase_each (i ∷ is) o = erase_each is (append_link_list_change remove_kind i o)

-- The same removals made on a list.
abbrev pub remove_each {ℓ} : {A : Type ℓ} → List ℕ → List A → List A
remove_each [] xs = xs
remove_each (i ∷ is) xs = remove_each is (remove_at xs i)

-- Each removal is in range of the list that the ones before it leave.
abbrev pub InRange : ℕ → List ℕ → Type 0
InRange n [] = Unit {0}
InRange n (i ∷ is) = (i < n) × InRange (n - 1) is

erase_each-remaining :
    (n : ℕ) (is : List ℕ) (o : ColumnInfo)
    → n < word
    → IsRemoval n o
    → InRange (length (remaining o.indices n)) is
    → remaining (erase_each is o).indices n ≡ remove_each is (remaining o.indices n)
erase_each-remaining n [] o w r h = refl
erase_each-remaining n (i ∷ is) o w r h =
    let o' = append_link_list_change remove_kind i o in
    let (r', e) = remaining-link_list_erase n w o i r h.0 in
    let len : length (remaining o'.indices n) ≡ length (remaining o.indices n) - 1 =
      omega (arith, ap length e, length-remove_at {0} (remaining o.indices n) i h.0) in
    erase_each-remaining n is o' w r' (subst (λ m. InRange m is) (sym len) h.1)
    ∙ ap (remove_each is) e

-- The list of the positions below a bound.
abbrev pub positions : ℕ → List ℕ
positions = remaining []

-- After removals from a list of `n` elements, each in range, the indices that the column reports
-- are the positions that the removed elements had at the start: what it does not report are the
-- positions that the same removals leave of all `n`.
pub erase_each_lem :
    (n : ℕ) (is : List ℕ)
    → n < word
    → InRange n is
    → remaining (erase_each is fresh).indices n ≡ remove_each is (positions n)
erase_each_lem n is w h =
    erase_each-remaining n is fresh w (untouched refl refl)
      (subst (λ m. InRange m is) (omega (arith, length-remaining [] n, absent-empty n)) h)
