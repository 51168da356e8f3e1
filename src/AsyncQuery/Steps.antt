-- ===== src/AsyncQuery/Steps.antt =====
-- Additions and removals of callbacks (Realm/ObjectStore/impl/async_query.cpp), also while the loop of
-- call_callbacks is at one of them.
use realm_cocoa.Base.{
  npos, ℕ, suc, ◌+◌, ◌≤◌, ◌<◌, ◌≡◌, refl, ◌⊎◌, inl, inr, Bool, true, false, not, List, [], ◌∷◌,
  ◌++◌, Option, none, some, leb, ◌==◌, if◌then◌else◌, word, incr, length, empty, arith, Bool-cases,
  subst, length-remove_at, length-append,
}
use realm_cocoa.AsyncQuery.{
  Callback, AsyncQuery, new_callback, add_callback, find_token, remove_at_index, remove_callback,
  Action, adds, removes, perform,
}
use realm_cocoa.AsyncQuery.Cursor.{
  Handled, due, Handled-remove_below, Handled-remove_above, Handled-append, due-remove_below,
  due-remove_above, due-append,
}

-- The position that the loop goes on from.
abbrev pub cursor : AsyncQuery → ℕ
cursor q = incr q.callback_index

abbrev pub due_in : AsyncQuery → ℕ
due_in q = due q.error q.delivered_table_version (cursor q) q.callbacks

-- The cursor is within the vector, whose length a `size_t` holds, `m_have_callbacks` says whether it
-- is empty, and the callbacks before the cursor have been called for the version.
abbrev pub IsConsistent : AsyncQuery → Type 0
IsConsistent q =
    (q.callback_index < word)
    × (cursor q ≤ length q.callbacks)
    × (q.have_callbacks ≡ not (empty q.callbacks))
    × Handled q.delivered_table_version (cursor q) q.callbacks

-- The state is consistent after a step that makes at most `extra` more callbacks, and as many due.
abbrev pub Kept : ℕ → AsyncQuery → AsyncQuery → Type 0
Kept extra q q' =
    IsConsistent q'
    × (due_in q' ≤ due_in q + extra)
    × (length q'.callbacks ≤ length q.callbacks + extra)
    × (q'.error ≡ q.error)
    × (q'.delivered_table_version ≡ q.delivered_table_version)

pub index-cases : (i : ℕ) → i < word → ((i ≡ npos) × (incr i ≡ 0)) ⊎ ((i < npos) × (incr i ≡ suc i))
index-cases i h = ground arith

empty-append : (cs : List Callback) (c : Callback) → empty (cs ++ c ∷ []) ≡ false
empty-append [] c = refl
empty-append (x ∷ cs) c = refl

nonempty : (cs : List Callback) → 0 < length cs → empty cs ≡ false
nonempty [] h = elim h [ ]
nonempty (x ∷ cs) h = refl

-- The same, for the position `n` that the cursor of the new state has.
make-Kept :
    (extra : ℕ) (q q' : AsyncQuery) (n : ℕ)
    → cursor q' ≡ n
    → q'.callback_index < word
    → n ≤ length q'.callbacks
    → q'.have_callbacks ≡ not (empty q'.callbacks)
    → Handled q'.delivered_table_version n q'.callbacks
    → due q'.error q'.delivered_table_version n q'.callbacks ≤ due_in q + extra
    → length q'.callbacks ≤ length q.callbacks + extra
    → q'.error ≡ q.error
    → q'.delivered_table_version ≡ q.delivered_table_version
    → Kept extra q q'
make-Kept extra q q' n at w l a h d s e v = ((w, rw at l, a, rw at h), rw at d, s, e, v)

pub add_callback-Kept : (q : AsyncQuery) → IsConsistent q → Kept 1 q (add_callback q)
unfolding add_callback
add_callback-Kept q h =
    let c = new_callback q.callbacks in
    let l = length-append q.callbacks (c ∷ []) in
    let d = due-append q.error q.delivered_table_version (cursor q) q.callbacks c h.1 in
    let handled = Handled-append q.delivered_table_version (cursor q) q.callbacks c h.1 h.3 in
    let full = empty-append q.callbacks c in
    elim (Bool-cases (q.callback_index == npos)) [
      | inl at ↦
          rw at
            ((h.0, omega (arith, l, h.1), rw full refl, handled), d, omega (arith, l), refl, refl)
      | inr at ↦
          let some_left = nonempty q.callbacks (ground (arith, h.0, h.1)) in
          rw at (
            (h.0, omega (arith, l, h.1), rw full (ground (arith, h.2)), handled),
            d,
            omega (arith, l),
            refl,
            refl,
          )
    ]

pub remove_at_index-Kept :
    (q : AsyncQuery) (k : ℕ)
    → k < length q.callbacks
    → IsConsistent q
    → Kept 0 q (remove_at_index q k)
unfolding remove_at_index
remove_at_index-Kept q k inside h =
    let v = q.delivered_table_version in
    let l = length-remove_at q.callbacks k inside in
    elim (index-cases q.callback_index h.0) [
      | inl at ↦
          make-Kept 0 q (remove_at_index q k) 0 (ground arith) (ground arith) (omega arith) refl tt
            (rw at.1 (omega (arith, due-remove_above q.error v 0 k q.callbacks (omega arith))))
            (omega (arith, l)) refl refl
      | inr at ↦
          let handled = subst (λ n. Handled v n q.callbacks) at.1 h.3 in
          elim (Bool-cases (leb k q.callback_index)) [
            | inl below ↦
                make-Kept 0 q (remove_at_index q k) q.callback_index (ground arith) (ground arith)
                  (ground (arith, l, h.1)) refl
                  (Handled-remove_below v q.callback_index k q.callbacks (ground arith) handled)
                  (rw at.1 (
                    omega (
                      arith,
                      due-remove_below q.error v q.callback_index k q.callbacks (ground arith),
                    )))
                  (omega (arith, l)) refl refl
            | inr above ↦
                make-Kept 0 q (remove_at_index q k) (suc q.callback_index) (ground arith)
                  (ground arith) (ground (arith, l, h.1)) refl
                  (Handled-remove_above v (suc q.callback_index) k q.callbacks (ground arith)
                    handled)
                  (rw at.1 (
                    omega (
                      arith,
                      due-remove_above q.error v (suc q.callback_index) k q.callbacks
                          (ground arith),
                    )))
                  (omega (arith, l)) refl refl
          ]
    ]

abbrev pub IsInside : List Callback → Option ℕ → Type 0
IsInside cs none = Unit
IsInside cs (some i) = i < length cs

IsInside-step :
    (c : Callback) (cs : List Callback) (b : Bool) (r : Option ℕ)
    → IsInside cs r
    → IsInside
        (c ∷ cs)
        (elim b [ true ↦ some 0 | false ↦ elim r [ none ↦ none | some i ↦ some (suc i) ] ])
IsInside-step c cs true r h = omega arith
IsInside-step c cs false none h = tt
IsInside-step c cs false (some i) h = omega (arith, h)

find_token-IsInside : (cs : List Callback) (token : ℕ) → IsInside cs (find_token cs token)
unfolding find_token
find_token-IsInside [] token = tt
find_token-IsInside (c ∷ cs) token =
    IsInside-step c cs (c.token == token) (find_token cs token) (find_token-IsInside cs token)

-- An action leaves the state consistent, if no assertion fails.
abbrev pub KeptIf : ℕ → AsyncQuery → Option AsyncQuery → Type 0
KeptIf extra q none = Unit
KeptIf extra q (some q') = Kept extra q q'

IsConsistent-Kept : (q : AsyncQuery) → IsConsistent q → Kept 0 q q
IsConsistent-Kept q h = (h, omega arith, omega arith, refl, refl)

removed-Kept :
    (q : AsyncQuery) (fails error : Bool) (r : Option ℕ)
    → ((i : ℕ) → r ≡ some i → i < length q.callbacks)
    → IsConsistent q
    → KeptIf 0 q (
        if fails then none else elim r [
          | none ↦ if error then some q else none
          | some idx ↦ some (remove_at_index q idx)
        ])
removed-Kept q true error r inside h = tt
removed-Kept q false true none inside h = IsConsistent-Kept q h
removed-Kept q false false none inside h = tt
removed-Kept q false error (some i) inside h = remove_at_index-Kept q i (inside i refl) h

remove_callback-Kept :
    (q : AsyncQuery) (token : ℕ) → IsConsistent q → KeptIf 0 q (remove_callback q token)
unfolding remove_callback
remove_callback-Kept q token h =
    removed-Kept q _ q.error (find_token q.callbacks token)
      (λ i e. subst (IsInside q.callbacks) e (find_token-IsInside q.callbacks token)) h

abbrev pub additions : List Action → ℕ
additions [] = 0
additions (adds ∷ actions) = suc (additions actions)
additions (removes token ∷ actions) = additions actions

Kept-then :
    (a b c : ℕ) (q q' : AsyncQuery) (r : Option AsyncQuery)
    → Kept a q q'
    → KeptIf b q' r
    → a + b ≡ c
    → KeptIf c q r
Kept-then a b c q q' none h k e = tt
Kept-then a b c q q' (some r) h k e =
    (k.0, omega (arith, h.1, k.1), omega (arith, h.2, k.2), cc, cc)

performed-Kept :
    (n : ℕ) (q : AsyncQuery) (r : Option AsyncQuery) (f : AsyncQuery → Option AsyncQuery)
    → ((q' : AsyncQuery) → IsConsistent q' → KeptIf n q' (f q'))
    → KeptIf 0 q r
    → KeptIf n q (elim r [ none ↦ none | some q' ↦ f q' ])
performed-Kept n q none f rest h = tt
performed-Kept n q (some q') f rest h = Kept-then 0 n n q q' (f q') h (rest q' h.0) (omega arith)

pub perform-Kept :
    (q : AsyncQuery) (actions : List Action)
    → IsConsistent q
    → KeptIf (additions actions) q (perform q actions)
unfolding perform
perform-Kept q [] h = IsConsistent-Kept q h
perform-Kept q (adds ∷ actions) h =
    let k = add_callback-Kept q h in
    Kept-then 1 (additions actions) _ q (add_callback q) (perform (add_callback q) actions) k
      (perform-Kept (add_callback q) actions k.0) (omega arith)
perform-Kept q (removes token ∷ actions) h =
    performed-Kept (additions actions) q (remove_callback q token) (λ q'. perform q' actions)
      (λ q' h'. perform-Kept q' actions h') (remove_callback-Kept q token h)
