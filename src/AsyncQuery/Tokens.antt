-- ===== src/AsyncQuery/Tokens.antt =====
-- The tokens of callbacks (Realm/ObjectStore/impl/async_query.cpp).
use realm_cocoa.Base.{
  npos, ℕ, ◌+◌, ◌≤◌, ◌<◌, ◌≡◌, refl, true, false, List, [], ◌∷◌, ◌++◌, some, leb, ◌==◌,
  if◌then◌else◌, word, incr, length, remove_at, arith, All, Bool-cases, inl, inr, not, ◌||◌, ltb,
  ap, ◌∙◌, ◌⊎◌, length-append,
}
use realm_cocoa.AsyncQuery.{
  Callback, AsyncQuery, token_from, next_token, new_callback, add_callback, find_token,
  remove_at_index, remove_callback,
}
use realm_cocoa.AsyncQuery.Steps.{IsConsistent}

token_from-above :
    (t : ℕ) (cs : List Callback)
    → All (λ c. c.token + 1 < word) cs
    → (t ≤ token_from t cs) × All (λ c. c.token < token_from t cs) cs
unfolding token_from
token_from-above t [] h = (omega arith, tt)
token_from-above t (c ∷ cs) h =
    let ih = token_from-above (if leb t c.token then incr c.token else t) cs h.1 in
    (ground (arith, ih.0, h.0), (ground (arith, ih.0, h.0), ih.1))

find_token-fresh :
    (t : ℕ) (cs : List Callback) (c : Callback)
    → All (λ c. c.token < t) cs
    → c.token ≡ t
    → find_token (cs ++ c ∷ []) t ≡ some (length cs)
unfolding find_token
find_token-fresh t [] c h e = ground (arith, e)
find_token-fresh t (x ∷ cs) c h e =
    let other : (x.token == t) ≡ false = ground (arith, h.0) in
    rw (other, find_token-fresh t cs c h.1 e, find_token) refl

remove_at-end : (cs : List Callback) (c : Callback) → remove_at (cs ++ c ∷ []) (length cs) ≡ cs
remove_at-end [] c = refl
remove_at-end (x ∷ cs) c = ap (◌∷◌ x) (remove_at-end cs c)

callbacks-add_callback :
    (q : AsyncQuery) → (add_callback q).callbacks ≡ q.callbacks ++ new_callback q.callbacks ∷ []
unfolding add_callback
callbacks-add_callback q = elim (Bool-cases (q.callback_index == npos)) [
  | inl at ↦ rw at refl
  | inr at ↦ rw at refl
]

callback_index-add_callback : (q : AsyncQuery) → (add_callback q).callback_index ≡ q.callback_index
unfolding add_callback
callback_index-add_callback q = elim (Bool-cases (q.callback_index == npos)) [
  | inl at ↦ rw at refl
  | inr at ↦ rw at refl
]

token-new_callback : (cs : List Callback) → (new_callback cs).token ≡ next_token cs
unfolding new_callback
token-new_callback cs = refl

callbacks-remove_at_index :
    (q : AsyncQuery) (k : ℕ) → (remove_at_index q k).callbacks ≡ remove_at q.callbacks k
unfolding remove_at_index
callbacks-remove_at_index q k = refl

remove_callback-found :
    (q : AsyncQuery) (t i : ℕ)
    → 0 < length q.callbacks
    → find_token q.callbacks t ≡ some i
    → remove_callback q t ≡ some (remove_at_index q i)
unfolding remove_callback
remove_callback-found q t i some_left e =
    let b : ltb 0 (length q.callbacks) ≡ true = ground arith in
    let c : not (q.error || ltb 0 (length q.callbacks)) ≡ false = ground (arith, b) in
    rw (c, e, remove_callback) refl

remove_at_index-after :
    (q : AsyncQuery) (k : ℕ)
    → (q.callback_index ≡ npos) ⊎ (q.callback_index < k)
    → (remove_at_index q k).callback_index ≡ q.callback_index
unfolding remove_at_index
remove_at_index-after q k (inl at) = ground arith
remove_at_index-after q k (inr at) = ground arith

-- While no token is the largest `size_t`, the token of a new callback is above all others, so that the
-- token removes that callback and no other: the callbacks, and the position of the loop among them,
-- are as they were, and no assertion fails.
pub remove_callback-add_callback :
    (q : AsyncQuery)
    → IsConsistent q
    → All (λ c. c.token + 1 < word) q.callbacks
    → All (λ c. c.token < next_token q.callbacks) q.callbacks
      × (r : AsyncQuery) × (remove_callback (add_callback q) (next_token q.callbacks) ≡ some r)
      × (r.callbacks ≡ q.callbacks)
      × (r.callback_index ≡ q.callback_index)
unfolding next_token
remove_callback-add_callback q h small =
    let above = token_from-above 0 q.callbacks small in
    let cs = callbacks-add_callback q in
    let at = callback_index-add_callback q in
    let found : find_token (add_callback q).callbacks (next_token q.callbacks)
        ≡ some (length q.callbacks) =
      rw cs (
        find_token-fresh (next_token q.callbacks) q.callbacks (new_callback q.callbacks) above.1
          (token-new_callback q.callbacks)) in
    let l = length-append q.callbacks (new_callback q.callbacks ∷ []) in
    (
      above.1,
      remove_at_index (add_callback q) (length q.callbacks),
      remove_callback-found (add_callback q) (next_token q.callbacks) (length q.callbacks)
          (rw cs (omega (arith, l))) found,
      callbacks-remove_at_index (add_callback q) (length q.callbacks)
          ∙ rw cs (remove_at-end q.callbacks (new_callback q.callbacks)),
      remove_at_index-after (add_callback q) (length q.callbacks) (rw at (ground (arith, h.0, h.1)))
          ∙ at,
    )
