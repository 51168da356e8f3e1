-- ===== src/AsyncQuery/Cursor.antt =====
-- The vector of callbacks (Realm/ObjectStore/impl/async_query.cpp) around the position of the loop that
-- calls them: those before it have been handled, and some of those behind it are due.
use realm_cocoa.Base.{
  ℕ, zero, suc, ◌+◌, ◌≤◌, ◌<◌, ◌≡◌, refl, Bool, true, false, List, [], ◌∷◌, ◌++◌, Option, none,
  some, if◌then◌else◌, length, remove_at, update_nth, arith, All,
}
use realm_cocoa.AsyncQuery.{Callback, is_due, next_due}

-- The first `n` callbacks have been called for the version.
abbrev pub Handled : ℕ → ℕ → List Callback → Type 0
Handled v zero cs = Unit
Handled v (suc n) [] = Unit
Handled v (suc n) (c ∷ cs) = (c.delivered_version ≡ v) × Handled v n cs

-- How many callbacks from the position `n` on are due.
abbrev pub due : Bool → ℕ → ℕ → List Callback → ℕ
due error v n [] = 0
due error v zero (c ∷ cs) =
    let rest = due error v 0 cs in if is_due error v c then suc rest else rest
due error v (suc n) (c ∷ cs) = due error v n cs

abbrev pub deliver : ℕ → Callback → Callback
deliver v c = record c { delivered_version = v }

-- What a search from the position `n` on is to give.
abbrev pub Next : Bool → ℕ → ℕ → List Callback → Option ℕ → Type 0
Next error v n cs none = Handled v n cs → All (λ c. c.delivered_version ≡ v) cs
Next error v n cs (some i) =
    (n ≤ i)
    × (i < length cs)
    × (Handled v n cs → Handled v (suc i) (update_nth cs i (deliver v)))
    × (due error v (suc i) (update_nth cs i (deliver v)) + 1 ≡ due error v n cs)

Next-skip :
    (error : Bool) (v n : ℕ) (c : Callback) (cs : List Callback) (r : Option ℕ)
    → Next error v n cs r
    → Next error v (suc n) (c ∷ cs) (elim r [ none ↦ none | some i ↦ some (suc i) ])
Next-skip error v n c cs none h = λ handled. (handled.0, h handled.1)
Next-skip error v n c cs (some i) h =
    (omega (arith, h.0), omega (arith, h.1), λ handled. (handled.0, h.2 handled.1), h.3)

Next-here :
    (error : Bool) (v : ℕ) (c : Callback) (cs : List Callback) (b : Bool) (r : Option ℕ)
    → is_due error v c ≡ b
    → Next error v 0 cs r
    → Next error v 0
        (c ∷ cs)
        (elim b [ true ↦ some 0 | false ↦ elim r [ none ↦ none | some i ↦ some (suc i) ] ])
Next-here error v c cs true r e h = (omega arith, omega arith, λ handled. (refl, tt), ground arith)
Next-here error v c cs false none e h = λ handled. (ground arith, h tt)
Next-here error v c cs false (some i) e h =
    (omega arith, omega (arith, h.1), λ handled. (ground arith, h.2 tt), ground (arith, h.3))

pub next_due-Next :
    (error : Bool) (v n : ℕ) (cs : List Callback) → Next error v n cs (next_due error v n cs)
unfolding next_due
next_due-Next error v n [] = λ handled. tt
next_due-Next error v zero (c ∷ cs) =
    Next-here error v c cs (is_due error v c) (next_due error v 0 cs) refl
      (next_due-Next error v 0 cs)
next_due-Next error v (suc n) (c ∷ cs) =
    Next-skip error v n c cs (next_due error v n cs) (next_due-Next error v n cs)

pub Handled-remove_below :
    (v n k : ℕ) (cs : List Callback) → k ≤ n → Handled v (suc n) cs → Handled v n (remove_at cs k)
Handled-remove_below v zero k cs l h = tt
Handled-remove_below v (suc n) k [] l h = tt
Handled-remove_below v (suc n) zero (c ∷ cs) l h = h.1
Handled-remove_below v (suc n) (suc k) (c ∷ cs) l h =
    (h.0, Handled-remove_below v n k cs (omega arith) h.1)

pub Handled-remove_above :
    (v n k : ℕ) (cs : List Callback) → n ≤ k → Handled v n cs → Handled v n (remove_at cs k)
Handled-remove_above v zero k cs l h = tt
Handled-remove_above v (suc n) k [] l h = tt
Handled-remove_above v (suc n) zero (c ∷ cs) l h = absurd (omega arith)
Handled-remove_above v (suc n) (suc k) (c ∷ cs) l h =
    (h.0, Handled-remove_above v n k cs (omega arith) h.1)

pub Handled-append :
    (v n : ℕ) (cs : List Callback) (c : Callback)
    → n ≤ length cs
    → Handled v n cs
    → Handled v n (cs ++ c ∷ [])
Handled-append v zero cs c l h = tt
Handled-append v (suc n) [] c l h = absurd (omega arith)
Handled-append v (suc n) (x ∷ cs) c l h = (h.0, Handled-append v n cs c (omega arith) h.1)

pub due-remove_below :
    (error : Bool) (v n k : ℕ) (cs : List Callback)
    → k ≤ n
    → due error v n (remove_at cs k) ≡ due error v (suc n) cs
due-remove_below error v n k [] l = refl
due-remove_below error v n zero (c ∷ cs) l = refl
due-remove_below error v zero (suc k) (c ∷ cs) l = absurd (omega arith)
due-remove_below error v (suc n) (suc k) (c ∷ cs) l = due-remove_below error v n k cs (omega arith)

pub due-remove_above :
    (error : Bool) (v n k : ℕ) (cs : List Callback)
    → n ≤ k
    → due error v n (remove_at cs k) ≤ due error v n cs
due-remove_above error v n k [] l = omega arith
due-remove_above error v zero zero (c ∷ cs) l = ground arith
due-remove_above error v zero (suc k) (c ∷ cs) l =
    ground (arith, due-remove_above error v 0 k cs (omega arith))
due-remove_above error v (suc n) zero (c ∷ cs) l = absurd (omega arith)
due-remove_above error v (suc n) (suc k) (c ∷ cs) l = due-remove_above error v n k cs (omega arith)

pub due-append :
    (error : Bool) (v n : ℕ) (cs : List Callback) (c : Callback)
    → n ≤ length cs
    → due error v n (cs ++ c ∷ []) ≤ due error v n cs + 1
due-append error v zero [] c l = ground arith
due-append error v (suc n) [] c l = absurd (omega arith)
due-append error v zero (x ∷ cs) c l = ground (arith, due-append error v 0 cs c (omega arith))
due-append error v (suc n) (x ∷ cs) c l = due-append error v n cs c (omega arith)
