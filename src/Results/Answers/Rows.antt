-- ===== src/Results/Answers/Rows.antt =====
-- The rows of tables and of table views, read one by one (Realm/ObjectStore/results.cpp).
use realm_cocoa.Base.{
  ℕ, zero, suc, ◌+◌, ◌-◌, ◌≡◌, ◌≤◌, ◌<◌, ◌≢◌, inl, inr, refl, ap, ◌∙◌, sym, false, List, [], ◌∷◌,
  none, some, ltb, ◌==◌, if◌then◌else◌, length, get_elem?, Bool-cases, arith, lt→ltb, ltb→lt,
  ==_iff,
}
use realm_cocoa.Results.{Core, first_of, last_of, view_row}
use realm_cocoa.Realm.{SharedGroup}
use realm_cocoa.Results.Answers.{IsCore, position_from, from, upto, last_row}

get_elem?-past : (xs : List ℕ) (i : ℕ) → length xs ≤ i → get_elem? xs i ≡ none
get_elem?-past [] i h = refl
get_elem?-past (x ∷ xs) zero h = absurd (omega arith)
get_elem?-past (x ∷ xs) (suc i) h = get_elem?-past xs i (omega arith)

pub length-from : (k n : ℕ) → length (from k n) ≡ n
length-from k zero = refl
length-from k (suc n) = ap suc (length-from (suc k) n)

get_elem?-from : (k n i : ℕ) → i < n → get_elem? (from k n) i ≡ some (k + i)
get_elem?-from k zero i h = absurd (omega arith)
get_elem?-from k (suc n) zero h = ap some (omega arith)
get_elem?-from k (suc n) (suc i) h =
    get_elem?-from (suc k) n i (omega arith) ∙ ap some (omega arith)

pub position_from-from : (k n x : ℕ) → k ≤ x → x < k + n → position_from k x (from k n) ≡ x
position_from-from k zero x l h = absurd (omega arith)
position_from-from k (suc n) x l h = elim (Bool-cases (k == x)) [
  | inl b ↦ rw b ((==_iff k x).0 b)
  | inr b ↦
      let ne : k ≢ x = λ e. let t = (==_iff k x).1 e in cc in
      let next : k + 1 ≡ suc k = omega arith in
      rw (b, next) (position_from-from (suc k) n x (omega (arith, ne)) (omega arith))
]

-- A test against the size is a look at the position.
if-get_elem? :
    (xs : List ℕ) (n i x : ℕ)
    → length xs ≡ n
    → (i < n → get_elem? xs i ≡ some x)
    → (if ltb i n then some x else none) ≡ get_elem? xs i
if-get_elem? xs n i x l f = elim (Bool-cases (ltb i n)) [
  | inl b ↦ rw b (sym (f (ltb→lt i n b)))
  | inr b ↦ rw b (sym (get_elem?-past xs i (ground (arith, l, lt→ltb i n))))
]

if-empty :
    (xs : List ℕ) (n i x : ℕ)
    → length xs ≡ n
    → i ≤ n - 1
    → (i < n → get_elem? xs i ≡ some x)
    → (if n == 0 then none else some x) ≡ get_elem? xs i
if-empty xs zero i x l e f = sym (get_elem?-past xs i (omega (arith, l)))
if-empty xs (suc n) i x l e f =
    let some_rows : (suc n == 0) ≡ false = ground arith in rw some_rows (sym (f (omega (arith, e))))

elem-upto : (n i : ℕ) → i < n → get_elem? (upto n) i ≡ some i
elem-upto n i h = get_elem?-from 0 n i h ∙ ap some (omega arith)

pub table-row : (n i : ℕ) → (if ltb i n then some i else none) ≡ get_elem? (upto n) i
table-row n i = if-get_elem? (upto n) n i i (length-from 0 n) (elem-upto n i)

pub table-end : (n i : ℕ) → i ≤ n - 1 → (if n == 0 then none else some i) ≡ get_elem? (upto n) i
table-end n i l = if-empty (upto n) n i i (length-from 0 n) l (elem-upto n i)

module _ (S : SharedGroup) (C : Core) (laws : IsCore C) (w : C.World) (v : C.View) where
  pub view-row : (i : ℕ) → view_row S C i w v ≡ get_elem? (laws.rows w v) i
  view-row i =
      if-get_elem? (laws.rows w v) (C.view_size w v) i (C.view_get w v i) (sym (laws.size-rows w v))
        (λ h. laws.get-rows w v i (omega (arith, h, laws.size-rows w v)))

  view-end :
      (i : ℕ)
      → i ≤ C.view_size w v - 1
      → (if C.view_size w v == 0 then none else some (C.view_get w v i))
        ≡ get_elem? (laws.rows w v) i
  view-end i l =
      if-empty (laws.rows w v) (C.view_size w v) i (C.view_get w v i) (sym (laws.size-rows w v)) l
        (λ h. laws.get-rows w v i (omega (arith, h, laws.size-rows w v)))

  pub view-first : first_of S C w v ≡ get_elem? (laws.rows w v) 0
  view-first = view-end 0 (omega arith)

  pub view-last : last_of S C w v ≡ last_row (laws.rows w v)
  view-last =
      view-end (C.view_size w v - 1) (omega arith)
      ∙ ap (λ n. get_elem? (laws.rows w v) (n - 1)) (laws.size-rows w v)
