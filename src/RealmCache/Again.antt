-- ===== src/RealmCache/Again.antt =====
-- A Realm that was opened with the cache is given again to its thread (get_realm of
-- Realm/ObjectStore/impl/realm_coordinator.cpp).
use realm_cocoa.Base.{
  ℕ, ◌≡◌, inl, inr, refl, sym, subst, ap, ◌∙◌, Bool, true, false, not, ◌&&◌, ◌||◌, List, [], ◌∷◌,
  ◌++◌, Option, none, some, ◌==◌, empty, Bool-cases, Option-cases, str_eq_self, ==_iff,
}
use realm_cocoa.RealmCache.{
  Config, CachedRealm, RealmCache, opened, mismatched, access_error, failed_to_open, same_flag,
  mismatch, is_unset, find_cached, share_or_make, get_realm,
}

abbrev entry : ℕ → ℕ → Bool → CachedRealm
entry key thread b = record { realm_key = key; thread_id = thread; cache = b; is_expired = false }

find_cached-append :
    (key thread : ℕ) (xs : List CachedRealm)
    → find_cached thread xs ≡ none
    → find_cached thread (xs ++ entry key thread true ∷ []) ≡ some key
unfolding find_cached
find_cached-append key thread [] h =
    let own : (thread == thread) ≡ true = (==_iff thread thread).1 refl in rw own refl
find_cached-append key thread (x ∷ xs) h =
    elim (Bool-cases (x.cache && x.thread_id == thread && not x.is_expired)) [
      | inl b ↦ let found : find_cached thread (x ∷ xs) ≡ some x.realm_key = simp b in cc
      | inr b ↦
          let rest : find_cached thread (x ∷ xs) ≡ find_cached thread xs = simp b in
          simp b (find_cached-append key thread xs (sym rest ∙ h))
    ]

find_cached-empty :
    (key thread : ℕ) (xs : List CachedRealm) → find_cached thread xs ≡ some key → empty xs ≡ false
unfolding find_cached
find_cached-empty key thread [] h = cc
find_cached-empty key thread (x ∷ xs) h = refl

same_flag_self : (b : Bool) → same_flag b b ≡ true
same_flag_self true = refl
same_flag_self false = refl

mismatch_self : (c : Config) → mismatch c c ≡ none
unfolding mismatch
mismatch_self c =
    let version : (c.schema_version == c.schema_version) ≡ true =
      (==_iff c.schema_version c.schema_version).1 refl in
    simp (
      same_flag_self c.read_only,
      same_flag_self c.in_memory,
      str_eq_self c.encryption_key,
      version,
    )

-- A state that gives the Realm without a change.
record IsSettled (config : Config) (thread key : ℕ) (s : RealmCache) : Type 0 where
  is_set : is_unset s ≡ false
  agrees : mismatch s.config config ≡ none
  cached : find_cached thread s.cached_realms ≡ some key

share-found :
    (made : Option ℕ) (thread key : ℕ) (config : Config) (s : RealmCache)
    → config.cache ≡ true
    → find_cached thread s.cached_realms ≡ some key
    → share_or_make made thread config s ≡ opened key s
unfolding share_or_make
share-found made thread key config s c f = rw c (simp (share_or_make, f))

share-made :
    (made key thread : ℕ) (config : Config) (s : RealmCache)
    → config.cache ≡ true
    → find_cached thread s.cached_realms ≡ none
    → share_or_make (some made) thread config s
      ≡ opened made
          (record s { cached_realms = s.cached_realms ++ entry made thread s.config.cache ∷ [] })
unfolding share_or_make
share-made made key thread config s c f = rw c (simp (share_or_make, f))

share-failed :
    (thread : ℕ) (config : Config) (s : RealmCache)
    → config.cache ≡ true
    → find_cached thread s.cached_realms ≡ none
    → share_or_make none thread config s ≡ failed_to_open s
unfolding share_or_make
share-failed thread config s c f = rw c (simp (share_or_make, f))

settled-again :
    (notifies : Bool) (made : Option ℕ) (thread key : ℕ) (config : Config) (s : RealmCache)
    → config.cache ≡ true
    → IsSettled config thread key s
    → get_realm notifies made thread config s ≡ opened key s
unfolding get_realm
settled-again notifies made thread key config s c h =
    simp (h.is_set, h.agrees) (share-found made thread key config s c h.cached)

-- What share_or_make has returned is found in what it leaves.
abbrev IsShared : ℕ → ℕ → RealmCache → RealmCache → Type 0
IsShared thread key s s' =
    (find_cached thread s'.cached_realms ≡ some key)
    × (s'.config ≡ s.config)
    × (s'.has_notifier ≡ s.has_notifier)

opened-key : {k l : ℕ} {s t : RealmCache} → opened k s ≡ opened l t → k ≡ l
opened-key e = cc

opened-state : {k l : ℕ} {s t : RealmCache} → opened k s ≡ opened l t → s ≡ t
opened-state e = cc

appended :
    (key thread : ℕ) (xs : List CachedRealm) (b : Bool)
    → b ≡ true
    → find_cached thread xs ≡ none
    → find_cached thread (xs ++ entry key thread b ∷ []) ≡ some key
appended key thread xs true e h = find_cached-append key thread xs h
appended key thread xs false e h = cc

made-IsShared :
    (made : Option ℕ) (thread key : ℕ) (config : Config) (s s' : RealmCache)
    → config.cache ≡ true
    → s.config.cache ≡ true
    → find_cached thread s.cached_realms ≡ none
    → share_or_make made thread config s ≡ opened key s'
    → IsShared thread key s s'
made-IsShared none thread key config s s' c d f e =
    let failed = sym (share-failed thread config s c f) ∙ e in cc
made-IsShared (some k) thread key config s s' c d f e =
    let same = sym (share-made k key thread config s c f) ∙ e in
    subst (λ t. IsShared thread key s t) (opened-state same)
      (appended k thread s.cached_realms s.config.cache d f ∙ ap some (opened-key same), refl, refl)

share_or_make-IsShared :
    (made : Option ℕ) (thread key : ℕ) (config : Config) (s s' : RealmCache)
    → config.cache ≡ true
    → s.config.cache ≡ true
    → share_or_make made thread config s ≡ opened key s'
    → IsShared thread key s s'
share_or_make-IsShared made thread key config s s' c d e =
    elim (Option-cases (find_cached thread s.cached_realms)) [
      | inr (k, f) ↦
          let same = sym (share-found made thread k config s c f) ∙ e in
          subst (λ t. IsShared thread key s t) (opened-state same)
            (f ∙ ap some (opened-key same), refl, refl)
      | inl f ↦ made-IsShared made thread key config s s' c d f e
    ]

and_false : (b : Bool) → b && false ≡ false
and_false true = refl
and_false false = refl

fields-IsSettled :
    (thread key : ℕ) (config cfg : Config) (s : RealmCache)
    → s.config ≡ cfg
    → mismatch cfg config ≡ none
    → not cfg.read_only && not s.has_notifier ≡ false
    → find_cached thread s.cached_realms ≡ some key
    → IsSettled config thread key s
unfolding is_unset
fields-IsSettled thread key config cfg s e m n f =
    let full = find_cached-empty key thread s.cached_realms f in
    record { is_set = rw (e, n, full) (and_false cfg.read_only); agrees = rw e m; cached = f }

again-shared :
    (made : Option ℕ) (thread key : ℕ) (config : Config) (s s' : RealmCache)
    → config.cache ≡ true
    → s.config.cache ≡ true
    → mismatch s.config config ≡ none
    → not s.config.read_only && not s.has_notifier ≡ false
    → share_or_make made thread config s ≡ opened key s'
    → IsSettled config thread key s'
again-shared made thread key config s s' c d m n e =
    let (f, same_config, same_notifier) =
      share_or_make-IsShared made thread key config s s' c d e in
    fields-IsSettled thread key config s.config s' same_config m (rw same_notifier n) f

or-left : (a b : Bool) → a || b ≡ false → a ≡ false
or-left true b h = cc
or-left false b h = refl

second : (a : Bool) {b : Bool} → a ≡ false → a || b ≡ true → b ≡ true
second true e h = cc
second false e h = h

was-set :
    (s : RealmCache) → is_unset s ≡ false → not s.config.read_only && not s.has_notifier ≡ false
unfolding is_unset
was-set s u =
    or-left (not s.config.read_only && not s.has_notifier)
      (s.config.read_only && empty s.cached_realms) u

set-IsSettled :
    (notifies : Bool) (made : Option ℕ) (thread key : ℕ) (config : Config) (s s' : RealmCache)
    → config.cache ≡ true
    → s.config.cache ≡ true
    → is_unset s ≡ false
    → get_realm notifies made thread config s ≡ opened key s'
    → IsSettled config thread key s'
unfolding get_realm
set-IsSettled notifies made thread key config s s' c d u e =
    elim (Option-cases (mismatch s.config config)) [
      | inl m ↦
          let same : get_realm notifies made thread config s ≡ share_or_make made thread config s =
            simp (u, m) in
          again-shared made thread key config s s' c d m (was-set s u) (sym same ∙ e)
      | inr (x, m) ↦
          let refused : get_realm notifies made thread config s ≡ mismatched x s = simp (u, m) in cc
    ]

unset-IsSettled :
    (notifies : Bool) (made : Option ℕ) (thread key : ℕ) (config : Config) (s s' : RealmCache)
    → config.cache ≡ true
    → is_unset s ≡ true
    → get_realm notifies made thread config s ≡ opened key s'
    → IsSettled config thread key s'
unfolding get_realm
unset-IsSettled notifies made thread key config s s' c u e =
    elim (Bool-cases (not config.read_only && not s.has_notifier)) [
      | inr b ↦
          let now = record s { config = config } in
          let same : get_realm notifies made thread config s
              ≡ share_or_make made thread config now =
            simp (u, b) in
          again-shared made thread key config now s' c c (mismatch_self config) b (sym same ∙ e)
      | inl b ↦ elim (Bool-cases notifies) [
        | inl n ↦
            let now = record s { config = config; has_notifier = true } in
            let same : get_realm notifies made thread config s
                ≡ share_or_make made thread config now =
              simp (u, b, n) in
            again-shared made thread key config now s' c c (mismatch_self config)
              (and_false (not config.read_only)) (sym same ∙ e)
        | inr n ↦
            let refused : get_realm notifies made thread config s
                ≡ access_error (record s { config = config }) =
              simp (u, b, n) in
            cc
      ]
    ]

-- When get_realm has given a Realm to a thread that asks with the cache on, and the coordinator caches
-- the Realms it makes, then get_realm gives that thread the same Realm for the same configuration, and
-- changes nothing, whatever opening another would do, as long as the Realm is kept.
pub get_realm_again :
    (notifies : Bool) (made : Option ℕ) (thread key : ℕ) (config : Config) (s s' : RealmCache)
    → config.cache ≡ true
    → is_unset s || s.config.cache ≡ true
    → get_realm notifies made thread config s ≡ opened key s'
    → (notifies' : Bool) (made' : Option ℕ)
    → get_realm notifies' made' thread config s' ≡ opened key s'
get_realm_again notifies made thread key config s s' c d e notifies' made' =
    elim (Bool-cases (is_unset s)) [
      | inl u ↦
          settled-again notifies' made' thread key config s' c
            (unset-IsSettled notifies made thread key config s s' c u e)
      | inr u ↦
          settled-again notifies' made' thread key config s' c
            (set-IsSettled notifies made thread key config s s' c (second (is_unset s) u d) u e)
    ]
