-- ===== src/RealmCache.antt =====
-- The Realms that a coordinator keeps for its file (get_realm of
-- Realm/ObjectStore/impl/realm_coordinator.cpp).
pub mod Again
pub mod Unregister
use realm_cocoa.Base.{
  ℕ, ◌-◌, ◌≡◌, Bool, true, false, not, ◌&&◌, ◌||◌, List, [], ◌∷◌, ◌++◌, Option, none, some, ◌==◌,
  if◌then◌else◌, empty, Str, str_eq, word,
}

-- Realm::Config, as far as get_realm looks at it.
pub record Config : Type 0 where
  pub read_only : Bool
  pub in_memory : Bool
  pub cache : Bool
  pub encryption_key : Str
  pub schema_version : ℕ

-- A weak reference to a Realm, which is known by its key.
pub record CachedRealm : Type 0 where
  pub realm_key : ℕ
  pub thread_id : ℕ
  pub cache : Bool
  pub is_expired : Bool

pub record RealmCache : Type 0 where
  pub config : Config
  pub has_notifier : Bool
  pub cached_realms : List CachedRealm

-- The setting in which a Realm was opened differently before.
pub data Setting : Type 0 where
  setting_read_only setting_in_memory setting_encryption_key setting_schema_version : Setting

pub data Opening : Type 0 where
  opened : ℕ → RealmCache → Opening
  mismatched : Setting → RealmCache → Opening
  access_error failed_to_open : RealmCache → Opening

-- ObjectStore::NotVersioned
abbrev pub not_versioned : ℕ
not_versioned = word - 1

abbrev pub same_flag : Bool → Bool → Bool
same_flag true b = b
same_flag false b = not b

unfoldable pub mismatch : Config → Config → Option Setting
mismatch ours theirs =
    if not (same_flag ours.read_only theirs.read_only)
    then some setting_read_only
    else if not (same_flag ours.in_memory theirs.in_memory)
    then some setting_in_memory
    else if not (str_eq ours.encryption_key theirs.encryption_key)
    then some setting_encryption_key
    else if not (ours.schema_version == theirs.schema_version)
        && not (theirs.schema_version == not_versioned)
    then some setting_schema_version
    else none

-- Whether the configuration is still to be set.
unfoldable pub is_unset : RealmCache → Bool
is_unset s =
    (not s.config.read_only && not s.has_notifier) || (s.config.read_only && empty s.cached_realms)

-- The loop over the cached Realms.
unfoldable pub find_cached : ℕ → List CachedRealm → Option ℕ
find_cached thread [] = none
find_cached thread (x ∷ xs) =
    let rest = find_cached thread xs in
    if x.cache && x.thread_id == thread && not x.is_expired then some x.realm_key else rest

-- get_realm from the look at the cache on. `made` is the key of the new Realm, or nothing where opening
-- it throws.
unfoldable pub share_or_make : Option ℕ → ℕ → Config → RealmCache → Opening
share_or_make made thread config s =
    elim (if config.cache then find_cached thread s.cached_realms else none) [
      | some key ↦ opened key s
      | none ↦ elim made [
        | none ↦ failed_to_open s
        | some key ↦ opened key (record s {
          cached_realms =
              s.cached_realms
              ++ record {
                realm_key = key;
                thread_id = thread;
                cache = s.config.cache;
                is_expired = false;
              }
                ∷ [];
        })
      ]
    ]

-- `notifies` says whether an ExternalCommitHelper can be made.
unfoldable pub get_realm : Bool → Option ℕ → ℕ → Config → RealmCache → Opening
get_realm notifies made thread config s =
    if is_unset s
    then (if not config.read_only && not s.has_notifier
        then (if notifies
            then share_or_make made thread config
                (record s { config = config; has_notifier = true })
            else access_error (record s { config = config }))
        else share_or_make made thread config (record s { config = config }))
    else elim (mismatch s.config config) [
      | none ↦ share_or_make made thread config s
      | some setting ↦ mismatched setting s
    ]
