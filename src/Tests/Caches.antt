-- ===== src/Tests/Caches.antt =====
-- The cache of Realms (Realm/ObjectStore/impl/realm_coordinator.cpp) of a file, opened on two threads.
use realm_cocoa.Base.{ℕ, Bool, ◌≡◌, refl, ◌||◌, true, false, [], ◌∷◌, none, some}
use realm_cocoa.RealmCache.{
  CachedRealm, Config, RealmCache, opened, mismatched, setting_read_only, is_unset, mismatch,
  share_or_make, find_cached, get_realm,
}
use realm_cocoa.RealmCache.Unregister.{unregister_realm, unregister_realm_misses}
use realm_cocoa.RealmCache.Again.{get_realm_again}

abbrev config : Config
config = record {
  read_only = false;
  in_memory = false;
  cache = true;
  encryption_key = [];
  schema_version = 2;
}

abbrev unused : RealmCache
unused = record { config = config; has_notifier = false; cached_realms = [] }

abbrev one_open : RealmCache
one_open = record {
  config = config;
  has_notifier = true;
  cached_realms = record { realm_key = 11; thread_id = 1; cache = true; is_expired = false } ∷ [];
}

first_cached : is_unset unused || unused.config.cache ≡ true
unfolding is_unset
first_cached = refl

first_open : get_realm true (some 11) 1 config unused ≡ opened 11 one_open
unfolding get_realm is_unset share_or_make find_cached
first_open = refl

other_permissions :
    get_realm true (some 12) 1 (record config { read_only = true }) one_open
    ≡ mismatched setting_read_only one_open
unfolding get_realm is_unset mismatch
other_permissions = refl

get_realm_again_example : get_realm false none 1 config one_open ≡ opened 11 one_open
get_realm_again_example =
    get_realm_again true (some 11) 1 11 config unused one_open refl first_cached first_open false
      none

abbrev of_key : ℕ → Bool → CachedRealm
of_key key is_expired = record {
  realm_key = key;
  thread_id = 1;
  cache = true;
  is_expired = is_expired;
}

unregister_realm_misses_example :
    unregister_realm 13 (of_key 11 true ∷ of_key 12 false ∷ of_key 13 false ∷ [])
    ≡ of_key 13 false ∷ of_key 12 false ∷ []
unregister_realm_misses_example =
    unregister_realm_misses (of_key 11 true) (of_key 13 false) (of_key 12 false ∷ []) refl
      (refl, tt)
