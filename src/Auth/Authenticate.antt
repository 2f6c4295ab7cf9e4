-- ===== src/Auth/Authenticate.antt =====
-- crates/easybot-core/src/auth/api_key/keys.rs: `authenticate` with what it calls. `now` is the time
-- at which the call runs.
use easy_bot.Base.{
  ℕ, ◌-◌, String, Bool, true, false, not, ◌&&◌, ◌||◌, Option, none, some, List, [], ◌∷◌, map, leb,
  if◌then◌else◌, any, find, retain, lookup, insert, bytes_eq,
}
use easy_bot.Auth.Types.{
  AuthInfo, StoredKey, AuthDb, ApiKeyManager, DbStep, Result, ok, err, Crypto, is_expired,
  api_key_prefix, auth_info, invalid_key, update_last_used,
}
use easy_bot.Auth.Database.{has_id}

-- The last use is older than a minute, or there was none.
abbrev pub stale_use : ℕ → Option ℕ → Bool
stale_use now none = true
stale_use now (some last) = leb 60_000 (now - last)

abbrev pub set_last_used : ℕ → StoredKey → StoredKey
set_last_used now s = record s { info = record (s.info) { last_used_at = some now } }

abbrev pub touch : String → ℕ → StoredKey → StoredKey
touch key_id now s = if has_id key_id s then set_last_used now s else s

abbrev pub touch_entry : String → ℕ → String × StoredKey → String × StoredKey
touch_entry key_id now (index, s) = (index, touch key_id now s)

abbrev pub due : String → ℕ → StoredKey → Bool
due key_id now s = has_id key_id s && stale_use now s.info.last_used_at

abbrev pub touch_db : String → ℕ → AuthDb → AuthDb
touch_db key_id now db = record db { api_keys = map (touch key_id now) db.api_keys }

-- The rows after the write of the time of use, if it is made and succeeds.
abbrev pub touch_pool : Bool → String → ℕ → Option AuthDb → Option AuthDb
touch_pool true key_id now (some db) = some (touch_db key_id now db)
touch_pool true key_id now none = none
touch_pool false key_id now pool = pool

-- The loaded keys with the public prefix.
abbrev pub with_prefix : List ℕ → List StoredKey → List StoredKey
with_prefix prefix = retain (λ (s : StoredKey). bytes_eq s.info.prefix prefix)

module _ (crypto : Crypto) (fault : DbStep → Bool) where
  -- A failed write of the time of use is logged, and changes nothing else.
  unfoldable pub record_successful_use : ApiKeyManager → String → ℕ → ApiKeyManager
  record_successful_use m key_id now =
      let should_persist =
        any (λ (e : String × StoredKey). due key_id now e.1) m.keys
        || any (due key_id now) m.loaded in
      record m {
        keys = map (touch_entry key_id now) m.keys;
        loaded = map (touch key_id now) m.loaded;
        pool = touch_pool (should_persist && not (fault update_last_used)) key_id now m.pool;
      }

  unfoldable pub verify_and_build_auth : StoredKey → List ℕ → ℕ → Result AuthInfo
  verify_and_build_auth stored key now =
      if stored.info.revoked
      then err invalid_key
      else (if is_expired stored.info.expires_at now
          then err invalid_key
          else (if crypto.verify_password stored.hash key
              then ok (auth_info stored)
              else err invalid_key))

  unfoldable pub promote_current :
      ApiKeyManager → String → StoredKey → ℕ → ApiKeyManager × Result AuthInfo
  promote_current m index_hash current now =
      if current.info.revoked || is_expired current.info.expires_at now
      then (m, err invalid_key)
      else (record m { keys = insert index_hash current m.keys }, ok (auth_info current))

  -- The candidate is looked up again, since a key may have been revoked while the slow hash ran.
  unfoldable pub promote_verified_loaded_key :
      ApiKeyManager → String → String → ℕ → ApiKeyManager × Result AuthInfo
  unfolding promote_current
  promote_verified_loaded_key m index_hash key_id now = elim (find (has_id key_id) m.loaded) [
    | none ↦ (m, err invalid_key)
    | some current ↦ promote_current m index_hash current now
  ]

  abbrev pub record_use_of : ApiKeyManager × Result AuthInfo → ℕ → ApiKeyManager × Result AuthInfo
  record_use_of (m, ok auth) now = (record_successful_use m auth.id now, ok auth)
  record_use_of (m, err e) now = (m, err e)

  -- The loop over the clones of the loaded keys with the prefix of the raw key.
  unfoldable pub try_loaded :
      ApiKeyManager → List StoredKey → List ℕ → ℕ → ApiKeyManager × Result AuthInfo
  unfolding promote_verified_loaded_key record_successful_use
  try_loaded m [] key now = (m, err invalid_key)
  try_loaded m (stored ∷ candidates) key now =
      if not stored.info.revoked
        && not (is_expired stored.info.expires_at now)
        && crypto.verify_password stored.hash key
      then record_use_of
          (promote_verified_loaded_key m (crypto.sha256_index key) stored.info.id now) now
      else try_loaded m candidates key now

  unfoldable pub authenticate : ApiKeyManager → List ℕ → ℕ → ApiKeyManager × Result AuthInfo
  unfolding verify_and_build_auth try_loaded record_successful_use
  authenticate m key now = elim (api_key_prefix key) [
    | none ↦ (m, err invalid_key)
    | some prefix ↦ elim (lookup (crypto.sha256_index key) m.keys) [
      | some stored ↦ record_use_of (m, verify_and_build_auth stored key now) now
      | none ↦ try_loaded m (with_prefix prefix m.loaded) key now
    ]
  ]
