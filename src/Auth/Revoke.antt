-- ===== src/Auth/Revoke.antt =====
-- crates/easybot-core/src/auth/api_key/keys.rs: `revoke_key`, `revoke_ephemeral_key`, `delete_key`.
use easy_bot.Base.{
  ℕ, String, Bool, true, false, not, ◌||◌, Option, none, some, map, if◌then◌else◌, any, find,
  retain, count, ◌==◌, length,
}
use easy_bot.Auth.Types.{
  StoredKey, AuthDb, ApiKeyManager, DbStep, Result, ok, err, ◌>>◌, run_sql, update_keys,
  delete_keys,
}
use easy_bot.Auth.Database.{has_id, live_id, dead_id, mark_revoked}

abbrev pub entry_has_id : String → String × StoredKey → Bool
entry_has_id key_id (index, s) = has_id key_id s

abbrev pub mark_entry : String → String × StoredKey → String × StoredKey
mark_entry key_id (index, s) = (index, mark_revoked key_id s)

-- `retain(|stored| stored.info.id != key_id)` on both stores of keys.
unfoldable pub forget : ApiKeyManager → String → ApiKeyManager
forget m key_id = record m {
  keys = retain (λ e. not (entry_has_id key_id e)) m.keys;
  loaded = retain (λ s. not (has_id key_id s)) m.loaded;
}

abbrev pub revoked_of : Option StoredKey → Bool
revoked_of none = false
revoked_of (some s) = s.info.revoked

abbrev pub revoked_of_entry : Option (String × StoredKey) → Bool
revoked_of_entry none = false
revoked_of_entry (some (index, s)) = s.info.revoked

module _ (fault : DbStep → Bool) where
  -- `UPDATE api_keys SET revoked = 1 WHERE id = ? AND revoked = 0`: the rows, and how many changed.
  unfoldable pub update_revoked : AuthDb → String → Result (AuthDb × ℕ)
  update_revoked db key_id = do
    run_sql fault update_keys
    ok (
      record db { api_keys = map (mark_revoked key_id) db.api_keys },
      count (live_id key_id) db.api_keys,
    )

  -- `DELETE FROM api_keys WHERE id = ? AND revoked = 1`
  unfoldable pub delete_revoked : AuthDb → String → Result (AuthDb × ℕ)
  delete_revoked db key_id = do
    run_sql fault delete_keys
    ok (
      record db { api_keys = retain (λ s. not (dead_id key_id s)) db.api_keys },
      count (dead_id key_id) db.api_keys,
    )

  -- What both calls do with a database: nothing is forgotten unless exactly one row changed.
  unfoldable pub after_write :
      ApiKeyManager → String → Result (AuthDb × ℕ) → ApiKeyManager × Result Bool
  unfolding forget
  after_write m key_id (err e) = (m, err e)
  after_write m key_id (ok (db', changed)) =
      let m1 : ApiKeyManager = record m { pool = some db' } in
      if changed == 1 then (forget m1 key_id, ok true) else (m1, ok false)

  unfoldable pub revoke_in_memory : ApiKeyManager → String → ApiKeyManager × Result Bool
  revoke_in_memory m key_id =
      if any (entry_has_id key_id) m.keys || any (has_id key_id) m.loaded
      then (
        record m {
          keys = map (mark_entry key_id) m.keys;
          loaded = map (mark_revoked key_id) m.loaded;
        },
        ok true,
      )
      else (m, ok false)

  unfoldable pub revoke_key : ApiKeyManager → String → ApiKeyManager × Result Bool
  unfolding update_revoked after_write revoke_in_memory
  revoke_key m key_id = elim m.pool [
    | some db ↦ after_write m key_id (update_revoked db key_id)
    | none ↦ revoke_in_memory m key_id
  ]

  unfoldable pub delete_in_memory : ApiKeyManager → String → ApiKeyManager × Result Bool
  unfolding forget
  delete_in_memory m key_id =
      if revoked_of_entry (find (entry_has_id key_id) m.keys)
        || revoked_of (find (has_id key_id) m.loaded)
      then (forget m key_id, ok true)
      else (m, ok false)

  unfoldable pub delete_key : ApiKeyManager → String → ApiKeyManager × Result Bool
  unfolding delete_revoked after_write delete_in_memory
  delete_key m key_id = elim m.pool [
    | some db ↦ after_write m key_id (delete_revoked db key_id)
    | none ↦ delete_in_memory m key_id
  ]

-- `retain(|_, stored| stored.manageable || stored.info.id != key_id)`
abbrev pub not_session : String → String × StoredKey → Bool
not_session key_id (index, s) = s.manageable || not (has_id key_id s)

unfoldable pub revoke_ephemeral_key : ApiKeyManager → String → ApiKeyManager × Bool
revoke_ephemeral_key m key_id =
    let kept = retain (not_session key_id) m.keys in
    (record m { keys = kept }, not (length kept == length m.keys))
