-- ===== src/Auth/Creation.antt =====
-- What creating, rotating and deleting keys promise.
use easy_bot.Base.{
  ℕ, ◌≤◌, count, ◌≡◌, String, Bool, true, false, none, some, List, arith, Bool-cases, Option-cases,
  length, insert, lookup, lookup-insert, lookup-remove, inl, inr, eq_iff, all, take,
}
use easy_bot.Auth.Types.{
  StoredKey, AuthDb, ApiKeyManager, DbStep, ok, err, Crypto, KeyError, is_active, is_expired,
  Result-cases, api_key_prefix, is_hexdigit, auth_info,
}
use easy_bot.Auth.Database.{key_limit, persist_key}
use easy_bot.Auth.Create.{Draw, KeyRequest, raw_key_of, stored_key, store_key, create_key_internal}
use easy_bot.Auth.Authenticate.{verify_and_build_auth, authenticate}
use easy_bot.Auth.Steps.{persist_key_ok, create_cases}

-- What is drawn for a raw key: 32 hexadecimal digits.
abbrev pub IsWellDrawn : Draw → Type 0
IsWellDrawn d = (length d.digits ≡ 32) × (all is_hexdigit d.digits ≡ true)

prefix-raw_key :
    (d : Draw) → IsWellDrawn d → api_key_prefix (raw_key_of d) ≡ some (take 8 (raw_key_of d))
unfolding api_key_prefix
prefix-raw_key d w = ground arith

module _ (crypto : Crypto) (fault : DbStep → Bool) where
  -- The index of the new key leads to it, whichever way it was stored.
  store_key-lookup :
      (m m' : ApiKeyManager) (r : KeyRequest) (d : Draw) (stored : StoredKey) (now : ℕ)
      (result : String × List ℕ)
      → store_key crypto fault m r d stored now ≡ (m', ok result)
      → (result ≡ (d.key_id, raw_key_of d))
        × (lookup (crypto.sha256_index (raw_key_of d)) m'.keys ≡ some stored)
  unfolding store_key
  store_key-lookup m m' r d stored now result e = elim (Bool-cases r.persist) [
    | inl durable ↦ elim (Option-cases m.pool) [
      | inl no_pool ↦ ground (arith, durable, no_pool, own)
      | inr (db, pool) ↦
          elim (Result-cases (persist_key fault db stored r.rotation_source_id now)) [
            | inl (db', written) ↦ ground (arith, durable, pool, written, own)
            | inr (x, failed) ↦ absurd (ground (arith, durable, pool, failed))
          ]
    ]
    | inr session ↦ ground (arith, session, own)
  ]
    where
      index : String
      index = crypto.sha256_index (raw_key_of d)

      own : lookup index (insert index stored m.keys) ≡ some stored
      own = ground (arith, lookup-insert index index stored m.keys, eq_iff index index)

  store_key_error :
      (m m' : ApiKeyManager) (r : KeyRequest) (d : Draw) (stored : StoredKey) (now : ℕ)
      (x : KeyError)
      → lookup (crypto.sha256_index (raw_key_of d)) m.keys ≡ none
      → store_key crypto fault m r d stored now ≡ (m', err x)
      → (m'.pool ≡ m.pool)
        × (m'.loaded ≡ m.loaded)
        × ((index : String) → lookup index m'.keys ≡ lookup index m.keys)
  unfolding store_key
  store_key_error m m' r d stored now x fresh e = elim (Bool-cases r.persist) [
    | inl durable ↦ elim (Option-cases m.pool) [
      | inl no_pool ↦ absurd (ground (arith, durable, no_pool))
      | inr (db, pool) ↦
          elim (Result-cases (persist_key fault db stored r.rotation_source_id now)) [
            | inl (db', written) ↦ absurd (ground (arith, durable, pool, written))
            | inr (x', failed) ↦ (
              ground (arith, durable, pool, failed),
              ground (arith, durable, pool, failed),
              λ j. ground (
                arith,
                durable,
                pool,
                failed,
                eq_iff (crypto.sha256_index (raw_key_of d)) j,
                lookup-remove (crypto.sha256_index (raw_key_of d)) j
                    (insert (crypto.sha256_index (raw_key_of d)) stored m.keys),
                lookup-insert (crypto.sha256_index (raw_key_of d)) j stored m.keys,
              ),
            )
          ]
    ]
    | inr session ↦ absurd (ground (arith, session))
  ]

  store_key_limit :
      (m m' : ApiKeyManager) (r : KeyRequest) (d : Draw) (stored : StoredKey) (now : ℕ)
      (result : String × List ℕ) (db db' : AuthDb)
      → m.pool ≡ some db
      → m'.pool ≡ some db'
      → r.persist ≡ true
      → store_key crypto fault m r d stored now ≡ (m', ok result)
      → count (is_active now) db'.api_keys ≤ key_limit r.rotation_source_id
  unfolding store_key
  store_key_limit m m' r d stored now result db db' pool pool' durable e =
      elim (Result-cases (persist_key fault db stored r.rotation_source_id now)) [
        | inl (db'', written) ↦
            let (rows, below) =
              persist_key_ok crypto fault db db'' stored r.rotation_source_id now written in
            let same : db'' ≡ db' = ground (arith, durable, pool, pool', written) in
            ground (arith, rows, below, same)
        | inr (x', failed) ↦ absurd (ground (arith, durable, pool, failed))
      ]

  -- A key whose creation succeeded authenticates with the raw key that was returned, until it
  -- expires, as the caller that it was created for and with the permissions that were asked for.
  pub create-authenticate :
      (m m' : ApiKeyManager) (r : KeyRequest) (d : Draw) (now later : ℕ) (h : String)
      (result : String × List ℕ) (fault' : DbStep → Bool)
      → IsWellDrawn d
      → d.phc_hash ≡ some h
      → crypto.verify_password h (raw_key_of d) ≡ true
      → is_expired r.expires_at later ≡ false
      → create_key_internal crypto fault m r d now ≡ (m', ok result)
      → (result ≡ (d.key_id, raw_key_of d))
        × ((authenticate crypto fault' m' (raw_key_of d) later).1
            ≡ ok (auth_info (stored_key r d h now)))
  unfolding authenticate verify_and_build_auth
  create-authenticate m m' r d now later h result fault' well drawn verifies live e =
      elim (create_cases crypto fault m r d now) [
        | inl (x, refused) ↦ absurd (ground (arith, refused))
        | inr (h', drawn', stored) ↦
            let same : h' ≡ h = ground arith in
            let (shown, found) =
              store_key-lookup m m' r d (stored_key r d h' now) now result
                (ground (arith, stored)) in
            (shown, ground (arith, found, same, prefix-raw_key d well))
      ]

  -- A creation that reports an error has left the database as it was, and every index of the
  -- memory too: provided that no key had the index of the new one.
  pub create_error_unchanged :
      (m m' : ApiKeyManager) (r : KeyRequest) (d : Draw) (now : ℕ) (x : KeyError)
      → lookup (crypto.sha256_index (raw_key_of d)) m.keys ≡ none
      → create_key_internal crypto fault m r d now ≡ (m', err x)
      → (m'.pool ≡ m.pool)
        × (m'.loaded ≡ m.loaded)
        × ((index : String) → lookup index m'.keys ≡ lookup index m.keys)
  create_error_unchanged m m' r d now x fresh e = elim (create_cases crypto fault m r d now) [
    | inl (x', refused) ↦
        let same : m ≡ m' = ground (arith, refused) in
        (ground (arith, same), ground (arith, same), λ index. ground (arith, same))
    | inr (h, _, stored) ↦
        store_key_error m m' r d (stored_key r d h now) now x fresh (ground (arith, stored))
  ]

  -- A key is stored durably only while fewer than 100 keys are active, or 101 for the replacement of
  -- a rotation; so at the time of the creation no more than that many are active afterwards.
  pub create_active_limit :
      (m m' : ApiKeyManager) (r : KeyRequest) (d : Draw) (now : ℕ) (result : String × List ℕ)
      (db db' : AuthDb)
      → m.pool ≡ some db
      → m'.pool ≡ some db'
      → r.persist ≡ true
      → create_key_internal crypto fault m r d now ≡ (m', ok result)
      → count (is_active now) db'.api_keys ≤ key_limit r.rotation_source_id
  create_active_limit m m' r d now result db db' pool pool' durable e =
      elim (create_cases crypto fault m r d now) [
        | inl (x, refused) ↦ absurd (ground (arith, refused))
        | inr (h, _, stored) ↦
            store_key_limit m m' r d (stored_key r d h now) now result db db' pool pool' durable
              (ground (arith, stored))
      ]
