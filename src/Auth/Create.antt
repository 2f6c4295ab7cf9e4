-- ===== src/Auth/Create.antt =====
-- crates/easybot-core/src/auth/api_key/keys.rs: `create_key_internal` and the calls that go through
-- it. What the code draws at random is an argument: the id, the 32 hexadecimal digits of the raw key,
-- and the outcome of the hash function.
use easy_bot.Base.{
  ℕ, String, Bool, true, false, not, Option, none, some, List, [], ◌∷◌, ◌++◌, ltb, ◌==◌,
  if◌then◌else◌, length, take, insert, remove, contains_text,
}
use easy_bot.Auth.Types.{
  ApiKeyInfo, StoredKey, ApiKeyManager, DbStep, Result, ok, err, Crypto, key_head,
  too_many_permissions, duplicate_permissions, hashing,
}
use easy_bot.Auth.Database.{persist_key}

pub record Draw : Type 0 where
  pub key_id : String
  pub digits : List ℕ
  pub phc_hash : Option String

abbrev pub raw_key_of : Draw → List ℕ
raw_key_of d = key_head ++ d.digits

-- The set of the permissions, `HashSet` of the source.
unfoldable pub unique : List String → List String
unique [] = []
unique (p ∷ ps) = if contains_text p ps then unique ps else p ∷ unique ps

pub record KeyRequest : Type 0 where
  pub name : String
  pub permissions : List String
  pub expires_at : Option ℕ
  pub requests_per_minute : Option ℕ
  pub persist : Bool
  pub subject_id : Option String
  pub rotation_source_id : Option String

abbrev pub or_default : Option String → String → String
or_default none d = d
or_default (some s) d = s

abbrev pub stored_key : KeyRequest → Draw → String → ℕ → StoredKey
stored_key r d phc_hash now = record {
  info = record {
    id = d.key_id;
    subject_id = or_default r.subject_id d.key_id;
    name = r.name;
    prefix = take 8 (raw_key_of d);
    created_at = now;
    expires_at = r.expires_at;
    last_used_at = none;
    revoked = false;
    permissions = r.permissions;
    requests_per_minute = r.requests_per_minute;
  };
  hash = phc_hash;
  manageable = r.persist;
}

module _ (crypto : Crypto) (fault : DbStep → Bool) where
  -- The second half: the key is indexed in memory, then written, and taken back if that fails.
  unfoldable pub store_key :
      ApiKeyManager → KeyRequest → Draw → StoredKey → ℕ → ApiKeyManager × Result (String × List ℕ)
  unfolding persist_key
  store_key m r d stored now =
      let index = crypto.sha256_index (raw_key_of d) in
      let indexed = insert index stored m.keys in
      let m1 : ApiKeyManager = record m { keys = indexed } in
      if r.persist
      then elim m.pool [
        | none ↦ (m1, ok (d.key_id, raw_key_of d))
        | some db ↦ elim (persist_key fault db stored r.rotation_source_id now) [
          | ok db' ↦ (record m1 { pool = some db' }, ok (d.key_id, raw_key_of d))
          | err e ↦ (record m1 { keys = remove index indexed }, err e)
        ]
      ]
      else (m1, ok (d.key_id, raw_key_of d))

  unfoldable pub create_key_internal :
      ApiKeyManager → KeyRequest → Draw → ℕ → ApiKeyManager × Result (String × List ℕ)
  unfolding store_key unique
  create_key_internal m r d now =
      if ltb 32 (length r.permissions)
      then (m, err too_many_permissions)
      else (if not (length (unique r.permissions) == length r.permissions)
          then (m, err duplicate_permissions)
          else elim d.phc_hash [
            | none ↦ (m, err hashing)
            | some phc_hash ↦ store_key m r d (stored_key r d phc_hash now) now
          ])

  unfoldable pub create_key_with_quota :
      ApiKeyManager
      → String
      → List String
      → Option ℕ
      → Option ℕ
      → Draw
      → ℕ
      → ApiKeyManager × Result (String × List ℕ)
  unfolding create_key_internal
  create_key_with_quota m name permissions expires_at requests_per_minute d now =
      create_key_internal m
        (record {
          name = name;
          permissions = permissions;
          expires_at = expires_at;
          requests_per_minute = requests_per_minute;
          persist = true;
          subject_id = none;
          rotation_source_id = none;
        })
        d now

  unfoldable pub create_key :
      ApiKeyManager
      → String
      → List String
      → Option ℕ
      → Draw
      → ℕ
      → ApiKeyManager × Result (String × List ℕ)
  unfolding create_key_with_quota
  create_key m name permissions expires_at d now =
      create_key_with_quota m name permissions expires_at none d now

  unfoldable pub create_rotated_key :
      ApiKeyManager → ApiKeyInfo → ℕ → Draw → ℕ → ApiKeyManager × Result (String × List ℕ)
  unfolding create_key_internal
  create_rotated_key m source expires_at d now =
      create_key_internal m
        (record {
          name = source.name;
          permissions = source.permissions;
          expires_at = some expires_at;
          requests_per_minute = source.requests_per_minute;
          persist = true;
          subject_id = some source.subject_id;
          rotation_source_id = some source.id;
        })
        d now
