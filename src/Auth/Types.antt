-- ===== src/Auth/Types.antt =====
-- crates/easybot-core/src/auth/api_key/mod.rs: the data of the API key manager. A raw key and its
-- public prefix are lists of bytes, since the code takes them apart; every other text is compared
-- only. The SQLite database is the rows of its tables.
use easy_bot.Base.{
  ℕ, String, Bool, true, false, Option, none, some, List, [], ◌∷◌, ltb, leb, ◌==◌, ◌&&◌, ◌||◌,
  if◌then◌else◌, length, take, drop, all, bytes_eq, not, ◌≡◌, ◌⊎◌, inl, inr, refl,
}

pub record ApiKeyInfo : Type 0 where
  pub id : String
  pub subject_id : String
  pub name : String
  pub prefix : List ℕ
  pub created_at : ℕ
  pub expires_at : Option ℕ
  pub last_used_at : Option ℕ
  pub revoked : Bool
  pub permissions : List String
  pub requests_per_minute : Option ℕ

pub record AuthInfo : Type 0 where
  pub id : String
  pub subject_id : String
  pub name : String
  pub permissions : List String
  pub requests_per_minute : Option ℕ

-- A key in memory, and without `manageable` a row of the table `api_keys`.
pub record StoredKey : Type 0 where
  pub info : ApiKeyInfo
  pub hash : String
  pub manageable : Bool

-- The column `state` of `api_key_rotation_transitions`.
pub data RotationState : Type 0 where
  created prepared : RotationState

pub record RotationRow : Type 0 where
  pub source_id : String
  pub replacement_id : String
  pub state : RotationState
  pub created_at : ℕ

pub record QuotaEvent : Type 0 where
  pub subject_id : String
  pub occurred_at : ℕ

pub record AuthDb : Type 0 where
  pub api_keys : List StoredKey
  pub transitions : List RotationRow
  pub quota_events : List QuotaEvent

-- `keys` is indexed by the SHA-256 text of the raw key; a `pool` of `none` is the manager that keeps
-- all in memory.
pub record ApiKeyManager : Type 0 where
  pub keys : List (String × StoredKey)
  pub loaded : List StoredKey
  pub pool : Option AuthDb
  pub quota_windows : List (String × List ℕ)

unfoldable pub new : Option AuthDb → ApiKeyManager
new pool = record { keys = []; loaded = []; pool = pool; quota_windows = [] }

-- The calls of the database that can fail, and what the code reports.
pub data DbStep : Type 0 where
  acquire begin count_active insert_key insert_transition commit update_keys delete_keys
        select_state delete_transition update_transition purge_quota count_quota insert_quota
        update_last_used :
      DbStep

pub data KeyError : Type 0 where
  invalid_key too_many_permissions duplicate_permissions hashing : KeyError
  limit_reached slot_occupied no_storage not_created_state no_transition : KeyError
  action_mismatch target_not_active : KeyError
  database : DbStep → KeyError

pub data Result {ℓ} (A : Type ℓ) : Type ℓ where
  ok : A → Result A
  err : KeyError → Result A

-- The rest of a method runs behind the `?` of the code.
infixl 5 ◌>>=◌ ◌>>◌
abbrev pub ◌>>=◌ {ℓ κ} :
    {Before : Type ℓ} {After : Type κ} → Result Before → (Before → Result After) → Result After
err reason >>= rest = err reason
ok value >>= rest = rest value

abbrev pub ◌>>◌ {ℓ} : {After : Type ℓ} → Result (Unit {0}) → Result After → Result After
checked >> rest = checked >>= (λ _. rest)

abbrev pub guard : Bool → KeyError → Result (Unit {0})
guard false reason = err reason
guard true reason = ok tt

pub Result-cases {ℓ} :
    {Value : Type ℓ} (result : Result Value)
    → ((value : Value) × (result ≡ ok value)) ⊎ ((reason : KeyError) × (result ≡ err reason))
Result-cases (err reason) = inr (reason, refl)
Result-cases (ok value) = inl (value, refl)

-- One call of the database; `fault` says which ones fail.
abbrev pub run_sql : (DbStep → Bool) → DbStep → Result (Unit {0})
run_sql fault step = guard (not (fault step)) (database step)

-- What the code takes from the crates sha2 and argon2: the index of a raw key, and whether a stored
-- hash is that of a raw key.
pub record Crypto : Type 0 where
  pub sha256_index : List ℕ → String
  pub verify_password : String → List ℕ → Bool

-- `now > expires`: the test of an expiry when a key is presented.
abbrev pub is_expired : Option ℕ → ℕ → Bool
is_expired none now = false
is_expired (some expires) now = ltb expires now

-- `revoked = 0 AND (expires_at IS NULL OR expires_at > now)`
abbrev pub is_unexpired : Option ℕ → ℕ → Bool
is_unexpired none now = true
is_unexpired (some expires) now = ltb now expires

abbrev pub is_active : ℕ → StoredKey → Bool
is_active now row = not row.info.revoked && is_unexpired row.info.expires_at now

abbrev pub is_hexdigit : ℕ → Bool
is_hexdigit c = leb b'0' c && leb c b'9' || leb b'a' c && leb c b'f' || leb b'A' c && leb c b'F'

abbrev pub key_head : List ℕ
key_head = b'e' ∷ b'b' ∷ b'_' ∷ []

unfoldable pub api_key_prefix : List ℕ → Option (List ℕ)
api_key_prefix key =
    if not (length key == 35)
      || not (bytes_eq (take 3 key) key_head)
      || not (all is_hexdigit (drop 3 key))
    then none
    else some (take 8 key)

abbrev pub auth_info : StoredKey → AuthInfo
auth_info s = record {
  id = s.info.id;
  subject_id = s.info.subject_id;
  name = s.info.name;
  permissions = s.info.permissions;
  requests_per_minute = s.info.requests_per_minute;
}
