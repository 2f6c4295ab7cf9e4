-- ===== src/Auth/Tests.antt =====
-- Runs of the API key manager on concrete keys.
use easy_bot.Base.{
  ℕ, ◌≤◌, ◌≡◌, ◌≢◌, refl, ◌⊎◌, inl, inr, String, Bool, true, false, not, ◌&&◌, Option, none, some,
  List, [], ◌∷◌, ◌++◌, arith, count, replicate, lookup, find, bytes_eq, if◌then◌else◌, eq_iff,
  retain, insert, remove, All,
}
use easy_bot.Auth.Types.{
  StoredKey, created, prepared, RotationRow, AuthDb, ApiKeyManager, new, DbStep, insert_key,
  update_keys, database, ok, err, Crypto, is_active, api_key_prefix, auth_info, invalid_key,
}
use easy_bot.Auth.Database.{load_from_db, live_id, persist_key}
use easy_bot.Auth.Create.{
  Draw, KeyRequest, raw_key_of, stored_key, create_key_internal, store_key, unique,
}
use easy_bot.Auth.Authenticate.{authenticate, promote_verified_loaded_key}
use easy_bot.Auth.Revoke.{revoke_key, delete_key, forget}
use easy_bot.Auth.Rotation.{
  cancel, complete, is_transition, without_transition, reconcile_rotation_transition,
}
use easy_bot.Auth.Calls.{restarts, run}
use easy_bot.Auth.History.{revoked-run-denied}
use easy_bot.Auth.Creation.{create-authenticate, create_error_unchanged, create_active_limit}
use easy_bot.Auth.Outcomes.{reconcile_outcome}

-- The index and the hash tell two raw keys apart by their last digit alone.
abbrev last_is_a : List ℕ → Bool
last_is_a [] = false
last_is_a (c ∷ []) = easy_bot.Base.◌==◌ c b'a'
last_is_a (_ ∷ d ∷ cs) = last_is_a (d ∷ cs)

abbrev sum_hash : Crypto
sum_hash = record {
  sha256_index = λ key. if last_is_a key then "index a" else "index 0";
  verify_password =
      λ hash key. easy_bot.Base.str_eq hash (if last_is_a key then "hash a" else "hash 0");
}

abbrev healthy : DbStep → Bool
healthy step = false

abbrev no_insert : DbStep → Bool
no_insert insert_key = true
no_insert _ = false

abbrev no_update : DbStep → Bool
no_update update_keys = true
no_update _ = false

abbrev draw_a : Draw
draw_a = record {
  key_id = "id a";
  digits = replicate 31 b'0' ++ b'a' ∷ [];
  phc_hash = some "hash a";
}

abbrev request : KeyRequest
request = record {
  name = "ops";
  permissions = "MessagesSend" ∷ [];
  expires_at = some 5000;
  requests_per_minute = none;
  persist = true;
  subject_id = none;
  rotation_source_id = none;
}

abbrev key_a : StoredKey
key_a = stored_key request draw_a "hash a" 1000

abbrev draw_b : Draw
draw_b = record { key_id = "id b"; digits = replicate 32 b'0'; phc_hash = some "hash 0" }

abbrev key_b : StoredKey
key_b = stored_key request draw_b "hash 0" 2000

abbrev transition : RotationRow
transition = record {
  source_id = "id a";
  replacement_id = "id b";
  state = prepared;
  created_at = 2000;
}

abbrev empty_db : AuthDb
empty_db = record { api_keys = []; transitions = []; quota_events = [] }

abbrev db_a : AuthDb
db_a = record empty_db { api_keys = key_a ∷ [] }

abbrev db_ab : AuthDb
db_ab = record { api_keys = key_b ∷ key_a ∷ []; transitions = transition ∷ []; quota_events = [] }

abbrev start : ApiKeyManager
start = new (some empty_db)

runs : Unit {0}
unfolding new create_key_internal store_key persist_key unique insert remove lookup authenticate
    api_key_prefix revoke_key delete_key forget reconcile_rotation_transition
    promote_verified_loaded_key
runs = tt

abbrev with_a : ApiKeyManager
with_a = (create_key_internal sum_hash healthy start request draw_a 1000).0

abbrev rotated : ApiKeyManager
rotated = record { keys = []; loaded = key_b ∷ key_a ∷ []; pool = some db_ab; quota_windows = [] }

create_then_authenticate :
    (authenticate sum_hash healthy with_a (raw_key_of draw_a) 1500).1 ≡ ok (auth_info key_a)
unfolding runs
create_then_authenticate = refl

revoke_then_authenticate :
    (authenticate sum_hash healthy (revoke_key healthy with_a "id a").0 (raw_key_of draw_a) 1500).1
    ≡ err invalid_key
unfolding runs
revoke_then_authenticate = refl

revoked-run-denied_example : (auth_info key_b).id ≢ "id a"
unfolding runs run load_from_db
revoked-run-denied_example =
    revoked-run-denied sum_hash healthy rotated (revoke_key healthy rotated "id a").0 "id a"
      (record { fault = healthy; now = 2100; call = restarts } ∷ []) healthy (raw_key_of draw_b)
      2200 (auth_info key_b) refl (tt, tt) refl

create-authenticate_example :
    (◌≡◌ {A = String × List ℕ} ("id a", raw_key_of draw_a) ("id a", raw_key_of draw_a))
    × ((authenticate sum_hash no_update with_a (raw_key_of draw_a) 1500).1 ≡ ok (auth_info key_a))
unfolding runs
create-authenticate_example =
    create-authenticate sum_hash healthy start with_a request draw_a 1000 1500 "hash a"
      ("id a", raw_key_of draw_a) no_update (refl, refl) refl refl refl refl

create_error_unchanged_example :
    (start.pool ≡ start.pool)
    × (start.loaded ≡ start.loaded)
    × ((index : String) → lookup index start.keys ≡ lookup index start.keys)
unfolding runs
create_error_unchanged_example =
    create_error_unchanged sum_hash no_insert start start request draw_a 1000 (database insert_key)
      refl refl

create_active_limit_example : count (is_active 1000) db_a.api_keys ≤ 100
unfolding runs
create_active_limit_example =
    create_active_limit sum_hash healthy start with_a request draw_a 1000
      ("id a", raw_key_of draw_a) empty_db db_a refl refl refl refl

abbrev completed : ApiKeyManager
completed = (reconcile_rotation_transition healthy rotated "id a" "id b" complete).0

abbrev db_completed : AuthDb
db_completed = record {
  api_keys = key_b ∷ record key_a { info = record (key_a.info) { revoked = true } } ∷ [];
  transitions = [];
  quota_events = [];
}

reconcile_outcome_example :
    (t : RotationRow) × (find (is_transition "id a" "id b") db_ab.transitions ≡ some t)
    × (db_completed.transitions ≡ without_transition "id a" "id b" db_ab.transitions)
    × ((complete ≡ cancel)
          × (t.state ≡ created)
          × (count (live_id "id b") db_ab.api_keys ≡ 1)
          × (count (live_id "id b") db_completed.api_keys ≡ 0)
          × (count (live_id "id a") db_completed.api_keys ≡ count (live_id "id a") db_ab.api_keys)
        ⊎ (complete ≡ complete)
          × (t.state ≡ prepared)
          × (count (live_id "id a") db_ab.api_keys ≡ 1)
          × (count (live_id "id a") db_completed.api_keys ≡ 0)
          × (count (live_id "id b") db_completed.api_keys ≡ count (live_id "id b") db_ab.api_keys))
unfolding runs
reconcile_outcome_example =
    reconcile_outcome sum_hash healthy healthy rotated completed "id a" "id b" complete db_ab
      db_completed (λ e. cc ((eq_iff "id a" "id b").1 e)) refl refl refl
