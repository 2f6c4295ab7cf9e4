-- ===== src/Auth/Ephemeral/Tests.antt =====
-- Eight session keys of one name, and a ninth.
use easy_bot.Base.{
  ℕ, ◌≡◌, ◌≤◌, refl, String, Bool, true, false, none, some, List, [], ◌∷◌, replicate, count, lookup,
  contains_key, insert, remove,
}
use easy_bot.Auth.Types.{ApiKeyManager, StoredKey, DbStep, Result, Crypto}
use easy_bot.Auth.Create.{Draw, raw_key_of, unique, store_key, create_key_internal}
use easy_bot.Auth.Ephemeral.{of_name, place, sorted, evict, create_ephemeral_key}
use easy_bot.Auth.Revoke.{revoke_ephemeral_key}
use easy_bot.Auth.Ephemeral.Newest.{created-bounded}

runs : Unit {0}
unfolding lookup contains_key insert remove unique store_key create_key_internal place sorted evict
    create_ephemeral_key revoke_ephemeral_key
runs = tt

abbrev crypto : Crypto
crypto = record { sha256_index = λ key. "new"; verify_password = λ hash key. true }

abbrev no_fault : DbStep → Bool
no_fault step = false

abbrev session : String → ℕ → StoredKey
session id now = record {
  info = record {
    id = id;
    subject_id = id;
    name = "admin";
    prefix = [];
    created_at = now;
    expires_at = some 1000;
    last_used_at = none;
    revoked = false;
    permissions = "*" ∷ [];
    requests_per_minute = none;
  };
  hash = "hash";
  manageable = false;
}

abbrev eight : List (String × StoredKey)
eight =
    ("3", session "3" 3)
    ∷ ("1", session "1" 1)
    ∷ ("2", session "2" 2)
    ∷ ("4", session "4" 4)
    ∷ ("5", session "5" 5)
    ∷ ("6", session "6" 6)
    ∷ ("7", session "7" 7)
    ∷ ("8", session "8" 8)
    ∷ []

abbrev manager : ApiKeyManager
manager = record { keys = eight; loaded = []; pool = none; quota_windows = [] }

abbrev draw : Draw
draw = record { key_id = "9"; digits = replicate 32 48; phc_hash = some "hash" }

abbrev created : ApiKeyManager × Result (String × List ℕ)
created = create_ephemeral_key crypto no_fault manager "admin" ("*" ∷ []) 1000 draw 9

-- The oldest goes.
oldest_evicted : lookup "1" (created.0).keys ≡ none
unfolding runs
oldest_evicted = refl

second_stays : contains_key "2" (created.0).keys ≡ true
unfolding runs
second_stays = refl

revoked : (revoke_ephemeral_key created.0 "2").1 ≡ true
unfolding runs
revoked = refl

created-bounded_example :
    (count (of_name "admin") (created.0).keys ≤ 8)
    × ((s : StoredKey) × (lookup "new" (created.0).keys ≡ some s)
        × (s.info.id ≡ "9")
        × (s.info.name ≡ "admin")
        × (s.info.expires_at ≡ some 1000))
unfolding runs
created-bounded_example =
    created-bounded crypto no_fault manager created.0 "admin" ("*" ∷ []) 1000 9 draw
      ("9", raw_key_of draw) refl refl
