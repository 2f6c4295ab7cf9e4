-- ===== src/Auth/Ephemeral.antt =====
-- crates/easybot-core/src/auth/api_key/keys.rs: `create_ephemeral_key`, the keys of
-- browser sessions, which stand in memory only.
mod Bound
mod Newest
mod Tests
use easy_bot.Base.{
  ℕ, String, Bool, true, false, not, ◌&&◌, ◌||◌, Option, none, some, List, [], ◌∷◌, map,
  if◌then◌else◌, ltb, leb, str_eq, retain, drop, remove, length, ◌==◌,
}
use easy_bot.Auth.Types.{ApiKeyManager, StoredKey, DbStep, Result, ok, err, Crypto, is_unexpired}
use easy_bot.Auth.Create.{Draw, raw_key_of, create_key_internal}

abbrev pub max_active_per_ephemeral_name : ℕ
max_active_per_ephemeral_name = 8

abbrev pub of_name : String → String × StoredKey → Bool
of_name name e = not e.1.manageable && str_eq e.1.info.name name

pub record Candidate : Type 0 where
  pub index : String
  pub is_created : Bool
  pub created_at : ℕ

abbrev pub candidate : String → String × StoredKey → Candidate
candidate created_index e = record {
  index = e.0;
  is_created = str_eq e.0 created_index;
  created_at = e.1.info.created_at;
}

-- The comparison of `sort_by`: the key just created, then the newest.
abbrev pub comes_first : Candidate → Candidate → Bool
comes_first left right =
    if left.is_created
    then (if right.is_created then leb right.created_at left.created_at else true)
    else (if right.is_created then false else leb right.created_at left.created_at)

unfoldable pub place : Candidate → List Candidate → List Candidate
place c [] = c ∷ []
place c (d ∷ ds) = if comes_first c d then c ∷ d ∷ ds else d ∷ place c ds

unfoldable pub sorted : List Candidate → List Candidate
unfolding place
sorted [] = []
sorted (c ∷ cs) = place c (sorted cs)

abbrev pub remove_all : List Candidate → List (String × StoredKey) → List (String × StoredKey)
remove_all [] keys = keys
remove_all (c ∷ cs) keys = remove_all cs (remove c.index keys)

-- The oldest keys of the name beyond the bound are removed.
unfoldable pub evict : String → String → List (String × StoredKey) → List (String × StoredKey)
unfolding sorted
evict name created_index keys =
    remove_all
      (drop max_active_per_ephemeral_name
        (sorted (map (candidate created_index) (retain (of_name name) keys))))
      keys

abbrev pub unexpired : ℕ → String × StoredKey → Bool
unexpired now e = is_unexpired e.1.info.expires_at now

-- What follows the creation of the key, if it succeeds.
abbrev pub bounded :
    String
    → String
    → ApiKeyManager × Result (String × List ℕ)
    → ApiKeyManager × Result (String × List ℕ)
bounded name created_index (m, err e) = (m, err e)
bounded name created_index (m, ok created) =
    (record m { keys = evict name created_index m.keys }, ok created)

unfoldable pub create_ephemeral_key :
    Crypto
    → (DbStep → Bool)
    → ApiKeyManager
    → String
    → List String
    → ℕ
    → Draw
    → ℕ
    → ApiKeyManager × Result (String × List ℕ)
unfolding create_key_internal evict
create_ephemeral_key crypto fault m name permissions expires_at d now =
    let cleaned : ApiKeyManager = record m { keys = retain (unexpired now) m.keys } in
    bounded name (crypto.sha256_index (raw_key_of d)) (
      create_key_internal crypto fault cleaned
        (record {
          name = name;
          permissions = permissions;
          expires_at = some expires_at;
          requests_per_minute = none;
          persist = false;
          subject_id = none;
          rotation_source_id = none;
        })
        d now)
