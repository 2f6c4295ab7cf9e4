-- ===== src/Auth/Database.antt =====
-- crates/easybot-core/src/auth/api_key/keys.rs: the SQL statements on the tables `api_keys` and
-- `api_key_rotation_transitions`, as functions of their rows.
use easy_bot.Base.{
  ℕ, String, Bool, true, not, ◌&&◌, Option, none, some, List, ◌∷◌, leb, if◌then◌else◌, count,
  retain, str_eq,
}
use easy_bot.Auth.Types.{
  ApiKeyInfo, StoredKey, RotationState, created, prepared, RotationRow, AuthDb, ApiKeyManager,
  DbStep, Result, ok, err, ◌>>=◌, ◌>>◌, guard, run_sql, is_active, acquire, begin, count_active,
  insert_key, insert_transition, commit, limit_reached, slot_occupied,
}

abbrev pub has_id : String → StoredKey → Bool
has_id key_id s = str_eq s.info.id key_id

-- `WHERE id = ? AND revoked = 0` and `AND revoked = 1`
abbrev pub live_id : String → StoredKey → Bool
live_id key_id s = has_id key_id s && not s.info.revoked

abbrev pub dead_id : String → StoredKey → Bool
dead_id key_id s = has_id key_id s && s.info.revoked

abbrev pub set_revoked : StoredKey → StoredKey
set_revoked s = record s { info = record (s.info) { revoked = true } }

-- Marks the keys of one id, `SET revoked = 1 WHERE id = ?`.
abbrev pub mark_revoked : String → StoredKey → StoredKey
mark_revoked key_id s = if has_id key_id s then set_revoked s else s

-- The rows that `load_from_db` takes at the start of the program.
abbrev pub load_rows : AuthDb → ℕ → List StoredKey
load_rows db now = retain (is_active now) db.api_keys

unfoldable pub load_from_db : ApiKeyManager → ℕ → ApiKeyManager
load_from_db m now = elim m.pool [ none ↦ m | some db ↦ record m { loaded = load_rows db now } ]

abbrev pub key_limit : Option String → ℕ
key_limit none = 100
key_limit (some source_id) = 101

abbrev pub limit_error : Option String → easy_bot.Auth.Types.KeyError
limit_error none = limit_reached
limit_error (some source_id) = slot_occupied

abbrev pub add_transition : Option String → String → ℕ → List RotationRow → List RotationRow
add_transition none key_id now rows = rows
add_transition (some source_id) key_id now rows =
    record { source_id = source_id; replacement_id = key_id; state = created; created_at = now }
    ∷ rows

abbrev pub transition_sql : (DbStep → Bool) → Option String → Result (Unit {0})
transition_sql fault none = ok tt
transition_sql fault (some source_id) = run_sql fault insert_transition

-- The transaction of `create_key_internal`. Where it fails it is rolled back, so an error leaves the
-- database as it was.
unfoldable pub persist_key :
    (DbStep → Bool) → AuthDb → StoredKey → Option String → ℕ → Result AuthDb
persist_key fault db row rotation_source_id now = do
  run_sql fault acquire
  run_sql fault begin
  run_sql fault count_active
  guard (not (leb (key_limit rotation_source_id) (count (is_active now) db.api_keys)))
      (limit_error rotation_source_id)
  run_sql fault insert_key
  transition_sql fault rotation_source_id
  run_sql fault commit
  ok (record db {
    api_keys = row ∷ db.api_keys;
    transitions = add_transition rotation_source_id row.info.id now db.transitions;
  })
