-- ===== src/Auth/Rotation.antt =====
-- crates/easybot-core/src/auth/api_key/keys.rs: the transition that a rotation of a key leaves in the
-- database until it is completed or cancelled.
use easy_bot.Base.{
  String, Bool, true, false, not, ◌&&◌, Option, none, some, List, map, if◌then◌else◌, count, find,
  retain, str_eq, ◌==◌,
}
use easy_bot.Auth.Types.{
  RotationState, created, prepared, RotationRow, AuthDb, ApiKeyManager, DbStep, KeyError, Result,
  ok, err, ◌>>=◌, ◌>>◌, guard, run_sql, acquire, begin, commit, select_state, update_keys,
  delete_transition, update_transition, no_storage, not_created_state, no_transition,
  action_mismatch, target_not_active,
}
use easy_bot.Auth.Database.{live_id, mark_revoked}
use easy_bot.Auth.Revoke.{forget}

abbrev pub is_transition : String → String → RotationRow → Bool
is_transition source_id replacement_id t =
    str_eq t.source_id source_id && str_eq t.replacement_id replacement_id

abbrev pub is_created : RotationState → Bool
is_created created = true
is_created prepared = false

abbrev pub created_transition : String → String → RotationRow → Bool
created_transition source_id replacement_id t =
    is_transition source_id replacement_id t && is_created t.state

abbrev pub prepare : String → String → RotationRow → RotationRow
prepare source_id replacement_id t =
    if created_transition source_id replacement_id t then record t { state = prepared } else t

abbrev pub without_transition : String → String → List RotationRow → List RotationRow
without_transition source_id replacement_id =
    retain (λ t. not (is_transition source_id replacement_id t))

-- The text `action` is one of these or another.
pub data Action : Type 0 where
  cancel complete other : Action

-- Which of the two keys the action revokes.
unfoldable pub target_of : Action → RotationState → String → String → Result String
target_of cancel created source_id replacement_id = ok replacement_id
target_of complete prepared source_id replacement_id = ok source_id
target_of _ _ source_id replacement_id = err action_mismatch

abbrev pub state_of : Option RotationRow → Result RotationState
state_of none = err no_transition
state_of (some t) = ok t.state

module _ (fault : DbStep → Bool) where
  unfoldable pub mark_rotation_prepared :
      ApiKeyManager → String → String → ApiKeyManager × Result (Unit {0})
  mark_rotation_prepared m source_id replacement_id = elim m.pool [
    | none ↦ (m, ok tt)
    | some db ↦
        if fault update_transition then (m, err (KeyError.database update_transition)) else (
          record m {
            pool =
                some (record db {
                  transitions = map (prepare source_id replacement_id) db.transitions;
                });
          },
          guard (count (created_transition source_id replacement_id) db.transitions == 1)
              not_created_state,
        )
  ]

  unfoldable pub clear_rotation_transition :
      ApiKeyManager → String → String → ApiKeyManager × Result (Unit {0})
  clear_rotation_transition m source_id replacement_id = elim m.pool [
    | none ↦ (m, ok tt)
    | some db ↦
        if fault delete_transition then (m, err (KeyError.database delete_transition)) else (
          record m {
            pool = some (record db {
              transitions = without_transition source_id replacement_id db.transitions;
            });
          },
          ok tt,
        )
  ]

  -- The transaction of `reconcile_rotation_transition`; an error rolls it back.
  unfoldable pub reconcile_rows : AuthDb → String → String → Action → Result (AuthDb × String)
  unfolding target_of
  reconcile_rows db source_id replacement_id action = do
    run_sql fault acquire
    run_sql fault begin
    run_sql fault select_state
    state ← state_of (find (is_transition source_id replacement_id) db.transitions)
    target_id ← target_of action state source_id replacement_id
    run_sql fault update_keys
    guard (count (live_id target_id) db.api_keys == 1) target_not_active
    run_sql fault delete_transition
    run_sql fault commit
    ok (
      record db {
        api_keys = map (mark_revoked target_id) db.api_keys;
        transitions = without_transition source_id replacement_id db.transitions;
      },
      target_id,
    )

  unfoldable pub reconcile_rotation_transition :
      ApiKeyManager → String → String → Action → ApiKeyManager × Result (Unit {0})
  unfolding reconcile_rows forget
  reconcile_rotation_transition m source_id replacement_id action = elim m.pool [
    | none ↦ (m, err no_storage)
    | some db ↦ elim (reconcile_rows db source_id replacement_id action) [
      | ok (db', revoked_id) ↦ (forget (record m { pool = some db' }) revoked_id, ok tt)
      | err e ↦ (m, err e)
    ]
  ]
