-- ===== src/Auth/Calls.antt =====
-- The calls of an API key manager, in any order: each runs at a time, and with its own faults of the
-- database. A restart keeps the database alone.
use easy_bot.Base.{ℕ, String, Bool, List, [], ◌∷◌}
use easy_bot.Auth.Types.{ApiKeyManager, DbStep, Crypto, new}
use easy_bot.Auth.Database.{load_from_db}
use easy_bot.Auth.Create.{Draw, KeyRequest, create_key_internal}
use easy_bot.Auth.Authenticate.{authenticate}
use easy_bot.Auth.Revoke.{revoke_key, revoke_ephemeral_key, delete_key}
use easy_bot.Auth.Rotation.{
  Action, mark_rotation_prepared, clear_rotation_transition, reconcile_rotation_transition,
}

pub data Call : Type 0 where
  creates : KeyRequest → Draw → Call
  authenticates : List ℕ → Call
  revokes revokes_session deletes : String → Call
  prepares clears : String → String → Call
  reconciles : String → String → Action → Call
  restarts : Call

pub record Event : Type 0 where
  pub fault : DbStep → Bool
  pub now : ℕ
  pub call : Call

module _ (crypto : Crypto) where
  unfoldable pub perform : (DbStep → Bool) → ℕ → ApiKeyManager → Call → ApiKeyManager
  perform fault now m (creates r d) = (create_key_internal crypto fault m r d now).0
  perform fault now m (authenticates key) = (authenticate crypto fault m key now).0
  perform fault now m (revokes key_id) = (revoke_key fault m key_id).0
  perform fault now m (revokes_session key_id) = (revoke_ephemeral_key m key_id).0
  perform fault now m (deletes key_id) = (delete_key fault m key_id).0
  perform fault now m (prepares source_id replacement_id) =
      (mark_rotation_prepared fault m source_id replacement_id).0
  perform fault now m (clears source_id replacement_id) =
      (clear_rotation_transition fault m source_id replacement_id).0
  perform fault now m (reconciles source_id replacement_id action) =
      (reconcile_rotation_transition fault m source_id replacement_id action).0
  perform fault now m restarts = load_from_db (new m.pool) now

  unfoldable pub run : ApiKeyManager → List Event → ApiKeyManager
  unfolding perform
  run m [] = m
  run m (e ∷ es) = run (perform e.fault e.now m e.call) es
