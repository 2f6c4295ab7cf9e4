-- ===== src/Auth/History.antt =====
-- Whatever calls follow a revocation, in any order, with any faults of the database, and across
-- restarts: a revoked key does not come back.
use easy_bot.Base.{ℕ, ◌≡◌, ◌≢◌, String, Bool, true, List, [], ◌∷◌, All}
use easy_bot.Auth.Types.{AuthInfo, ApiKeyManager, DbStep, ok, Crypto}
use easy_bot.Auth.Authenticate.{authenticate}
use easy_bot.Auth.Revoke.{revoke_key}
use easy_bot.Auth.Calls.{
  Call, creates, authenticates, revokes, revokes_session, deletes, prepares, clears, reconciles,
  restarts, Event, perform, run,
}
use easy_bot.Auth.Gone.{IsGone, Denies-IsGone, Denies-ne, authenticate-Denies}
use easy_bot.Auth.Revocation.{revoke_key-IsGone, revoke_key-keeps, delete_key-keeps}
use easy_bot.Auth.Steps.{
  restart-IsGone, revoke_ephemeral_key-IsGone, create-IsGone, mark_prepared-IsGone,
  clear_transition-IsGone, reconcile-IsGone,
}

-- A call other than the creation of a key of that id.
abbrev pub IsOther : String → Call → Type 0
IsOther id (creates r d) = d.key_id ≢ id
IsOther id _ = Unit

module _ (crypto : Crypto) (fault : DbStep → Bool) where
  perform-IsGone :
      (id : String) (now : ℕ) (m : ApiKeyManager) (c : Call)
      → IsOther id c
      → IsGone id m
      → IsGone id (perform crypto fault now m c)
  unfolding perform
  perform-IsGone id now m (creates r d) o g = create-IsGone crypto fault id m r d now o g
  perform-IsGone id now m (authenticates key) o g =
      Denies-IsGone id _ (authenticate-Denies crypto fault id m key now g)
  perform-IsGone id now m (revokes key_id) o g = revoke_key-keeps fault id key_id m g
  perform-IsGone id now m (revokes_session key_id) o g = revoke_ephemeral_key-IsGone id key_id m g
  perform-IsGone id now m (deletes key_id) o g = delete_key-keeps fault id key_id m g
  perform-IsGone id now m (prepares source replacement) o g =
      mark_prepared-IsGone crypto fault id source replacement m g
  perform-IsGone id now m (clears source replacement) o g =
      clear_transition-IsGone crypto fault id source replacement m g
  perform-IsGone id now m (reconciles source replacement action) o g =
      reconcile-IsGone crypto fault id source replacement action m g
  perform-IsGone id now m restarts o g = restart-IsGone id m now g

module _ (crypto : Crypto) where
  run-IsGone :
      (id : String) (m : ApiKeyManager) (es : List Event)
      → All (λ (e : Event). IsOther id e.call) es
      → IsGone id m
      → IsGone id (run crypto m es)
  unfolding run
  run-IsGone id m [] o g = g
  run-IsGone id m (e ∷ es) (o, os) g =
      run-IsGone id (perform crypto e.fault e.now m e.call) es os
        (perform-IsGone crypto e.fault id e.now m e.call o g)

  -- After a revocation that reported success, the key never authenticates again: not with any raw
  -- key, at any time, and whatever creations, authentications, revocations, deletions, steps of
  -- rotations, faults of the database and restarts come in between, as long as no new key is created
  -- with its id.
  pub revoked-run-denied :
      (fault : DbStep → Bool) (m m' : ApiKeyManager) (id : String) (es : List Event)
      (fault' : DbStep → Bool) (key : List ℕ) (now : ℕ) (auth : AuthInfo)
      → revoke_key fault m id ≡ (m', ok true)
      → All (λ (e : Event). IsOther id e.call) es
      → (authenticate crypto fault' (run crypto m' es) key now).1 ≡ ok auth
      → auth.id ≢ id
  revoked-run-denied fault m m' id es fault' key now auth revoked others success =
      Denies-ne id _ auth
        (authenticate-Denies crypto fault' id (run crypto m' es) key now
          (run-IsGone id m' es others (revoke_key-IsGone fault id m m' revoked)))
        success
