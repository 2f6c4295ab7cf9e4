-- ===== src/Session/Calls.antt =====
-- crates/easybot-core/src/session/manager.rs: sequences of calls, one after another. In the code
-- `get_or_create` and `delete` give the map free before they write to the store, so that calls may
-- overlap, which is not modelled here.
use easy_bot.Base.{ℕ, ◌≡◌, String, true, false, List, [], ◌∷◌}
use easy_bot.Session.Types.{SessionSource, SessionMutation}
use easy_bot.Session.Manager.{SessionManager, get_or_create, delete, update, too_large}
use easy_bot.Session.Mirror.{Synced, get_or_create-Synced, delete-Synced, update-Synced}

pub data Call (M : Type 0) : Type 0 where
  opens : String → SessionSource → ℕ → Call M
  deletes : String → Call M
  updates : String → SessionMutation M → ℕ → Call M

module _ {M : Type 0} (empty : M) (size : M → ℕ) where
  -- A call whose write to the store succeeds.
  unfoldable pub step : SessionManager M → Call M → SessionManager M
  step m (opens key source now) = (get_or_create empty true m key source now).0
  step m (deletes key) = (delete true m key).0
  step m (updates key mutation now) = (update size true m key mutation now).0

  unfoldable pub run : SessionManager M → List (Call M) → SessionManager M
  unfolding step
  run m [] = m
  run m (c ∷ cs) = run (step m c) cs

  -- No update whose metadata are too large.
  abbrev pub Fits : Call M → Type 0
  Fits (updates key mutation now) = too_large size mutation.metadata ≡ false
  Fits _ = Unit

  abbrev pub AllFit : List (Call M) → Type 0
  AllFit [] = Unit
  AllFit (c ∷ cs) = Fits c × AllFit cs

  step-Synced : (m : SessionManager M) (c : Call M) → Fits c → Synced M m → Synced M (step m c)
  unfolding step
  step-Synced m (opens key source now) fits h = get_or_create-Synced empty m key source now h
  step-Synced m (deletes key) fits h = delete-Synced m key h
  step-Synced m (updates key mutation now) fits h = update-Synced size m key mutation now fits h

  -- Over any openings of sessions, deletions and updates that come one after another, without
  -- overlap, whose writes to the store succeed and no update of which has metadata that are too
  -- large, the store keeps holding exactly the sessions of the memory, each under its own key.
  pub calls-Synced :
      (m : SessionManager M) (cs : List (Call M)) → AllFit cs → Synced M m → Synced M (run m cs)
  unfolding run
  calls-Synced m [] fit h = h
  calls-Synced m (c ∷ cs) (f, fit) h = calls-Synced (step m c) cs fit (step-Synced m c f h)
