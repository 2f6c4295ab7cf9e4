-- ===== src/Session/Listing.antt =====
-- crates/easybot-core/src/session/manager.rs: `list`.
use easy_bot.Base.{
  ℕ, ◌-◌, ◌*◌, String, Option, none, some, List, [], ◌∷◌, map, if◌then◌else◌, leb, take, drop,
  retain, str_eq,
}
use easy_bot.Session.Types.{Session, SessionFilter}
use easy_bot.Session.Manager.{SessionManager}

module _ {M : Type 0} where
  -- The latest update first; equal times stay in their order.
  unfoldable pub place : Session M → List (Session M) → List (Session M)
  place s [] = s ∷ []
  place s (t ∷ ts) = if leb t.updated_at s.updated_at then s ∷ t ∷ ts else t ∷ place s ts

  unfoldable pub sorted : List (Session M) → List (Session M)
  unfolding place
  sorted [] = []
  sorted (s ∷ ss) = place s (sorted ss)

  abbrev pub of_platform : Option String → List (Session M) → List (Session M)
  of_platform none ss = ss
  of_platform (some p) ss = retain (λ s. str_eq s.platform p) ss

  -- The cut-off stops at 0, which no time is before.
  abbrev pub active_since : Option ℕ → ℕ → List (Session M) → List (Session M)
  active_since none now ss = ss
  active_since (some minutes) now ss = retain (λ s. leb (now - minutes * 60 * 1000) s.updated_at) ss

  abbrev pub limited : Option ℕ → List (Session M) → List (Session M)
  limited none ss = ss
  limited (some limit) ss = take limit ss

  abbrev pub skipped : Option ℕ → List (Session M) → List (Session M)
  skipped none ss = ss
  skipped (some offset) ss = drop offset ss

  abbrev pub filtered : SessionFilter → ℕ → List (Session M) → List (Session M)
  filtered f now ss =
      skipped f.offset
        (limited f.limit (active_since f.active_within_minutes now (of_platform f.platform ss)))

  unfoldable pub list : SessionManager M → Option SessionFilter → ℕ → List (Session M)
  unfolding sorted
  list m none now = sorted (map (λ (e : String × Session M). e.1) m.sessions)
  list m (some f) now = filtered f now (sorted (map (λ (e : String × Session M). e.1) m.sessions))
