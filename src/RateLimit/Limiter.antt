-- ===== src/RateLimit/Limiter.antt =====
-- crates/easybot-api/src/middleware/rate_limit.rs, `RateLimiter`: one window for each client
-- address, in the order in which the map is iterated. `locked` says for which addresses the window's
-- lock cannot be had at once (`try_read` fails), since another request holds it.
use easy_bot.Base.{
  ℕ, ◌-◌, String, Bool, true, false, not, ◌&&◌, ◌||◌, Option, none, some, List, [], ◌∷◌, ltb, leb,
  if◌then◌else◌, length, take, retain, lookup, insert, remove, contains_key,
}
use easy_bot.RateLimit.Window.{RateLimitConfig, SlidingWindow, with_config, check_and_record}

abbrev pub Buckets : Type 0
Buckets = List (String × SlidingWindow)

pub record RateLimiter : Type 0 where
  pub buckets : Buckets
  pub config : RateLimitConfig

unfoldable pub new : RateLimitConfig → RateLimiter
new config = record { buckets = []; config = config }

unfoldable pub update_config : RateLimiter → RateLimitConfig → RateLimiter
update_config l config = record l { config = config }

abbrev pub max_buckets : ℕ
max_buckets = 100_000

-- `i64::MAX`, where the search for the oldest sampled window starts.
abbrev pub i64_max : ℕ
i64_max = 9_223_372_036_854_775_807

abbrev pub window_of : Option SlidingWindow → ℕ → SlidingWindow
window_of (some w) now = w
window_of none now = with_config now

-- `entry(...).or_insert_with(...)`, and the check of the window found there.
unfoldable pub enter : RateLimiter → Buckets → String → ℕ → RateLimiter × Bool
enter l buckets client_ip now =
    let (w, allowed) =
      check_and_record (window_of (lookup client_ip buckets) now) l.config.requests_per_minute
        l.config.burst_size now in
    (record l { buckets = insert client_ip w buckets }, allowed)

module _ (locked : String → Bool) where
  -- The loop over the sampled entries: the key of the least recently used window that is not
  -- locked.
  unfoldable pub oldest : Buckets → ℕ → Option String → Option String
  oldest [] oldest_time oldest_key = oldest_key
  oldest ((key, w) ∷ entries) oldest_time oldest_key =
      let newer = not (locked key) && ltb w.last_access oldest_time in
      oldest entries (if newer then w.last_access else oldest_time)
        (if newer then some key else oldest_key)

  -- Room for a new address: `none` when the request is denied.
  unfoldable pub make_room : Buckets → String → Option Buckets
  make_room buckets client_ip =
      if leb max_buckets (length buckets) && not (contains_key client_ip buckets)
      then elim (oldest (take 20 buckets) i64_max none) [
        | some key ↦ some (remove key buckets)
        | none ↦ none
      ]
      else some buckets

  -- A request as one step. In the code the test of the length, the removal and the entry of the new
  -- window are three steps, between which requests of other addresses may do theirs.
  unfoldable pub check : RateLimiter → String → ℕ → RateLimiter × Bool
  unfolding make_room enter
  check l client_ip now =
      if l.config.enabled
      then elim (make_room l.buckets client_ip) [
        | none ↦ (l, false)
        | some buckets ↦ enter l buckets client_ip now
      ]
      else (l, true)

  abbrev pub stays : ℕ → String × SlidingWindow → Bool
  stays cutoff (key, w) = locked key || leb cutoff w.last_access

  -- One round of `start_cleanup`; a window that cannot be read is kept.
  unfoldable pub cleanup : RateLimiter → ℕ → RateLimiter
  cleanup l now = record l { buckets = retain (stays (now - 300_000)) l.buckets }
