-- ===== src/RateLimit/Window.antt =====
-- crates/easybot-api/src/middleware/rate_limit.rs, `SlidingWindow`: the times of the recorded
-- requests of one client address. Times are milliseconds since 1970, so they are not negative, and
-- the truncated `-` gives the comparisons of the source.
use easy_bot.Base.{
  ℕ, ◌-◌, ◌%◌, ◌^◌, Bool, true, false, List, [], ◌∷◌, ◌++◌, ltb, leb, if◌then◌else◌, length, count,
}

pub record RateLimitConfig : Type 0 where
  pub enabled : Bool
  pub requests_per_minute : ℕ
  pub burst_size : ℕ

-- The head of `timestamps` is the front of the queue.
pub record SlidingWindow : Type 0 where
  pub timestamps : List ℕ
  pub last_access : ℕ

abbrev pub window_ms : ℕ
window_ms = 60_000

abbrev pub burst_window : ℕ
burst_window = 1_000

unfoldable pub with_config : ℕ → SlidingWindow
with_config now = record { timestamps = []; last_access = now }

-- The `while let` of `prune`: it pops the front until an entry lies in the window.
unfoldable pub prune : List ℕ → ℕ → List ℕ
prune [] window_start = []
prune (ts ∷ rest) window_start = if ltb ts window_start then prune rest window_start else ts ∷ rest

abbrev pub since : ℕ → ℕ → Bool
since start ts = leb start ts

-- The count of the last second, cast to `u32`.
abbrev pub burst_count : List ℕ → ℕ → ℕ
burst_count timestamps now = count (since (now - burst_window)) timestamps % 2 ^ 32

unfoldable pub check_and_record : SlidingWindow → ℕ → ℕ → ℕ → SlidingWindow × Bool
check_and_record w max_requests burst now =
    let kept = prune w.timestamps (now - window_ms) in
    let touched : SlidingWindow = record { timestamps = kept; last_access = now } in
    if leb max_requests (length kept)
    then (if ltb 0 burst
        then (if leb burst (burst_count kept now) then (touched, false) else (touched, true))
        else (touched, false))
    else (record { timestamps = kept ++ now ∷ []; last_access = now }, true)
