-- ===== src/Adapter/Reconnect.antt =====
-- crates/easybot-core/src/adapter/manager/reconnect.rs: how a failure is classified, and how long the
-- monitor waits. Lower case and the search in a text are the standard library's, and parameters.
use easy_bot.Base.{
  ℕ, zero, suc, String, Bool, true, false, Option, none, List, [], ◌∷◌, any, if◌then◌else◌,
}
use easy_bot.Error.{
  GatewayError, auth_failed, unauthorized, forbidden, transient, request_timeout, rate_limited,
  display,
}

abbrev pub max_total_reconnect_attempts : ℕ
max_total_reconnect_attempts = 20

abbrev pub max_transport_retries : ℕ
max_transport_retries = 5

-- Durations and times are seconds.
abbrev pub transport_retry_backoff : ℕ
transport_retry_backoff = 30

pub record ReconnectState : Type 0 where
  pub consecutive_failures : ℕ
  pub total_failures : ℕ
  pub backoff_until : Option ℕ
  pub transport_retries : ℕ
  pub was_healthy : Bool
  pub permanent_failure : Bool

abbrev pub fresh_state : ReconnectState
fresh_state = record {
  consecutive_failures = 0;
  total_failures = 0;
  backoff_until = none;
  transport_retries = 0;
  was_healthy = false;
  permanent_failure = false;
}

pub data ReconnectFailure : Type 0 where
  temporary permanent : String → ReconnectFailure

abbrev pub transient_words : List String
transient_words =
    "dns" ∷ "resolve" ∷ "timeout" ∷ "timed out" ∷ "connection refused" ∷ "connection reset"
    ∷ "reset by peer" ∷ "error sending request" ∷ "io error" ∷ "send failed" ∷ "request failed"
    ∷ "read failed" ∷ "write failed" ∷ "tcp" ∷ "connect" ∷ "unreachable" ∷ "route" ∷ "peer"
    ∷ "closed" ∷ "network" ∷ "refused" ∷ "rate limit" ∷ "rate limited" ∷ "429" ∷ "too many requests"
    ∷ []

abbrev pub permanent_words : List String
permanent_words =
    "unauthorized" ∷ " 401 " ∷ " 403 " ∷ "forbidden" ∷ "auth failed" ∷ "invalid token"
    ∷ "access token expired" ∷ "access token invalid" ∷ "invalid access token" ∷ []

-- The operations on texts that the classification takes from the standard library.
pub record TextOps : Type 0 where
  pub show : ℕ → String
  pub to_lowercase : String → String
  pub contains : String → String → Bool

module _ (ops : TextOps) where
  abbrev pub lower_text : GatewayError → String
  lower_text error = ops.to_lowercase (display ops.show error)

  unfoldable pub classify_error_heuristic : GatewayError → ReconnectFailure
  classify_error_heuristic error =
      if any (ops.contains (lower_text error)) transient_words
      then temporary (display ops.show error)
      else (if any (ops.contains (lower_text error)) permanent_words
          then permanent (display ops.show error)
          else temporary (display ops.show error))

  unfoldable pub classify_error : GatewayError → ReconnectFailure
  unfolding classify_error_heuristic
  classify_error (auth_failed msg) = permanent msg
  classify_error (unauthorized msg) = permanent msg
  classify_error (forbidden msg) = permanent msg
  classify_error (transient msg) = temporary msg
  classify_error (request_timeout msg) = temporary msg
  classify_error (rate_limited retry_after_ms) =
      temporary (display ops.show (rate_limited retry_after_ms))
  classify_error error = classify_error_heuristic error

unfoldable pub is_transient_error : GatewayError → Bool
is_transient_error (transient _) = true
is_transient_error (request_timeout _) = true
is_transient_error (rate_limited _) = true
is_transient_error _ = false

unfoldable pub compute_backoff : ℕ → ℕ
compute_backoff zero = 5
compute_backoff (suc zero) = 10
compute_backoff (suc (suc zero)) = 30
compute_backoff (suc (suc (suc zero))) = 60
compute_backoff (suc (suc (suc (suc zero)))) = 120
compute_backoff (suc (suc (suc (suc (suc n))))) = 300
