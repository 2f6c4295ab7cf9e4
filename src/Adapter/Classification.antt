-- ===== src/Adapter/Classification.antt =====
-- crates/easybot-core/src/adapter/manager/reconnect.rs: which failures are given up.
use easy_bot.Base.{◌≡◌, refl, String, Bool, true, false, not, ◌&&◌, ◌||◌, any, if◌then◌else◌}
use easy_bot.Error.{
  GatewayError, invalid_request, conflict, platform_not_found, chat_not_found,
  adapter_not_connected, message_too_long, rate_limited, capability_not_supported, auth_failed,
  unauthorized, forbidden, config_error, storage_error, internal, request_timeout, transient,
}
use easy_bot.Adapter.Reconnect.{
  TextOps, ReconnectFailure, temporary, permanent, transient_words, permanent_words, lower_text,
  classify_error_heuristic, classify_error, is_transient_error,
}

abbrev pub is_permanent : ReconnectFailure → Bool
is_permanent (temporary msg) = false
is_permanent (permanent msg) = true

-- An error that says itself that the credentials were rejected.
abbrev pub is_rejection : GatewayError → Bool
is_rejection (auth_failed _) = true
is_rejection (unauthorized _) = true
is_rejection (forbidden _) = true
is_rejection _ = false

module _ (text : TextOps) where
  abbrev pub has_word : GatewayError → Bool
  has_word e =
      any (text.contains (lower_text text e)) permanent_words
      && not (any (text.contains (lower_text text e)) transient_words)

  heuristic-is_permanent :
      (e : GatewayError) → is_permanent (classify_error_heuristic text e) ≡ has_word e
  unfolding classify_error_heuristic
  heuristic-is_permanent e =
      go _ (any (text.contains (lower_text text e)) transient_words)
        (any (text.contains (lower_text text e)) permanent_words)
    where
      go :
          (msg : String) (t p : Bool)
          → is_permanent (if t then temporary msg else (if p then permanent msg else temporary msg))
            ≡ (p && not t)
      go msg true true = refl
      go msg true false = refl
      go msg false true = refl
      go msg false false = refl

  -- A failure is permanent exactly if the error is a rejection of the credentials, or is not of a
  -- transient kind and its text has one of the words of a rejection and no word of the network.
  pub classify_error_iff :
      (e : GatewayError)
      → is_permanent (classify_error text e)
        ≡ (is_rejection e || (not (is_transient_error e) && has_word e))
  unfolding classify_error is_transient_error
  classify_error_iff (auth_failed _) = refl
  classify_error_iff (unauthorized _) = refl
  classify_error_iff (forbidden _) = refl
  classify_error_iff (transient _) = refl
  classify_error_iff (request_timeout _) = refl
  classify_error_iff (rate_limited _) = refl
  classify_error_iff (invalid_request m) = heuristic-is_permanent (invalid_request m)
  classify_error_iff (conflict m) = heuristic-is_permanent (conflict m)
  classify_error_iff (platform_not_found m) = heuristic-is_permanent (platform_not_found m)
  classify_error_iff (chat_not_found m) = heuristic-is_permanent (chat_not_found m)
  classify_error_iff (adapter_not_connected m) = heuristic-is_permanent (adapter_not_connected m)
  classify_error_iff (message_too_long m n) = heuristic-is_permanent (message_too_long m n)
  classify_error_iff (capability_not_supported m) =
      heuristic-is_permanent (capability_not_supported m)
  classify_error_iff (config_error m) = heuristic-is_permanent (config_error m)
  classify_error_iff (storage_error m) = heuristic-is_permanent (storage_error m)
  classify_error_iff (internal m) = heuristic-is_permanent (internal m)
