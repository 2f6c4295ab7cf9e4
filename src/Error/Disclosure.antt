-- ===== src/Error/Disclosure.antt =====
-- crates/easybot-core/src/types/error.rs: what an error response tells a client.
use easy_bot.Base.{
  ℕ, ◌≤◌, ◌≡◌, refl, sym, ap, ◌∙◌, String, Bool, true, if◌then◌else◌, str_eq, arith,
}
use easy_bot.Error.{
  GatewayError, invalid_request, conflict, platform_not_found, chat_not_found,
  adapter_not_connected, message_too_long, rate_limited, capability_not_supported, auth_failed,
  unauthorized, forbidden, config_error, storage_error, internal, request_timeout, transient,
  external_message, error_code, http_status, is_internal_error,
}

-- The status and the message of an internal error, read off its code.
abbrev code_status : String → ℕ
code_status code =
    if str_eq code "STORAGE_ERROR"
    then 500
    else if str_eq code "CONFIG_ERROR"
    then 500
    else if str_eq code "INTERNAL_ERROR"
    then 500
    else 503

abbrev code_message : String → String
code_message code =
    if str_eq code "STORAGE_ERROR"
    then "Storage error"
    else if str_eq code "CONFIG_ERROR"
    then "Configuration error"
    else if str_eq code "INTERNAL_ERROR"
    then "Internal server error"
    else "Temporary failure"

-- Whether a code belongs to an internal error.
abbrev code_is_internal : String → Bool
code_is_internal code =
    if str_eq code "STORAGE_ERROR"
    then true
    else if str_eq code "CONFIG_ERROR"
    then true
    else if str_eq code "INTERNAL_ERROR"
    then true
    else str_eq code "TRANSIENT_ERROR"

is_internal_error-code : (e : GatewayError) → is_internal_error e ≡ code_is_internal (error_code e)
unfolding is_internal_error error_code
is_internal_error-code (invalid_request _) = refl
is_internal_error-code (conflict _) = refl
is_internal_error-code (platform_not_found _) = refl
is_internal_error-code (chat_not_found _) = refl
is_internal_error-code (adapter_not_connected _) = refl
is_internal_error-code (message_too_long _ _) = refl
is_internal_error-code (rate_limited _) = refl
is_internal_error-code (capability_not_supported _) = refl
is_internal_error-code (auth_failed _) = refl
is_internal_error-code (unauthorized _) = refl
is_internal_error-code (forbidden _) = refl
is_internal_error-code (config_error _) = refl
is_internal_error-code (storage_error _) = refl
is_internal_error-code (internal _) = refl
is_internal_error-code (request_timeout _) = refl
is_internal_error-code (transient _) = refl

internal_response :
    (show : ℕ → String) (e : GatewayError)
    → is_internal_error e ≡ true
    → (external_message show e ≡ code_message (error_code e))
      × (http_status e ≡ code_status (error_code e))
      × (500 ≤ http_status e)
unfolding is_internal_error error_code external_message http_status
internal_response show (config_error _) h = (refl, refl, omega arith)
internal_response show (storage_error _) h = (refl, refl, omega arith)
internal_response show (internal _) h = (refl, refl, omega arith)
internal_response show (transient _) h = (refl, refl, omega arith)
internal_response show (invalid_request _) h = absurd (cc h)
internal_response show (conflict _) h = absurd (cc h)
internal_response show (platform_not_found _) h = absurd (cc h)
internal_response show (chat_not_found _) h = absurd (cc h)
internal_response show (adapter_not_connected _) h = absurd (cc h)
internal_response show (message_too_long _ _) h = absurd (cc h)
internal_response show (rate_limited _) h = absurd (cc h)
internal_response show (capability_not_supported _) h = absurd (cc h)
internal_response show (auth_failed _) h = absurd (cc h)
internal_response show (unauthorized _) h = absurd (cc h)
internal_response show (forbidden _) h = absurd (cc h)
internal_response show (request_timeout _) h = absurd (cc h)

-- An internal error and any error with the same code get the same message and the same status,
-- which is at least 500: beyond the code, a client learns nothing of what an internal error holds.
pub external_message-opaque :
    (show : ℕ → String) (e e' : GatewayError)
    → is_internal_error e ≡ true
    → error_code e ≡ error_code e'
    → (external_message show e ≡ external_message show e')
      × (http_status e ≡ http_status e')
      × (500 ≤ http_status e)
external_message-opaque show e e' h same =
    let h' : is_internal_error e' ≡ true =
      is_internal_error-code e'
      ∙ sym (ap code_is_internal same)
      ∙ sym (is_internal_error-code e)
      ∙ h in
    let (text, status, large) = internal_response show e h in
    let (text', status', large') = internal_response show e' h' in
    (text ∙ ap code_message same ∙ sym text', status ∙ ap code_status same ∙ sym status', large)
