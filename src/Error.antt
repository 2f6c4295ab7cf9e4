-- ===== src/Error.antt =====
-- crates/easybot-core/src/types/error.rs: the error type of the gateway. `display` is its text for
-- the log, `external_message` its text for a client; numbers are printed by a parameter.
mod Disclosure
mod Tests
use easy_bot.Base.{ℕ, String, Bool, true, false}
use Prim.Native.String.{◌++◌}

pub data GatewayError : Type 0 where
  invalid_request conflict platform_not_found chat_not_found : String → GatewayError
  adapter_not_connected : String → GatewayError
  message_too_long : ℕ → ℕ → GatewayError
  rate_limited : ℕ → GatewayError
  capability_not_supported auth_failed unauthorized forbidden : String → GatewayError
  config_error storage_error internal request_timeout transient : String → GatewayError

module _ (show : ℕ → String) where
  unfoldable pub display : GatewayError → String
  display (invalid_request msg) = "Invalid request: " ++ msg
  display (conflict msg) = "Conflict: " ++ msg
  display (platform_not_found msg) = "Platform '" ++ msg ++ "' not found or not configured"
  display (chat_not_found msg) = "Chat '" ++ msg ++ "' not found"
  display (adapter_not_connected msg) = "Adapter not connected: " ++ msg
  display (message_too_long current max) = "Message too long: " ++ show current ++ " > " ++ show max
  display (rate_limited retry_after_ms) = "Rate limited by platform"
  display (capability_not_supported msg) = "Capability not supported: " ++ msg
  display (auth_failed msg) = "Authentication failed: " ++ msg
  display (unauthorized msg) = "Unauthorized: " ++ msg
  display (forbidden msg) = "Forbidden: " ++ msg
  display (config_error msg) = "Configuration error: " ++ msg
  display (storage_error msg) = "Storage error: " ++ msg
  display (internal msg) = "Internal error: " ++ msg
  display (request_timeout msg) = "Request timed out: " ++ msg
  display (transient msg) = "Transient failure: " ++ msg

  unfoldable pub external_message : GatewayError → String
  external_message (invalid_request msg) = "Invalid request: " ++ msg
  external_message (conflict msg) = "Conflict: " ++ msg
  external_message (platform_not_found msg) = "Platform '" ++ msg ++ "' not found"
  external_message (chat_not_found msg) = "Chat '" ++ msg ++ "' not found"
  external_message (adapter_not_connected msg) = "Adapter not connected: " ++ msg
  external_message (message_too_long current max) =
      "Message too long: " ++ show current ++ " > " ++ show max
  external_message (rate_limited retry_after_ms) =
      "Rate limited by platform, retry after " ++ show retry_after_ms ++ "ms"
  external_message (capability_not_supported msg) = "Capability not supported: " ++ msg
  external_message (auth_failed msg) = "Authentication failed: " ++ msg
  external_message (unauthorized msg) = "Unauthorized: " ++ msg
  external_message (forbidden msg) = "Forbidden: " ++ msg
  external_message (config_error msg) = "Configuration error"
  external_message (storage_error msg) = "Storage error"
  external_message (internal msg) = "Internal server error"
  external_message (request_timeout msg) = "Request timed out: " ++ msg
  external_message (transient msg) = "Temporary failure"

unfoldable pub error_code : GatewayError → String
error_code (invalid_request _) = "INVALID_REQUEST"
error_code (conflict _) = "CONFLICT"
error_code (platform_not_found _) = "PLATFORM_NOT_FOUND"
error_code (chat_not_found _) = "CHAT_NOT_FOUND"
error_code (adapter_not_connected _) = "ADAPTER_NOT_CONNECTED"
error_code (message_too_long _ _) = "MESSAGE_TOO_LONG"
error_code (rate_limited _) = "RATE_LIMITED"
error_code (capability_not_supported _) = "CAPABILITY_NOT_SUPPORTED"
error_code (auth_failed _) = "AUTH_FAILED"
error_code (unauthorized _) = "UNAUTHORIZED"
error_code (forbidden _) = "FORBIDDEN"
error_code (config_error _) = "CONFIG_ERROR"
error_code (storage_error _) = "STORAGE_ERROR"
error_code (internal _) = "INTERNAL_ERROR"
error_code (request_timeout _) = "REQUEST_TIMEOUT"
error_code (transient _) = "TRANSIENT_ERROR"

unfoldable pub http_status : GatewayError → ℕ
http_status (invalid_request _) = 400
http_status (message_too_long _ _) = 400
http_status (capability_not_supported _) = 400
http_status (auth_failed _) = 401
http_status (unauthorized _) = 401
http_status (forbidden _) = 403
http_status (platform_not_found _) = 404
http_status (chat_not_found _) = 404
http_status (conflict _) = 409
http_status (rate_limited _) = 429
http_status (adapter_not_connected _) = 503
http_status (transient _) = 503
http_status (config_error _) = 500
http_status (storage_error _) = 500
http_status (internal _) = 500
http_status (request_timeout _) = 504

unfoldable pub is_internal_error : GatewayError → Bool
is_internal_error (internal _) = true
is_internal_error (storage_error _) = true
is_internal_error (config_error _) = true
is_internal_error (transient _) = true
is_internal_error _ = false

-- The body of an error response.
pub record ApiErrorDetail : Type 0 where
  pub code : String
  pub message : String

unfoldable pub to_api_error : (ℕ → String) → GatewayError → ApiErrorDetail
unfolding external_message error_code
to_api_error show e = record { code = error_code e; message = external_message show e }
