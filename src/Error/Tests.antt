-- ===== src/Error/Tests.antt =====
-- Error responses of concrete errors.
use easy_bot.Base.{ℕ, ◌≤◌, ◌≡◌, refl, String}
use easy_bot.Error.{storage_error, is_internal_error, error_code, external_message, http_status}
use easy_bot.Error.Disclosure.{external_message-opaque}

abbrev show : ℕ → String
show n = "0"

external_message-opaque_example :
    (external_message show (storage_error "no such table")
      ≡ external_message show (storage_error "disk full"))
    × (http_status (storage_error "no such table") ≡ http_status (storage_error "disk full"))
    × (500 ≤ http_status (storage_error "no such table"))
unfolding is_internal_error error_code
external_message-opaque_example =
    external_message-opaque show (storage_error "no such table") (storage_error "disk full") refl
      refl
