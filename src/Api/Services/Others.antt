-- ===== src/Api/Services/Others.antt =====
-- The smaller services of frontend/src/api/services: analytics, authentication, forecasting,
-- reconciliation, settings, sharing and users.
use cogni_cash.Base.{String, Bool, true, Option, List, [], ◌∷◌}
use cogni_cash.Base.Int.{ℤ, pos}
use cogni_cash.Api.Request.{
  Request, Value, text, flag, number, post, put, patch, delete, empty, json, send, fetch, optional,
  nullable, default,
}

unfoldable pub analytics_request : Option Bool → Request
analytics_request hide =
    fetch ("transactions" ∷ "analytics" ∷ []) (("hide_reconciled", flag (default true hide)) ∷ [])

pub data AuthCall : Type 0 where
  login : String → String → AuthCall
  logout : AuthCall
  change_password : String → String → AuthCall
  request_password_reset : String → AuthCall
  validate_reset_token : String → AuthCall
  confirm_password_reset : String → String → AuthCall
  fetch_me : AuthCall

-- The request, given the refresh token in `localStorage`.
unfoldable pub auth_request : Option String → AuthCall → Request
auth_request stored (login username password) =
    send post ("login" ∷ []) (json (("username", text username) ∷ ("password", text password) ∷ []))
auth_request stored logout =
    send post ("logout" ∷ []) (json (("refresh_token", nullable stored) ∷ []))
auth_request stored (change_password old_password new_password) =
    send post ("auth" ∷ "change-password" ∷ [])
      (json (("old_password", text old_password) ∷ ("new_password", text new_password) ∷ []))
auth_request stored (request_password_reset email) =
    send post ("auth" ∷ "forgot-password" ∷ []) (json (("email", text email) ∷ []))
auth_request stored (validate_reset_token token) =
    fetch ("auth" ∷ "reset-password" ∷ "validate" ∷ []) (("token", text token) ∷ [])
auth_request stored (confirm_password_reset token new_password) =
    send post ("auth" ∷ "reset-password" ∷ "confirm" ∷ [])
      (json (("token", text token) ∷ ("new_password", text new_password) ∷ []))
auth_request stored fetch_me = fetch ("auth" ∷ "me" ∷ []) []

pub data ForecastingCall : Type 0 where
  fetch_forecast : Option String → Option String → ForecastingCall
  fetch_planned_transactions : ForecastingCall
  create_planned_transaction : List (String × Value) → ForecastingCall
  update_planned_transaction : String → List (String × Value) → ForecastingCall
  delete_planned_transaction : String → ForecastingCall

unfoldable pub forecasting_request : ForecastingCall → Request
forecasting_request (fetch_forecast from to) =
    fetch ("transactions" ∷ "forecast" ∷ []) (("from", optional from) ∷ ("to", optional to) ∷ [])
forecasting_request fetch_planned_transactions = fetch ("planned-transactions" ∷ []) []
forecasting_request (create_planned_transaction data_in) =
    send post ("planned-transactions" ∷ []) (json data_in)
forecasting_request (update_planned_transaction id data_in) =
    send put ("planned-transactions" ∷ id ∷ []) (json data_in)
forecasting_request (delete_planned_transaction id) =
    send delete ("planned-transactions" ∷ id ∷ []) empty

pub data ReconciliationCall : Type 0 where
  fetch_reconciliations : ReconciliationCall
  fetch_suggestions : Option ℤ → ReconciliationCall
  create : String → String → ReconciliationCall
  delete_reconciliation : String → ReconciliationCall

unfoldable pub reconciliation_request : ReconciliationCall → Request
reconciliation_request fetch_reconciliations = fetch ("reconciliations" ∷ []) []
reconciliation_request (fetch_suggestions window) =
    fetch ("reconciliations" ∷ "suggestions" ∷ [])
      (("window", number (default (pos 7) window)) ∷ [])
reconciliation_request (create settlement target) =
    send post ("reconciliations" ∷ [])
      (json (("settlement_tx_hash", text settlement) ∷ ("target_tx_hash", text target) ∷ []))
reconciliation_request (delete_reconciliation id) = send delete ("reconciliations" ∷ id ∷ []) empty

pub data SettingsCall : Type 0 where
  fetch_system_info : SettingsCall
  fetch_settings : SettingsCall
  update_settings : List (String × Value) → SettingsCall
  send_test_email : String → SettingsCall
  fetch_log_level : SettingsCall
  update_log_level : String → SettingsCall
  fetch_bridge_tokens : SettingsCall
  create_bridge_token : String → SettingsCall
  revoke_bridge_token : String → SettingsCall

unfoldable pub settings_request : SettingsCall → Request
settings_request fetch_system_info = fetch ("system" ∷ "info" ∷ []) []
settings_request fetch_settings = fetch ("settings" ∷ []) []
settings_request (update_settings settings) = send patch ("settings" ∷ []) (json settings)
settings_request (send_test_email to) =
    send post ("settings" ∷ "test-email" ∷ []) (json (("to", text to) ∷ []))
settings_request fetch_log_level = fetch ("system" ∷ "log-level" ∷ []) []
settings_request (update_log_level level) =
    send put ("system" ∷ "log-level" ∷ []) (json (("level", text level) ∷ []))
settings_request fetch_bridge_tokens = fetch ("bridge-tokens" ∷ []) []
settings_request (create_bridge_token name) =
    send post ("bridge-tokens" ∷ []) (json (("name", text name) ∷ []))
settings_request (revoke_bridge_token id) = send delete ("bridge-tokens" ∷ id ∷ []) empty

unfoldable pub sharing_request : Request
sharing_request = fetch ("sharing" ∷ "dashboard" ∷ []) []

pub data UserCall : Type 0 where
  fetch_users : Option String → UserCall
  fetch_user : String → UserCall
  create_user : List (String × Value) → UserCall
  update_user : String → List (String × Value) → UserCall
  delete_user : String → UserCall

unfoldable pub user_request : UserCall → Request
user_request (fetch_users search) = fetch ("users" ∷ []) (("q", optional search) ∷ [])
user_request (fetch_user id) = fetch ("users" ∷ id ∷ []) []
user_request (create_user data_in) = send post ("users" ∷ []) (json data_in)
user_request (update_user id data_in) = send put ("users" ∷ id ∷ []) (json data_in)
user_request (delete_user id) = send delete ("users" ∷ id ∷ []) empty
