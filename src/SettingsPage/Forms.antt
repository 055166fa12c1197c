-- ===== src/SettingsPage/Forms.antt =====
-- frontend/src/pages/SettingsPage.tsx: the test email, the password and the tokens of bridges.
use cogni_cash.Base.{
  String, ◌==◌, Bool, true, false, not, ◌||◌, Option, none, some, List, [], ◌∷◌, if◌then◌else◌,
  truthy,
}
use cogni_cash.Api.Services.Others.{
  AuthCall, change_password, SettingsCall, send_test_email, create_bridge_token,
  revoke_bridge_token, update_log_level,
}
use cogni_cash.Accounts.{Reply, fulfilled, message_or}

pub record EmailForm : Type 0 where
  pub test_email : String
  pub test_email_success : Bool
  pub test_email_error : String
  pub is_pending : Bool

-- The button is disabled without an address.
unfoldable pub send_test : EmailForm → Option SettingsCall × EmailForm
send_test s =
    if s.is_pending || not (truthy s.test_email)
    then (none, s)
    else (some (send_test_email s.test_email), record s { is_pending = true })

unfoldable pub test_email_settled : String → Reply → EmailForm → EmailForm
test_email_settled error_send_test fulfilled s = record s {
  test_email_success = true;
  test_email_error = "";
  is_pending = false;
}
test_email_settled error_send_test reply s = record s {
  test_email_error = message_or error_send_test reply;
  test_email_success = false;
  is_pending = false;
}

pub record PasswordForm : Type 0 where
  pub old_password : String
  pub new_password : String
  pub confirm_password : String
  pub pwd_error_msg : String

-- The button is disabled while the request runs and while a field is empty.
abbrev pub is_submit_disabled : Bool → PasswordForm → Bool
is_submit_disabled is_pending s =
    is_pending
    || not (truthy s.old_password)
    || not (truthy s.new_password)
    || not (truthy s.confirm_password)

unfoldable pub handle_password_submit : String → PasswordForm → Option AuthCall × PasswordForm
handle_password_submit pwd_mismatch s =
    if not (s.new_password == s.confirm_password)
    then (none, record s { pwd_error_msg = pwd_mismatch })
    else (some (change_password s.old_password s.new_password), record s { pwd_error_msg = "" })

unfoldable pub password_settled : String → Reply → PasswordForm → PasswordForm
password_settled error_change_pwd fulfilled s = record {
  old_password = "";
  new_password = "";
  confirm_password = "";
  pwd_error_msg = "";
}
password_settled error_change_pwd reply s = record s {
  pwd_error_msg = message_or error_change_pwd reply;
}

pub record BridgeState : Type 0 where
  pub new_token_name : String
  pub revealed_token : Option String
  pub copy_success : Bool

unfoldable pub create_token : Bool → BridgeState → Option SettingsCall
create_token is_pending s =
    if is_pending || not (truthy s.new_token_name)
    then none
    else some (create_bridge_token s.new_token_name)

unfoldable pub token_created : String → BridgeState → BridgeState
token_created token s = record s { revealed_token = some token; new_token_name = "" }

unfoldable pub dismiss : BridgeState → BridgeState
dismiss s = record s { revealed_token = none }

-- With the answer to the question.
unfoldable pub revoke_token : Bool → Bool → String → Option SettingsCall
revoke_token is_pending confirmed id =
    if is_pending then none else if confirmed then some (revoke_bridge_token id) else none

abbrev pub levels : List String
levels = "DEBUG" ∷ "INFO" ∷ "WARN" ∷ "ERROR" ∷ []

unfoldable pub choose_level : Bool → String → Option SettingsCall
choose_level is_pending level = if is_pending then none else some (update_log_level level)
