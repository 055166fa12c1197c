-- ===== src/Accounts.antt =====
-- Signing in and the accounts of users: frontend/src/pages/LoginPage.tsx, ForgotPasswordPage.tsx,
-- ResetPasswordPage.tsx and UsersPage.tsx. How a request ends is an argument.
pub mod Passwords
pub mod Users
pub mod Submitting
mod Tests
use cogni_cash.Base.{
  String, ◌==◌, Bool, true, false, not, ◌&&◌, ◌||◌, Option, none, some, if◌then◌else◌, truthy,
  text_or, present, is_blank, List, [], ◌∷◌,
}
use cogni_cash.Api.Services.Others.{
  AuthCall, login, request_password_reset, validate_reset_token, confirm_password_reset,
}

-- How a request of these pages ended: with success, with the text of an answer, if it had one, or
-- outside axios.
pub data Reply : Type 0 where
  fulfilled : Reply
  rejected : Option String → Reply
  other_error : Reply

pub record LoginForm : Type 0 where
  pub username : String
  pub password : String
  pub remember_me : Bool

-- `username.trim() && password.trim()`
unfoldable pub submit_login : LoginForm → Option AuthCall
unfolding is_blank
submit_login form =
    if not (is_blank form.username) && not (is_blank form.password)
    then some (login form.username form.password)
    else none

pub record ForgotState : Type 0 where
  pub email : String
  pub loading : Bool
  pub success : Bool
  pub error : String

-- The message of a failed request.
abbrev pub message_or : String → Reply → String
message_or fallback fulfilled = ""
message_or fallback (rejected message) = text_or message fallback
message_or fallback other_error = fallback

abbrev pub is_fulfilled : Reply → Bool
is_fulfilled fulfilled = true
is_fulfilled (rejected message) = false
is_fulfilled other_error = false

unfoldable pub submit_email : Reply → ForgotState → AuthCall × ForgotState
submit_email reply s = (
  request_password_reset s.email,
  record s {
    loading = false;
    error = message_or "Failed to request password reset." reply;
    success = s.success || is_fulfilled reply;
  },
)
