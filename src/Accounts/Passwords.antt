-- ===== src/Accounts/Passwords.antt =====
-- frontend/src/pages/ResetPasswordPage.tsx: checking the token of the link and setting a new password.
use cogni_cash.Base.{
  String, ◌==◌, Bool, true, false, not, Option, none, some, if◌then◌else◌, truthy,
}
use cogni_cash.Api.Services.Others.{AuthCall, validate_reset_token, confirm_password_reset}
use cogni_cash.Accounts.{Reply, fulfilled, other_error, message_or}

pub record ResetState : Type 0 where
  pub is_validating : Bool
  pub is_token_valid : Bool
  pub new_password : String
  pub confirm_password : String
  pub loading : Bool
  pub success : Bool
  pub error : String

abbrev pub initial_state : ResetState
initial_state = record {
  is_validating = true;
  is_token_valid = false;
  new_password = "";
  confirm_password = "";
  loading = false;
  success = false;
  error = "";
}

-- The token, if it is no empty text.
abbrev pub given : Option String → Option String
given none = none
given (some token) = if truthy token then some token else none

abbrev pub or_invalid : Option Bool → Bool
or_invalid none = false
or_invalid (some valid) = valid

-- The effect, with what the request answers, where `none` is a failure.
unfoldable pub check_token : Option String → Option Bool → ResetState → Option AuthCall × ResetState
check_token token answer s = elim (given token) [
  | none ↦ (none, record s { is_token_valid = false; is_validating = false })
  | some t ↦ (
    some (validate_reset_token t),
    record s { is_token_valid = or_invalid answer; is_validating = false },
  )
]

-- The state while the request runs, and after it ended.
abbrev started : ResetState → ResetState
started s = record s { loading = true; error = "" }

abbrev pub finished : Reply → ResetState → ResetState
finished fulfilled s = record s { success = true; loading = false }
finished reply s = record s {
  error = message_or "Failed to reset password." reply;
  loading = false;
}

-- Without a token the handler throws before it sends anything.
abbrev pub confirmed : Option String → Reply → ResetState → Option AuthCall × ResetState
confirmed none reply s = (none, finished other_error (started s))
confirmed (some token) reply s =
    (some (confirm_password_reset token s.new_password), finished reply (started s))

-- With the translated message that the passwords differ.
unfoldable pub handle_submit :
    String → Option String → Reply → ResetState → Option AuthCall × ResetState
handle_submit mismatch token reply s =
    if not (s.new_password == s.confirm_password)
    then (none, record s { error = mismatch })
    else confirmed (given token) reply s
