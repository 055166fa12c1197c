-- ===== src/Accounts/Users.antt =====
-- frontend/src/pages/UsersPage.tsx: the dialog that creates and edits users.
use cogni_cash.Base.{
  String, Bool, true, false, not, Option, none, some, List, [], ◌∷◌, ◌++◌, if◌then◌else◌, truthy,
}
use cogni_cash.Types.{User}
use cogni_cash.Api.Request.{Value, text}
use cogni_cash.Api.Services.Others.{UserCall, create_user, update_user, delete_user}
use cogni_cash.Accounts.{Reply, message_or, is_fulfilled}

pub record Dialog : Type 0 where
  pub is_modal_open : Bool
  pub editing_user : Option User
  pub username : String
  pub email : String
  pub full_name : String
  pub address : String
  pub role : String
  pub password : String
  pub error_msg : String

unfoldable pub open_create_modal : Dialog → Dialog
open_create_modal s = record {
  is_modal_open = true;
  editing_user = none;
  username = "";
  email = "";
  full_name = "";
  address = "";
  role = "manager";
  password = "";
  error_msg = "";
}

unfoldable pub open_edit_modal : User → Dialog → Dialog
open_edit_modal user s = record {
  is_modal_open = true;
  editing_user = some user;
  username = user.username;
  email = user.email;
  full_name = user.full_name;
  address = user.address;
  role = user.role;
  password = "";
  error_msg = "";
}

unfoldable pub close_modal : Dialog → Dialog
close_modal s = record s { is_modal_open = false }

abbrev pub user_fields : Dialog → List (String × Value)
user_fields s =
    ("username", text s.username)
    ∷ ("email", text s.email)
    ∷ ("full_name", text s.full_name)
    ∷ ("address", text s.address)
    ∷ ("role", text s.role)
    ∷ []

abbrev pub call_or_refusal : Option User → Dialog → Option UserCall × Dialog
call_or_refusal (some user) s = (some (update_user user.id (user_fields s)), s)
call_or_refusal none s =
    if not (truthy s.password)
    then (none, record s { error_msg = "Password is required for new users" })
    else (some (create_user (user_fields s ++ (("password", text s.password) ∷ []))), s)

unfoldable pub handle_submit : Dialog → Option UserCall × Dialog
handle_submit s = call_or_refusal s.editing_user (record s { error_msg = "" })

-- How creating or updating ended, with the translated common message.
unfoldable pub settled : String → Reply → Dialog → Dialog
unfolding close_modal
settled common_error reply s =
    if is_fulfilled reply
    then close_modal s
    else record s { error_msg = message_or common_error reply }

-- With the user's answer to the question whether to delete.
unfoldable pub handle_delete : Bool → String → Option UserCall
handle_delete confirmed id = if confirmed then some (delete_user id) else none
