-- ===== src/Connections.antt =====
-- frontend/src/pages/BankConnectionsPage.tsx: the dialogs, the mutations, and the effect that finishes a
-- connection when the bank sends the user back.
pub mod Finishing
mod Tests
use Prim.Native.String
use cogni_cash.Base.{
  ℕ, suc, String, ◌==◌, Bool, true, false, Option, none, some, List, [], ◌∷◌, ◌++◌, if◌then◌else◌,
  truthy, present, includes, filter,
}
use cogni_cash.Base.Int.{ℤ}
use cogni_cash.Base.Collections.{get}
use cogni_cash.Base.Platform.{Platform}
use cogni_cash.Types.{BankAccount}
use cogni_cash.Transactions.Page.{Params}
use cogni_cash.Api.Services.Bank.{
  BankCall, create_connection, create_virtual_account, finish_connection, delete_connection,
  reauthenticate_connection, update_account_type, sync_accounts,
}

-- The page's state, with the address that the browser was sent to and the requests that were sent.
pub record Page : Type 0 where
  pub is_add_modal_open : Bool
  pub is_virtual_modal_open : Bool
  pub selected_account_to_share : Option BankAccount
  pub search_term : String
  pub selected_country : String
  pub search_params : Params
  pub location : Option String
  pub sent : List BankCall

unfoldable pub first_render : Params → Page
first_render params = record {
  is_add_modal_open = false;
  is_virtual_modal_open = false;
  selected_account_to_share = none;
  search_term = "";
  selected_country = "DE";
  search_params = params;
  location = none;
  sent = [];
}

pub data Mutation : Type 0 where
  create_conn : String → String → String → Mutation
  create_virtual : String → String → String → String → ℤ → Mutation
  finish_conn : String → Option String → Mutation
  delete_conn : String → Mutation
  reauth_conn : String → Mutation
  update_acc_type : String → String → Mutation
  sync_all : Mutation

-- With the origin of the page and the switch of the environment.
unfoldable pub call_of : String → Bool → Mutation → BankCall
call_of origin is_sandbox (create_conn id name country) =
    create_connection id name country (String.◌++◌ origin "/bank-connections") (some is_sandbox)
call_of origin is_sandbox (create_virtual name iban currency type balance) =
    create_virtual_account name iban currency type balance
call_of origin is_sandbox (finish_conn req_id code) = finish_connection req_id code
call_of origin is_sandbox (delete_conn id) = delete_connection id
call_of origin is_sandbox (reauth_conn id) =
    reauthenticate_connection id (String.◌++◌ origin "/bank-connections") (some is_sandbox)
call_of origin is_sandbox (update_acc_type id type) = update_account_type id type
call_of origin is_sandbox sync_all = sync_accounts

abbrev go_to : Option String → Page → Page
go_to none p = p
go_to (some link) p = if truthy link then record p { location = some link } else p

-- The state after success, with the link of the bank in the answer.
unfoldable pub on_success : Mutation → Option String → Page → Page
on_success (create_conn id name country) auth_link p =
    if present auth_link then go_to auth_link p else record p { is_add_modal_open = false }
on_success (create_virtual name iban currency type balance) auth_link p = record p {
  is_virtual_modal_open = false;
}
on_success (finish_conn req_id code) auth_link p = record p { search_params = [] }
on_success (reauth_conn id) auth_link p = go_to auth_link p
on_success m auth_link p = p

-- The cached queries that are fetched again after success.
unfoldable pub invalidated : Mutation → Option String → List String
invalidated (create_conn id name country) auth_link =
    if present auth_link then [] else "bank-connections" ∷ []
invalidated (reauth_conn id) auth_link = []
invalidated sync_all auth_link = "bank-connections" ∷ "bank-statements" ∷ "transactions" ∷ []
invalidated m auth_link = "bank-connections" ∷ []

-- `code || undefined`
abbrev pub or_undefined : Option String → Option String
or_undefined none = none
or_undefined (some s) = if truthy s then some s else none

-- The bank's reference, if it is no empty text.
abbrev pub reference : Params → Option String
reference params = or_undefined (get params "ref")

abbrev pub finished_with : Option String → Params → Page → Page
finished_with none params p = p
finished_with (some req_id) params p = record p {
  sent = p.sent ++ (finish_connection req_id (or_undefined (get params "code")) ∷ []);
}

-- The effect. The mutation object among its dependencies is a new one in every render, so that it runs
-- with every render.
unfoldable pub rerender : Page → Page
unfolding get
rerender p = finished_with (reference p.search_params) p.search_params p

unfoldable pub opened : Params → Page
unfolding first_render rerender
opened params = rerender (first_render params)

unfoldable pub filtered_institutions : Platform → String → List String → List String
filtered_institutions platform search_term names =
    filter (λ name. includes (platform.to_lower name) (platform.to_lower search_term)) names

-- With the user's answer to the question whether to delete.
unfoldable pub handle_delete : Bool → String → Option Mutation
handle_delete confirmed id = if confirmed then some (delete_conn id) else none
