-- ===== src/Sharing.antt =====
-- The dialogs that share a category, an invoice or a bank account with other users:
-- frontend/src/components/ShareCategoryModal.tsx, ShareInvoiceModal.tsx and ShareBankAccountModal.tsx.
pub mod Participants
use cogni_cash.Base.{
  String, ◌==◌, Bool, true, false, not, ◌&&◌, ◌||◌, Option, none, some, List, [], ◌∷◌, filter,
  if◌then◌else◌, truthy,
}
use cogni_cash.Base.Collections.{JsSet, has}
use cogni_cash.Types.{User}
use cogni_cash.Api.Services.Bank.{BankCall, share_account}
use cogni_cash.Api.Services.Bank
use cogni_cash.Api.Services.Category.{CategoryCall}
use cogni_cash.Api.Services.Category
use cogni_cash.Api.Services.Invoice.{InvoiceCall}
use cogni_cash.Api.Services.Invoice

-- `'view' | 'edit'`
pub data Permission : Type 0 where
  view edit : Permission

abbrev permission_text : Permission → String
permission_text view = "view"
permission_text edit = "edit"

-- What is shared.
pub data Resource : Type 0 where
  category invoice account : Resource

pub data SharingCall : Type 0 where
  category_call : CategoryCall → SharingCall
  invoice_call : InvoiceCall → SharingCall
  bank_call : BankCall → SharingCall

pub record Modal : Type 0 where
  pub selected_user_id : String
  pub permission : Permission

abbrev pub initial_modal : Modal
initial_modal = record { selected_user_id = ""; permission = view }

unfoldable pub available_users : String → JsSet → List User → List User
available_users owner_id shared_user_ids =
    filter (λ (u : User). not (u.id == owner_id) && not (has shared_user_ids u.id))

unfoldable pub active_participants : JsSet → List User → List User
active_participants shared_user_ids = filter (λ (u : User). has shared_user_ids u.id)

abbrev pub share_with : Resource → String → String → Permission → SharingCall
share_with category id user perm =
    category_call (Category.share id user (some (permission_text perm)))
share_with invoice id user perm = invoice_call (Invoice.share id user (some (permission_text perm)))
share_with account id user perm = bank_call (share_account id user (permission_text perm))

-- A click on the button that shares, which is disabled without a user and while the request runs.
unfoldable pub share_call : Resource → String → Bool → Modal → Option SharingCall
share_call resource id is_pending s =
    if not (truthy s.selected_user_id) || is_pending
    then none
    else some (share_with resource id s.selected_user_id s.permission)

unfoldable pub share_on_success : Modal → Modal
share_on_success s = record s { selected_user_id = "" }

abbrev revoke : Resource → String → String → SharingCall
revoke category id user = category_call (Category.revoke_share id user)
revoke invoice id user = invoice_call (Invoice.revoke_share id user)
revoke account id user = bank_call (Bank.revoke_share id user)

unfoldable pub revoke_call : Resource → String → Bool → String → Option SharingCall
revoke_call resource id is_pending user =
    if is_pending then none else some (revoke resource id user)

-- The keys that a success invalidates.
unfoldable pub invalidated : Resource → String → List (List String)
invalidated category id = ("category-shares" ∷ id ∷ []) ∷ ("categories" ∷ []) ∷ []
invalidated invoice id = ("invoice-shares" ∷ id ∷ []) ∷ ("invoices" ∷ []) ∷ []
invalidated account id = ("bank-account-shares" ∷ id ∷ []) ∷ ("bank-connections" ∷ []) ∷ []
