-- ===== src/Api/Services/Bank.antt =====
-- frontend/src/api/services/bankService.ts
use cogni_cash.Base.{
  String, ◌==◌, Bool, false, not, Option, List, [], ◌∷◌, map, ◌++◌, if◌then◌else◌,
}
use cogni_cash.Base.Int.{ℤ}
use cogni_cash.Api.Request.{
  Request, Part, text, flag, number, file, entry, post, put, patch, delete, empty, json, form, send,
  fetch, fetch_blob, optional, nullable, default, bool_text,
}

pub data BankCall : Type 0 where
  fetch_statements : BankCall
  fetch_statement : String → BankCall
  fetch_statement_blob : String → BankCall
  import_statement : List String → Option Bool → Option String → BankCall
  download_statement : String → BankCall
  delete_statement : String → BankCall
  update_statement : String → Option String → BankCall
  fetch_institutions : Option String → Option Bool → BankCall
  create_connection : String → String → String → String → Option Bool → BankCall
  finish_connection : String → Option String → BankCall
  fetch_connections : BankCall
  delete_connection : String → BankCall
  reauthenticate_connection : String → String → Option Bool → BankCall
  update_account_type : String → String → BankCall
  create_virtual_account : String → String → String → String → ℤ → BankCall
  sync_accounts : BankCall
  share_account : String → String → String → BankCall
  revoke_share : String → String → BankCall
  list_shares : String → BankCall

-- The form of an import: the files, the switch, and the type unless it is found automatically.
abbrev statement_form : List String → Bool → String → List (String × Part)
statement_form files use_ai statement_type =
    map (λ f. ("files", file f)) files
    ++ (("use_ai", entry (bool_text use_ai)) ∷ [])
    ++ (if not (statement_type == "auto")
        then ("statement_type", entry statement_type) ∷ []
        else [])

unfoldable pub bank_request : BankCall → Request
bank_request fetch_statements = fetch ("bank-statements" ∷ []) []
bank_request (fetch_statement id) = fetch ("bank-statements" ∷ id ∷ []) []
bank_request (fetch_statement_blob id) = fetch_blob ("bank-statements" ∷ id ∷ "download" ∷ [])
bank_request (import_statement files use_ai statement_type) =
    send post ("bank-statements" ∷ "import" ∷ [])
      (form (statement_form files (default false use_ai) (default "auto" statement_type)))
bank_request (download_statement id) = fetch_blob ("bank-statements" ∷ id ∷ "download" ∷ [])
bank_request (delete_statement id) = send delete ("bank-statements" ∷ id ∷ []) empty
bank_request (update_statement id account) =
    send patch ("bank-statements" ∷ id ∷ []) (json (("bank_account_id", nullable account) ∷ []))
bank_request (fetch_institutions country sandbox) =
    fetch ("bank" ∷ "institutions" ∷ [])
      (("country", text (default "DE" country)) ∷ ("sandbox", flag (default false sandbox)) ∷ [])
bank_request (create_connection institution name country redirect sandbox) =
    send post ("bank" ∷ "connections" ∷ []) (
      json (
        ("institution_id", text institution)
        ∷ ("institution_name", text name)
        ∷ ("country", text country)
        ∷ ("redirect_url", text redirect)
        ∷ ("sandbox", flag (default false sandbox))
        ∷ []))
bank_request (finish_connection requisition code) =
    send post ("bank" ∷ "connections" ∷ "finish" ∷ [])
      (json (("requisition_id", text requisition) ∷ ("code", optional code) ∷ []))
bank_request fetch_connections = fetch ("bank" ∷ "connections" ∷ []) []
bank_request (delete_connection id) = send delete ("bank" ∷ "connections" ∷ id ∷ []) empty
bank_request (reauthenticate_connection id redirect sandbox) =
    send post ("bank" ∷ "connections" ∷ id ∷ "reauth" ∷ [])
      (json (("redirect_url", text redirect) ∷ ("sandbox", flag (default false sandbox)) ∷ []))
bank_request (update_account_type account account_type) =
    send put ("bank" ∷ "accounts" ∷ account ∷ "type" ∷ [])
      (json (("account_type", text account_type) ∷ []))
bank_request (create_virtual_account name iban currency account_type balance) =
    send post ("bank" ∷ "accounts" ∷ "virtual" ∷ []) (
      json (
        ("name", text name)
        ∷ ("iban", text iban)
        ∷ ("currency", text currency)
        ∷ ("account_type", text account_type)
        ∷ ("balance", number balance)
        ∷ []))
bank_request sync_accounts = send post ("bank" ∷ "sync" ∷ []) empty
bank_request (share_account account user permission) =
    send post ("bank" ∷ "accounts" ∷ account ∷ "share" ∷ [])
      (json (("shared_with_user_id", text user) ∷ ("permission_level", text permission) ∷ []))
bank_request (revoke_share account user) =
    send delete ("bank" ∷ "accounts" ∷ account ∷ "share" ∷ user ∷ []) empty
bank_request (list_shares account) = fetch ("bank" ∷ "accounts" ∷ account ∷ "shares" ∷ []) []
