-- ===== src/Api/Services/Transaction.antt =====
-- frontend/src/api/services/transactionService.ts
pub mod Reading
use cogni_cash.Base.{String, Bool, true, false, Option, none, some, List, [], ◌∷◌}
use cogni_cash.Api.Request.{
  Request, Value, text, flag, texts, post, patch, empty, json, send, fetch, or_undefined, optional,
  optional_flag, default,
}

pub data TransactionCall : Type 0 where
  fetch_transactions :
      Option String
      → Option Bool
      → Option String
      → Option Bool
      → Option String
      → Option Bool
      → Option Bool
      → Option String
      → TransactionCall
  fetch_forecast : Option String → Option String → TransactionCall
  fetch_analytics : Option Bool → TransactionCall
  update_category : String → String → TransactionCall
  update_category_bulk : List String → String → TransactionCall
  mark_reviewed : String → TransactionCall
  mark_reviewed_bulk : List String → TransactionCall
  start_auto_categorize : TransactionCall
  get_auto_categorize_status : TransactionCall
  cancel_auto_categorize : TransactionCall

unfoldable pub transaction_request : TransactionCall → Request
transaction_request
      (fetch_transactions statement hide category reviewed search predictions shared subscription) =
    fetch ("transactions" ∷ []) (
      ("statement_id", or_undefined statement)
      ∷ ("hide_reconciled", flag (default true hide))
      ∷ ("category_id", or_undefined category)
      ∷ ("reviewed", optional_flag reviewed)
      ∷ ("search", or_undefined search)
      ∷ ("include_predictions", flag (default false predictions))
      ∷ ("include_shared", flag (default false shared))
      ∷ ("subscription_id", or_undefined subscription)
      ∷ [])
transaction_request (fetch_forecast from to) =
    fetch ("transactions" ∷ "forecast" ∷ []) (("from", optional from) ∷ ("to", optional to) ∷ [])
transaction_request (fetch_analytics hide) =
    fetch ("transactions" ∷ "analytics" ∷ []) (("hide_reconciled", flag (default true hide)) ∷ [])
transaction_request (update_category hash category) =
    send patch ("transactions" ∷ hash ∷ "category" ∷ [])
      (json (("category_id", text category) ∷ []))
transaction_request (update_category_bulk hashes category) =
    send patch ("transactions" ∷ "bulk-category" ∷ [])
      (json (("hashes", texts hashes) ∷ ("category_id", text category) ∷ []))
transaction_request (mark_reviewed hash) = send patch ("transactions" ∷ hash ∷ "review" ∷ []) empty
transaction_request (mark_reviewed_bulk hashes) =
    send patch ("transactions" ∷ "bulk-review" ∷ []) (json (("hashes", texts hashes) ∷ []))
transaction_request start_auto_categorize =
    send post ("transactions" ∷ "auto-categorize" ∷ "start" ∷ []) empty
transaction_request get_auto_categorize_status =
    fetch ("transactions" ∷ "auto-categorize" ∷ "status" ∷ []) []
transaction_request cancel_auto_categorize =
    send post ("transactions" ∷ "auto-categorize" ∷ "cancel" ∷ []) empty
