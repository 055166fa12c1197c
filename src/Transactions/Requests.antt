-- ===== src/Transactions/Requests.antt =====
-- What the transactions page asks of the service: the query of its rows with its key, and the request
-- of each mutation (frontend/src/pages/TransactionsPage.tsx).
use cogni_cash.Base.{
  String, ◌==◌, ◌≡◌, refl, sym, ap, ◌∙◌, Bool, true, not, Option, none, some, List, [], ◌∷◌,
  if◌then◌else◌, truthy,
}
use cogni_cash.Base.Collections.{has}
use cogni_cash.Types.{Transaction}
use cogni_cash.Api.Request.{Request, Value, text, flag, fetch}
use cogni_cash.Api.Services.Transaction.{
  TransactionCall, fetch_transactions, update_category, update_category_bulk, transaction_request,
}
use cogni_cash.Api.Services.Transaction
use cogni_cash.Api.Services.Transaction.Reading.{read_change, read_change-transaction_request}
use cogni_cash.Transactions.Page.{Page}
use cogni_cash.Transactions.Cache.{
  Mutation, mark_reviewed, batch_mark_reviewed, categorize, batch_categorize, update_row, or_null,
}
use cogni_cash.Transactions.Cache.Updates.{update_row_lem, targets, category_after}

abbrev some_if : Bool → String → Option String
some_if b s = if b then some s else none

-- `queryFn`
unfoldable pub fetch_call : Page → TransactionCall
fetch_call p =
    fetch_transactions (some_if (truthy p.applied.statement) p.applied.statement)
      (some p.hide_reconciled) (some_if (not (p.applied.category == "all")) p.applied.category) none
      (some p.applied.search) (some p.include_predictions) (some p.applied.include_shared) none

-- `queryKey`
unfoldable pub fetch_key : Page → List Value
fetch_key p =
    text "transactions"
    ∷ text p.applied.statement
    ∷ text p.applied.category
    ∷ flag p.hide_reconciled
    ∷ text p.applied.search
    ∷ flag p.include_predictions
    ∷ flag p.applied.include_shared
    ∷ []

-- The request read off a key of this form.
abbrev request_of_key : List Value → Request
request_of_key
      (text name
        ∷ text statement
        ∷ text category
        ∷ flag hide
        ∷ text search
        ∷ flag predictions
        ∷ flag shared
        ∷ []) =
    transaction_request (
      fetch_transactions (some_if (truthy statement) statement) (some hide)
        (some_if (not (category == "all")) category) none (some search) (some predictions)
        (some shared) none)
request_of_key key = fetch [] []

request_of_key-fetch_key :
    (p : Page) → request_of_key (fetch_key p) ≡ transaction_request (fetch_call p)
unfolding fetch_key fetch_call
request_of_key-fetch_key p = refl

-- Two states of the page with the same query key send the same request.
pub fetch_key_lem :
    (p q : Page)
    → fetch_key p ≡ fetch_key q
    → transaction_request (fetch_call p) ≡ transaction_request (fetch_call q)
fetch_key_lem p q h =
    sym (request_of_key-fetch_key p) ∙ ap request_of_key h ∙ request_of_key-fetch_key q

-- `mutationFn` of the four mutations
unfoldable pub call_of : Mutation → TransactionCall
call_of (mark_reviewed hash) = Transaction.mark_reviewed hash
call_of (batch_mark_reviewed hashes) = Transaction.mark_reviewed_bulk hashes
call_of (categorize hash category) = update_category hash category
call_of (batch_categorize hashes category) = update_category_bulk hashes category

-- The rows that a call names, and the category that it gives them.
abbrev pub named : TransactionCall → List String
named (Transaction.mark_reviewed hash) = hash ∷ []
named (Transaction.mark_reviewed_bulk hashes) = hashes
named (update_category hash category) = hash ∷ []
named (update_category_bulk hashes category) = hashes
named call = []

abbrev pub category_by : TransactionCall → Option String → Option String
category_by (update_category hash category) old = or_null category
category_by (update_category_bulk hashes category) old = or_null category
category_by call old = old

call_of-targets :
    (m : Mutation)
    → (read_change (transaction_request (call_of m)) ≡ some (call_of m))
      × (targets m ≡ named (call_of m))
      × ((old : Option String) → category_after m old ≡ category_by (call_of m) old)
unfolding call_of
call_of-targets (mark_reviewed hash) =
    (read_change-transaction_request (Transaction.mark_reviewed hash), refl, λ old. refl)
call_of-targets (batch_mark_reviewed hashes) =
    (read_change-transaction_request (Transaction.mark_reviewed_bulk hashes), refl, λ old. refl)
call_of-targets (categorize hash category) =
    (read_change-transaction_request (update_category hash category), refl, λ old. refl)
call_of-targets (batch_categorize hashes category) =
    (read_change-transaction_request (update_category_bulk hashes category), refl, λ old. refl)

-- The request of a mutation can be read back, and the optimistic update changes exactly the rows
-- that this reading names, with the category that it gives them.
pub update_row-transaction_request :
    (m : Mutation) (t : Transaction)
    → (call : TransactionCall) × (read_change (transaction_request (call_of m)) ≡ some call)
      × (update_row m t ≡ (
          if has (named call) t.content_hash
          then record t { category_id = category_by call t.category_id; reviewed = true }
          else t))
update_row-transaction_request m t =
    let (read, same, category) = call_of-targets m in
    (call_of m, read, update_row_lem m t ∙ rw (same, category t.category_id) refl)
