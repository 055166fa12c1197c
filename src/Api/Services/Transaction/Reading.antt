-- ===== src/Api/Services/Transaction/Reading.antt =====
-- The requests that change transactions can be told apart: an independent reading gives the call back.
use cogni_cash.Base.{String, ◌==◌, ◌≡◌, refl, Option, none, some, List, [], ◌∷◌, if◌then◌else◌}
use cogni_cash.Api.Request.{
  Request, Value, Body, text, texts, get, post, put, patch, delete, empty, json,
}
use cogni_cash.Api.Services.Transaction.{
  TransactionCall, update_category, update_category_bulk, mark_reviewed, mark_reviewed_bulk,
  start_auto_categorize, cancel_auto_categorize, transaction_request,
}

-- What the backend's routes make of a method, the segments of a path and a body.
abbrev read_category : List (String × Value) → Option String
read_category ((key, text category) ∷ []) = if key == "category_id" then some category else none
read_category fs = none

abbrev read_hashes : List (String × Value) → Option (List String)
read_hashes ((key, texts hashes) ∷ rest) = if key == "hashes" then some hashes else none
read_hashes fs = none

abbrev read_tail : List (String × Value) → List (String × Value)
read_tail [] = []
read_tail (f ∷ fs) = fs

abbrev to_call : {A : Type 0} → (A → TransactionCall) → Option A → Option TransactionCall
to_call f none = none
to_call f (some a) = some (f a)

abbrev both : Option (List String) → Option String → Option TransactionCall
both (some hashes) (some category) = some (update_category_bulk hashes category)
both hashes category = none

abbrev read_patch : List String → Body → Option TransactionCall
read_patch (root ∷ hash ∷ action ∷ []) (json fs) =
    if action == "category" then to_call (update_category hash) (read_category fs) else none
read_patch (root ∷ hash ∷ action ∷ []) empty =
    if action == "review" then some (mark_reviewed hash) else none
read_patch (root ∷ action ∷ []) (json fs) =
    if action == "bulk-category"
    then both (read_hashes fs) (read_category (read_tail fs))
    else if action == "bulk-review"
    then to_call mark_reviewed_bulk (read_hashes fs)
    else none
read_patch path body = none

abbrev read_post : List String → Body → Option TransactionCall
read_post (root ∷ group ∷ action ∷ []) empty =
    if action == "start"
    then some start_auto_categorize
    else if action == "cancel"
    then some cancel_auto_categorize
    else none
read_post path body = none

unfoldable pub read_change : Request → Option TransactionCall
read_change r = elim r.method [
  | patch ↦ read_patch r.path r.body
  | post ↦ read_post r.path r.body
  | get ↦ none
  | put ↦ none
  | delete ↦ none
]

-- A call that changes something; the others fetch.
abbrev pub change_of : TransactionCall → Option TransactionCall
change_of (update_category hash category) = some (update_category hash category)
change_of (update_category_bulk hashes category) = some (update_category_bulk hashes category)
change_of (mark_reviewed hash) = some (mark_reviewed hash)
change_of (mark_reviewed_bulk hashes) = some (mark_reviewed_bulk hashes)
change_of start_auto_categorize = some start_auto_categorize
change_of cancel_auto_categorize = some cancel_auto_categorize
change_of call = none

-- An independent reading of method, path and body gives back every call that changes something and
-- no call that fetches, so that no two changes send the same request.
pub read_change-transaction_request :
    (call : TransactionCall) → read_change (transaction_request call) ≡ change_of call
unfolding read_change transaction_request
read_change-transaction_request (update_category hash category) = refl
read_change-transaction_request (update_category_bulk hashes category) = refl
read_change-transaction_request (mark_reviewed hash) = refl
read_change-transaction_request (mark_reviewed_bulk hashes) = refl
read_change-transaction_request start_auto_categorize = refl
read_change-transaction_request cancel_auto_categorize = refl
read_change-transaction_request call = refl
