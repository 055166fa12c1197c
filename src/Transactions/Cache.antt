-- ===== src/Transactions/Cache.antt =====
-- The mutations of the transactions page and their optimistic updates of the query cache
-- (`markReviewedMutation`, `batchMarkReviewedMutation`, `catMutation`, `batchCatMutation` of
-- frontend/src/pages/TransactionsPage.tsx). The cache is TanStack Query's and is a parameter.
pub mod Client
pub mod Table
pub mod Rollback
pub mod Updates
use cogni_cash.Base.{
  String, ◌==◌, Bool, true, false, Option, none, some, List, [], ◌∷◌, map, if◌then◌else◌, truthy,
}
use cogni_cash.Base.Collections.{JsSet, has, set_of}
use cogni_cash.Types.{Transaction}
use Client.{QueryClient, QueryKey}

-- The four mutations with their variables.
pub data Mutation : Type 0 where
  mark_reviewed : String → Mutation
  batch_mark_reviewed : List String → Mutation
  categorize : String → String → Mutation
  batch_categorize : List String → String → Mutation

-- `categoryId || null`
abbrev pub or_null : String → Option String
or_null s = if truthy s then some s else none

-- The rows of a cached list after the optimistic update.
unfoldable pub update_row : Mutation → Transaction → Transaction
update_row (mark_reviewed hash) t =
    if t.content_hash == hash then record t { reviewed = true } else t
update_row (batch_mark_reviewed hashes) t =
    if has (set_of hashes) t.content_hash then record t { reviewed = true } else t
update_row (categorize hash category) t =
    if t.content_hash == hash
    then record t { category_id = or_null category; reviewed = true }
    else t
update_row (batch_categorize hashes category) t =
    if has (set_of hashes) t.content_hash
    then record t { category_id = or_null category; reviewed = true }
    else t

-- `if (!old) return old; return old.map(…)`
unfoldable pub update_data : Mutation → Option (List Transaction) → Option (List Transaction)
unfolding update_row
update_data m none = none
update_data m (some old) = some (map (update_row m) old)

-- The cached lists that `onSettled` has fetched again.
unfoldable pub invalidated : Mutation → List String
invalidated (mark_reviewed hash) = "transactions" ∷ "analytics" ∷ []
invalidated (batch_mark_reviewed hashes) = "transactions" ∷ "analytics" ∷ []
invalidated (categorize hash category) = "transactions" ∷ "bank-statements" ∷ "analytics" ∷ []
invalidated (batch_categorize hashes category) =
    "transactions" ∷ "bank-statements" ∷ "analytics" ∷ []

-- The selection after `onSettled`.
unfoldable pub settled_selection : Mutation → JsSet → JsSet
settled_selection (batch_mark_reviewed hashes) selected = []
settled_selection (batch_categorize hashes category) selected = []
settled_selection m selected = selected

module _ (client : QueryClient (List Transaction)) where
  open client use {State, get_queries_data, set_queries_data, set_query_data}

  -- `onMutate`: the context for a rollback, and the updated cache.
  unfoldable pub on_mutate : Mutation → State → List (QueryKey × Option (List Transaction)) × State
  unfolding update_data
  on_mutate m s =
      (get_queries_data "transactions" s, set_queries_data "transactions" (update_data m) s)

  -- `onError`: every list of the context is written back.
  unfoldable pub on_error : List (QueryKey × Option (List Transaction)) → State → State
  on_error [] s = s
  on_error ((key, data_of_key) ∷ context) s = on_error context (set_query_data key data_of_key s)
