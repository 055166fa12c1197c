-- ===== src/Transactions/Tests.antt =====
-- The theorems on the transactions page at concrete rows, and runs of its definitions.
use mathlib.Core.List.{Mem, Perm}
use cogni_cash.Base.{
  ◌+◌, String, ◌≡◌, refl, ◌↔◌, true, false, none, some, List, [], ◌∷◌, filter, arith, if◌then◌else◌,
  is_shape, has_shape, split_char,
}
use cogni_cash.Base.Int.{neg, sum_of}
use cogni_cash.Base.Collections.{has, Distinct}
use cogni_cash.Base.Sort.{Pairwise}
use cogni_cash.Base.Platform.{plain_platform}
use cogni_cash.Types.{Transaction}
use cogni_cash.Transactions.Page.{Page, hashes, url_of, initial_page}
use cogni_cash.Transactions.Page.Url.{reloaded, initial_page-url_of}
use cogni_cash.Transactions.Page.Selection.{IsValid}
use cogni_cash.Transactions.Rows.{filtered, min_date, max_date, to_day}
use cogni_cash.Transactions.Rows.Matching.{Matches, matches}
use cogni_cash.Transactions.Rows.Shown.{mem-filtered_iff}
use cogni_cash.Transactions.Rows.Ordered.{stands_before, ties, filtered-IsOrdered}
use cogni_cash.Transactions.Rows.Notations.{is_iso, is_german}
use cogni_cash.Transactions.Rows.Undated.{undated, mem-filtered-undated}
use cogni_cash.Transactions.Charts.{
  Flow, chart_months, monthly_from, total_credit, total_debit, add_to_month,
}
use cogni_cash.Transactions.Charts.Totals.{chart_months-sums}
use cogni_cash.Transactions.Cache.{categorize, update_row, on_mutate, on_error}
use cogni_cash.Transactions.Cache.Table.{Table, table_client, find_data}
use cogni_cash.Transactions.Cache.Rollback.{on_error-on_mutate}
use cogni_cash.Transactions.Job.{Watch, observe_all}
use cogni_cash.Transactions.Job.Runs.{observe_all_lem, running_states, falls, last_or}
use cogni_cash.Api.Services.Transaction.{TransactionCall, transaction_request}
use cogni_cash.Api.Services.Transaction.Reading.{read_change}
use cogni_cash.Transactions.Requests.{
  fetch_call, fetch_key, fetch_key_lem, call_of, named, category_by, update_row-transaction_request,
}
use cogni_cash.Transactions.Samples.{rent, german, sample_rows, searching, job}

mem-filtered_iff_example : Mem rent (filtered plain_platform searching sample_rows) ↔ (
    (searching.has_applied_once ≡ true)
    × Mem rent sample_rows
    × Matches plain_platform searching (min_date sample_rows) (max_date sample_rows) rent)
mem-filtered_iff_example = mem-filtered_iff plain_platform searching sample_rows rent

filtered-IsOrdered_example :
    Perm (filtered plain_platform searching sample_rows) (
      filter
        (matches plain_platform searching (min_date sample_rows) (max_date sample_rows))
        sample_rows)
    × Pairwise
        (stands_before plain_platform searching)
        (filtered plain_platform searching sample_rows)
    × (filter (ties plain_platform searching rent) (filtered plain_platform searching sample_rows)
        ≡ filter (ties plain_platform searching rent) (
            filter
              (matches plain_platform searching (min_date sample_rows) (max_date sample_rows))
              sample_rows))
filtered-IsOrdered_example = filtered-IsOrdered plain_platform searching sample_rows rent refl

rent_is_iso : is_iso rent.booking_date ≡ true
unfolding has_shape is_shape
rent_is_iso = refl

german_is_german : is_german german.booking_date ≡ true
unfolding has_shape is_shape
german_is_german = refl

mem-filtered-undated_example :
    (Mem rent (filtered plain_platform searching sample_rows)
      ↔ Mem rent (filtered plain_platform (undated searching) sample_rows))
    × ¬ Mem german (filtered plain_platform searching (german ∷ []))
mem-filtered-undated_example =
    mem-filtered-undated plain_platform searching sample_rows rent german refl refl rent_is_iso
      german_is_german

initial_page-url_of_example : initial_page (url_of searching) ≡ reloaded searching
initial_page-url_of_example = initial_page-url_of searching

sample_rows-Distinct : Distinct (hashes sample_rows)
unfolding has
sample_rows-Distinct = (refl, (refl, (refl, tt)))

searching-IsValid : IsValid searching
unfolding has
searching-IsValid = (refl, tt)

chart_months-sums_example :
    (sum_of (λ (e : String × Flow). e.1.inc) (chart_months sample_rows) ≡ total_credit sample_rows)
    × (sum_of (λ (e : String × Flow). e.1.exp) (chart_months sample_rows)
        ≡ neg (total_debit sample_rows))
unfolding monthly_from add_to_month
chart_months-sums_example = chart_months-sums sample_rows (omega arith)

-- A cached list of transactions and one of something else.
abbrev cached : Table (List Transaction)
cached = (("transactions" ∷ "s1" ∷ [], sample_rows) ∷ ("analytics" ∷ [], []) ∷ [])

on_error-on_mutate_example :
    find_data
      (on_error
        (table_client (List Transaction))
        (on_mutate (table_client (List Transaction)) (categorize "h2" "c1") cached).0
        (on_mutate (table_client (List Transaction)) (categorize "h2" "c1") cached).1)
      ("transactions" ∷ "s1" ∷ [])
    ≡ find_data cached ("transactions" ∷ "s1" ∷ [])
on_error-on_mutate_example =
    on_error-on_mutate (table_client (List Transaction)) (categorize "h2" "c1") cached
      ("transactions" ∷ "s1" ∷ [])

abbrev unwatched : Watch
unwatched = record { was_running = false; toast = none; refetches = 0 }

observe_all_lem_example :
    ((observe_all (none ∷ some (job true) ∷ some (job false) ∷ []) unwatched).refetches
      ≡ 0 + falls false (running_states (none ∷ some (job true) ∷ some (job false) ∷ [])))
    × ((observe_all (none ∷ some (job true) ∷ some (job false) ∷ []) unwatched).was_running
        ≡ last_or false (running_states (none ∷ some (job true) ∷ some (job false) ∷ [])))
observe_all_lem_example = observe_all_lem (none ∷ some (job true) ∷ some (job false) ∷ []) unwatched

-- A row with a date in the German notation falls out of the default range.
german_is_known : to_day german.booking_date ≡ "2024-03-05"
unfolding to_day has_shape is_shape split_char
german_is_known = refl

-- Sorting is not part of the key of the cached rows.
abbrev resorted : Page
resorted = record searching { sort_dir = "desc" }

fetch_key_lem_example :
    transaction_request (fetch_call searching) ≡ transaction_request (fetch_call resorted)
unfolding fetch_key
fetch_key_lem_example = fetch_key_lem searching resorted refl

update_row-transaction_request_example :
    (call : TransactionCall) × (read_change (transaction_request (call_of (categorize "h2" "c1")))
      ≡ some call)
    × (update_row (categorize "h2" "c1") rent ≡ (
        if has (named call) rent.content_hash
        then record rent { category_id = category_by call rent.category_id; reviewed = true }
        else rent))
update_row-transaction_request_example = update_row-transaction_request (categorize "h2" "c1") rent
