-- ===== src/Statements.antt =====
-- frontend/src/pages/BankStatementsPage.tsx: the list of bank statements.
pub mod Listing
mod Tests
use cogni_cash.Base.{
  ℕ, String, ◌==◌, Bool, true, false, not, ◌&&◌, ◌||◌, Option, none, some, List, [], ◌∷◌,
  if◌then◌else◌, text_lt, includes, filter, any, nat_eq,
}
use cogni_cash.Base.Int.{ℤ, pos, lt_ℤ}
use cogni_cash.Base.Sort.{SortDir, asc, desc, directed, sort}
use cogni_cash.Base.Order.{three_way}
use cogni_cash.Base.Platform.{Platform}
use cogni_cash.Types.{
  BankStatementSummary, StatementType, giro, credit_card, extra_account, ImportResult, ImportStatus,
  imported, duplicate, error,
}

pub data SortField : Type 0 where
  statement_info statement_type period transaction_count new_balance : SortField

pub record View : Type 0 where
  pub selected_year : String
  pub selected_type : String
  pub selected_account : String
  pub applied_year : String
  pub applied_type : String
  pub applied_account : String
  pub sort_field : SortField
  pub sort_direction : SortDir
  pub deleting_id : Option String
  pub use_ai : Bool
  pub import_type : String

abbrev pub initial_view : View
initial_view = record {
  selected_year = "All";
  selected_type = "All";
  selected_account = "All";
  applied_year = "All";
  applied_type = "All";
  applied_account = "All";
  sort_field = period;
  sort_direction = desc;
  deleting_id = none;
  use_ai = false;
  import_type = "auto";
}

-- `handleFiles`: what is imported, if anything.
unfoldable pub handle_files : View → List String → Option (List String × Bool × String)
handle_files v [] = none
handle_files v (file ∷ files) = some (file ∷ files, v.use_ai, v.import_type)

-- `handleDelete`: the marked statement, and the request if the user confirms.
unfoldable pub handle_delete : Bool → String → View → View × Option String
handle_delete confirmed id v =
    if confirmed then (record v { deleting_id = some id }, some id) else (v, none)

-- `onSuccess` and `onError` of the deletion
unfoldable pub deletion_ended : View → View
deletion_ended v = record v { deleting_id = none }

unfoldable pub handle_apply_filters : View → View
handle_apply_filters v = record v {
  applied_year = v.selected_year;
  applied_type = v.selected_type;
  applied_account = v.selected_account;
}

abbrev field_index : SortField → ℕ
field_index statement_info = 0
field_index statement_type = 1
field_index period = 2
field_index transaction_count = 3
field_index new_balance = 4

abbrev flip_direction : SortDir → SortDir
flip_direction asc = desc
flip_direction desc = asc

unfoldable pub handle_sort : SortField → View → View
handle_sort field v =
    if nat_eq (field_index v.sort_field) (field_index field)
    then record v { sort_direction = flip_direction v.sort_direction }
    else record v { sort_field = field; sort_direction = asc }

abbrev pub type_text : StatementType → String
type_text giro = "giro"
type_text credit_card = "credit_card"
type_text extra_account = "extra_account"

abbrev pub is_imported : ImportStatus → Bool
is_imported imported = true
is_imported duplicate = false
is_imported error = false

-- `new Date(s).getFullYear().toString()` and `new Date(s).getTime()` are the JavaScript engine's; the
-- dates of the backend are valid, so that the time is never NaN.
module _ (year_of : String → String) (time_of : String → ℤ) where
  unfoldable pub keeps : View → BankStatementSummary → Bool
  keeps v s =
      if not (v.applied_year == "All") && not (year_of s.end_date == v.applied_year)
      then false
      else if not (v.applied_type == "All") && not (type_text s.statement_type == v.applied_type)
      then false
      else if not (v.applied_account == "All") && not (s.iban == v.applied_account)
      then false
      else true

  unfoldable pub filtered_statements : View → List BankStatementSummary → List BankStatementSummary
  unfolding keeps
  filtered_statements v statements = filter (keeps v) statements

  -- The two values compared with `<` and `>`.
  abbrev pub compare_on : SortField → BankStatementSummary → BankStatementSummary → ℤ
  compare_on statement_info a b = three_way (text_lt a.iban b.iban) (text_lt b.iban a.iban)
  compare_on statement_type a b =
      three_way (text_lt (type_text a.statement_type) (type_text b.statement_type))
        (text_lt (type_text b.statement_type) (type_text a.statement_type))
  compare_on period a b =
      three_way (lt_ℤ (time_of a.end_date) (time_of b.end_date))
        (lt_ℤ (time_of b.end_date) (time_of a.end_date))
  compare_on transaction_count a b =
      three_way (lt_ℤ (pos a.transaction_count) (pos b.transaction_count))
        (lt_ℤ (pos b.transaction_count) (pos a.transaction_count))
  compare_on new_balance a b =
      three_way (lt_ℤ a.new_balance b.new_balance) (lt_ℤ b.new_balance a.new_balance)

  abbrev pub statement_order : View → BankStatementSummary → BankStatementSummary → ℤ
  statement_order v a b = directed v.sort_direction (compare_on v.sort_field a b)

  unfoldable pub sorted_statements : View → List BankStatementSummary → List BankStatementSummary
  unfolding filtered_statements sort
  sorted_statements v statements = sort (statement_order v) (filtered_statements v statements)

-- Whether an import calls for reconciliation.
unfoldable pub has_reconcilable_import : Platform → List ImportResult → Bool
has_reconcilable_import platform results =
    any
      (λ r.
        let fname = platform.to_lower r.filename in
        is_imported r.status
        && (includes fname ".xls" || includes fname "extra" || includes fname "tagesgeld"))
      results
