-- ===== src/Transactions/Samples.antt =====
-- Concrete rows and pages for the tests.
use cogni_cash.Base.{String, Bool, true, false, none, List, [], ◌∷◌}
use cogni_cash.Base.Int.{ℤ, pos, negsuc}
use cogni_cash.Types.{Transaction, TransactionType, StatementType, Category, JobState}
use cogni_cash.Transactions.Page.{Page, empty_filters}

abbrev pub row : String → String → String → ℤ → Transaction
row hash day text amount = record {
  id = hash;
  user_id = "u1";
  booking_date = day;
  valuta_date = day;
  description = text;
  counterparty_name = none;
  counterparty_iban = none;
  bank_transaction_code = none;
  mandate_reference = none;
  amount = amount;
  currency = "EUR";
  base_amount = amount;
  base_currency = "EUR";
  type = TransactionType.debit;
  reference = "";
  category_id = none;
  content_hash = hash;
  is_reconciled = false;
  reconciliation_id = none;
  reviewed = false;
  statement_type = StatementType.giro;
  bank_statement_id = none;
  location = none;
  is_prediction = none;
  skip_forecasting = none;
  is_shared = false;
  owner_id = none;
  subscription_id = none;
}

abbrev pub salary : Transaction
salary = row "h1" "2024-03-01" "Salary" (pos 250000)

abbrev pub rent : Transaction
rent = row "h2" "2024-03-02" "Rent" (negsuc 89999)

abbrev pub transfer : Transaction
transfer = record (row "h3" "2024-03-03" "Own transfer" (negsuc 9999)) { is_reconciled = true }

-- A row with a date in the German notation.
abbrev pub german : Transaction
german = row "h4" "05.03.2024" "Bakery" (negsuc 419)

abbrev pub sample_rows : List Transaction
sample_rows = salary ∷ rent ∷ transfer ∷ []

-- A search has been started, and reconciled rows are hidden.
abbrev pub searching : Page
searching = record {
  applied = record empty_filters { type = "debit" };
  has_applied_once = true;
  hide_reconciled = true;
  selected_hashes = "h2" ∷ [];
  sort_key = "amount";
  sort_dir = "asc";
  show_visuals = false;
  include_predictions = true;
}

-- The same with a statement chosen.
abbrev pub on_statement : Page
on_statement = record searching {
  applied = record empty_filters { statement = "s1"; amount_min = "1,5" };
}

abbrev pub groceries : Category
groceries = record {
  id = "c1";
  name = "Groceries";
  color = "#22c55e";
  is_variable_spending = true;
  forecast_strategy = "3y";
  is_shared = false;
  shared_with = none;
  owner_id = "u1";
  created_at = "2024-01-01";
  deleted_at = none;
}

abbrev pub job : Bool → JobState
job is_running = record {
  is_running = is_running;
  processed = 4;
  total = 9;
  status = "completed";
  results = [];
}
