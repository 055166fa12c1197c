-- ===== src/Statements/Tests.antt =====
-- The theorem on the listed statements at concrete ones.
use mathlib.Core.List.{Mem, Perm}
use cogni_cash.Base.{◌↔◌, true, [], ◌∷◌, take_text}
use cogni_cash.Base.Int.{pos}
use cogni_cash.Base.Sort.{IsSorted}
use cogni_cash.Types.{BankStatementSummary, giro, extra_account}
use cogni_cash.Statements.{
  View, initial_view, new_balance, filtered_statements, statement_order, sorted_statements,
}
use cogni_cash.Statements.Listing.{Fits, sorted_statements-IsSorted}

abbrev january : BankStatementSummary
january = record {
  id = "s1";
  statement_no = 1;
  period_label = "2024-01";
  iban = "DE01";
  currency = "EUR";
  new_balance = pos 120000;
  start_date = "2024-01-01";
  end_date = "2024-01-31";
  transaction_count = 12;
  statement_type = giro;
  has_original_file = true;
}

abbrev savings : BankStatementSummary
savings = record january {
  id = "s2";
  iban = "DE02";
  new_balance = pos 90000;
  statement_type = extra_account;
}

abbrev on_account : View
on_account = record initial_view { applied_account = "DE01"; sort_field = new_balance }

sorted_statements-IsSorted_example :
    ((s : BankStatementSummary)
      → Mem s (sorted_statements (take_text 4) (λ d. pos 0) on_account (january ∷ savings ∷ []))
        ↔ (Mem s (january ∷ savings ∷ []) × Fits (take_text 4) on_account s))
    × Perm
        (sorted_statements (take_text 4) (λ d. pos 0) on_account (january ∷ savings ∷ []))
        (filtered_statements (take_text 4) (λ d. pos 0) on_account (january ∷ savings ∷ []))
    × IsSorted
        (statement_order (take_text 4) (λ d. pos 0) on_account)
        (sorted_statements (take_text 4) (λ d. pos 0) on_account (january ∷ savings ∷ []))
sorted_statements-IsSorted_example =
    sorted_statements-IsSorted (take_text 4) (λ d. pos 0) on_account (january ∷ savings ∷ [])
