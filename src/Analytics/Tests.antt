-- ===== src/Analytics/Tests.antt =====
-- The theorems about the analytics page at concrete rows.
use cogni_cash.Base.{ℕ, String, ◌==◌, ◌≡◌, true, Option, none, some, [], ◌∷◌, if◌then◌else◌}
use cogni_cash.Base.Int.{pos, abs, ◌-ℤ◌, ◌≤ℤ◌, sum_of, lt_ℤ}
use cogni_cash.Base.Sort.{Pairwise}
use cogni_cash.Base.Platform.{plain_platform}
use cogni_cash.Transactions.Samples.{sample_rows, groceries}
use cogni_cash.Analytics.{Page, Bar, expense_bar_data, total_inc, total_exp}
use cogni_cash.Analytics.Months.{TrendPoint, trend_data}
use cogni_cash.Analytics.Bars.{expense_bar_data_lem, values, net_of, falls}
use cogni_cash.Analytics.Trend.{trend_data-sums}

-- A parser that knows two texts.
abbrev parse_int : String → Option ℕ
parse_int s = if s == "2024" then some 2024 else if s == "03" then some 3 else none

abbrev shown : Page
shown = record {
  draft = record { from = ""; to = ""; exclude_ids = "c2" ∷ "c1" ∷ []; hide_reconciled = true };
  applied = record { from = ""; to = ""; exclude_ids = "c1" ∷ "c2" ∷ []; hide_reconciled = true };
  selected_category_trend_id = "";
}

trend_data-sums_example :
    (sum_of
        (λ (td : TrendPoint). td.flow.income)
        (trend_data parse_int plain_platform [] sample_rows)
      ≡ total_inc (pos 0) sample_rows)
    × (sum_of
          (λ (td : TrendPoint). td.flow.expense)
          (trend_data parse_int plain_platform [] sample_rows)
        ≡ total_exp (pos 0) sample_rows)
trend_data-sums_example = trend_data-sums parse_int plain_platform [] sample_rows

expense_bar_data_lem_example :
    (values "Food" (expense_bar_data (groceries ∷ []) sample_rows) ≡ (
      if lt_ℤ (net_of (groceries ∷ []) "Food" sample_rows) (pos 0)
      then abs (net_of (groceries ∷ []) "Food" sample_rows) ∷ []
      else []))
    × Pairwise falls (expense_bar_data (groceries ∷ []) sample_rows)
    × (total_exp (pos 0) sample_rows -ℤ total_inc (pos 0) sample_rows
        ≤ℤ sum_of (λ (b : Bar). b.value) (expense_bar_data (groceries ∷ []) sample_rows))
expense_bar_data_lem_example = expense_bar_data_lem (groceries ∷ []) sample_rows "Food"
