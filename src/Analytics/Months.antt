-- ===== src/Analytics/Months.antt =====
-- The trends by month of frontend/src/pages/AnalyticsPage.tsx: incomes and expenses of all rows, and
-- the amounts of one category.
use cogni_cash.Base.{
  ℕ, String, ◌==◌, Bool, false, not, ◌&&◌, ◌||◌, Option, none, some, List, [], ◌∷◌, map,
  if◌then◌else◌, truthy, present, is_text, take_text, split_char, nat_eq, find, first,
}
use cogni_cash.Base.Int.{ℤ, pos, ◌+ℤ◌, ◌-ℤ◌, abs}
use cogni_cash.Base.Collections.{get, put}
use cogni_cash.Base.Sort.{sort}
use cogni_cash.Base.Platform.{Platform}
use cogni_cash.Types.{Transaction, Payslip}
use cogni_cash.Analytics.{to_iso_date, is_income}

pub record MonthFlow : Type 0 where
  pub month : String
  pub income : ℤ
  pub expense : ℤ

abbrev pub flow_or_new : String → Option MonthFlow → MonthFlow
flow_or_new month none = record { month = month; income = pos 0; expense = pos 0 }
flow_or_new month (some flow) = flow

abbrev pub with_txn : Transaction → MonthFlow → MonthFlow
with_txn t flow =
    if is_income t
    then record flow { income = flow.income +ℤ t.amount }
    else record flow { expense = flow.expense +ℤ abs t.amount }

unfoldable pub month_of : Transaction → String
unfolding to_iso_date take_text
month_of t = take_text 7 (to_iso_date t.booking_date)

-- One round of the loop, on `monthly`.
unfoldable pub add_to_trend : Transaction → List (String × MonthFlow) → List (String × MonthFlow)
unfolding month_of get put ◌+ℤ◌ abs
add_to_trend t monthly =
    put (month_of t) (with_txn t (flow_or_new (month_of t) (get monthly (month_of t)))) monthly

unfoldable pub trend_from : List (String × MonthFlow) → List Transaction → List (String × MonthFlow)
unfolding add_to_trend
trend_from monthly [] = monthly
trend_from monthly (t ∷ rows) = trend_from (add_to_trend t monthly) rows

pub record TrendPoint : Type 0 where
  pub flow : MonthFlow
  pub net_income : ℤ
  pub deductions : ℤ

abbrev pub is_number : Option ℕ → ℕ → Bool
is_number none n = false
is_number (some m) n = nat_eq n m

-- The second part of a split text.
abbrev second : List String → Option String
second (x ∷ y ∷ rest) = some y
second parts = none

-- `parseInt(s, 10)` with a parser of the engine, where `none` is NaN.
abbrev parsed : (String → Option ℕ) → Option String → Option ℕ
parsed parse_int none = none
parsed parse_int (some s) = parse_int s

-- A month with the net pay and the deductions of its payslip, if there is one.
abbrev pub trend_point : MonthFlow → Option Payslip → TrendPoint
trend_point m none = record { flow = m; net_income = pos 0; deductions = pos 0 }
trend_point m (some hr_doc) = record {
  flow = m;
  net_income = hr_doc.net_pay;
  deductions = hr_doc.gross_pay -ℤ hr_doc.net_pay;
}

module _ (parse_int : String → Option ℕ) where
  abbrev pub is_period : List String → Payslip → Bool
  is_period parts p =
      is_number (parsed parse_int (first parts)) p.period_year
      && is_number (parsed parse_int (second parts)) p.period_month_num

  unfoldable pub with_payslip : List Payslip → MonthFlow → TrendPoint
  unfolding split_char ◌-ℤ◌
  with_payslip payslips m = trend_point m (find (is_period (split_char b'-' "" m.month)) payslips)

  module _ (platform : Platform) where
    abbrev pub month_order : MonthFlow → MonthFlow → ℤ
    month_order a b = platform.locale_compare a.month b.month

    unfoldable pub trend_data : List Payslip → List Transaction → List TrendPoint
    unfolding trend_from with_payslip sort
    trend_data payslips filtered =
        map (with_payslip payslips)
          (sort month_order (map (λ (e : String × MonthFlow). e.1) (trend_from [] filtered)))

pub record MonthAmount : Type 0 where
  pub month : String
  pub amount : ℤ

-- Every month of the trend, with nothing in it.
unfoldable pub empty_months :
    List (String × MonthAmount) → List TrendPoint → List (String × MonthAmount)
unfolding put
empty_months monthly [] = monthly
empty_months monthly (td ∷ trend) =
    empty_months (put td.flow.month (record { month = td.flow.month; amount = pos 0 }) monthly)
      trend

abbrev pub is_match : String → Transaction → Bool
is_match id t = is_text t.category_id id || (not (present t.category_id) && (id == "uncategorized"))

abbrev pub amount_with : String → ℤ → Option MonthAmount → MonthAmount
amount_with month a none = record { month = month; amount = a }
amount_with month a (some m) = record m { amount = m.amount +ℤ a }

-- One round of the loop over the rows.
unfoldable pub add_to_category_month :
    String → Transaction → List (String × MonthAmount) → List (String × MonthAmount)
unfolding month_of get put ◌+ℤ◌
add_to_category_month id t monthly =
    if is_match id t
    then put (month_of t) (amount_with (month_of t) t.amount (get monthly (month_of t))) monthly
    else monthly

unfoldable pub category_months_from :
    String → List (String × MonthAmount) → List Transaction → List (String × MonthAmount)
unfolding add_to_category_month
category_months_from id monthly [] = monthly
category_months_from id monthly (t ∷ rows) =
    category_months_from id (add_to_category_month id t monthly) rows

unfoldable pub category_trend_data :
    Platform → String → List TrendPoint → List Transaction → List MonthAmount
unfolding category_months_from empty_months sort
category_trend_data platform id trend filtered =
    if truthy id
    then sort (λ (a b : MonthAmount). platform.locale_compare a.month b.month)
        (map (λ (e : String × MonthAmount). e.1)
          (category_months_from id (empty_months [] trend) filtered))
    else []
