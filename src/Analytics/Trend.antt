-- ===== src/Analytics/Trend.antt =====
-- The trends of the analytics page agree with its figures.
use cogni_cash.Base.{
  ℕ, String, ◌≡◌, refl, true, Option, none, some, List, [], ◌∷◌, map, if◌then◌else◌, filter,
  Bool-cases, Option-cases, inl, inr, truthy, find, split_char, ap, ◌==◌,
}
use cogni_cash.Base.Int.{ℤ, pos, ◌+ℤ◌, sum_of, int_laws, parts_of_eq, +ℤ_assoc, zero_add, add_zero}
use cogni_cash.Base.Collections.{get, put, get-put}
use cogni_cash.Base.Sums.{
  sum_of-sort, sum_of-put, sum_of-map, sum_of-filter, sum_of-cong, share, swap_share,
}
use cogni_cash.Base.Sort.{sort}
use cogni_cash.Base.Platform.{Platform}
use cogni_cash.Types.{Transaction, Payslip}
use cogni_cash.Analytics.{is_income, total_inc, total_exp}
use cogni_cash.Analytics.Months.{
  MonthFlow, TrendPoint, MonthAmount, flow_or_new, with_txn, month_of, add_to_trend, trend_from,
  trend_point, with_payslip, is_period, month_order, trend_data, empty_months, is_match,
  amount_with, add_to_category_month, category_months_from, category_trend_data,
}
use cogni_cash.Analytics.Figures.{income_of, expense_of, total_inc_lem, total_exp_lem}

abbrev incomes : List (String × MonthFlow) → ℤ
incomes = sum_of (λ (e : String × MonthFlow). e.1.income)

abbrev expenses : List (String × MonthFlow) → ℤ
expenses = sum_of (λ (e : String × MonthFlow). e.1.expense)

with_txn-income :
    (t : Transaction) (m : String) (o : Option MonthFlow)
    → (with_txn t (flow_or_new m o)).income ≡ share (λ (f : MonthFlow). f.income) o +ℤ income_of t
with_txn-income t m o = elim (Bool-cases (is_income t)) [
  | inl c ↦ elim (Option-cases o) [ inl e ↦ rw (e, c) refl | inr (flow, e) ↦ rw (e, c) refl ]
  | inr c ↦ elim (Option-cases o) [
    | inl e ↦ rw (e, c) (add_zero (pos 0))
    | inr (flow, e) ↦ rw (e, c) (add_zero flow.income)
  ]
]

with_txn-expense :
    (t : Transaction) (m : String) (o : Option MonthFlow)
    → (with_txn t (flow_or_new m o)).expense
      ≡ share (λ (f : MonthFlow). f.expense) o +ℤ expense_of t
with_txn-expense t m o = elim (Bool-cases (is_income t)) [
  | inl c ↦ elim (Option-cases o) [
    | inl e ↦ rw (e, c) (add_zero (pos 0))
    | inr (flow, e) ↦ rw (e, c) (add_zero flow.expense)
  ]
  | inr c ↦ elim (Option-cases o) [ inl e ↦ rw (e, c) refl | inr (flow, e) ↦ rw (e, c) refl ]
]

module _ (t : Transaction) (d : List (String × MonthFlow)) where
  incomes-add_to_trend : incomes (add_to_trend t d) ≡ incomes d +ℤ income_of t
  unfolding add_to_trend
  incomes-add_to_trend =
      let m = month_of t in
      let flow = with_txn t (flow_or_new m (get d m)) in
      swap_share (incomes (put m flow d)) (incomes d)
        (share (λ (f : MonthFlow). f.income) (get d m)) flow.income (income_of t)
        (sum_of-put (λ (f : MonthFlow). f.income) m flow d) (with_txn-income t m (get d m))

  expenses-add_to_trend : expenses (add_to_trend t d) ≡ expenses d +ℤ expense_of t
  unfolding add_to_trend
  expenses-add_to_trend =
      let m = month_of t in
      let flow = with_txn t (flow_or_new m (get d m)) in
      swap_share (expenses (put m flow d)) (expenses d)
        (share (λ (f : MonthFlow). f.expense) (get d m)) flow.expense (expense_of t)
        (sum_of-put (λ (f : MonthFlow). f.expense) m flow d) (with_txn-expense t m (get d m))

incomes-trend_from :
    (d : List (String × MonthFlow)) (rows : List Transaction)
    → incomes (trend_from d rows) ≡ incomes d +ℤ sum_of income_of rows
unfolding trend_from sum_of
incomes-trend_from d [] = omega int_laws
incomes-trend_from d (t ∷ rows) = rw (
  incomes-trend_from (add_to_trend t d) rows,
  incomes-add_to_trend t d,
  +ℤ_assoc (incomes d) (income_of t) (sum_of income_of rows),
)

expenses-trend_from :
    (d : List (String × MonthFlow)) (rows : List Transaction)
    → expenses (trend_from d rows) ≡ expenses d +ℤ sum_of expense_of rows
unfolding trend_from sum_of
expenses-trend_from d [] = omega int_laws
expenses-trend_from d (t ∷ rows) = rw (
  expenses-trend_from (add_to_trend t d) rows,
  expenses-add_to_trend t d,
  +ℤ_assoc (expenses d) (expense_of t) (sum_of expense_of rows),
)

flow-with_payslip :
    (parse_int : String → Option ℕ) (payslips : List Payslip) (m : MonthFlow)
    → (with_payslip parse_int payslips m).flow ≡ m
unfolding with_payslip
flow-with_payslip parse_int payslips m =
    kept m (find (is_period parse_int (split_char b'-' "" m.month)) payslips)
  where
    kept : (m : MonthFlow) (o : Option Payslip) → (trend_point m o).flow ≡ m
    kept m none = refl
    kept m (some p) = refl

module _ (parse_int : String → Option ℕ) (platform : Platform) (payslips : List Payslip)
    (rows : List Transaction) where
  sum_of-trend_data :
      (f : MonthFlow → ℤ)
      → sum_of (λ (td : TrendPoint). f td.flow) (trend_data parse_int platform payslips rows)
        ≡ sum_of (λ (e : String × MonthFlow). f e.1) (trend_from [] rows)
  unfolding trend_data
  sum_of-trend_data f =
      let months = map (λ (e : String × MonthFlow). e.1) (trend_from [] rows) in
      let order = month_order parse_int platform in
      rw
        (
          sum_of-map (λ (td : TrendPoint). f td.flow) (with_payslip parse_int payslips)
              (sort order months),
          sum_of-cong (λ (m : MonthFlow). f (with_payslip parse_int payslips m).flow) f
              (λ m. ap f (flow-with_payslip parse_int payslips m)) (sort order months),
          sum_of-sort f order months,
        )
        (sum_of-map f (λ (e : String × MonthFlow). e.1) (trend_from [] rows))

  -- The incomes of all months of the trend add up to the total income, and the expenses to the
  -- total expenses.
  pub trend_data-sums :
      (sum_of (λ (td : TrendPoint). td.flow.income) (trend_data parse_int platform payslips rows)
        ≡ total_inc (pos 0) rows)
      × (sum_of (λ (td : TrendPoint). td.flow.expense) (trend_data parse_int platform payslips rows)
          ≡ total_exp (pos 0) rows)
  unfolding sum_of
  trend_data-sums = (
    rw
        (
          sum_of-trend_data (λ (f : MonthFlow). f.income),
          incomes-trend_from [] rows,
          total_inc_lem (pos 0) rows,
        )
        refl,
    rw
        (
          sum_of-trend_data (λ (f : MonthFlow). f.expense),
          expenses-trend_from [] rows,
          total_exp_lem (pos 0) rows,
        )
        refl,
  )

abbrev amounts : List (String × MonthAmount) → ℤ
amounts = sum_of (λ (e : String × MonthAmount). e.1.amount)

abbrev amount_at : List (String × MonthAmount) → String → ℤ
amount_at d k = share (λ (m : MonthAmount). m.amount) (get d k)

-- No entry holds an amount yet.
abbrev IsZero : List (String × MonthAmount) → Type 0
IsZero d = (k : String) → amount_at d k ≡ pos 0

module _ (month : String) (d : List (String × MonthAmount)) (h : IsZero d) where
  abbrev nothing : MonthAmount
  nothing = record { month = month; amount = pos 0 }

  put-IsZero : IsZero (put month nothing d)
  put-IsZero k = elim (Bool-cases (month == k)) [
    | inl e ↦ rw (get-put month nothing d k, e) refl
    | inr e ↦ rw (get-put month nothing d k, e) (h k)
  ]

  amounts-put-nothing : amounts (put month nothing d) ≡ amounts d
  amounts-put-nothing =
      swap_zero (amounts (put month nothing d)) (amounts d) (amount_at d month)
        (sum_of-put (λ (m : MonthAmount). m.amount) month nothing d) (h month)
    where
      swap_zero : (a b c : ℤ) → a +ℤ c ≡ b +ℤ pos 0 → c ≡ pos 0 → a ≡ b
      swap_zero a b c e z = omega (int_laws, parts_of_eq e, parts_of_eq z)

amounts-empty_months :
    (d : List (String × MonthAmount)) (trend : List TrendPoint)
    → IsZero d
    → amounts (empty_months d trend) ≡ amounts d
unfolding empty_months
amounts-empty_months d [] h = refl
amounts-empty_months d (td ∷ trend) h =
    rw
      (amounts-empty_months (put td.flow.month (nothing td.flow.month d h) d) trend
        (put-IsZero td.flow.month d h))
      (amounts-put-nothing td.flow.month d h)

-- What a row adds to the trend of a category.
abbrev matched : String → Transaction → ℤ
matched id t = if is_match id t then t.amount else pos 0

amount_with-share :
    (m : String) (a : ℤ) (o : Option MonthAmount)
    → (amount_with m a o).amount ≡ share (λ (x : MonthAmount). x.amount) o +ℤ a
amount_with-share m a none = omega int_laws
amount_with-share m a (some x) = refl

amounts-add_to_category_month :
    (id : String) (t : Transaction) (d : List (String × MonthAmount))
    → amounts (add_to_category_month id t d) ≡ amounts d +ℤ matched id t
unfolding add_to_category_month
amounts-add_to_category_month id t d = elim (Bool-cases (is_match id t)) [
  | inl e ↦
      let m = month_of t in
      let new = amount_with m t.amount (get d m) in
      rw e (
        swap_share (amounts (put m new d)) (amounts d) (amount_at d m) new.amount t.amount
          (sum_of-put (λ (x : MonthAmount). x.amount) m new d)
          (amount_with-share m t.amount (get d m)))
  | inr e ↦ rw e (add_zero (amounts d))
]

amounts-category_months_from :
    (id : String) (d : List (String × MonthAmount)) (rows : List Transaction)
    → amounts (category_months_from id d rows) ≡ amounts d +ℤ sum_of (matched id) rows
unfolding category_months_from sum_of
amounts-category_months_from id d [] = omega int_laws
amounts-category_months_from id d (t ∷ rows) = rw (
  amounts-category_months_from id (add_to_category_month id t d) rows,
  amounts-add_to_category_month id t d,
  +ℤ_assoc (amounts d) (matched id t) (sum_of (matched id) rows),
)

-- The months of a chosen category's trend add up to the amounts of its rows.
pub category_trend_data-sum :
    (platform : Platform) (id : String) (trend : List TrendPoint) (rows : List Transaction)
    → truthy id ≡ true
    → sum_of (λ (m : MonthAmount). m.amount) (category_trend_data platform id trend rows)
      ≡ sum_of (λ (t : Transaction). t.amount) (filter (is_match id) rows)
unfolding category_trend_data sum_of get
category_trend_data-sum platform id trend rows chosen =
    let months = category_months_from id (empty_months [] trend) rows in
    let order : MonthAmount → MonthAmount → ℤ = λ a b. platform.locale_compare a.month b.month in
    rw
      (
        chosen,
        sum_of-sort (λ (m : MonthAmount). m.amount) order
            (map (λ (e : String × MonthAmount). e.1) months),
        sum_of-map (λ (m : MonthAmount). m.amount) (λ (e : String × MonthAmount). e.1) months,
        amounts-category_months_from id (empty_months [] trend) rows,
        amounts-empty_months [] trend (λ k. refl),
        sum_of-filter (λ (t : Transaction). t.amount) (is_match id) rows,
      )
      (zero_add (sum_of (matched id) rows))
