-- ===== src/Forecasting/Figures.antt =====
-- The figures of the forecasting page, the URL of the page, and the comparison with the budget.
use mathlib.Core.List.{Perm}
use cogni_cash.Base.{
  String, ◌==◌, ◌≡◌, refl, Bool, true, false, not, Option, none, some, List, if◌then◌else◌, truthy,
  text_or, is_text, filter, arith, Bool-cases, inl, inr, eq_iff,
}
use cogni_cash.Base.Int.{
  ℤ, pos, ◌+ℤ◌, ◌-ℤ◌, abs, lt_ℤ, sum_of, sum_from-eq-sum_of, eq_of_parts, zero_add,
}
use cogni_cash.Base.Sums.{sum_of-filter, sum_of-cong, sum_of-add}
use cogni_cash.Base.Sort.{sort-perm, sort-IsSorted, IsSorted}
use cogni_cash.Base.Order.{amount_compare-IsConsistent}
use cogni_cash.Base.Platform.{Platform}
use cogni_cash.Transactions.Page.Url.{get-set_if, get-nil}
use cogni_cash.Transactions.Rows.Shown.{filter_if-eq-filter}
use cogni_cash.Types.{PredictedTransaction, CashFlowForecast, Category, Transaction}
use cogni_cash.Forecasting.{
  Range, days_30, days_60, days_90, days_180, days_365, days_730, Tab, forecast, blocked, View,
  range_text, known_range, tab_text, initial_view, url_of, amount_of, predictions_of, is_hit,
  time_order, filtered_predictions, total_expected_income, total_expected_expense,
}
use cogni_cash.Forecasting.Table.{actual_total, remaining, over_budget, shown_difference}

split_amount :
    (a : ℤ) → (if lt_ℤ (pos 0) a then a else pos 0) +ℤ (if lt_ℤ a (pos 0) then a else pos 0) ≡ a
unfolding ◌+ℤ◌
split_amount a = ground arith

-- The expected incomes and the expected expenses add up to the amounts of all predictions.
pub total_expected-sum :
    (f : Option CashFlowForecast)
    → total_expected_income f +ℤ total_expected_expense f ≡ sum_of amount_of (predictions_of f)
unfolding total_expected_income total_expected_expense
total_expected-sum f =
    let ps = predictions_of f in
    let earned : PredictedTransaction → Bool = λ p. lt_ℤ (pos 0) (amount_of p) in
    let spent : PredictedTransaction → Bool = λ p. lt_ℤ (amount_of p) (pos 0) in
    rw
      (
        sum_from-eq-sum_of amount_of (pos 0) (filter earned ps),
        sum_from-eq-sum_of amount_of (pos 0) (filter spent ps),
        zero_add (sum_of amount_of (filter earned ps)),
        zero_add (sum_of amount_of (filter spent ps)),
        sum_of-filter amount_of earned ps,
        sum_of-filter amount_of spent ps,
        sum_of-add (λ p. if earned p then amount_of p else pos 0)
            (λ p. if spent p then amount_of p else pos 0) ps,
      )
      (sum_of-cong
        (λ p. (if earned p then amount_of p else pos 0) +ℤ (if spent p then amount_of p else pos 0))
        amount_of (λ p. split_amount (amount_of p)) ps)

over_by : (b t : ℤ) → lt_ℤ t b ≡ true → b ≡ t +ℤ abs (b -ℤ t)
unfolding ◌+ℤ◌ ◌-ℤ◌ abs
over_by b t e = eq_of_parts b (t +ℤ abs (b -ℤ t)) (ground arith)

left_over : (b t : ℤ) → lt_ℤ t b ≡ false → t ≡ b +ℤ abs (b -ℤ t)
unfolding ◌+ℤ◌ ◌-ℤ◌ abs
left_over b t e = eq_of_parts t (b +ℤ abs (b -ℤ t)) (ground arith)

difference_lem :
    (budget total : ℤ)
    → (if lt_ℤ total budget then budget else total)
      ≡ (if lt_ℤ total budget then total else budget) +ℤ abs (budget -ℤ total)
difference_lem budget total = elim (Bool-cases (lt_ℤ total budget)) [
  | inl e ↦ rw e (over_by budget total e)
  | inr e ↦ rw e (left_over budget total e)
]

-- What is shown beside the budget is the difference of budget and amount spent: added to the
-- smaller of the two it gives the larger, and the page calls it overspent exactly where the budget
-- is the larger amount.
pub shown_difference_lem :
    (p : PredictedTransaction) (actuals : List Transaction)
    → let over = over_budget p actuals in
      let budget = p.transaction.amount in
      let total = actual_total actuals in
      (if over then budget else total)
      ≡ (if over then total else budget) +ℤ (shown_difference p actuals).1
unfolding shown_difference over_budget remaining
shown_difference_lem p actuals = difference_lem p.transaction.amount (actual_total actuals)

range_back :
    (r : Range)
    → known_range (text_or (if not (range_text r == "90") then some (range_text r) else none) "")
      ≡ r
range_back days_30 = refl
range_back days_60 = refl
range_back days_90 = refl
range_back days_180 = refl
range_back days_365 = refl
range_back days_730 = refl

tab_back :
    (t : Tab)
    → (if is_text (if not (tab_text t == "forecast") then some (tab_text t) else none) "blocked"
        then blocked
        else forecast)
      ≡ t
tab_back forecast = refl
tab_back blocked = refl

search_back : (s : String) → text_or (if truthy s then some s else none) "" ≡ s
search_back s = ground (arith, eq_iff s "")

ruleset back = (get-set_if, get-nil, range_back, tab_back, search_back)

-- Reading the URL that the forecasting page writes gives its range, tab and search back.
pub initial_view-url_of : (v : View) → initial_view (url_of v) ≡ v
unfolding initial_view url_of
initial_view-url_of v = simp back

module _ (platform : Platform) (time_of : String → ℤ) (categories : List Category) where
  -- The listed predictions are those that the search finds, each as often as it was fetched, in the
  -- order of their time.
  pub filtered_predictions-IsSorted :
      (search : String) (ps : List PredictedTransaction)
      → let shown = filtered_predictions platform time_of categories search ps in
        Perm shown (
          filter
            (λ p.
              if truthy search
              then is_hit platform time_of categories (platform.to_lower search) p
              else true)
            ps)
        × IsSorted (time_order platform time_of categories) shown
  unfolding filtered_predictions
  filtered_predictions-IsSorted search ps =
      let hit = is_hit platform time_of categories (platform.to_lower search) in
      let order = time_order platform time_of categories in
      let kept = filter (λ p. if truthy search then hit p else true) ps in
      rw (filter_if-eq-filter (truthy search) hit ps) (
        sort-perm order kept,
        sort-IsSorted order
            (amount_compare-IsConsistent
              (λ (p : PredictedTransaction). time_of p.transaction.booking_date))
            kept,
      )
