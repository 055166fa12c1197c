-- ===== src/Forecasting/Table.antt =====
-- frontend/src/components/forecasting/ForecastTable.tsx: the lines of the table of predictions, and
-- the comparison of a budget with what was spent this month.
use Prim.Native.String
use cogni_cash.Base.{
  ℕ, String, Bool, false, ◌&&◌, Option, none, some, List, [], ◌∷◌, if◌then◌else◌, truthy, is_text,
  text_le, take_text, drop_text, trim, starts_with, filter, nat_eq,
}
use cogni_cash.Base.Int.{ℤ, pos, ◌-ℤ◌, abs, lt_ℤ, sum_from}
use cogni_cash.Types.{PredictedTransaction, Transaction}

-- The rows of the month among those fetched for the category.
unfoldable pub burn_rate_actuals : String → String → List Transaction → List Transaction
unfolding take_text
burn_rate_actuals month_start month_end txns =
    filter
      (λ tx. let d = take_text 10 tx.booking_date in text_le month_start d && text_le d month_end)
      txns

-- The query runs only for a category.
abbrev pub is_enabled : Bool → Option String → Bool
is_enabled enabled none = false
is_enabled enabled (some category_id) = enabled && truthy category_id

unfoldable pub actual_total : List Transaction → ℤ
unfolding sum_from
actual_total actuals = sum_from (λ (tx : Transaction). tx.amount) (pos 0) actuals

unfoldable pub remaining : PredictedTransaction → List Transaction → ℤ
unfolding actual_total ◌-ℤ◌
remaining prediction actuals = prediction.transaction.amount -ℤ actual_total actuals

unfoldable pub over_budget : PredictedTransaction → List Transaction → Bool
unfolding actual_total
over_budget prediction actuals = lt_ℤ (actual_total actuals) prediction.transaction.amount

-- The figure beside the label that says whether it is left or overspent.
unfoldable pub shown_difference : PredictedTransaction → List Transaction → Bool × ℤ
unfolding over_budget remaining abs
shown_difference prediction actuals =
    (over_budget prediction actuals, abs (remaining prediction actuals))

-- What kind of prediction a description announces.
pub data Kind : Type 0 where
  variable bonus planned plain : Kind

unfoldable pub kind_of : String → Kind
unfolding starts_with
kind_of description =
    if starts_with description "Variable Budget:"
    then variable
    else if starts_with description "Bonus:"
    then bonus
    else if starts_with description "Planned:"
    then planned
    else plain

-- `description.replace(prefix, '').trim()` where the prefix stands at the start.
abbrev without : String → String → String
without prefix description = trim (drop_text (String.count prefix) description)

unfoldable pub clean_description : String → String
unfolding kind_of trim drop_text
clean_description description = elim (kind_of description) [
  | variable ↦ without "Variable Budget:" description
  | bonus ↦ without "Bonus:" description
  | planned ↦ without "Planned:" description
  | plain ↦ description
]

pub data DisplayItem : Type 0 where
  row : PredictedTransaction → Bool → Bool → DisplayItem
  expansion : PredictedTransaction → DisplayItem

-- The year and the month of a date; comparisons of an invalid date are false.
abbrev pub same_month : Option (ℕ × ℕ) → Option (ℕ × ℕ) → Bool
same_month none b = false
same_month (some a) none = false
same_month (some (y, m)) (some (v, n)) = nat_eq m n && nat_eq y v

module _ (month_of : String → Option (ℕ × ℕ)) (now : Option (ℕ × ℕ)) where
  abbrev pub can_expand : PredictedTransaction → Bool
  can_expand p =
      starts_with p.transaction.description "Variable Budget:"
      && same_month (month_of p.transaction.booking_date) now

  abbrev pub is_expanded : Option String → PredictedTransaction → Bool
  is_expanded expanded_id p = is_text expanded_id p.transaction.id

  unfoldable pub display_items : Option String → List PredictedTransaction → List DisplayItem
  unfolding starts_with
  display_items expanded_id [] = []
  display_items expanded_id (p ∷ predictions) =
      let rest = display_items expanded_id predictions in
      row p (can_expand p) (is_expanded expanded_id p)
      ∷ (if can_expand p && is_expanded expanded_id p then expansion p ∷ rest else rest)
