-- ===== src/Forecasting.antt =====
-- frontend/src/pages/ForecastingPage.tsx: the range, the tab and the search of the page with their
-- URL, the columns, the predictions it lists and its balances.
pub mod Table
pub mod Planned
pub mod Figures
pub mod Display
pub mod Form
mod Tests
use Prim.Native.String
use cogni_cash.Base.{
  ℕ, String, ◌==◌, Bool, true, false, not, ◌&&◌, Option, none, some, List, [], ◌∷◌, map,
  if◌then◌else◌, truthy, text_or, is_text, includes, filter, find, last,
}
use cogni_cash.Base.Int.{ℤ, pos, ◌-ℤ◌, lt_ℤ, sum_from}
use cogni_cash.Base.Collections.{get}
use cogni_cash.Base.Sort.{sort}
use cogni_cash.Base.Platform.{Platform}
use cogni_cash.Types.{PredictedTransaction, ForecastPoint, CashFlowForecast, Category}
use cogni_cash.Transactions.Page.{Params, set_if}
use cogni_cash.Transactions.Rows.{filter_if}
use cogni_cash.Api.Settings.{get_namespaced_key}

-- `'30' | '60' | '90' | '180' | '365' | '730'`
pub data Range : Type 0 where
  days_30 days_60 days_90 days_180 days_365 days_730 : Range

abbrev pub range_text : Range → String
range_text days_30 = "30"
range_text days_60 = "60"
range_text days_90 = "90"
range_text days_180 = "180"
range_text days_365 = "365"
range_text days_730 = "730"

abbrev pub known_range : String → Range
known_range r =
    if r == "30"
    then days_30
    else if r == "60"
    then days_60
    else if r == "180"
    then days_180
    else if r == "365"
    then days_365
    else if r == "730"
    then days_730
    else days_90

-- `'forecast' | 'blocked'`
pub data Tab : Type 0 where
  forecast blocked : Tab

abbrev pub tab_text : Tab → String
tab_text forecast = "forecast"
tab_text blocked = "blocked"

pub record View : Type 0 where
  pub range : Range
  pub active_tab : Tab
  pub search : String

unfoldable pub initial_view : Params → View
unfolding get
initial_view params = record {
  range = known_range (text_or (get params "range") "");
  active_tab = if is_text (get params "tab") "blocked" then blocked else forecast;
  search = text_or (get params "search") "";
}

-- The effect that writes the state into the URL.
unfoldable pub url_of : View → Params
url_of v =
    let a = set_if (not (range_text v.range == "90")) "range" (range_text v.range) [] in
    let b = set_if (not (tab_text v.active_tab == "forecast")) "tab" (tab_text v.active_tab) a in
    set_if (truthy v.search) "search" v.search b

-- `ForecastColKey`, and the columns that are shown.
pub data ColKey : Type 0 where
  date description category probability amount : ColKey

pub record Columns : Type 0 where
  pub date : Bool
  pub description : Bool
  pub category : Bool
  pub probability : Bool
  pub amount : Bool

abbrev flip_column : ColKey → Columns → Columns
flip_column ColKey.date c = record c { date = not c.date }
flip_column ColKey.description c = record c { description = not c.description }
flip_column ColKey.category c = record c { category = not c.category }
flip_column ColKey.probability c = record c { probability = not c.probability }
flip_column ColKey.amount c = record c { amount = not c.amount }

-- The columns after a click, and the setting that is stored: the key of this device with the
-- columns, which are sent as a JSON text.
unfoldable pub toggle_column : String → ColKey → Columns → Columns × (String × Columns)
unfolding get_namespaced_key
toggle_column client_id key c =
    let next = flip_column key c in
    (next, (get_namespaced_key client_id "forecast_visible_cols" true, next))

abbrev pub name_of : List Category → String → Option String
name_of categories id = elim (find (λ (c : Category). c.id == id) categories) [
  | none ↦ none
  | some c ↦ some c.name
]

-- With the time of a date text in milliseconds.
module _ (platform : Platform) (time_of : String → ℤ) (categories : List Category) where
  open platform use {to_lower}

  -- `field?.toLowerCase().includes(s)`
  abbrev pub mentions : String → Option String → Bool
  mentions s none = false
  mentions s (some field) = includes (to_lower field) s

  abbrev pub in_named_category : String → Option String → Bool
  in_named_category s none = false
  in_named_category s (some id) = if truthy id then mentions s (name_of categories id) else false

  abbrev pub is_hit : String → PredictedTransaction → Bool
  is_hit s p =
      let tx = p.transaction in
      if includes (to_lower tx.description) s
      then true
      else if mentions s tx.counterparty_name
      then true
      else in_named_category s tx.category_id

  abbrev pub time_order : PredictedTransaction → PredictedTransaction → ℤ
  time_order a b = time_of a.transaction.booking_date -ℤ time_of b.transaction.booking_date

  unfoldable pub filtered_predictions :
      String → List PredictedTransaction → List PredictedTransaction
  unfolding sort filter_if ◌-ℤ◌
  filtered_predictions search predictions =
      sort time_order (filter_if (truthy search) (is_hit (to_lower search)) predictions)

abbrev pub predictions_of : Option CashFlowForecast → List PredictedTransaction
predictions_of none = []
predictions_of (some f) = f.predictions

abbrev pub current_balance : Option CashFlowForecast → ℤ
current_balance none = pos 0
current_balance (some f) = f.current_balance

abbrev pub chart_data : Option CashFlowForecast → List ForecastPoint
chart_data none = []
chart_data (some f) = f.time_series

abbrev pub balance_at : ℤ → Option ForecastPoint → ℤ
balance_at current none = current
balance_at current (some point) = point.expected_balance

unfoldable pub projected_balance : Option CashFlowForecast → ℤ
projected_balance f = balance_at (current_balance f) (last (chart_data f))

unfoldable pub balance_diff : Option CashFlowForecast → ℤ
unfolding projected_balance ◌-ℤ◌
balance_diff f = projected_balance f -ℤ current_balance f

abbrev pub amount_of : PredictedTransaction → ℤ
amount_of p = p.transaction.amount

unfoldable pub total_expected_income : Option CashFlowForecast → ℤ
unfolding sum_from
total_expected_income f =
    sum_from amount_of (pos 0) (filter (λ p. lt_ℤ (pos 0) (amount_of p)) (predictions_of f))

unfoldable pub total_expected_expense : Option CashFlowForecast → ℤ
unfolding sum_from
total_expected_expense f =
    sum_from amount_of (pos 0) (filter (λ p. lt_ℤ (amount_of p) (pos 0)) (predictions_of f))
