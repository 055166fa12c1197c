-- ===== src/Analytics.antt =====
-- frontend/src/pages/AnalyticsPage.tsx: the filters of the page with their URL, and the figures,
-- bars and trends of the transactions that pass them.
pub mod Months
pub mod Figures
pub mod Bars
pub mod Trend
pub mod Dirty
mod Tests
use cogni_cash.Base.{
  ℕ, String, ◌==◌, Bool, true, false, not, ◌&&◌, ◌||◌, Option, none, some, List, [], ◌∷◌, map,
  length, if◌then◌else◌, truthy, present, text_or, is_text, text_lt, take_text, split_char,
  has_shape, nat_eq, ltb, filter, find, first, last,
}
use Prim.Native.String
use cogni_cash.Base.Int.{ℤ, pos, ◌+ℤ◌, ◌-ℤ◌, abs, lt_ℤ}
use cogni_cash.Base.Collections.{JsSet, has, toggle, set_of, get, put}
use cogni_cash.Base.Sort.{sort}
use cogni_cash.Base.Order.{text_compare}
use cogni_cash.Base.Platform.{Platform}
use cogni_cash.Types.{Transaction, Category, Payslip}
use cogni_cash.Transactions.Page.{Params, set_if}
use cogni_cash.Transactions.Rows.{joined_ymd}

unfoldable pub to_iso_date : String → String
unfolding has_shape take_text split_char
to_iso_date date_str =
    if not (truthy date_str)
    then ""
    else if has_shape "dddd-dd-dd" date_str
    then take_text 10 date_str
    else if has_shape "dd.dd.dddd" date_str
    then joined_ymd (split_char b'.' "" (take_text 10 date_str))
    else date_str

pub record FilterState : Type 0 where
  pub from : String
  pub to : String
  pub exclude_ids : JsSet
  pub hide_reconciled : Bool

pub record Page : Type 0 where
  pub draft : FilterState
  pub applied : FilterState
  pub selected_category_trend_id : String

-- The days of the fetched rows, in order, and the first and the last of them.
unfoldable pub days : List Transaction → List String
unfolding to_iso_date sort
days all_transactions =
    sort text_compare
      (filter truthy (map (λ (t : Transaction). to_iso_date t.booking_date) all_transactions))

unfoldable pub min_date : List Transaction → String
unfolding days
min_date all_transactions = text_or (first (days all_transactions)) ""

unfoldable pub max_date : List Transaction → String
unfolding days
max_date all_transactions = text_or (last (days all_transactions)) ""

-- `Array.from(s).join(',')`
unfoldable pub join_comma : List String → String
join_comma [] = ""
join_comma (x ∷ []) = x
join_comma (x ∷ y ∷ xs) = String.◌++◌ x (String.◌++◌ "," (join_comma (y ∷ xs)))

unfoldable pub initial_filters : Params → FilterState
unfolding get set_of split_char
initial_filters params =
    let exclude_str = text_or (get params "exclude") "" in
    record {
      from = text_or (get params "from") "";
      to = text_or (get params "to") "";
      exclude_ids = set_of (if truthy exclude_str then split_char b',' "" exclude_str else []);
      hide_reconciled = not (is_text (get params "hide_reconciled") "false");
    }

unfoldable pub initial_page : Params → Page
unfolding initial_filters
initial_page params = record {
  draft = initial_filters params;
  applied = initial_filters params;
  selected_category_trend_id = "";
}

-- The effect that writes the applied filters into the URL.
unfoldable pub url_of : FilterState → Params
unfolding join_comma
url_of applied =
    let a = set_if (truthy applied.from) "from" applied.from [] in
    let b = set_if (truthy applied.to) "to" applied.to a in
    let ids = applied.exclude_ids in
    let c = set_if (ltb 0 (length ids)) "exclude" (join_comma ids) b in
    set_if (not applied.hide_reconciled) "hide_reconciled" "false" c

-- Without a range of its own the page shows the range of the rows.
unfoldable pub effective_applied : List Transaction → FilterState → FilterState
unfolding min_date max_date
effective_applied all_transactions applied =
    let lo = min_date all_transactions in
    let hi = max_date all_transactions in
    if not (truthy applied.from) && not (truthy applied.to) && truthy lo && truthy hi
    then record applied { from = lo; to = hi }
    else applied

abbrev pub texts_eq : List String → List String → Bool
texts_eq [] [] = true
texts_eq (x ∷ xs) (y ∷ ys) = (x == y) && texts_eq xs ys
texts_eq _ _ = false

abbrev pub bool_eq : Bool → Bool → Bool
bool_eq true b = b
bool_eq false b = not b

-- The two are compared as JSON texts, with the excluded ids sorted.
unfoldable pub is_dirty : Page → Bool
unfolding sort
is_dirty p = not (
    (p.draft.from == p.applied.from)
    && (p.draft.to == p.applied.to)
    && texts_eq (sort text_compare p.draft.exclude_ids) (sort text_compare p.applied.exclude_ids)
    && bool_eq p.draft.hide_reconciled p.applied.hide_reconciled)

unfoldable pub toggle_exclude_category : String → Page → Page
unfolding toggle
toggle_exclude_category id p = record p {
  draft = record p.draft { exclude_ids = toggle id p.draft.exclude_ids };
}

unfoldable pub handle_apply : Page → Page
handle_apply p = record p { applied = p.draft }

unfoldable pub handle_clear : List Transaction → Page → Page
unfolding min_date max_date
handle_clear all_transactions p =
    let reset : FilterState = record {
      from = min_date all_transactions;
      to = max_date all_transactions;
      exclude_ids = [];
      hide_reconciled = true;
    } in
    record p { draft = reset; applied = reset }

-- `t.category_id && excludeIds.has(t.category_id)`
abbrev pub is_excluded : JsSet → Option String → Bool
is_excluded ids none = has ids "uncategorized"
is_excluded ids (some c) = if truthy c then has ids c else has ids "uncategorized"

unfoldable pub keeps : FilterState → Transaction → Bool
unfolding has to_iso_date
keeps effective t =
    let day = to_iso_date t.booking_date in
    if effective.hide_reconciled && t.is_reconciled
    then false
    else if is_excluded effective.exclude_ids t.category_id
    then false
    else if truthy effective.from && text_lt day effective.from
    then false
    else if truthy effective.to && text_lt effective.to day
    then false
    else true

unfoldable pub filtered_txns : List Transaction → FilterState → List Transaction
unfolding keeps effective_applied
filtered_txns all_transactions applied =
    filter (keeps (effective_applied all_transactions applied)) all_transactions

abbrev pub is_income : Transaction → Bool
is_income t = lt_ℤ (pos 0) t.amount

-- The two sums of the loop over the rows.
unfoldable pub total_inc : ℤ → List Transaction → ℤ
unfolding ◌+ℤ◌
total_inc t_inc [] = t_inc
total_inc t_inc (t ∷ rows) = total_inc (if is_income t then t_inc +ℤ t.amount else t_inc) rows

unfoldable pub total_exp : ℤ → List Transaction → ℤ
unfolding ◌+ℤ◌ abs
total_exp t_exp [] = t_exp
total_exp t_exp (t ∷ rows) = total_exp (if is_income t then t_exp else t_exp +ℤ abs t.amount) rows

pub record Net : Type 0 where
  pub amount : ℤ
  pub color : String

abbrev pub category_of : List Category → Transaction → Option Category
category_of categories t = find (λ (c : Category). is_text t.category_id c.id) categories

abbrev pub cat_name : List Category → Transaction → String
cat_name categories t = elim (category_of categories t) [
  | none ↦ "analytics.uncategorized"
  | some c ↦ text_or (some c.name) "analytics.uncategorized"
]

abbrev pub cat_color : List Category → Transaction → String
cat_color categories t = elim (category_of categories t) [
  | none ↦ "#94a3b8"
  | some c ↦ text_or (some c.color) "#94a3b8"
]

abbrev pub net_or_new : String → Option Net → Net
net_or_new color none = record { amount = pos 0; color = color }
net_or_new color (some net) = net

abbrev pub with_amount : ℤ → Net → Net
with_amount a net = record net { amount = net.amount +ℤ a }

-- One round of the loop, on `categoryNet`.
unfoldable pub add_to_net : List Category → Transaction → List (String × Net) → List (String × Net)
unfolding get put ◌+ℤ◌
add_to_net categories t category_net =
    let name = cat_name categories t in
    let net = net_or_new (cat_color categories t) (get category_net name) in
    put name (with_amount t.amount net) category_net

unfoldable pub net_from :
    List Category → List (String × Net) → List Transaction → List (String × Net)
unfolding add_to_net
net_from categories category_net [] = category_net
net_from categories category_net (t ∷ rows) =
    net_from categories (add_to_net categories t category_net) rows

pub record Bar : Type 0 where
  pub name : String
  pub value : ℤ
  pub color : String

abbrev pub is_expense : String × Net → Bool
is_expense e = lt_ℤ e.1.amount (pos 0)

abbrev pub bar_of : String × Net → Bar
bar_of e = record { name = e.0; value = abs e.1.amount; color = e.1.color }

abbrev pub bar_order : Bar → Bar → ℤ
bar_order a b = b.value -ℤ a.value

unfoldable pub expense_bar_data : List Category → List Transaction → List Bar
unfolding net_from sort ◌-ℤ◌ abs
expense_bar_data categories filtered =
    sort bar_order (map bar_of (filter is_expense (net_from categories [] filtered)))
