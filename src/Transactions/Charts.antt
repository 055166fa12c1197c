-- ===== src/Transactions/Charts.antt =====
-- The figures and charts above the table (`totalCredit`, `totalDebit`, `chartData`, `topIncomes`,
-- `topSpends` of frontend/src/pages/TransactionsPage.tsx).
pub mod Totals
pub mod TopHits
use Prim.Native.String
use cogni_cash.Base.{
  ℕ, zero, suc, ◌-◌, String, ◌==◌, Bool, true, false, Option, none, some, List, [], ◌∷◌,
  if◌then◌else◌, is_text, take_text, filter, find, take, length,
}
use cogni_cash.Base.Int.{ℤ, pos, ◌+ℤ◌, ◌-ℤ◌, abs, le_ℤ, lt_ℤ, sum_from}
use cogni_cash.Base.Collections.{get, put}
use cogni_cash.Base.Sort.{sort}
use cogni_cash.Base.Order.{text_compare}
use cogni_cash.Types.{Transaction, Category}

abbrev pub is_credit : Transaction → Bool
is_credit t = lt_ℤ (pos 0) t.amount

abbrev pub is_debit : Transaction → Bool
is_debit t = lt_ℤ t.amount (pos 0)

unfoldable pub total_credit : List Transaction → ℤ
unfolding sum_from
total_credit filtered = sum_from (λ t. t.amount) (pos 0) (filter is_credit filtered)

unfoldable pub total_debit : List Transaction → ℤ
unfolding sum_from
total_debit filtered = sum_from (λ t. t.amount) (pos 0) (filter is_debit filtered)

pub record Flow : Type 0 where
  pub inc : ℤ
  pub exp : ℤ

abbrev pub Months : Type 0
Months = List (String × Flow)

abbrev pub flow_or_new : Option Flow → Flow
flow_or_new none = record { inc = pos 0; exp = pos 0 }
flow_or_new (some flow) = flow

-- The row added to the incomes or, without its sign, to the expenses of a month.
abbrev pub with_row : Transaction → Flow → Flow
with_row t flow =
    if le_ℤ (pos 0) t.amount
    then record flow { inc = flow.inc +ℤ t.amount }
    else record flow { exp = flow.exp +ℤ abs t.amount }

-- One round of the loop, on `monthly`.
unfoldable pub add_to_month : Transaction → Months → Months
unfolding take_text get put ◌+ℤ◌ abs
add_to_month t monthly =
    let period = take_text 7 t.booking_date in
    put period (with_row t (flow_or_new (get monthly period))) monthly

abbrev pub category_name : List Category → Transaction → String
category_name categories t = elim (find (λ c. is_text t.category_id c.id) categories) [
  | none ↦ "Uncategorized"
  | some c ↦ c.name
]

abbrev pub amount_or_zero : Option ℤ → ℤ
amount_or_zero none = pos 0
amount_or_zero (some a) = a

-- One round of the loop, on `cats`.
unfoldable pub add_to_category : List Category → Transaction → List (String × ℤ) → List (String × ℤ)
unfolding get put ◌+ℤ◌ abs
add_to_category categories t cats =
    let c = category_name categories t in
    if le_ℤ (pos 0) t.amount then cats else put c (amount_or_zero (get cats c) +ℤ abs t.amount) cats

unfoldable pub monthly_from : Months → List Transaction → Months
monthly_from monthly [] = monthly
monthly_from monthly (t ∷ rows) = monthly_from (add_to_month t monthly) rows

unfoldable pub categories_from :
    List Category → List (String × ℤ) → List Transaction → List (String × ℤ)
categories_from categories cats [] = cats
categories_from categories cats (t ∷ rows) =
    categories_from categories (add_to_category categories t cats) rows

-- An entry as the default comparator of `sort()` sees it.
abbrev pub entry_text : String × Flow → String
entry_text e = String.◌++◌ e.0 ",[object Object]"

abbrev pub month_order : String × Flow → String × Flow → ℤ
month_order a b = text_compare (entry_text a) (entry_text b)

abbrev pub category_order : String × ℤ → String × ℤ → ℤ
category_order a b = b.1 -ℤ a.1

unfoldable pub drop : {A : Type 0} → ℕ → List A → List A
drop zero xs = xs
drop (suc n) [] = []
drop (suc n) (x ∷ xs) = drop n xs

-- `xs.slice(-n)`
abbrev take_last : {A : Type 0} → ℕ → List A → List A
take_last n xs = drop (length xs - n) xs

unfoldable pub chart_months : List Transaction → Months
unfolding monthly_from add_to_month drop sort
chart_months filtered = take_last 12 (sort month_order (monthly_from [] filtered))

unfoldable pub chart_categories : List Category → List Transaction → List (String × ℤ)
unfolding categories_from add_to_category sort ◌-ℤ◌
chart_categories categories filtered =
    take 6 (sort category_order (categories_from categories [] filtered))

-- The largest amount first, and the smallest amount first.
abbrev pub income_order : Transaction → Transaction → ℤ
income_order a b = b.amount -ℤ a.amount

abbrev pub spend_order : Transaction → Transaction → ℤ
spend_order a b = a.amount -ℤ b.amount

unfoldable pub top_incomes : ℕ → List Transaction → List Transaction
unfolding sort ◌-ℤ◌
top_incomes n filtered = take n (sort income_order (filter is_credit filtered))

unfoldable pub top_spends : ℕ → List Transaction → List Transaction
unfolding sort ◌-ℤ◌
top_spends n filtered = take n (sort spend_order (filter is_debit filtered))
