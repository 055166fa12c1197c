-- ===== src/Transactions/Charts/Totals.antt =====
-- The charts and the figures above them agree.
use cogni_cash.Base.{
  ℕ, ◌-◌, ◌≤◌, String, ◌≡◌, refl, Option, none, some, List, [], ◌∷◌, sym, suc, ap, zero, take,
  if◌then◌else◌, filter, length, subst, take_text, arith, Bool-cases, Option-cases, inl, inr,
}
use cogni_cash.Base.Int.{
  ℤ, pos, neg, ◌+ℤ◌, abs, le_ℤ, sum_of, sum_from-eq-sum_of, int_laws, +ℤ_assoc, zero_add,
}
use cogni_cash.Base.Collections.{get, put}
use cogni_cash.Base.Sums.{
  sum_of-sort, sum_of-put, share, swap_share, sum_of-filter, sum_of-cong, neg-sum_of, length-sort,
}
use cogni_cash.Base.Sort.{sort}
use cogni_cash.Types.{Transaction, Category}
use cogni_cash.Transactions.Charts.{
  Flow, Months, is_credit, is_debit, total_credit, total_debit, add_to_month, add_to_category,
  monthly_from, categories_from, month_order, category_order, with_row, flow_or_new, amount_or_zero,
  category_name, chart_months, chart_categories, drop, take_last,
}

abbrev incomes : Months → ℤ
incomes = sum_of (λ (e : String × Flow). e.1.inc)

abbrev expenses : Months → ℤ
expenses = sum_of (λ (e : String × Flow). e.1.exp)

-- What a row adds to the incomes and to the expenses.
abbrev income_of : Transaction → ℤ
income_of t = if le_ℤ (pos 0) t.amount then t.amount else pos 0

abbrev expense_of : Transaction → ℤ
expense_of t = if le_ℤ (pos 0) t.amount then pos 0 else abs t.amount

with_row-inc :
    (t : Transaction) (o : Option Flow)
    → (with_row t (flow_or_new o)).inc ≡ share (λ (flow : Flow). flow.inc) o +ℤ income_of t
unfolding ◌+ℤ◌
with_row-inc t o = elim (Bool-cases (le_ℤ (pos 0) t.amount)) [
  | inl c ↦ elim (Option-cases o) [ inl e ↦ rw (e, c) refl | inr (flow, e) ↦ rw (e, c) refl ]
  | inr c ↦ elim (Option-cases o) [
    | inl e ↦ rw (e, c) refl
    | inr (flow, e) ↦ rw (e, c) (omega int_laws)
  ]
]

with_row-exp :
    (t : Transaction) (o : Option Flow)
    → (with_row t (flow_or_new o)).exp ≡ share (λ (flow : Flow). flow.exp) o +ℤ expense_of t
unfolding ◌+ℤ◌
with_row-exp t o = elim (Bool-cases (le_ℤ (pos 0) t.amount)) [
  | inl c ↦ elim (Option-cases o) [
    | inl e ↦ rw (e, c) refl
    | inr (flow, e) ↦ rw (e, c) (omega int_laws)
  ]
  | inr c ↦ elim (Option-cases o) [
    | inl e ↦ rw (e, c) (omega int_laws)
    | inr (flow, e) ↦ rw (e, c) refl
  ]
]

module _ (t : Transaction) (monthly : Months) where
  incomes-add_to_month : incomes (add_to_month t monthly) ≡ incomes monthly +ℤ income_of t
  unfolding add_to_month
  incomes-add_to_month =
      let period = take_text 7 t.booking_date in
      let flow = flow_or_new (get monthly period) in
      swap_share (incomes (add_to_month t monthly)) (incomes monthly)
        (share (λ (flow : Flow). flow.inc) (get monthly period)) (with_row t flow).inc (income_of t)
        (sum_of-put (λ (flow : Flow). flow.inc) period (with_row t flow) monthly)
        (with_row-inc t (get monthly period))

  expenses-add_to_month : expenses (add_to_month t monthly) ≡ expenses monthly +ℤ expense_of t
  unfolding add_to_month
  expenses-add_to_month =
      let period = take_text 7 t.booking_date in
      let flow = flow_or_new (get monthly period) in
      swap_share (expenses (add_to_month t monthly)) (expenses monthly)
        (share (λ (flow : Flow). flow.exp) (get monthly period)) (with_row t flow).exp
        (expense_of t) (sum_of-put (λ (flow : Flow). flow.exp) period (with_row t flow) monthly)
        (with_row-exp t (get monthly period))

abbrev spent : List (String × ℤ) → ℤ
spent = sum_of (λ (e : String × ℤ). e.1)

amount_or_zero-share : (o : Option ℤ) (a : ℤ) → amount_or_zero o +ℤ a ≡ share (λ (x : ℤ). x) o +ℤ a
amount_or_zero-share none a = refl
amount_or_zero-share (some b) a = refl

spent-add_to_category :
    (categories : List Category) (t : Transaction) (cats : List (String × ℤ))
    → spent (add_to_category categories t cats) ≡ spent cats +ℤ expense_of t
unfolding add_to_category
spent-add_to_category categories t cats = elim (Bool-cases (le_ℤ (pos 0) t.amount)) [
  | inl e ↦ rw e (omega int_laws)
  | inr e ↦
      let c = category_name categories t in
      let a = amount_or_zero (get cats c) +ℤ abs t.amount in
      rw e (
        swap_share (spent (put c a cats)) (spent cats) (share (λ (x : ℤ). x) (get cats c)) a
          (abs t.amount) (sum_of-put (λ (x : ℤ). x) c a cats)
          (amount_or_zero-share (get cats c) (abs t.amount)))
]

-- The loops over all rows.
incomes-monthly_from :
    (monthly : Months) (rows : List Transaction)
    → incomes (monthly_from monthly rows) ≡ incomes monthly +ℤ sum_of income_of rows
unfolding monthly_from sum_of
incomes-monthly_from monthly [] = omega int_laws
incomes-monthly_from monthly (t ∷ rows) = rw (
  incomes-monthly_from (add_to_month t monthly) rows,
  incomes-add_to_month t monthly,
  +ℤ_assoc (incomes monthly) (income_of t) (sum_of income_of rows),
)

expenses-monthly_from :
    (monthly : Months) (rows : List Transaction)
    → expenses (monthly_from monthly rows) ≡ expenses monthly +ℤ sum_of expense_of rows
unfolding monthly_from sum_of
expenses-monthly_from monthly [] = omega int_laws
expenses-monthly_from monthly (t ∷ rows) = rw (
  expenses-monthly_from (add_to_month t monthly) rows,
  expenses-add_to_month t monthly,
  +ℤ_assoc (expenses monthly) (expense_of t) (sum_of expense_of rows),
)

spent-categories_from :
    (categories : List Category) (cats : List (String × ℤ)) (rows : List Transaction)
    → spent (categories_from categories cats rows) ≡ spent cats +ℤ sum_of expense_of rows
unfolding categories_from sum_of
spent-categories_from categories cats [] = omega int_laws
spent-categories_from categories cats (t ∷ rows) = rw (
  spent-categories_from categories (add_to_category categories t cats) rows,
  spent-add_to_category categories t cats,
  +ℤ_assoc (spent cats) (expense_of t) (sum_of expense_of rows),
)

-- The figures above the charts.
credit_or_zero : (t : Transaction) → (if is_credit t then t.amount else pos 0) ≡ income_of t
credit_or_zero t = ground arith

debit_or_zero : (t : Transaction) → neg (if is_debit t then t.amount else pos 0) ≡ expense_of t
unfolding neg abs
debit_or_zero t = ground arith

total_credit_lem : (rows : List Transaction) → total_credit rows ≡ sum_of income_of rows
unfolding total_credit
total_credit_lem rows =
    rw
      (
        sum_from-eq-sum_of (λ (t : Transaction). t.amount) (pos 0) (filter is_credit rows),
        sum_of-filter (λ (t : Transaction). t.amount) is_credit rows,
        sum_of-cong (λ (t : Transaction). if is_credit t then t.amount else pos 0) income_of
            credit_or_zero rows,
      )
      (omega int_laws)

total_debit_lem : (rows : List Transaction) → neg (total_debit rows) ≡ sum_of expense_of rows
unfolding total_debit
total_debit_lem rows =
    rw
      (
        sum_from-eq-sum_of (λ (t : Transaction). t.amount) (pos 0) (filter is_debit rows),
        sum_of-filter (λ (t : Transaction). t.amount) is_debit rows,
        zero_add (sum_of (λ (t : Transaction). if is_debit t then t.amount else pos 0) rows),
        neg-sum_of (λ (t : Transaction). if is_debit t then t.amount else pos 0) rows,
      )
      (sum_of-cong (λ (t : Transaction). neg (if is_debit t then t.amount else pos 0)) expense_of
        debit_or_zero rows)

drop-none : {A : Type 0} (n : ℕ) (xs : List A) → length xs ≤ n → take_last n xs ≡ xs
unfolding drop
drop-none n xs h =
    let none_dropped : length xs - n ≡ 0 = omega arith in
    subst (λ k. drop k xs ≡ xs) (sym none_dropped) refl

chart_months-all :
    (rows : List Transaction)
    → length (monthly_from [] rows) ≤ 12
    → chart_months rows ≡ sort month_order (monthly_from [] rows)
unfolding chart_months
chart_months-all rows h =
    drop-none 12 (sort month_order (monthly_from [] rows))
      (rw (length-sort month_order (monthly_from [] rows)) h)

-- With at most twelve months on the chart, its incomes add up to the credit figure and its
-- expenses to the debit figure without its sign.
pub chart_months-sums :
    (rows : List Transaction)
    → length (monthly_from [] rows) ≤ 12
    → (sum_of (λ (e : String × Flow). e.1.inc) (chart_months rows) ≡ total_credit rows)
      × (sum_of (λ (e : String × Flow). e.1.exp) (chart_months rows) ≡ neg (total_debit rows))
unfolding sum_of
chart_months-sums rows h =
    rw
      (
        chart_months-all rows h,
        sum_of-sort (λ (e : String × Flow). e.1.inc) month_order (monthly_from [] rows),
        sum_of-sort (λ (e : String × Flow). e.1.exp) month_order (monthly_from [] rows),
        incomes-monthly_from [] rows,
        expenses-monthly_from [] rows,
        total_credit_lem rows,
        total_debit_lem rows,
      )
      (zero_add (sum_of income_of rows), zero_add (sum_of expense_of rows))

take_all : {A : Type 0} (n : ℕ) (xs : List A) → length xs ≤ n → take n xs ≡ xs
take_all zero [] h = refl
take_all (suc n) [] h = refl
take_all zero (x ∷ xs) h = ground arith
take_all (suc n) (x ∷ xs) h = ap (◌∷◌ x) (take_all n xs (omega arith))

-- With at most six categories on the chart, they add up to the debit figure without its sign.
pub chart_categories-sum :
    (categories : List Category) (rows : List Transaction)
    → length (categories_from categories [] rows) ≤ 6
    → sum_of (λ (e : String × ℤ). e.1) (chart_categories categories rows) ≡ neg (total_debit rows)
unfolding chart_categories sum_of
chart_categories-sum categories rows h =
    let cats = categories_from categories [] rows in
    rw
      (
        take_all 6 (sort category_order cats) (rw (length-sort category_order cats) h),
        sum_of-sort (λ (e : String × ℤ). e.1) category_order cats,
        spent-categories_from categories [] rows,
        total_debit_lem rows,
      )
      (zero_add (sum_of expense_of rows))
