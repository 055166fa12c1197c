-- ===== src/Analytics/Figures.antt =====
-- The figures of the analytics page and its bars.
use cogni_cash.Base.{
  String, ◌≡◌, refl, false, Option, none, some, List, [], ◌∷◌, map, if◌then◌else◌, filter, arith,
  Bool-cases, inl, inr,
}
use cogni_cash.Base.Int.{
  ℤ, pos, ◌+ℤ◌, ◌-ℤ◌, ◌≤ℤ◌, abs, lt_ℤ, sum_of, int_laws, parts_of_eq, +ℤ_assoc, zero_add,
}
use cogni_cash.Base.Collections.{get, put}
use cogni_cash.Base.Sums.{sum_of-sort, sum_of-put, share, swap_share}
use cogni_cash.Types.{Transaction, Category}
use cogni_cash.Analytics.{
  Net, Bar, is_income, total_inc, total_exp, cat_name, cat_color, net_or_new, with_amount,
  add_to_net, net_from, is_expense, bar_of, bar_order, expense_bar_data,
}

-- What a row adds to the incomes and to the expenses.
abbrev pub income_of : Transaction → ℤ
income_of t = if is_income t then t.amount else pos 0

abbrev pub expense_of : Transaction → ℤ
expense_of t = if is_income t then pos 0 else abs t.amount

pub total_inc_lem :
    (acc : ℤ) (rows : List Transaction) → total_inc acc rows ≡ acc +ℤ sum_of income_of rows
unfolding total_inc sum_of
total_inc_lem acc [] = omega int_laws
total_inc_lem acc (t ∷ rows) = elim (Bool-cases (is_income t)) [
  | inl e ↦
      rw (e, total_inc_lem (acc +ℤ t.amount) rows, +ℤ_assoc acc t.amount (sum_of income_of rows))
  | inr e ↦ rw (e, total_inc_lem acc rows) (omega int_laws)
]

pub total_exp_lem :
    (acc : ℤ) (rows : List Transaction) → total_exp acc rows ≡ acc +ℤ sum_of expense_of rows
unfolding total_exp sum_of
total_exp_lem acc [] = omega int_laws
total_exp_lem acc (t ∷ rows) = elim (Bool-cases (is_income t)) [
  | inl e ↦ rw (e, total_exp_lem acc rows) (omega int_laws)
  | inr e ↦ rw (
    e,
    total_exp_lem (acc +ℤ abs t.amount) rows,
    +ℤ_assoc acc (abs t.amount) (sum_of expense_of rows),
  )
]

abbrev net_sum : List (String × Net) → ℤ
net_sum = sum_of (λ (e : String × Net). e.1.amount)

net_share :
    (color : String) (o : Option Net) (a : ℤ)
    → (with_amount a (net_or_new color o)).amount ≡ share (λ (n : Net). n.amount) o +ℤ a
net_share color none a = refl
net_share color (some net) a = refl

net_sum-add_to_net :
    (categories : List Category) (t : Transaction) (d : List (String × Net))
    → net_sum (add_to_net categories t d) ≡ net_sum d +ℤ t.amount
unfolding add_to_net
net_sum-add_to_net categories t d =
    let name = cat_name categories t in
    let net = with_amount t.amount (net_or_new (cat_color categories t) (get d name)) in
    swap_share (net_sum (put name net d)) (net_sum d) (share (λ (n : Net). n.amount) (get d name))
      net.amount t.amount (sum_of-put (λ (n : Net). n.amount) name net d)
      (net_share (cat_color categories t) (get d name) t.amount)

net_sum-net_from :
    (categories : List Category) (d : List (String × Net)) (rows : List Transaction)
    → net_sum (net_from categories d rows)
      ≡ net_sum d +ℤ sum_of (λ (t : Transaction). t.amount) rows
unfolding net_from sum_of
net_sum-net_from categories d [] = omega int_laws
net_sum-net_from categories d (t ∷ rows) = rw (
  net_sum-net_from categories (add_to_net categories t d) rows,
  net_sum-add_to_net categories t d,
  +ℤ_assoc (net_sum d) t.amount (sum_of (λ (u : Transaction). u.amount) rows),
)

signed : (a : ℤ) → lt_ℤ (pos 0) a ≡ false → a ≡ pos 0 -ℤ abs a
unfolding ◌-ℤ◌ abs
signed a e = ground arith

amount_parts : (t : Transaction) → t.amount ≡ income_of t -ℤ expense_of t
amount_parts t = elim (Bool-cases (is_income t)) [
  | inl e ↦ rw e (omega int_laws)
  | inr e ↦ rw e (signed t.amount e)
]

sum_of_differences :
    (rows : List Transaction)
    → sum_of (λ (t : Transaction). t.amount) rows ≡ sum_of income_of rows -ℤ sum_of expense_of rows
unfolding sum_of
sum_of_differences [] = omega int_laws
sum_of_differences (t ∷ rows) =
    omega (int_laws, parts_of_eq (sum_of_differences rows), parts_of_eq (amount_parts t))

from_nothing : (a : ℤ) → net_sum [] +ℤ a ≡ a
unfolding sum_of
from_nothing a = omega int_laws

-- The nets of the categories add up to the incomes less the expenses.
pub net_sum_lem :
    (categories : List Category) (rows : List Transaction)
    → net_sum (net_from categories [] rows) ≡ total_inc (pos 0) rows -ℤ total_exp (pos 0) rows
net_sum_lem categories rows =
    rw
      (
        net_sum-net_from categories [] rows,
        total_inc_lem (pos 0) rows,
        total_exp_lem (pos 0) rows,
        zero_add (sum_of income_of rows),
        zero_add (sum_of expense_of rows),
        sum_of_differences rows,
      )
      (from_nothing (sum_of income_of rows -ℤ sum_of expense_of rows))

abbrev bars_sum : List Bar → ℤ
bars_sum = sum_of (λ (b : Bar). b.value)

bars_cover :
    (d : List (String × Net)) → pos 0 ≤ℤ bars_sum (map bar_of (filter is_expense d)) +ℤ net_sum d
unfolding sum_of
bars_cover [] = omega int_laws
bars_cover (e ∷ d) = elim (Bool-cases (is_expense e)) [
  | inl h ↦
      rw h
        (cover e.1.amount (bars_sum (map bar_of (filter is_expense d))) (net_sum d) (bars_cover d))
  | inr h ↦
      rw h
        (more e.1.amount (bars_sum (map bar_of (filter is_expense d))) (net_sum d) h (bars_cover d))
]
  where
    cover : (a b n : ℤ) → pos 0 ≤ℤ b +ℤ n → pos 0 ≤ℤ (abs a +ℤ b) +ℤ (a +ℤ n)
    cover a b n h = omega int_laws

    more : (a b n : ℤ) → lt_ℤ a (pos 0) ≡ false → pos 0 ≤ℤ b +ℤ n → pos 0 ≤ℤ b +ℤ (a +ℤ n)
    more a b n e h = let nonneg : pos 0 ≤ℤ a = ground arith in omega int_laws

-- The bars are together at least the expenses less the incomes.
pub bars_sum-expense_bar_data :
    (categories : List Category) (rows : List Transaction)
    → total_exp (pos 0) rows -ℤ total_inc (pos 0) rows
      ≤ℤ sum_of (λ (b : Bar). b.value) (expense_bar_data categories rows)
unfolding expense_bar_data
bars_sum-expense_bar_data categories rows =
    let nets = net_from categories [] rows in
    let bars = map bar_of (filter is_expense nets) in
    rw (sum_of-sort (λ (b : Bar). b.value) bar_order bars) (
      at_least_deficit (bars_sum bars) (net_sum nets) (total_inc (pos 0) rows)
        (total_exp (pos 0) rows) (bars_cover nets) (net_sum_lem categories rows))
  where
    at_least_deficit : (b n i e : ℤ) → pos 0 ≤ℤ b +ℤ n → n ≡ i -ℤ e → e -ℤ i ≤ℤ b
    at_least_deficit b n i e h q = omega (int_laws, parts_of_eq q)
