-- ===== src/Analytics/Bars.antt =====
-- The bars of the analytics page, category by category.
use cogni_cash.Base.{
  ◌≤◌, String, ◌==◌, ◌≡◌, refl, ap, ◌∙◌, Bool, true, Option, none, some, List, [], ◌∷◌, map,
  if◌then◌else◌, filter, length, arith, Bool-cases, inl, inr, eq_iff,
}
use cogni_cash.Base.Int.{
  ℤ, pos, ◌+ℤ◌, ◌-ℤ◌, ◌≤ℤ◌, abs, le_ℤ, lt_ℤ, sum_of, int_laws, +ℤ_assoc, zero_add,
}
use cogni_cash.Base.Collections.{get, get-put, names, put-Distinct, entry, filter-names, Distinct}
use cogni_cash.Base.Sums.{share}
use cogni_cash.Base.Sort.{sort, sort-IsSorted, Pairwise, IsSorted-Pairwise, filter-sort-alone}
use cogni_cash.Base.Order.{amount_descending-IsConsistent}
use cogni_cash.Types.{Transaction, Category}
use cogni_cash.Analytics.{
  Net, Bar, total_inc, total_exp, cat_name, cat_color, net_or_new, with_amount, add_to_net,
  net_from, is_expense, bar_of, bar_order, expense_bar_data,
}
use cogni_cash.Analytics.Figures.{bars_sum-expense_bar_data}

abbrev amount_of : Net → ℤ
amount_of n = n.amount

-- The amounts of the rows of a category.
abbrev pub net_of : List Category → String → List Transaction → ℤ
net_of categories name rows =
    sum_of (λ (t : Transaction). t.amount)
      (filter (λ (t : Transaction). cat_name categories t == name) rows)

-- The values of the bars with a name.
abbrev pub values : String → List Bar → List ℤ
values name bars = map (λ (b : Bar). b.value) (filter (λ (b : Bar). b.name == name) bars)

abbrev pub falls : Bar → Bar → Bool
falls a b = le_ℤ b.value a.value

net_from-Distinct :
    (categories : List Category) (d : List (String × Net)) (rows : List Transaction)
    → Distinct (names d)
    → Distinct (names (net_from categories d rows))
unfolding net_from add_to_net
net_from-Distinct categories d [] h = h
net_from-Distinct categories d (t ∷ rows) h =
    net_from-Distinct categories (add_to_net categories t d) rows (put-Distinct _ _ d h)

amount-with_amount :
    (color : String) (o : Option Net) (a : ℤ)
    → (with_amount a (net_or_new color o)).amount ≡ share amount_of o +ℤ a
amount-with_amount color none a = refl
amount-with_amount color (some net) a = refl

module _ (categories : List Category) (name : String) where
  share-add_to_net :
      (t : Transaction) (d : List (String × Net))
      → share amount_of (get (add_to_net categories t d) name) ≡ (
          if cat_name categories t == name
          then share amount_of (get d name) +ℤ t.amount
          else share amount_of (get d name))
  unfolding add_to_net
  share-add_to_net t d =
      let net =
        with_amount t.amount
          (net_or_new (cat_color categories t) (get d (cat_name categories t))) in
      elim (Bool-cases (cat_name categories t == name)) [
        | inl e ↦
            rw (get-put (cat_name categories t) net d name, e, (eq_iff _ _).0 e)
              (amount-with_amount (cat_color categories t) (get d name) t.amount)
        | inr e ↦ rw (get-put (cat_name categories t) net d name, e) refl
      ]

  share-net_from :
      (d : List (String × Net)) (rows : List Transaction)
      → share amount_of (get (net_from categories d rows) name)
        ≡ share amount_of (get d name) +ℤ net_of categories name rows
  unfolding net_from sum_of
  share-net_from d [] = omega int_laws
  share-net_from d (t ∷ rows) = elim (Bool-cases (cat_name categories t == name)) [
    | inl e ↦ rw (
      share-net_from (add_to_net categories t d) rows,
      share-add_to_net t d,
      e,
      +ℤ_assoc (share amount_of (get d name)) t.amount (net_of categories name rows),
    )
    | inr e ↦ rw (share-net_from (add_to_net categories t d) rows, share-add_to_net t d, e) refl
  ]

-- The bars of a name come from the entries of that name.
bars_of_name :
    (name : String) (d : List (String × Net))
    → filter (λ (b : Bar). b.name == name) (map bar_of (filter is_expense d))
      ≡ map bar_of (filter is_expense (filter (λ (e : String × Net). e.0 == name) d))
bars_of_name name [] = refl
bars_of_name name (e ∷ d) = elim (Bool-cases (is_expense e)) [
  | inl h ↦ elim (Bool-cases (e.0 == name)) [
    | inl k ↦ rw (h, k, bars_of_name name d) (rw h refl)
    | inr k ↦ rw (h, k, bars_of_name name d) refl
  ]
  | inr h ↦ elim (Bool-cases (e.0 == name)) [
    | inl k ↦ rw (h, k, bars_of_name name d) (rw h refl)
    | inr k ↦ rw (h, k, bars_of_name name d) refl
  ]
]

-- One entry at most makes one bar at most, by its amount.
bars_of_entry :
    (name : String) (o : Option Net)
    → (length (map bar_of (filter is_expense (entry name o))) ≤ 1)
      × (map (λ (b : Bar). b.value) (map bar_of (filter is_expense (entry name o)))
          ≡ (if lt_ℤ (share amount_of o) (pos 0) then abs (share amount_of o) ∷ [] else []))
bars_of_entry name none = (omega arith, refl)
bars_of_entry name (some net) = elim (Bool-cases (lt_ℤ net.amount (pos 0))) [
  | inl e ↦ rw e (omega arith, refl)
  | inr e ↦ rw e (omega arith, refl)
]

bar_order-falls : (a b : Bar) → bar_order a b ≤ℤ pos 0 → falls a b ≡ true
unfolding ◌-ℤ◌
bar_order-falls a b h = ground arith

bars_of_net_from :
    (categories : List Category) (rows : List Transaction) (name : String)
    → filter
        (λ (b : Bar). b.name == name)
        (map bar_of (filter is_expense (net_from categories [] rows)))
      ≡ map bar_of (filter is_expense (entry name (get (net_from categories [] rows) name)))
bars_of_net_from categories rows name =
    let nets = net_from categories [] rows in
    bars_of_name name nets
    ∙ ap (λ d. map bar_of (filter is_expense d))
        (filter-names nets name (net_from-Distinct categories [] rows tt))

values_lem :
    (categories : List Category) (rows : List Transaction) (name : String)
    → values name (expense_bar_data categories rows) ≡ (
        if lt_ℤ (net_of categories name rows) (pos 0)
        then abs (net_of categories name rows) ∷ []
        else [])
unfolding expense_bar_data
values_lem categories rows name =
    let nets = net_from categories [] rows in
    let total : share amount_of (get nets name) ≡ net_of categories name rows =
      share-net_from categories name [] rows ∙ from_none (net_of categories name rows) in
    let here = bars_of_net_from categories rows name in
    let parts = bars_of_entry name (get nets name) in
    rw
      (
        filter-sort-alone bar_order (λ (b : Bar). b.name == name)
            (map bar_of (filter is_expense nets)) (rw here parts.0),
        here,
        parts.1,
        total,
      )
      refl
  where
    from_none : (a : ℤ) → share amount_of (get {V = Net} [] name) +ℤ a ≡ a
    from_none a = unfold get in zero_add a

expense_bar_data-falls :
    (categories : List Category) (rows : List Transaction)
    → Pairwise falls (expense_bar_data categories rows)
unfolding expense_bar_data
expense_bar_data-falls categories rows =
    let bars = map bar_of (filter is_expense (net_from categories [] rows)) in
    IsSorted-Pairwise bar_order falls bar_order-falls (sort bar_order bars)
      (sort-IsSorted bar_order (amount_descending-IsConsistent (λ (b : Bar). b.value)) bars)

-- A category has exactly one bar if the amounts of its rows add up to less than zero, with that
-- sum without its sign, and else none; the bars fall, and together they are at least the total
-- expenses less the total income.
pub expense_bar_data_lem :
    (categories : List Category) (rows : List Transaction) (name : String)
    → let bars = expense_bar_data categories rows in
      let net = net_of categories name rows in
      (values name bars ≡ (if lt_ℤ net (pos 0) then abs net ∷ [] else []))
      × Pairwise falls bars
      × (total_exp (pos 0) rows -ℤ total_inc (pos 0) rows ≤ℤ sum_of (λ (b : Bar). b.value) bars)
expense_bar_data_lem categories rows name = (
  values_lem categories rows name,
  expense_bar_data-falls categories rows,
  bars_sum-expense_bar_data categories rows,
)
