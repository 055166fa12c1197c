-- ===== src/Transactions/Charts/TopHits.antt =====
-- The lists of the largest incomes and expenses.
use cogni_cash.Base.{
  ℕ, zero, suc, ◌≤◌, ◌≡◌, refl, ap, List, [], ◌∷◌, ◌++◌, subst, sym, filter, take, length, arith,
}
use mathlib.Core.List.{Perm}
use cogni_cash.Base.Int.{ℤ}
use cogni_cash.Base.Sort.{sort, sort-perm, sort-IsSorted, IsSorted, IsConsistent}
use cogni_cash.Base.Order.{amount_compare-IsConsistent, amount_descending-IsConsistent}
use cogni_cash.Types.{Transaction}
use cogni_cash.Transactions.Charts.{
  is_credit, is_debit, drop, top_incomes, top_spends, income_order, spend_order,
}

take_append_drop : {A : Type 0} (n : ℕ) (xs : List A) → take n xs ++ drop n xs ≡ xs
unfolding drop
take_append_drop zero xs = refl
take_append_drop (suc n) [] = refl
take_append_drop (suc n) (x ∷ xs) = ap (◌∷◌ x) (take_append_drop n xs)

length-take-le : {A : Type 0} (n : ℕ) (xs : List A) → length (take n xs) ≤ n
length-take-le zero xs = omega arith
length-take-le (suc n) [] = omega arith
length-take-le (suc n) (x ∷ xs) = omega (arith, length-take-le n xs)

-- `shown` is the head of the rows of a list in an order: the rest of them makes a sorted
-- rearrangement of the list together with it.
abbrev pub IsHead :
    (Transaction → Transaction → ℤ) → ℕ → List Transaction → List Transaction → Type 0
IsHead cmp n rows shown =
    (length shown ≤ n)
    × ((rest : List Transaction) × (Perm (shown ++ rest) rows × IsSorted cmp (shown ++ rest)))

take-sort-IsHead :
    (cmp : Transaction → Transaction → ℤ)
    → IsConsistent cmp
    → (n : ℕ) (rows : List Transaction) → IsHead cmp n rows (take n (sort cmp rows))
take-sort-IsHead cmp c n rows =
    let whole = sym (take_append_drop n (sort cmp rows)) in
    (
      length-take-le n (sort cmp rows),
      (
        drop n (sort cmp rows),
        (
          subst (λ xs. Perm xs rows) whole (sort-perm cmp rows),
          subst (IsSorted cmp) whole (sort-IsSorted cmp c rows),
        ),
      ),
    )

incomes-IsConsistent : IsConsistent income_order
incomes-IsConsistent = amount_descending-IsConsistent (λ (t : Transaction). t.amount)

spends-IsConsistent : IsConsistent spend_order
spends-IsConsistent = amount_compare-IsConsistent (λ (t : Transaction). t.amount)

-- The page shows at most n incomes, no income that it leaves out is larger than one it shows, and
-- the same holds of the expenses.
pub top_hits-IsHead :
    (n : ℕ) (rows : List Transaction)
    → IsHead income_order n (filter is_credit rows) (top_incomes n rows)
      × IsHead spend_order n (filter is_debit rows) (top_spends n rows)
unfolding top_incomes top_spends
top_hits-IsHead n rows = (
  take-sort-IsHead income_order incomes-IsConsistent n (filter is_credit rows),
  take-sort-IsHead spend_order spends-IsConsistent n (filter is_debit rows),
)
