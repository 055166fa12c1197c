-- ===== src/Payslips/Years.antt =====
-- The amounts by year on the chart of payslips.
use cogni_cash.Base.{ℕ, String, ◌≡◌, refl, Option, none, some, List, [], ◌∷◌, map}
use cogni_cash.Base.Int.{ℤ, ◌+ℤ◌, sum_of, int_laws, +ℤ_assoc, zero_add}
use cogni_cash.Base.Collections.{JsSet, get, put}
use cogni_cash.Base.Sort.{sort, IsSorted, sort-IsSorted}
use cogni_cash.Base.Order.{amount_compare-IsConsistent}
use cogni_cash.Base.Sums.{sum_of-sort, sum_of-put, sum_of-map, share, swap_share}
use cogni_cash.Types.{Payslip}
use cogni_cash.Payslips.Chart.{
  YearTotal, total_or_new, with_pay, year_order, add_to_year, years_from, by_year, yearly_data,
  counted,
}

pub data Column : Type 0 where
  gross_column net_column payout_column : Column

abbrev pub in_year : Column → YearTotal → ℤ
in_year gross_column total = total.gross
in_year net_column total = total.net
in_year payout_column total = total.payout

abbrev pub in_payslip : Column → Payslip → ℤ
in_payslip gross_column p = p.gross_pay
in_payslip net_column p = p.net_pay
in_payslip payout_column p = p.payout_amount

abbrev in_years : Column → List (String × YearTotal) → ℤ
in_years c = sum_of (λ (e : String × YearTotal). in_year c e.1)

in_year-with_pay :
    (c : Column) (p : Payslip) (year : String) (o : Option YearTotal)
    → in_year c (with_pay p (total_or_new year o)) ≡ share (in_year c) o +ℤ in_payslip c p
in_year-with_pay gross_column p year none = refl
in_year-with_pay gross_column p year (some total) = refl
in_year-with_pay net_column p year none = refl
in_year-with_pay net_column p year (some total) = refl
in_year-with_pay payout_column p year none = refl
in_year-with_pay payout_column p year (some total) = refl

module _ (to_text : ℕ → String) (number : String → ℤ) (c : Column) where
  in_years-add_to_year :
      (p : Payslip) (d : List (String × YearTotal))
      → in_years c (add_to_year to_text number p d) ≡ in_years c d +ℤ in_payslip c p
  unfolding add_to_year
  in_years-add_to_year p d =
      let year = to_text p.period_year in
      let total = with_pay p (total_or_new year (get d year)) in
      swap_share (in_years c (put year total d)) (in_years c d) (share (in_year c) (get d year))
        (in_year c total) (in_payslip c p) (sum_of-put (in_year c) year total d)
        (in_year-with_pay c p year (get d year))

  in_years-years_from :
      (d : List (String × YearTotal)) (ps : List Payslip)
      → in_years c (years_from to_text number d ps) ≡ in_years c d +ℤ sum_of (in_payslip c) ps
  unfolding years_from sum_of
  in_years-years_from d [] = omega int_laws
  in_years-years_from d (p ∷ ps) = rw (
    in_years-years_from (add_to_year to_text number p d) ps,
    in_years-add_to_year p d,
    +ℤ_assoc (in_years c d) (in_payslip c p) (sum_of (in_payslip c) ps),
  )

  -- In each column the years of the chart of payslips add up to the payslips that are not ignored,
  -- and the years stand in the order of their numbers.
  pub yearly_data-sums :
      (ignored : JsSet) (ps : List Payslip)
      → (sum_of (in_year c) (yearly_data to_text number ignored ps)
          ≡ sum_of (in_payslip c) (counted ignored ps))
        × IsSorted (by_year to_text number) (yearly_data to_text number ignored ps)
  unfolding yearly_data sum_of
  yearly_data-sums ignored ps =
      let listed = sort year_order (counted ignored ps) in
      let totals = map (λ (e : String × YearTotal). e.1) (years_from to_text number [] listed) in
      (
        rw
            (
              sum_of-sort (in_year c) (by_year to_text number) totals,
              sum_of-map (in_year c) (λ (e : String × YearTotal). e.1)
                  (years_from to_text number [] listed),
              in_years-years_from [] listed,
              sum_of-sort (in_payslip c) year_order (counted ignored ps),
            )
            (zero_add (sum_of (in_payslip c) (counted ignored ps))),
        sort-IsSorted (by_year to_text number)
            (amount_compare-IsConsistent (λ (a : YearTotal). number a.year)) totals,
      )
