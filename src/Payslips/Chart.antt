-- ===== src/Payslips/Chart.antt =====
-- frontend/src/components/payslips/PayslipChart.tsx: the growth against the first payslip and the
-- amounts by year.
use cogni_cash.Base.{
  ℕ, String, Bool, true, not, Option, none, some, List, [], ◌∷◌, map, filter, if◌then◌else◌,
}
use cogni_cash.Base.Int.{ℤ, pos, ◌+ℤ◌, ◌-ℤ◌, lt_ℤ}
use cogni_cash.Base.Collections.{JsSet, has, get, put}
use cogni_cash.Base.Sort.{sort}
use cogni_cash.Base.Order.{or_else}
use cogni_cash.Types.{Payslip, Bonus}
use cogni_cash.Payslips.{get_adjusted_netto, format_year_month, bonuses_of}

pub record ChartPoint : Type 0 where
  pub period : String
  pub gross_growth : ℤ
  pub adj_growth : ℤ
  pub total_growth : ℤ
  pub payout_growth : ℤ
  pub gross_eur : ℤ
  pub adj_eur : ℤ
  pub total_eur : ℤ
  pub payout_eur : ℤ
  pub bonuses_this_month : List Bonus

unfoldable pub counted : JsSet → List Payslip → List Payslip
counted ignored = filter (λ (p : Payslip). not (has ignored p.id))

abbrev pub period_order : Payslip → Payslip → ℤ
period_order a b =
    or_else (pos a.period_year -ℤ pos b.period_year)
      (pos a.period_month_num -ℤ pos b.period_month_num)

-- The percentage on doubles, rounded to a tenth and counted in tenths, is the JavaScript engine's, as
-- are `String(n)` and the product of an adjusted net pay.
module _ (percent : ℤ → ℤ → ℤ) (to_text : ℕ → String) (scale : ℤ → ℤ → ℤ → ℤ) where
  -- The growth against a baseline that is positive.
  abbrev pub growth : ℤ → ℤ → ℤ
  growth baseline value = if lt_ℤ (pos 0) baseline then percent value baseline else pos 0

  unfoldable pub chart_point : JsSet → Bool → Payslip → Payslip → ChartPoint
  unfolding format_year_month get_adjusted_netto
  chart_point excluded use_proportional baseline p =
      let adjusted = λ (q : Payslip). get_adjusted_netto scale q excluded true use_proportional in
      record {
        period = format_year_month to_text p.period_year p.period_month_num;
        gross_growth = growth baseline.gross_pay p.gross_pay;
        adj_growth = growth (adjusted baseline) (adjusted p);
        total_growth = growth baseline.net_pay p.net_pay;
        payout_growth = growth baseline.payout_amount p.payout_amount;
        gross_eur = p.gross_pay;
        adj_eur = adjusted p;
        total_eur = p.net_pay;
        payout_eur = p.payout_amount;
        bonuses_this_month = bonuses_of p;
      }

  abbrev points : JsSet → Bool → List Payslip → List ChartPoint
  points excluded use_proportional [] = []
  points excluded use_proportional (baseline ∷ ps) =
      map (chart_point excluded use_proportional baseline) (baseline ∷ ps)

  unfoldable pub chart_data : JsSet → Bool → JsSet → List Payslip → List ChartPoint
  unfolding counted sort chart_point
  chart_data excluded use_proportional ignored ps =
      points excluded use_proportional (sort period_order (counted ignored ps))

pub record YearTotal : Type 0 where
  pub year : String
  pub gross : ℤ
  pub net : ℤ
  pub payout : ℤ

abbrev pub total_or_new : String → Option YearTotal → YearTotal
total_or_new year none = record { year = year; gross = pos 0; net = pos 0; payout = pos 0 }
total_or_new year (some total) = total

abbrev pub with_pay : Payslip → YearTotal → YearTotal
with_pay p total = record total {
  gross = total.gross +ℤ p.gross_pay;
  net = total.net +ℤ p.net_pay;
  payout = total.payout +ℤ p.payout_amount;
}

abbrev pub year_order : Payslip → Payslip → ℤ
year_order a b = pos a.period_year -ℤ pos b.period_year

-- `String(n)` and `Number(s)` are the JavaScript engine's.
module _ (to_text : ℕ → String) (number : String → ℤ) where
  -- One round of the loop, on `years`.
  unfoldable pub add_to_year : Payslip → List (String × YearTotal) → List (String × YearTotal)
  unfolding get put ◌+ℤ◌
  add_to_year p years =
      let year = to_text p.period_year in
      put year (with_pay p (total_or_new year (get years year))) years

  unfoldable pub years_from : List (String × YearTotal) → List Payslip → List (String × YearTotal)
  unfolding add_to_year
  years_from years [] = years
  years_from years (p ∷ ps) = years_from (add_to_year p years) ps

  abbrev pub by_year : YearTotal → YearTotal → ℤ
  by_year a b = number a.year -ℤ number b.year

  unfoldable pub yearly_data : JsSet → List Payslip → List YearTotal
  unfolding counted sort years_from
  yearly_data ignored ps =
      sort by_year (
        map (λ (e : String × YearTotal). e.1)
          (years_from [] (sort year_order (counted ignored ps))))
