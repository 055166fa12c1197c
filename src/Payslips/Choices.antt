-- ===== src/Payslips/Choices.antt =====
-- frontend/src/pages/PayslipsPage.tsx: the choices of the filters, the changes against the month
-- before, the columns of the table and the preview.
use cogni_cash.Base.{ℕ, String, Option, none, some, List, ◌∷◌, map, filter, if◌then◌else◌, truthy}
use cogni_cash.Base.Int.{ℤ, pos, lt_ℤ}
use cogni_cash.Base.Collections.{set_of}
use cogni_cash.Base.Sort.{sort}
use cogni_cash.Base.Order.{text_compare}
use cogni_cash.Base.Platform.{Platform}
use cogni_cash.Types.{Payslip, PayslipSummary}
use cogni_cash.Payslips.{View, has_filter, format_year_month, view_netto}

-- The text of each payslip, once, without those that are empty.
abbrev filled : (Payslip → String) → List Payslip → List String
filled f ps = set_of (filter truthy (map f ps))

unfoldable pub unique_periods : Platform → (ℕ → String) → List Payslip → List String
unfolding sort set_of format_year_month
unique_periods platform to_text all_payslips =
    sort (λ a b. platform.locale_compare b a)
      (set_of (
        map (λ (p : Payslip). format_year_month to_text p.period_year p.period_month_num)
          all_payslips))

unfoldable pub unique_employers : List Payslip → List String
unfolding sort set_of
unique_employers all_payslips =
    sort text_compare (filled (λ (p : Payslip). p.employer_name) all_payslips)

unfoldable pub unique_tax_classes : List Payslip → List String
unfolding sort set_of
unique_tax_classes all_payslips =
    sort text_compare (filled (λ (p : Payslip). p.tax_class) all_payslips)

-- The percentage on doubles, in the unit of the summary's trend, and the product of an adjusted net
-- pay are the JavaScript engine's.
module _ (percent : ℤ → ℤ → ℤ) (scale : ℤ → ℤ → ℤ → ℤ) where
  -- From the payslips with the latest one first.
  abbrev change : (Payslip → ℤ) → List Payslip → ℤ
  change f (latest ∷ previous ∷ rest) =
      if lt_ℤ (pos 0) (f previous) then percent (f latest) (f previous) else pos 0
  change f ps = pos 0

  abbrev change_or : Option PayslipSummary → List Payslip → ℤ
  change_or none latest = change (λ (p : Payslip). p.net_pay) latest
  change_or (some summary) latest = summary.net_pay_trend

  unfoldable pub total_percent_change : View → Option PayslipSummary → List Payslip → ℤ
  unfolding has_filter
  total_percent_change v summary latest = change_or (if has_filter v then none else summary) latest

  unfoldable pub adj_percent_change : View → List Payslip → ℤ
  adj_percent_change v latest = change (view_netto scale v) latest
