-- ===== src/Payslips/Tests.antt =====
-- The theorems on payslips at concrete ones.
use mathlib.Core.List.{Mem, Perm}
use cogni_cash.Base.{
  ℕ, String, ◌==◌, ◌≡◌, refl, ◌↔◌, true, false, none, some, [], ◌∷◌, filter, nat_eq, if◌then◌else◌,
  arith,
}
use cogni_cash.Base.Int.{ℤ, pos, ◌+ℤ◌, abs, sum_of}
use cogni_cash.Base.Sort.{IsSorted}
use cogni_cash.Base.Platform.{plain_platform}
use cogni_cash.Types.{Payslip}
use cogni_cash.Payslips.{
  View, initial_view, adj_net, has_filter, period_totals, keeps, payslip_order, filtered_payslips,
  get_adjusted_netto, bonuses_of,
}
use cogni_cash.Payslips.Listing.{Fits, filtered_payslips-IsSorted}
use cogni_cash.Payslips.Chart.{yearly_data, counted, by_year}
use cogni_cash.Payslips.Years.{net_column, in_year, in_payslip, yearly_data-sums}
use cogni_cash.Payslips.Sums.{sums_over, period_totals_lem}
use cogni_cash.Payslips.Adjusted.{excluded_amount, get_adjusted_netto_lem}

abbrev digits : ℕ → String
digits n = if nat_eq n 2024 then "2024" else if nat_eq n 3 then "3" else "12"

abbrev net_only : ℤ → ℤ → ℤ → ℤ
net_only net base gross = net

abbrev march : Payslip
march = record {
  id = "p1";
  original_file_name = "march.pdf";
  period_month_num = 3;
  period_year = 2024;
  employer_name = "ACME";
  tax_class = "1";
  tax_id = "";
  currency = "EUR";
  gross_pay = pos 500000;
  base_gross_pay = pos 500000;
  net_pay = pos 300000;
  base_net_pay = pos 300000;
  payout_amount = pos 290000;
  base_payout_amount = pos 290000;
  custom_deductions = pos 10000;
  bonuses =
      some (record { description = "Spot"; amount = pos 50000; base_amount = pos 50000 } ∷ []);
  created_at = "2024-04-01";
}

abbrev december : Payslip
december = record march { id = "p2"; period_month_num = 12; net_pay = pos 310000; bonuses = none }

abbrev filtering : View
filtering = record initial_view {
  applied_start_period = "2024-02";
  applied_employer = "ACME";
  excluded_bonuses = "Spot" ∷ [];
  sort_key = adj_net;
}

filtered_payslips-IsSorted_example :
    ((p : Payslip)
      → Mem p (filtered_payslips net_only plain_platform digits filtering (march ∷ december ∷ []))
        ↔ (Mem p (march ∷ december ∷ []) × Fits digits filtering p))
    × Perm
        (filtered_payslips net_only plain_platform digits filtering (march ∷ december ∷ []))
        (filter (keeps digits filtering) (march ∷ december ∷ []))
    × IsSorted
        (payslip_order net_only plain_platform filtering)
        (filtered_payslips net_only plain_platform digits filtering (march ∷ december ∷ []))
filtered_payslips-IsSorted_example =
    filtered_payslips-IsSorted net_only plain_platform digits filtering (march ∷ december ∷ [])

filtering-has_filter : has_filter filtering ≡ true
unfolding has_filter
filtering-has_filter = refl

period_totals_lem_example :
    period_totals filtering none
      (filtered_payslips net_only plain_platform digits filtering (march ∷ december ∷ []))
    ≡ sums_over (filter (keeps digits filtering) (march ∷ december ∷ []))
period_totals_lem_example =
    period_totals_lem net_only plain_platform digits filtering none (march ∷ december ∷ [])
      filtering-has_filter

get_adjusted_netto_lem_example :
    get_adjusted_netto net_only march ("Spot" ∷ []) true false
      +ℤ sum_of (excluded_amount ("Spot" ∷ [])) (bonuses_of march)
    ≡ march.net_pay +ℤ abs march.custom_deductions
get_adjusted_netto_lem_example =
    get_adjusted_netto_lem net_only march ("Spot" ∷ []) true (omega arith, tt)

abbrev year_number : String → ℤ
year_number s = if s == "2024" then pos 2024 else pos 0

yearly_data-sums_example :
    (sum_of
        (in_year net_column)
        (yearly_data digits year_number ("p3" ∷ []) (march ∷ december ∷ []))
      ≡ sum_of (in_payslip net_column) (counted ("p3" ∷ []) (march ∷ december ∷ [])))
    × IsSorted
        (by_year digits year_number)
        (yearly_data digits year_number ("p3" ∷ []) (march ∷ december ∷ []))
yearly_data-sums_example =
    yearly_data-sums digits year_number net_column ("p3" ∷ []) (march ∷ december ∷ [])
