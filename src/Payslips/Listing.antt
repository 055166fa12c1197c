-- ===== src/Payslips/Listing.antt =====
-- Which payslips are listed, and in which order.
use mathlib.Core.List.{Mem, Perm}
use mathlib.Core.List.Perm
use cogni_cash.Base.{
  ℕ, String, ◌==◌, eq_iff, ◌≡◌, ◌≢◌, ◌↔◌, Bool, true, false, not, ◌&&◌, List, if◌then◌else◌,
  text_lt, filter, arith,
}
use cogni_cash.Base.Int.{ℤ, pos}
use cogni_cash.Base.Sort.{sort-perm, sort-IsSorted, IsSorted, IsConsistent, directed-IsConsistent}
use cogni_cash.Base.Order.{or_else-IsConsistent, amount_compare-IsConsistent, on_key-IsConsistent}
use cogni_cash.Base.Platform.{Platform}
use cogni_cash.Base.Members.{mem-filter}
use cogni_cash.Types.{Payslip}
use cogni_cash.Payslips.{
  View, ColKey, period, employer, gross, net, adj_net, payout, leasing, format_year_month, keeps,
  view_netto, compare_on, payslip_order, filtered_payslips,
}

-- What a payslip has to meet under the applied filters.
pub record Fits (to_text : ℕ → String) (v : View) (p : Payslip) : Type 0 where
  pub from_start :
      v.applied_start_period ≢ "All"
      → text_lt (format_year_month to_text p.period_year p.period_month_num) v.applied_start_period
        ≡ false
  pub to_end :
      v.applied_end_period ≢ "All"
      → text_lt v.applied_end_period (format_year_month to_text p.period_year p.period_month_num)
        ≡ false
  pub of_employer : v.applied_employer ≢ "All" → p.employer_name ≡ v.applied_employer
  pub of_tax_class : v.applied_tax_class ≢ "All" → p.tax_class ≡ v.applied_tax_class

-- A test that is only made where a choice is not "All".
guarded_iff : (s : String) (b : Bool) → ((not (s == "All") && b) ≡ false) ↔ (s ≢ "All" → b ≡ false)
guarded_iff s true = ground (arith, eq_iff s "All")
guarded_iff s false = ground arith

chosen_iff : (s t : String) → ((not (s == "All") && not (t == s)) ≡ false) ↔ (s ≢ "All" → t ≡ s)
chosen_iff s t = ground (arith, eq_iff s "All", eq_iff t s)

none_iff :
    (a b c d : Bool)
    → ((if a then false else if b then false else if c then false else if d then false else true)
        ≡ true)
      ↔ ((a ≡ false) × (b ≡ false) × (c ≡ false) × (d ≡ false))
none_iff a b c d = ground arith

module _ (to_text : ℕ → String) (v : View) (p : Payslip) where
  keeps_iff : (keeps to_text v p ≡ true) ↔ Fits to_text v p
  unfolding keeps
  keeps_iff =
      let month = format_year_month to_text p.period_year p.period_month_num in
      let start = guarded_iff v.applied_start_period (text_lt month v.applied_start_period) in
      let end_ = guarded_iff v.applied_end_period (text_lt v.applied_end_period month) in
      let of_employer = chosen_iff v.applied_employer p.employer_name in
      let of_class = chosen_iff v.applied_tax_class p.tax_class in
      let all = none_iff _ _ _ _ in
      (
        λ h.
            let (a, b, c, d) = all.0 h in
            record {
              from_start = start.0 a;
              to_end = end_.0 b;
              of_employer = of_employer.0 c;
              of_tax_class = of_class.0 d;
            },
        λ f. all.1 (
          start.1 f.from_start,
          end_.1 f.to_end,
          of_employer.1 f.of_employer,
          of_class.1 f.of_tax_class,
        ),
      )

module _ (scale : ℤ → ℤ → ℤ → ℤ) (platform : Platform) (to_text : ℕ → String) (v : View) where
  compare_on-IsConsistent : (key : ColKey) → IsConsistent (compare_on scale platform v key)
  compare_on-IsConsistent period =
      or_else-IsConsistent _ _ (amount_compare-IsConsistent (λ p. pos p.period_year))
        (amount_compare-IsConsistent (λ p. pos p.period_month_num))
  compare_on-IsConsistent employer = on_key-IsConsistent _ (λ p. p.employer_name) platform.collation
  compare_on-IsConsistent gross = amount_compare-IsConsistent (λ p. p.gross_pay)
  compare_on-IsConsistent net = amount_compare-IsConsistent (λ p. p.net_pay)
  compare_on-IsConsistent adj_net = amount_compare-IsConsistent (view_netto scale v)
  compare_on-IsConsistent payout = amount_compare-IsConsistent (λ p. p.payout_amount)
  compare_on-IsConsistent leasing = amount_compare-IsConsistent (λ p. p.custom_deductions)

  -- A payslip is listed exactly if it was fetched and fits the applied filters; the list has each
  -- as often as it was fetched and stands in the chosen order.
  pub filtered_payslips-IsSorted :
      (payslips : List Payslip)
      → ((p : Payslip)
          → Mem p (filtered_payslips scale platform to_text v payslips)
            ↔ (Mem p payslips × Fits to_text v p))
        × Perm
            (filtered_payslips scale platform to_text v payslips)
            (filter (keeps to_text v) payslips)
        × IsSorted
            (payslip_order scale platform v)
            (filtered_payslips scale platform to_text v payslips)
  unfolding filtered_payslips
  filtered_payslips-IsSorted payslips =
      let order = payslip_order scale platform v in
      let perm = sort-perm order (filter (keeps to_text v) payslips) in
      (
        λ p.
            let member = mem-filter (keeps to_text v) p payslips in
            let fits = keeps_iff to_text v p in
            (
              λ m. let k = member.0 ((Perm.mem_iff perm).0 m) in (k.0, fits.0 k.1),
              λ k. (Perm.mem_iff perm).1 (member.1 (k.0, fits.1 k.1)),
            ),
        perm,
        sort-IsSorted order
            (directed-IsConsistent _ (compare_on-IsConsistent v.sort_key) v.sort_direction)
            (filter (keeps to_text v) payslips),
      )
