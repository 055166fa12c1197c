-- ===== src/Payslips.antt =====
-- frontend/src/pages/PayslipsPage.tsx and frontend/src/components/payslips/utils.ts: the list of
-- payslips, its totals and trends.
pub mod Adjusted
pub mod Chart
pub mod Choices
pub mod Listing
pub mod Preview
pub mod Sums
pub mod Years
mod Tests
use Prim.Native.String
use cogni_cash.Base.{
  ℕ, String, ◌==◌, Bool, true, false, not, ◌&&◌, ◌||◌, Option, none, some, List, [], ◌∷◌, ◌++◌, map,
  if◌then◌else◌, truthy, text_lt, pad_two, filter, first, length, ltb, nat_eq,
}
use cogni_cash.Base.Int.{ℤ, pos, neg, ◌+ℤ◌, ◌-ℤ◌, abs, lt_ℤ, eq_ℤ, sum_from}
use cogni_cash.Base.Collections.{JsSet, has, set_of}
use cogni_cash.Base.Sort.{SortDir, asc, desc, directed, sort}
use cogni_cash.Base.Order.{text_compare, or_else}
use cogni_cash.Base.Platform.{Platform}
use cogni_cash.Types.{Payslip, Bonus, PayslipSummary}

pub data ColKey : Type 0 where
  period employer gross net adj_net payout leasing : ColKey

pub record View : Type 0 where
  pub selected_start_period : String
  pub selected_end_period : String
  pub selected_employer : String
  pub selected_tax_class : String
  pub applied_start_period : String
  pub applied_end_period : String
  pub applied_employer : String
  pub applied_tax_class : String
  pub excluded_bonuses : JsSet
  pub exclude_leasing : Bool
  pub use_proportional_math : Bool
  pub initialized_bonuses : Bool
  pub sort_key : ColKey
  pub sort_direction : SortDir

abbrev pub initial_view : View
initial_view = record {
  selected_start_period = "All";
  selected_end_period = "All";
  selected_employer = "All";
  selected_tax_class = "All";
  applied_start_period = "All";
  applied_end_period = "All";
  applied_employer = "All";
  applied_tax_class = "All";
  excluded_bonuses = [];
  exclude_leasing = true;
  use_proportional_math = true;
  initialized_bonuses = false;
  sort_key = period;
  sort_direction = desc;
}

unfoldable pub handle_apply_filters : View → View
handle_apply_filters v = record v {
  applied_start_period = v.selected_start_period;
  applied_end_period = v.selected_end_period;
  applied_employer = v.selected_employer;
  applied_tax_class = v.selected_tax_class;
}

abbrev key_index : ColKey → ℕ
key_index period = 0
key_index employer = 1
key_index gross = 2
key_index net = 3
key_index adj_net = 4
key_index payout = 5
key_index leasing = 6

abbrev flip_direction : SortDir → SortDir
flip_direction asc = desc
flip_direction desc = asc

unfoldable pub handle_sort : ColKey → View → View
handle_sort key v = record v {
  sort_key = key;
  sort_direction =
      if nat_eq (key_index v.sort_key) (key_index key)
      then flip_direction v.sort_direction
      else asc;
}

-- `handleFiles`: one file is imported on its own, several as a batch, none not at all.
pub data Upload : Type 0 where
  nothing : Upload
  single : String → Bool → Upload
  batch : List String → Upload

unfoldable pub handle_files : Bool → List String → Upload
handle_files use_ai [] = nothing
handle_files use_ai (file ∷ []) = single file use_ai
handle_files use_ai (file ∷ other ∷ files) = batch (file ∷ other ∷ files)

abbrev pub bonuses_of : Payslip → List Bonus
bonuses_of p = elim p.bonuses [ none ↦ [] | some bs ↦ bs ]

abbrev all_descriptions : List Payslip → List String
all_descriptions [] = []
all_descriptions (p ∷ ps) = map (λ (b : Bonus). b.description) (bonuses_of p) ++ all_descriptions ps

unfoldable pub unique_bonuses : List Payslip → List String
unfolding set_of sort
unique_bonuses all_payslips = sort text_compare (set_of (all_descriptions all_payslips))

-- The effect that excludes every bonus once the payslips are there.
unfoldable pub initialize_bonuses : List Payslip → View → View
unfolding unique_bonuses set_of
initialize_bonuses all_payslips v =
    if ltb 0 (length all_payslips)
      && (not v.initialized_bonuses && ltb 0 (length (unique_bonuses all_payslips)))
    then record v {
      excluded_bonuses = set_of (unique_bonuses all_payslips);
      initialized_bonuses = true;
    }
    else v

unfoldable pub has_filter : View → Bool
has_filter v =
    not (v.applied_start_period == "All")
    || not (v.applied_end_period == "All")
    || not (v.applied_employer == "All")
    || not (v.applied_tax_class == "All")

-- The bonuses that are left out of an adjusted net pay.
unfoldable pub excluded_bonus_total : JsSet → Payslip → ℤ
unfolding sum_from
excluded_bonus_total excluded p =
    sum_from (λ (b : Bonus). if has excluded b.description then b.amount else pos 0) (pos 0)
      (bonuses_of p)

pub record Totals : Type 0 where
  pub gross : ℤ
  pub net : ℤ
  pub payout : ℤ
  pub bonuses : ℤ

unfoldable pub add_payslip : Totals → Payslip → Totals
unfolding sum_from
add_payslip acc p = record {
  gross = acc.gross +ℤ p.gross_pay;
  net = acc.net +ℤ p.net_pay;
  payout = acc.payout +ℤ p.payout_amount;
  bonuses = acc.bonuses +ℤ sum_from (λ (b : Bonus). b.amount) (pos 0) (bonuses_of p);
}

unfoldable pub totals_from : Totals → List Payslip → Totals
totals_from acc [] = acc
totals_from acc (p ∷ ps) = totals_from (add_payslip acc p) ps

abbrev pub no_totals : Totals
no_totals = record { gross = pos 0; net = pos 0; payout = pos 0; bonuses = pos 0 }

abbrev of_summary : PayslipSummary → Totals
of_summary s = record {
  gross = s.total_gross;
  net = s.total_net;
  payout = s.total_payout;
  bonuses = s.total_bonuses;
}

-- The figures above the list: of the summary while nothing is filtered, else of the shown payslips.
unfoldable pub period_totals : View → Option PayslipSummary → List Payslip → Totals
unfolding has_filter
period_totals v none shown = totals_from no_totals shown
period_totals v (some summary) shown =
    if not (has_filter v) then of_summary summary else totals_from no_totals shown

-- By period, the latest first.
abbrev pub latest_first : Payslip → Payslip → ℤ
latest_first a b =
    or_else (pos b.period_year -ℤ pos a.period_year)
      (pos b.period_month_num -ℤ pos a.period_month_num)

unfoldable pub latest_payslips : List Payslip → List Payslip
unfolding sort
latest_payslips shown = sort latest_first shown

-- `String(n)` of a month, and `net * (base / gross)` on doubles in the unit of the amounts, are the
-- JavaScript engine's.
module _ (to_text : ℕ → String) where
  unfoldable pub format_year_month : ℕ → ℕ → String
  format_year_month year month =
      String.◌++◌ (to_text year) (String.◌++◌ "-" (pad_two (to_text month)))

  -- The test of a payslip against the applied filters.
  unfoldable pub keeps : View → Payslip → Bool
  unfolding format_year_month
  keeps v p =
      let month = format_year_month p.period_year p.period_month_num in
      if not (v.applied_start_period == "All") && text_lt month v.applied_start_period
      then false
      else if not (v.applied_end_period == "All") && text_lt v.applied_end_period month
      then false
      else if not (v.applied_employer == "All") && not (p.employer_name == v.applied_employer)
      then false
      else if not (v.applied_tax_class == "All") && not (p.tax_class == v.applied_tax_class)
      then false
      else true

module _ (scale : ℤ → ℤ → ℤ → ℤ) where
  abbrev without_bonuses : Payslip → ℤ → Bool → ℤ
  without_bonuses p total use_proportional =
      if lt_ℤ (pos 0) total
      then (if use_proportional && lt_ℤ (pos 0) p.gross_pay
          then scale p.net_pay (p.gross_pay -ℤ total) p.gross_pay
          else p.net_pay -ℤ total)
      else p.net_pay

  unfoldable pub get_adjusted_netto : Payslip → JsSet → Bool → Bool → ℤ
  get_adjusted_netto p excluded exclude_leasing use_proportional =
      let adjusted = without_bonuses p (excluded_bonus_total excluded p) use_proportional in
      if exclude_leasing && not (eq_ℤ p.custom_deductions (pos 0))
      then adjusted +ℤ abs p.custom_deductions
      else adjusted

  abbrev pub view_netto : View → Payslip → ℤ
  view_netto v p = get_adjusted_netto p v.excluded_bonuses v.exclude_leasing v.use_proportional_math

  module _ (platform : Platform) where
    open platform use {locale_compare}

    abbrev pub compare_on : View → ColKey → Payslip → Payslip → ℤ
    compare_on v period a b =
        or_else (pos a.period_year -ℤ pos b.period_year)
          (pos a.period_month_num -ℤ pos b.period_month_num)
    compare_on v employer a b = locale_compare a.employer_name b.employer_name
    compare_on v gross a b = a.gross_pay -ℤ b.gross_pay
    compare_on v net a b = a.net_pay -ℤ b.net_pay
    compare_on v adj_net a b = view_netto v a -ℤ view_netto v b
    compare_on v payout a b = a.payout_amount -ℤ b.payout_amount
    compare_on v leasing a b = a.custom_deductions -ℤ b.custom_deductions

    abbrev pub payslip_order : View → Payslip → Payslip → ℤ
    payslip_order v a b = directed v.sort_direction (compare_on v v.sort_key a b)

    unfoldable pub filtered_payslips : (ℕ → String) → View → List Payslip → List Payslip
    unfolding sort keeps
    filtered_payslips to_text v payslips =
        sort (payslip_order v) (filter (keeps to_text v) payslips)
